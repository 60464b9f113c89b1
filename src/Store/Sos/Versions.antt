-- ===== src/Store/Sos/Versions.antt =====
-- store/sos.py: the version chain after a write of the content that a path already has.
use data_py_os.Base.{
  ℕ, zero, suc, ◌≡◌, refl, ap, ◌∙◌, inl, inr, true, false, Option, none, some, List, [], ◌||◌,
  arith, Option-cases,
}
use data_py_os.Base.Eq.{◌==◌, text_eq, text_beq_iff, Text, chars}
use data_py_os.Base.Dict.{Dict, lookup}
use data_py_os.Store.Paths.{parent_of}
use data_py_os.Store.Lru
use data_py_os.Store.Lru.{LruDict}
use data_py_os.Store.Lru.Order.{entry}
use data_py_os.Store.Lru.Laws.{get_lem, entry-set_self}
use data_py_os.Store.Sos.Types.{Host, Content, SObject, Sos, to_bytes, oid_of}
use data_py_os.Store.Sos.Objects.{
  get, fetch, Draft, store, put_object, build, get_parent, next_version,
}
use data_py_os.Store.Sos.Aliases.{resolve, find_path, alias}
use data_py_os.Store.Sos.Files.{write, file_draft}
use data_py_os.Store.Sos.History.{walk, visit, history}
use data_py_os.Store.Sos.Coherent.{Coherent, target, resolve-Reads}
use data_py_os.Store.Sos.RoundTrip.{write-Writes}
use data_py_os.Store.Sos.Storing.{NoCollision}
use data_py_os.Store.Sos.Writing.{EmptyAlone}

obj_cache-find_path :
    (path : Text) (r : Option Text × LruDict Text Text) (s : Sos)
    → (find_path path r s).1.obj_cache ≡ s.obj_cache
unfolding find_path
obj_cache-find_path path (some oid, c) s = refl
obj_cache-find_path path (none, c) s = elim (Option-cases (lookup path s.aliases)) [
  | inl e ↦ rw e
  | inr (a, e) ↦ rw e
]

-- `resolve` does not touch the cache of objects.
pub obj_cache-resolve : (path : Text) (s : Sos) → (resolve path s).1.obj_cache ≡ s.obj_cache
unfolding resolve
obj_cache-resolve path s = obj_cache-find_path path (Lru.get path s.path_cache) s

-- A cached object is what `get` returns, and it stays cached.
get_cached :
    (oid : Text) (obj : SObject) (s : Sos)
    → entry oid s.obj_cache ≡ some obj
    → ((get oid s).0 ≡ some obj) × (entry oid (get oid s).1.obj_cache ≡ some obj)
unfolding get fetch
get_cached oid obj s e =
    let (answer, same) = get_lem oid s.obj_cache in
    let hit = answer ∙ e in rw (hit, fetch) (refl, ap (lookup oid) same ∙ e)

-- An object that is its own parent is walked for ever.
walk_self :
    (fuel : ℕ) (oid : Text) (obj : SObject) (s : Sos)
    → entry oid s.obj_cache ≡ some obj
    → obj.parent_oid ≡ some oid
    → (walk fuel (some oid) s).0 ≡ none
unfolding walk
walk_self zero oid obj s e self = refl
walk_self (suc fuel) oid obj s e self =
    let (found, stays) = get_cached oid obj s e in
    rw (found, visit) (rw self (rw (walk_self fuel oid obj (get oid s).1 stays self)))

module _ ⦃h : Host⦄ where
  entry-store :
      (d : Draft) (s : Sos)
      → entry (oid_of d.content) (store d s).1.obj_cache
        ≡ some (build (oid_of d.content) d (next_version (get_parent d.parent_oid s).0))
  unfolding store put_object
  entry-store d s = entry-set_self (oid_of d.content) _ (get_parent d.parent_oid s).1.obj_cache

  -- on a flat path no directory is made
  pub write_flat :
      (now : ℕ) (path : Text) (c : Content) (kind : Text) (meta : Dict Text Text) (tags : List Text)
      (s : Sos)
      → parent_of path ≡ path
      → (write now path c kind meta tags s).1 ≡ (
          let d = file_draft now path c kind meta tags (resolve path s).0 in
          alias path (store d (resolve path s).1).0 false (store d (resolve path s).1).1)
  unfolding write
  write_flat now path c kind meta tags s flat =
      let same : (parent_of path == [] || parent_of path == path) ≡ true =
        ground (arith, flat, text_beq_iff (parent_of path) path) in
      rw same

  -- the object that is cached after the same content is written again
  rewritten :
      (now : ℕ) (path : Text) (c : Content) (kind : Text) (meta : Dict Text Text) (tags : List Text)
      (s : Sos)
      → Coherent s
      → parent_of path ≡ path
      → target path s ≡ some (oid_of (to_bytes c))
      → (obj : SObject) × (entry
            (oid_of (to_bytes c))
            (write now path c kind meta tags s).1.obj_cache
          ≡ some obj)
        × (obj.parent_oid ≡ some (oid_of (to_bytes c)))
  rewritten now path c kind meta tags s k flat at =
      let d = file_draft now path c kind meta tags (resolve path s).0 in
      let s1 = (resolve path s).1 in
      (
        build (oid_of d.content) d (next_version (get_parent d.parent_oid s1).0),
        rw (write_flat now path c kind meta tags s flat) (unfold alias in entry-store d s1),
        (resolve-Reads path s k).0 ∙ at,
      )

  -- In a coherent store, where the content collides with no other and only the empty content has its
  -- OID: writing to a flat path, with a kind that is not a directory, the content that it already stands for makes the stored object its own
  -- parent: no amount of steps ends the loop of `history` afterwards.
  pub history_endless :
      (alone : EmptyAlone) (fuel now : ℕ) (path : Text) (c : Content) (kind : Text)
      (meta : Dict Text Text) (tags : List Text) (s : Sos)
      → Coherent s
      → parent_of path ≡ path
      → target path s ≡ some (oid_of (to_bytes c))
      → NoCollision (to_bytes c) s
      → (kind == chars "dir") ≡ false
      → (history fuel path (write now path c kind meta tags s).1).0 ≡ none
  unfolding history
  history_endless alone fuel now path c kind meta tags s k flat at free file =
      let oid = oid_of (to_bytes c) in
      let w = write-Writes alone now path c kind meta tags s k free file in
      let t = (write now path c kind meta tags s).1 in
      let (obj, is, self) = rewritten now path c kind meta tags s k flat at in
      rw ((resolve-Reads path t w.coherent).0 ∙ w.at) (
        walk_self fuel oid obj (resolve path t).1 (ap (entry oid) (obj_cache-resolve path t) ∙ is)
          self)
