-- ===== src/Store/Sos/Moving.antt =====
-- store/sos.py: what `remove`, `move` and `update` do to the paths.
use data_py_os.Base.{
  ℕ, suc, ◌≡◌, refl, sym, ap, ◌∙◌, Bool, false, Option, none, some, arith, if◌then◌else◌,
}
use data_py_os.Base.Eq.{◌==◌, text_eq, text_beq, text_beq_iff, Text, chars}
use data_py_os.Base.Result.{Result, ok}
use data_py_os.Base.Dict.{lookup, lookup-insert, lookup-erase}
use data_py_os.Store.Lru.Order.{entry}
use data_py_os.Store.Lru.Laws.{entry-set_self, get_lem}
use data_py_os.Store.Lru
use data_py_os.Store.Sos.Types.{Host, Content, SObject, Alias, Sos, Error, to_bytes, oid_of}
use data_py_os.Store.Sos.Objects.{store}
use data_py_os.Store.Sos.Aliases.{resolve, find_path, alias, unalias}
use data_py_os.Store.Sos.Files.{◌>>◌, is_dir, modify}
use data_py_os.Store.Sos.Listing.{
  remove, remove_all, copy, copy_to, move, update, update_alias, changed, text_draft,
}
use data_py_os.Store.Sos.Coherent.{Coherent, target, oid_in, resolve-Reads}
use data_py_os.Store.Sos.Storing.{NoCollision, store-Stores, alias-Coherent, unalias-Coherent}
use data_py_os.Store.Sos.Writing.{is_dir-Reads}

text_is_file : (chars "text" == chars "dir") ≡ false
unfolding text_beq
text_is_file = refl

oid_in-eq-none : (a : Option Alias) → oid_in a ≡ none → a ≡ none
oid_in-eq-none none e = refl
oid_in-eq-none (some row) e = absurd (cc e)

module _ ⦃h : Host⦄ where
  pub target-alias :
      (p q o : Text) (dir : Bool) (s : Sos)
      → target p (alias q o dir s) ≡ (if p == q then some o else target p s)
  unfolding alias
  target-alias p q o dir s =
      ground
        (arith, lookup-insert p q (record { oid = o; is_dir = dir }) s.aliases, text_beq_iff p q)

  pub target-unalias :
      (p q : Text) (s : Sos)
      → Coherent s
      → target p (unalias q s) ≡ (if p == q then none else target p s)
  unfolding unalias
  target-unalias p q s k = ground (arith, lookup-erase p q s.aliases k.names, text_beq_iff p q)

  -- In a coherent store, removing what is not a directory succeeds and keeps it coherent: the path is gone, every other path stands for what
  -- it stood for, and every stored object, so every version, is still there.
  pub remove_file :
      (fuel : ℕ) (path p : Text) (recursive : Bool) (s : Sos)
      → Coherent s
      → (is_dir path s).0 ≡ false
      → let (r, s') = remove (suc fuel) path recursive s in
        (r ≡ ok tt)
        × Coherent s'
        × (target p s' ≡ (if p == path then none else target p s))
        × (s'.objects ≡ s.objects)
  unfolding remove remove_all
  remove_file fuel path p recursive s k file =
      let r = is_dir-Reads path s k in
      let s1 = (is_dir path s).1 in
      let same = ap (λ d. oid_in (lookup p d)) r.tables.aliases in
      rw file (
        refl,
        unalias-Coherent path s1 r.coherent,
        target-unalias p path s1 r.coherent ∙ ap (λ z. if p == path then none else z) same,
        unfold unalias in r.tables.objects,
      )

  pub copy_lem :
      (src dst o : Text) (s : Sos)
      → (resolve src s).0 ≡ some o
      → copy src dst s ≡ (ok tt, alias dst o false (resolve src s).1)
  unfolding copy
  copy_lem src dst o s e = rw (e, copy_to)

  -- a copy that succeeds, and then the rest of the block
  then_unalias :
      (src : Text) (m : Result Error (Unit {0}) × Sos) (s : Sos)
      → m ≡ (ok tt, s)
      → ((λ _. m) >> modify (unalias src)) s ≡ (ok tt, unalias src s)
  then_unalias src m s e =
      ap (λ (z : Result Error (Unit {0}) × Sos). ((λ _. z) >> modify (unalias src)) s) e

  pub move_steps :
      (src dst o : Text) (s : Sos)
      → (resolve src s).0 ≡ some o
      → move src dst s ≡ (ok tt, unalias src (alias dst o false (resolve src s).1))
  unfolding move
  move_steps src dst o s e =
      then_unalias src (copy src dst s) (alias dst o false (resolve src s).1)
        (copy_lem src dst o s e)

  -- In a coherent store, which stays so, moving a path that resolves makes the destination stand for what the source stood for and
  -- removes the source; moved onto itself, the path is lost. No other path changes.
  pub move_lem :
      (src dst p o : Text) (s : Sos)
      → Coherent s
      → target src s ≡ some o
      → let (r, s') = move src dst s in
        (r ≡ ok tt)
        × Coherent s'
        × (target p s' ≡ (if p == src then none else if p == dst then some o else target p s))
  move_lem src dst p o s k at =
      let (answer, r) = resolve-Reads src s k in
      let s1 = (resolve src s).1 in
      let same = ap (λ d. oid_in (lookup p d)) r.tables.aliases in
      let s2 = alias dst o false s1 in
      let k2 = alias-Coherent dst o false s1 r.coherent in
      rw (move_steps src dst o s (answer ∙ at)) (
        refl,
        unalias-Coherent src s2 k2,
        target-unalias p src s2 k2
            ∙ ap (λ z. if p == src then none else z)
                (target-alias p dst o false s1 ∙ ap (λ z. if p == dst then some o else z) same),
      )

  resolve_cached :
      (path oid : Text) (s : Sos)
      → entry path s.path_cache ≡ some oid
      → (resolve path s).0 ≡ some oid
  unfolding resolve find_path
  resolve_cached path oid s e = rw ((get_lem path s.path_cache).0 ∙ e, find_path)

  -- In a coherent store, `update` of a path that does not exist, with a content that collides with
  -- no stored one, leaves the cache and the table of paths apart: the path
  -- resolves, though no alias was written.
  pub update_unknown :
      (now : ℕ) (path : Text) (c : Content) (s : Sos)
      → Coherent s
      → target path s ≡ none
      → NoCollision (to_bytes c) s
      → let s' = (update now path c s).1 in
        ((resolve path s').0 ≡ some (oid_of (to_bytes c))) × (target path s' ≡ none)
  unfolding update
  update_unknown now path c s k at free =
      let (answer, r) = resolve-Reads path s k in
      let s1 = (resolve path s).1 in
      let d = text_draft now c (resolve path s).0 in
      let free' = λ (x : SObject) (e : lookup (oid_of (to_bytes c)) s1.objects ≡ some x).
        free x (ap (lookup (oid_of (to_bytes c))) (sym r.tables.objects) ∙ e) in
      let st = store-Stores d s1 r.coherent free' (λ ne. text_is_file) in
      let s2 = (store d s1).1 in
      let oid = oid_of (to_bytes c) in
      let missing : target path s2 ≡ none =
        ap (λ z. oid_in (lookup path z)) (st.names ∙ r.tables.aliases) ∙ at in
      let unlisted = oid_in-eq-none (lookup path s2.aliases) missing in
      let always = ap (λ z. changed z oid) (answer ∙ at) in
      let cached = record s2 {
        aliases = update_alias path oid (lookup path s2.aliases) s2.aliases;
        path_cache = Lru.set path oid s2.path_cache;
      } in
      unfold store in
      rw always (
        resolve_cached path oid cached (entry-set_self path oid s2.path_cache),
        rw (unlisted, update_alias) missing,
      )
