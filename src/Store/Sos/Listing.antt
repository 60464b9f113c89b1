-- ===== src/Store/Sos/Listing.antt =====
-- store/sos.py: `listdir`, `remove`, `copy`, `move`, `update` and `stat`. `listdir` selects with
-- SQLite's LIKE, in which `%` and `_` of the path are wildcards and ASCII case is ignored. The
-- recursion of `remove` over a directory takes fuel; running out of it is Python's RecursionError.
use data_py_os.Base.{
  ℕ, zero, suc, ◌+◌, Bool, true, false, not, ◌&&◌, ◌||◌, Option, none, some, List, [], ◌∷◌, ◌++◌,
  leb, if◌then◌else◌, nat_beq,
}
use data_py_os.Base.Eq.{◌==◌, text_eq, Text, chars}
use data_py_os.Base.Order.{sort_texts}
use data_py_os.Base.Dict.{Dict, lookup, insert}
use data_py_os.Base.Lists.{length, is_nil}
use data_py_os.Store.Lru
use data_py_os.Store.Paths.{slash}
use data_py_os.Store.Sos.Types.{
  Host, Content, Alias, Sos, file_not_found, not_empty, recursion_error, attribute_error, to_bytes,
}
use data_py_os.Store.Sos.Objects.{Draft, get, store}
use data_py_os.Store.Sos.Aliases.{resolve, alias, unalias}
use data_py_os.Store.Sos.Files.{Action, ◌>>=◌, ◌>>◌, pure, raise, run, modify, or_raise, is_dir}

abbrev fold_case : ℕ → ℕ
fold_case c = if leb b'A' c && leb c b'Z' then c + 32 else c

-- text LIKE pattern
unfoldable pub like : Text → Text → Bool
like [] [] = true
like [] (c ∷ t) = false
like (p ∷ ps) [] = nat_beq p b'%' && like ps []
like (p ∷ ps) (c ∷ t) =
    let skip = like ps (c ∷ t) || like (p ∷ ps) t in
    let one = (nat_beq p b'_' || nat_beq (fold_case p) (fold_case c)) && like ps t in
    if nat_beq p b'%' then skip else one

abbrev pub drop : ℕ → Text → Text
drop zero s = s
drop (suc n) [] = []
drop (suc n) (c ∷ s) = drop n s

-- the names behind `prefix` of the selected paths that are not empty
unfoldable pub names_under : Text → Dict Text Alias → List Text
unfolding like
names_under prefix [] = []
names_under prefix ((p, a) ∷ rows) =
    let rest = names_under prefix rows in
    let name = drop (length prefix) p in
    if like (prefix ++ b'%' ∷ []) p
      && not (like (prefix ++ b'%' ∷ slash ∷ b'%' ∷ []) p)
      && not (name == [])
    then name ∷ rest
    else rest

-- path.endswith("/")
abbrev pub ends_in_slash : Text → Bool
ends_in_slash [] = false
ends_in_slash (c ∷ []) = nat_beq c slash
ends_in_slash (c ∷ d ∷ s) = ends_in_slash (d ∷ s)

unfoldable pub listdir : Text → Sos → List Text
unfolding names_under
listdir path s =
    sort_texts (names_under (if ends_in_slash path then path else path ++ slash ∷ []) s.aliases)

-- the loop over the children, with the recursive call as an argument
unfoldable pub remove_all : (Text → Action (Unit {0})) → Text → List Text → Action (Unit {0})
remove_all rec path [] = pure tt
remove_all rec path (child ∷ rest) = do rec (path ++ slash ∷ child); remove_all rec path rest

unfoldable pub remove : ℕ → Text → Bool → Action (Unit {0})
remove zero path recursive = raise recursion_error
remove (suc fuel) path recursive = do
  dir ← run (is_dir path)
  children ← run (λ s. (if dir then listdir path s else [], s))
  if not (is_nil children) && not recursive
      then raise not_empty
      else (do remove_all (λ p. remove fuel p true) path children; modify (unalias path))

-- the second half of `copy`, once the source is resolved
unfoldable pub copy_to : Text → Option Text → Action (Unit {0})
copy_to dst none = raise file_not_found
copy_to dst (some oid) = modify (alias dst oid false)

unfoldable pub copy : Text → Text → Action (Unit {0})
unfolding copy_to
copy src dst = do found ← run (resolve src); copy_to dst found

unfoldable pub move : Text → Text → Action (Unit {0})
move src dst = do copy src dst; modify (unalias src)

-- `UPDATE aliases SET oid=? WHERE path=?`, which changes nothing if there is no such path
abbrev pub update_alias : Text → Text → Option Alias → Dict Text Alias → Dict Text Alias
update_alias path oid none aliases = aliases
update_alias path oid (some row) aliases =
    insert path (record { oid = oid; is_dir = row.is_dir }) aliases

-- new_oid != old_oid
abbrev pub changed : Option Text → Text → Bool
changed none new = true
changed (some old) new = not (new == old)

module _ ⦃h : Host⦄ where
  -- the arguments of `store` in `update`, those that its caller may give at their defaults
  abbrev pub text_draft : ℕ → Content → Option Text → Draft
  text_draft now content old_oid = record {
    content = to_bytes content;
    kind = chars "text";
    meta = [];
    tags = [];
    links = [];
    parent_oid = old_oid;
    now = now;
  }

  -- `update` with the other arguments of `store` at their defaults.
  unfoldable pub update : ℕ → Text → Content → Sos → Text × Sos
  update now path content s =
      let (old_oid, s1) = resolve path s in
      let (oid, s2) = store (text_draft now content old_oid) s1 in
      let s3 = record s2 {
        aliases = update_alias path oid (lookup path s2.aliases) s2.aliases;
        path_cache = Lru.set path oid s2.path_cache;
      } in
      (oid, if changed old_oid oid then s3 else s2)

pub record Stat : Type 0 where
  pub oid : Text
  pub kind : Text
  pub size : ℕ
  pub version : ℕ
  pub tags : List Text
  pub mtime : ℕ
  pub links : ℕ

unfoldable pub stat : Text → Action Stat
stat path = do
  oid ← or_raise (← run (resolve path)) file_not_found
  obj ← or_raise (← run (get oid)) attribute_error
  pure (record {
    oid = obj.oid;
    kind = obj.kind;
    size = obj.size;
    version = obj.version;
    tags = obj.tags;
    mtime = obj.created_at;
    links = length obj.links;
  })
