-- ===== src/Store/Sos/Files.antt =====
-- store/sos.py: reading and writing through paths. Each method returns its result, or the exception
-- that it raises, and the state that it leaves.
use data_py_os.Base.{
  ℕ, Bool, true, false, not, ◌||◌, Option, none, some, List, [], ◌∷◌, ◌++◌, if◌then◌else◌,
}
use data_py_os.Base.Eq.{◌==◌, text_eq, Text, chars}
use data_py_os.Base.Result.{Result, ok, err}
use data_py_os.Base.Dict.{Dict, insert, has}
use data_py_os.Store.Paths.{slash, parent_of, name_of, parts_of}
use data_py_os.Store.Sos.Types.{
  Host, Content, SObject, Sos, Error, file_not_found, is_a_directory, file_exists, to_bytes,
}
use data_py_os.Store.Sos.Objects.{Draft, get, store}
use data_py_os.Store.Sos.Aliases.{resolve, alias, exists}

-- a method of the store
abbrev pub Action : Type 0 → Type 0
Action A = Sos → Result Error A × Sos

infixl 5 ◌>>=◌ ◌>>◌
abbrev pub ◌>>=◌ : {Value Next : Type 0} → Action Value → (Value → Action Next) → Action Next
◌>>=◌ m f s = let (r, s') = m s in elim r [ ok a ↦ f a s' | err e ↦ (err e, s') ]

abbrev pub ◌>>◌ : {First Next : Type 0} → Action First → Action Next → Action Next
first >> next = first >>= λ _. next

abbrev pub pure : {A : Type 0} → A → Action A
pure a s = (ok a, s)

abbrev pub raise : {A : Type 0} → Error → Action A
raise e s = (err e, s)

-- a method that raises nothing
abbrev pub run : {A : Type 0} → (Sos → A × Sos) → Action A
run f s = let (a, s') = f s in (ok a, s')

abbrev pub modify : (Sos → Sos) → Action (Unit {0})
modify f s = (ok tt, f s)

abbrev pub or_raise : {A : Type 0} → Option A → Error → Action A
or_raise none e = raise e
or_raise (some a) e = pure a

-- the object that a resolved path stands for
unfoldable pub get_at : Option Text → Sos → Option SObject × Sos
get_at none s = (none, s)
get_at (some oid) s = get oid s

-- resolve, then get
unfoldable pub object_at : Text → Sos → Option SObject × Sos
unfolding get_at
object_at path s = let (oid, s') = resolve path s in get_at oid s'

abbrev pub of_kind : Text → Option SObject → Bool
of_kind kind none = false
of_kind kind (some obj) = obj.kind == kind

unfoldable pub is_dir : Text → Sos → Bool × Sos
is_dir path s = let (obj, s') = object_at path s in (of_kind (chars "dir") obj, s')

abbrev pub of_file : Option SObject → Bool
of_file none = false
of_file (some obj) = not (obj.kind == chars "dir")

unfoldable pub is_file : Text → Sos → Bool × Sos
is_file path s = let (obj, s') = object_at path s in (of_file obj, s')

-- not parent or self.exists(parent)
unfoldable pub parent_exists : Text → Sos → Bool × Sos
parent_exists [] s = (true, s)
parent_exists (c ∷ parent) s = exists (c ∷ parent) s

-- the arguments of `store` in `_make_dir`
abbrev pub dir_draft : ℕ → Text → Draft
dir_draft now path = record {
  content = [];
  kind = chars "dir";
  meta = (chars "name", name_of path) ∷ (chars "path", path) ∷ [];
  tags = [];
  links = [];
  parent_oid = none;
  now = now;
}

module _ ⦃h : Host⦄ where
  -- A path that resolves to no object raises the same exception as one that does not resolve.
  unfoldable pub read : Text → Action Text
  read path = do
    obj ← or_raise (← run (object_at path)) file_not_found
    if obj.kind == chars "dir" then raise is_a_directory else pure (h.decode obj.content)

  unfoldable pub make_dir : ℕ → Text → Sos → Sos
  make_dir now path s = let (oid, s') = store (dir_draft now path) s in alias path oid true s'

  -- the loop of `mkdir(path, parents=True)`, below the directory `cur`
  unfoldable pub make_dirs : ℕ → Text → List Text → Sos → Sos
  make_dirs now cur [] s = s
  make_dirs now cur (p ∷ ps) s =
      let cur' = cur ++ slash ∷ p in
      let (there, s') = exists cur' s in
      make_dirs now cur' ps (if there then s' else make_dir now cur' s')

  unfoldable pub mkdir : ℕ → Text → Bool → Action (Unit {0})
  mkdir now path parents = do
    there ← run (exists path)
    if there
        then (do dir ← run (is_dir path); if dir then pure tt else raise file_exists)
        else if parents
        then modify (make_dirs now [] (parts_of path))
        else (do
          above ← run (parent_exists (parent_of path))
          if above then modify (make_dir now path) else raise file_not_found)

  unfoldable pub ensure_dir : ℕ → Text → Sos → Sos
  ensure_dir now path s =
      let (there, s') = exists path s in if there then s' else (mkdir now path true s').1

  -- meta.setdefault(key, value)
  abbrev pub set_default : Text → Text → Dict Text Text → Dict Text Text
  set_default key value meta = if has key meta then meta else insert key value meta

  -- the arguments of `store` in `write`
  abbrev pub file_draft :
      ℕ → Text → Content → Text → Dict Text Text → List Text → Option Text → Draft
  file_draft now path content kind meta tags old_oid = record {
    content = to_bytes content;
    kind = kind;
    meta = set_default (chars "path") path (set_default (chars "name") (name_of path) meta);
    tags = tags;
    links = [];
    parent_oid = old_oid;
    now = now;
  }

  -- The arguments of `write` after the clock are those of the source.
  unfoldable pub write : ℕ → Text → Content → Text → Dict Text Text → List Text → Sos → Text × Sos
  write now path content kind meta tags s =
      let (old_oid, s1) = resolve path s in
      let (oid, s2) = store (file_draft now path content kind meta tags old_oid) s1 in
      let s3 = alias path oid false s2 in
      let parent = parent_of path in
      (oid, if parent == [] || parent == path then s3 else ensure_dir now parent s3)
