-- ===== src/Kernel/Namespaces.antt =====
-- kernel/namespaces.py: the bindings of a namespace, and looking a path up through them. The store's own
-- `resolve` is an argument where the code calls it through the store, since `patch_sos` replaces it.
use data_py_os.Base.{
  ℕ, zero, suc, ◌+◌, Bool, true, false, not, ◌&&◌, ◌||◌, Option, none, some, List, [], ◌∷◌, ◌++◌,
  ltb, if◌then◌else◌,
}
use data_py_os.Base.Eq.{◌==◌, text_eq, Text}
use data_py_os.Base.Order.{sort_texts}
use data_py_os.Base.Result.{ok, err}
use data_py_os.Base.Lists.{length, keep, elem}
use data_py_os.Store.Paths.{slash, rstrip, starts_with}
use data_py_os.Store.Sos.Types.{Host, Sos, recursion_error, file_not_found}
use data_py_os.Store.Sos.Objects.{get}
use data_py_os.Store.Sos.Aliases
use data_py_os.Store.Sos.Files.{Action, ◌>>=◌, ◌>>◌, pure, raise, run, or_raise}
use data_py_os.Store.Sos.Listing.{drop}
use data_py_os.Store.Sos.Listing
pub mod Resolving
pub mod Patched
pub mod Binding
mod Tests

pub data BindMode : Type 0 where
  before after replace union : BindMode

-- The time of creation, which nothing reads, is left out.
pub record BindEntry : Type 0 where
  pub src : Text
  pub dst : Text
  pub mode : BindMode

-- A namespace is its bindings; a clone gets a copy of the list.
abbrev pub Namespace : Type 0
Namespace = List BindEntry

unfoldable pub bind : Text → Text → BindMode → Namespace → Namespace
bind src dst mode binds =
    keep (λ (b : BindEntry). not (b.dst == dst)) binds
    ++ record { src = src; dst = dst; mode = mode } ∷ []

unfoldable pub unbind : Text → Namespace → Bool × Namespace
unbind dst binds =
    let rest = keep (λ (b : BindEntry). not (b.dst == dst)) binds in
    (ltb (length rest) (length binds), rest)

-- `_map_path` with dir_match
unfoldable pub map_dir : Text → BindEntry → Option Text
map_dir path b =
    let dst = rstrip b.dst in
    if starts_with (dst ++ slash ∷ []) path || path == dst
    then some (rstrip b.src ++ drop (length dst) path)
    else none

-- `_map_path` without dir_match
unfoldable pub map_path : Text → BindEntry → Option Text
map_path path b =
    let dst = rstrip b.dst in
    if path == dst
    then some (rstrip b.src)
    else if starts_with (dst ++ slash ∷ []) path
    then some (rstrip b.src ++ slash ∷ drop (length dst + 1) path)
    else none

-- mode in (BEFORE, REPLACE)
abbrev pub is_first : BindMode → Bool
is_first before = true
is_first replace = true
is_first after = false
is_first union = false

abbrev pub is_replace : BindMode → Bool
is_replace replace = true
is_replace _ = false

-- None and the empty text are false.
abbrev pub truthy : Option Text → Option Text
truthy none = none
truthy (some []) = none
truthy (some (c ∷ s)) = some (c ∷ s)

-- what the path maps to under the bindings whose mode passes the test
abbrev pub mapped : (BindMode → Bool) → Text → BindEntry → Option Text
mapped pass path b = if pass b.mode then truthy (map_path path b) else none

abbrev pub or_next : Option Text → Action (Option Text) → Action (Option Text)
or_next none next = next
or_next (some oid) next = pure (some oid)

abbrev pub try_path :
    (Text → Action (Option Text)) → Option Text → Action (Option Text) → Action (Option Text)
try_path sos_resolve none next = next
try_path sos_resolve (some path) next = do oid ← sos_resolve path; or_next (truthy oid) next

-- one of the two loops of `resolve`, and what follows it
unfoldable pub through :
    (Text → Action (Option Text))
    → (BindMode → Bool)
    → Text
    → Namespace
    → Action (Option Text)
    → Action (Option Text)
through sos_resolve pass path [] next = next
through sos_resolve pass path (b ∷ binds) next =
    try_path sos_resolve (mapped pass path b) (through sos_resolve pass path binds next)

unfoldable pub resolve : (Text → Action (Option Text)) → Text → Namespace → Action (Option Text)
unfolding through
resolve sos_resolve path binds = through sos_resolve is_first path binds (
    try_path sos_resolve (some path)
      (through sos_resolve (λ m. not (is_first m)) path binds (pure none)))

-- `resolve` of the store as it is before `patch_sos`
unfoldable pub plain_resolve : Text → Action (Option Text)
plain_resolve path = run (Aliases.resolve path)

-- `resolve` of the store after `patch_sos`: the namespace looks paths up in the store, which is patched.
-- The depth of Python's calls is an argument.
unfoldable pub patched_resolve : ℕ → Namespace → Text → Action (Option Text)
patched_resolve zero binds path = raise recursion_error
patched_resolve (suc fuel) binds path =
    let inner = patched_resolve fuel binds in
    do oid ← resolve inner path binds; or_next (truthy oid) (plain_resolve path)

abbrev pub names_of : Option Text → Sos → List Text
names_of none s = []
names_of (some []) s = []
names_of (some (c ∷ path)) s = Listing.listdir (c ∷ path) s

-- the names that one binding adds, if its mode passes the test
abbrev pub listed : (BindMode → Bool) → Text → BindEntry → Sos → List Text
listed pass path b s = if pass b.mode then names_of (map_dir path b) s else []

abbrev pub all_listed : (BindMode → Bool) → Text → Namespace → Sos → List Text
all_listed pass path [] s = []
all_listed pass path (b ∷ binds) s = listed pass path b s ++ all_listed pass path binds s

-- The first loop of `listdir`, which ends the method at a binding of mode REPLACE, and the rest.
abbrev pub entries : Text → Namespace → Namespace → Sos → List Text
entries path all [] s = Listing.listdir path s ++ all_listed (λ m. not (is_first m)) path all s
entries path all (b ∷ binds) s =
    let rest = entries path all binds s in
    listed is_first path b s ++ (if is_replace b.mode then [] else rest)

-- A set of names, sorted.
abbrev pub as_set : List Text → List Text
as_set [] = []
as_set (n ∷ ns) = let rest = as_set ns in if elem n rest then rest else n ∷ rest

unfoldable pub listdir : Text → Namespace → Sos → List Text
listdir path binds s = sort_texts (as_set (entries path binds binds s))
