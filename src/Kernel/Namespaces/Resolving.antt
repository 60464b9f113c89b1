-- ===== src/Kernel/Namespaces/Resolving.antt =====
-- kernel/namespaces.py: in which order `resolve` looks where.
use data_py_os.Base.{◌≡◌, refl, ap, ◌∙◌, Bool, not, Option, none, some, List, [], ◌∷◌}
use data_py_os.Base.Eq.{text_eq, Text}
use data_py_os.Base.Result.{ok}
use data_py_os.Base.Dict.{lookup}
use data_py_os.Store.Sos.Types.{Host, Sos}
use data_py_os.Store.Sos.Aliases
use data_py_os.Store.Sos.Files.{Action, pure}
use data_py_os.Store.Sos.Coherent.{Coherent, Reads, target, oid_in, resolve-Reads}
use data_py_os.Store.Sos.Writing.{SameTables-refl, SameTables-trans}
use data_py_os.Kernel.Namespaces.{
  BindMode, Namespace, is_first, truthy, mapped, or_next, try_path, through, resolve, plain_resolve,
}

abbrev pub or_else : Option Text → Option Text → Option Text
or_else none b = b
or_else (some a) b = some a

-- The first of the paths that stands for an object.
abbrev pub pick : List Text → Sos → Option Text
pick [] s = none
pick (path ∷ paths) s = or_else (truthy (target path s)) (pick paths s)

abbrev pub place : Option Text → List Text → List Text
place none rest = rest
place (some path) rest = path ∷ rest

-- What the path maps to under the bindings whose mode passes the test, in their order.
abbrev pub places : (BindMode → Bool) → Text → Namespace → List Text → List Text
places pass path [] rest = rest
places pass path (b ∷ binds) rest = place (mapped pass path b) (places pass path binds rest)

-- The paths in the order in which they are tried.
abbrev pub search_order : Text → Namespace → List Text
search_order path binds =
    places is_first path binds (path ∷ places (λ m. not (is_first m)) path binds [])

module _ ⦃h : Host⦄ where
  Reads-trans : {s t u : Sos} → Reads s t → Reads t u → Reads s u
  Reads-trans a b = record { coherent = b.coherent; tables = SameTables-trans a.tables b.tables }

  -- An action that only reads and answers.
  abbrev Answering : Sos → Option Text → Action (Option Text) → Type 0
  Answering s o m = (t : Sos) → Reads s t → ((m t).0 ≡ ok o) × Reads s (m t).1

  next_lem :
      (s t : Sos) (found o : Option Text) (next : Action (Option Text))
      → Reads s t
      → Answering s o next
      → ((or_next found next t).0 ≡ ok (or_else found o)) × Reads s (or_next found next t).1
  next_lem s t none o next r a = a t r
  next_lem s t (some oid) o next r a = (refl, r)

  try_lem :
      (s : Sos) (c : Option Text) (rest : List Text) (next : Action (Option Text))
      → Answering s (pick rest s) next
      → Answering s (pick (place c rest) s) (try_path plain_resolve c next)
  unfolding plain_resolve
  try_lem s none rest next a t r = a t r
  try_lem s (some path) rest next a t r =
      let (answer, r') = resolve-Reads path t r.coherent in
      let t' = (Aliases.resolve path t).1 in
      let same : (Aliases.resolve path t).0 ≡ target path s =
        answer ∙ ap (λ d. oid_in (lookup path d)) r.tables.aliases in
      let (result, r2) =
        next_lem s t' (truthy (Aliases.resolve path t).0) (pick rest s) next (Reads-trans r r') a in
      (result ∙ ap (λ o. ok (or_else (truthy o) (pick rest s))) same, r2)

  through_lem :
      (s : Sos) (pass : BindMode → Bool) (path : Text) (binds : Namespace) (rest : List Text)
      (next : Action (Option Text))
      → Answering s (pick rest s) next
      → Answering s
          (pick (places pass path binds rest) s)
          (through plain_resolve pass path binds next)
  unfolding through
  through_lem s pass path [] rest next a = a
  through_lem s pass path (b ∷ binds) rest next a =
      try_lem s (mapped pass path b) (places pass path binds rest)
        (through plain_resolve pass path binds next) (through_lem s pass path binds rest next a)

  -- In a coherent store: the lookup of a path through a namespace gives the object of the first path that has one, of those that
  -- the path maps to under BEFORE and REPLACE bindings, in their order, then the path itself, and then
  -- those under AFTER and UNION bindings; and it changes no table of the store.
  pub resolve_lem :
      (path : Text) (binds : Namespace) (s : Sos)
      → Coherent s
      → let (r, s') = resolve plain_resolve path binds s in
        (r ≡ ok (pick (search_order path binds) s)) × Reads s s'
  unfolding resolve
  resolve_lem path binds s k =
      through_lem s is_first path binds (path ∷ places (λ m. not (is_first m)) path binds [])
        (try_path plain_resolve (some path)
          (through plain_resolve (λ m. not (is_first m)) path binds (pure none)))
        (try_lem s (some path) (places (λ m. not (is_first m)) path binds [])
          (through plain_resolve (λ m. not (is_first m)) path binds (pure none))
          (through_lem s (λ m. not (is_first m)) path binds [] (pure none) (λ t r. (refl, r))))
        s record { coherent = k; tables = SameTables-refl s }
