-- ===== src/Kernel/Namespaces/Patched.antt =====
-- kernel/namespaces.py: `resolve` of a patched store.
use data_py_os.Base.{ℕ, zero, suc, ◌≡◌, refl, ap, Bool, not, Option, none, some, [], ◌∷◌}
use data_py_os.Base.Eq.{text_eq, Text}
use data_py_os.Base.Result.{Result, err}
use data_py_os.Store.Sos.Types.{Sos, recursion_error}
use data_py_os.Store.Sos.Files.{Action, ◌>>=◌, pure}
use data_py_os.Kernel.Namespaces.{
  BindMode, Namespace, is_first, truthy, mapped, or_next, try_path, through, resolve, plain_resolve,
  patched_resolve,
}

-- An action that runs out of Python's stack and changes nothing.
abbrev Overflows : {Value : Type 0} → Action Value → Type 0
Overflows m = (s : Sos) → m s ≡ (err recursion_error, s)

overflow_then :
    (m : Action (Option Text)) (f : Option Text → Action (Option Text))
    → Overflows m
    → Overflows (m >>= f)
overflow_then m f o s = ap (λ (z : Result _ (Option Text) × Sos). ((λ _. z) >>= f) s) (o s)

overflow_try :
    (m : Text → Action (Option Text)) (c : Option Text) (next : Action (Option Text))
    → ((p : Text) → Overflows (m p))
    → Overflows next
    → Overflows (try_path m c next)
overflow_try m none next o n = n
overflow_try m (some path) next o n =
    overflow_then (m path) (λ oid. or_next (truthy oid) next) (o path)

overflow_through :
    (m : Text → Action (Option Text)) (pass : BindMode → Bool) (path : Text) (binds : Namespace)
    (next : Action (Option Text))
    → ((p : Text) → Overflows (m p))
    → Overflows next
    → Overflows (through m pass path binds next)
unfolding through
overflow_through m pass path [] next o n = n
overflow_through m pass path (b ∷ binds) next o n =
    overflow_try m (mapped pass path b) (through m pass path binds next) o
      (overflow_through m pass path binds next o n)

overflow_resolve :
    (m : Text → Action (Option Text)) (path : Text) (binds : Namespace)
    → ((p : Text) → Overflows (m p))
    → Overflows (resolve m path binds)
unfolding resolve
overflow_resolve m path binds o =
    overflow_through m is_first path binds
      (try_path m (some path) (through m (λ x. not (is_first x)) path binds (pure none))) o
      (overflow_then (m path)
        (λ oid. or_next (truthy oid) (through m (λ x. not (is_first x)) path binds (pure none)))
        (o path))

-- Whatever the bindings, the path, the store and the depth of the stack: once the store is patched,
-- `resolve` calls itself until the stack is used up and raises RecursionError.
pub patched_resolve_raises :
    (depth : ℕ) (binds : Namespace) (path : Text) (s : Sos)
    → patched_resolve depth binds path s ≡ (err recursion_error, s)
unfolding patched_resolve
patched_resolve_raises zero binds path s = refl
patched_resolve_raises (suc depth) binds path s =
    overflow_then (resolve (patched_resolve depth binds) path binds)
      (λ oid. or_next (truthy oid) (plain_resolve path))
      (overflow_resolve (patched_resolve depth binds) path binds
        (λ p t. patched_resolve_raises depth binds p t))
      s
