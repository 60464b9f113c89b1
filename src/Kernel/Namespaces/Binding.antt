-- ===== src/Kernel/Namespaces/Binding.antt =====
-- kernel/namespaces.py: `bind` and `unbind`.
use data_py_os.Base.{
  suc, ◌≡◌, refl, ap, ◌∙◌, inl, inr, Bool, true, false, not, [], ◌∷◌, ◌++◌, arith, ltb, Bool-cases,
}
use data_py_os.Base.Eq.{◌==◌, text_eq, Text, ==_refl}
use data_py_os.Base.Lists.{length, keep}
use data_py_os.Kernel.Namespaces.{BindMode, BindEntry, Namespace, bind, unbind}

-- The bindings of other destinations.
abbrev pub other : Text → BindEntry → Bool
other dst b = not (b.dst == dst)

keep-append :
    (p : BindEntry → Bool) (xs ys : Namespace) → keep p (xs ++ ys) ≡ keep p xs ++ keep p ys
keep-append p [] ys = refl
keep-append p (x ∷ xs) ys = ground (arith, keep-append p xs ys)

keep-keep : (p : BindEntry → Bool) (xs : Namespace) → keep p (keep p xs) ≡ keep p xs
keep-keep p [] = refl
keep-keep p (x ∷ xs) = elim (Bool-cases (p x)) [
  | inl there ↦ rw (there, there) (ap (λ z. x ∷ z) (keep-keep p xs))
  | inr gone ↦ rw gone (keep-keep p xs)
]

append_nil : (xs : Namespace) → xs ++ [] ≡ xs
append_nil [] = refl
append_nil (x ∷ xs) = ap (λ z. x ∷ z) (append_nil xs)

length_last : (xs : Namespace) (x : BindEntry) → length (xs ++ x ∷ []) ≡ suc (length xs)
length_last [] x = refl
length_last (y ∷ xs) x = ap suc (length_last xs x)

keep_last :
    (p : BindEntry → Bool) (xs : Namespace) (x : BindEntry)
    → p x ≡ false
    → keep p (keep p xs ++ x ∷ []) ≡ keep p xs
keep_last p xs x gone =
    keep-append p (keep p xs) (x ∷ [])
    ∙ (rw gone (append_nil (keep p (keep p xs))))
    ∙ keep-keep p xs

-- A binding replaces the one of its destination, and the other bindings keep their order: `unbind` finds it and
-- leaves what it would have left before.
pub unbind-bind :
    (src dst : Text) (mode : BindMode) (binds : Namespace)
    → unbind dst (bind src dst mode binds) ≡ (true, (unbind dst binds).1)
unfolding bind unbind
unbind-bind src dst mode binds =
    let b : BindEntry = record { src = src; dst = dst; mode = mode } in
    let gone : other dst b ≡ false = ap not (==_refl dst) in
    let rest = keep_last (other dst) binds b gone in
    let shorter : ltb (length (keep (other dst) binds)) (length (keep (other dst) binds ++ b ∷ []))
        ≡ true =
      rw (length_last (keep (other dst) binds) b) (ground arith) in
    rw (rest, shorter) refl
