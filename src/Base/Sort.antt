-- ===== src/Base/Sort.antt =====
-- Python's `sorted(l, key=...)`: a stable sort, here by insertion.
use Prim.Native.Nat.{ℕ, ◌≤◌}
use mathlib.Core.Bool.{Bool, true, false}
use mathlib.Core.List.{List, [], ◌∷◌, Perm}
use mathlib.Core.List.Perm
use native.Mathlib.Omega.{arith}
use data_py_os.Base.Tests.{leb, if◌then◌else◌}
use data_py_os.Base.Lists.{All}

module _ {ℓ} {A : Type ℓ} (key : A → ℕ) where
  -- before the first element with a key that is not smaller, so that equal keys keep their order
  abbrev pub insert_by : A → List A → List A
  insert_by a [] = a ∷ []
  insert_by a (x ∷ xs) = if leb (key a) (key x) then a ∷ x ∷ xs else x ∷ insert_by a xs

  abbrev pub sort_by : List A → List A
  sort_by [] = []
  sort_by (x ∷ xs) = insert_by x (sort_by xs)

  -- Keys never fall along the list.
  abbrev pub IsSortedBy : List A → Type 0
  IsSortedBy [] = Unit
  IsSortedBy (x ∷ xs) = All (λ y. key x ≤ key y) xs × IsSortedBy xs

  All-insert_by :
      (n : ℕ) (a : A) (xs : List A)
      → n ≤ key a
      → All (λ y. n ≤ key y) xs
      → All (λ y. n ≤ key y) (insert_by a xs)
  All-insert_by n a [] h hs = (h, tt)
  All-insert_by n a (x ∷ xs) h hs = ground (arith, All-insert_by n a xs h hs.1)

  All-le_trans : (m n : ℕ) (xs : List A) → m ≤ n → All (λ y. n ≤ key y) xs → All (λ y. m ≤ key y) xs
  All-le_trans m n [] h hs = tt
  All-le_trans m n (x ∷ xs) h hs = (omega arith, All-le_trans m n xs h hs.1)

  insert_by-IsSortedBy : (a : A) (xs : List A) → IsSortedBy xs → IsSortedBy (insert_by a xs)
  insert_by-IsSortedBy a [] h = (tt, tt)
  insert_by-IsSortedBy a (x ∷ xs) h = ground (
    arith,
    All-le_trans (key a) (key x) xs,
    All-insert_by (key x) a xs,
    insert_by-IsSortedBy a xs h.1,
  )

  pub sort_by-IsSortedBy : (xs : List A) → IsSortedBy (sort_by xs)
  sort_by-IsSortedBy [] = tt
  sort_by-IsSortedBy (x ∷ xs) = insert_by-IsSortedBy x (sort_by xs) (sort_by-IsSortedBy xs)

  insert_by-perm : (a : A) (xs : List A) → Perm (insert_by a xs) (a ∷ xs)
  insert_by-perm a [] = Perm.refl (a ∷ [])
  insert_by-perm a (x ∷ xs) = go (leb (key a) (key x)) (insert_by-perm a xs)
    where
      go :
          (b : Bool)
          → Perm (insert_by a xs) (a ∷ xs)
          → Perm (if b then a ∷ x ∷ xs else x ∷ insert_by a xs) (a ∷ x ∷ xs)
      go true ih = Perm.refl (a ∷ x ∷ xs)
      go false ih = Perm.trans (Perm.cons x ih) (Perm.swap a x xs)

  pub sort_by-perm : (xs : List A) → Perm (sort_by xs) xs
  sort_by-perm [] = Perm.refl []
  sort_by-perm (x ∷ xs) = Perm.trans (insert_by-perm x (sort_by xs)) (Perm.cons x (sort_by-perm xs))
