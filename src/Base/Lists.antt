-- ===== src/Base/Lists.antt =====
-- Lists: lengths over the native numbers, membership tests, filters.
use data_py_os.Base.Tests.{if◌then◌else◌}
use data_py_os.Base.Eq.{Eq, ◌==◌}
use Prim.Native.Nat.{ℕ, suc}
use mathlib.Core.Path.{◌≡◌}
use mathlib.Core.Logic.{◌⊎◌, ◌↔◌}
use mathlib.Core.Bool.{Bool, true, false, ◌||◌, ◌&&◌}
use mathlib.Core.List.{List, [], ◌∷◌}
use native.Mathlib.Omega.{arith}

module _ {ℓ} {A : Type ℓ} where
  abbrev pub length : List A → ℕ
  length [] = 0
  length (x ∷ xs) = suc (length xs)

  abbrev pub is_nil : List A → Bool
  is_nil [] = true
  is_nil (x ∷ xs) = false

  -- [x for x in l if p(x)]
  abbrev pub keep : (A → Bool) → List A → List A
  keep p [] = []
  keep p (x ∷ xs) = if p x then x ∷ keep p xs else keep p xs

  -- every element satisfies the predicate
  abbrev pub All {κ} : (A → Type κ) → List A → Type κ
  All P [] = Unit
  All P (x ∷ xs) = P x × All P xs

  pub All-keep {κ} : (P : A → Type κ) (p : A → Bool) (xs : List A) → All P xs → All P (keep p xs)
  All-keep P p [] h = tt
  All-keep P p (x ∷ xs) h = ground (arith, All-keep P p xs h.1)

module _ {ℓ} {A : Type ℓ} ⦃e : Eq A⦄ where
  -- x in l
  abbrev pub elem : A → List A → Bool
  elem a [] = false
  elem a (x ∷ xs) = (a == x) || elem a xs

  pub elem-keep : (a : A) (p : A → Bool) (xs : List A) → elem a (keep p xs) ≡ (p a && elem a xs)
  elem-keep a p [] = ground arith
  elem-keep a p (x ∷ xs) = ground (arith, e.beq_iff a x, elem-keep a p xs)

module _ {A : Type 0} where
  -- `a` is one of the elements.
  abbrev pub In : A → List A → Type 0
  In a [] = ⊥
  In a (x ∷ xs) = (a ≡ x) ⊎ In a xs

  In-of_keep : (p : A → Bool) (a : A) (xs : List A) → In a (keep p xs) → In a xs × (p a ≡ true)
  In-of_keep p a [] h = elim h [ ]
  In-of_keep p a (x ∷ xs) h = ground (arith, In-of_keep p a xs)

  In-keep_of : (p : A → Bool) (a : A) (xs : List A) → In a xs → p a ≡ true → In a (keep p xs)
  In-keep_of p a [] h e = elim h [ ]
  In-keep_of p a (x ∷ xs) h e = ground (arith, In-keep_of p a xs)

  pub In-keep : (p : A → Bool) (a : A) (xs : List A) → In a (keep p xs) ↔ (In a xs × (p a ≡ true))
  In-keep p a xs = (In-of_keep p a xs, λ h. In-keep_of p a xs h.0 h.1)
