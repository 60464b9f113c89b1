-- ===== src/Base/Dict.antt =====
-- Python's `dict`, in insertion order: an update keeps the place of its key, a new key goes last.
use data_py_os.Base.Tests.{if◌then◌else◌, is_some}
use data_py_os.Base.Eq.{Eq, ◌==◌, ==_refl}
use Prim.Native.Nat.{ℕ, suc}
use mathlib.Core.Path.{◌≡◌, refl}
use mathlib.Core.Logic.{◌≢◌}
use mathlib.Core.Bool.{Bool, true}
use mathlib.Core.Option.{Option, none, some}
use mathlib.Core.List.{List, [], ◌∷◌}
use native.Mathlib.Omega.{arith}

abbrev pub Dict {ℓ κ} : Type ℓ → Type κ → Type (ℓ ⊔ κ)
Dict K V = List (K × V)

abbrev pub size {ℓ κ} : {K : Type ℓ} {V : Type κ} → Dict K V → ℕ
size [] = 0
size (x ∷ d) = suc (size d)

-- d.values()
abbrev pub values {ℓ κ} : {K : Type ℓ} {V : Type κ} → Dict K V → List V
values [] = []
values ((k, v) ∷ d) = v ∷ values d

module _ {ℓ κ} {K : Type ℓ} {V : Type κ} ⦃e : Eq K⦄ where
  -- d.get(k)
  abbrev pub lookup : K → Dict K V → Option V
  lookup key [] = none
  lookup key ((other, value) ∷ rest) = if key == other then some value else lookup key rest

  -- k in d
  abbrev pub has : K → Dict K V → Bool
  has k d = is_some (lookup k d)

  -- d[k] = v
  abbrev pub insert : K → V → Dict K V → Dict K V
  insert k v [] = (k, v) ∷ []
  insert k v ((j, w) ∷ d) = if k == j then (k, v) ∷ d else (j, w) ∷ insert k v d

  -- del d[k], which the program calls on keys that are there
  abbrev pub erase : K → Dict K V → Dict K V
  erase k [] = []
  erase k ((j, w) ∷ d) = if k == j then d else (j, w) ∷ erase k d

  -- No key twice.
  abbrev pub IsDict : Dict K V → Type κ
  IsDict [] = Unit {κ}
  IsDict ((k, v) ∷ d) = (lookup k d ≡ none) × IsDict d

  pub lookup-insert :
      (j k : K) (v : V) (d : Dict K V)
      → lookup j (insert k v d) ≡ (if j == k then some v else lookup j d)
  lookup-insert j k v [] = refl
  lookup-insert j k v ((i, w) ∷ d) =
      ground (arith, e.beq_iff k i, e.beq_iff j i, e.beq_iff j k, lookup-insert j k v d)

  pub lookup-insert_self : (k : K) (v : V) (d : Dict K V) → lookup k (insert k v d) ≡ some v
  lookup-insert_self k v d = rw (lookup-insert k k v d) (rw (==_refl k))

  pub lookup-insert_ne :
      (j k : K) (v : V) (d : Dict K V) → j ≢ k → lookup j (insert k v d) ≡ lookup j d
  lookup-insert_ne j k v d h = ground (arith, lookup-insert j k v d, e.beq_iff j k)

  pub insert-IsDict : (k : K) (v : V) (d : Dict K V) → IsDict d → IsDict (insert k v d)
  insert-IsDict k v [] h = (refl, tt)
  insert-IsDict k v ((i, w) ∷ d) h =
      ground (arith, e.beq_iff k i, e.beq_iff i k, lookup-insert i k v d, insert-IsDict k v d h.1)

  pub lookup-erase :
      (j k : K) (d : Dict K V)
      → IsDict d
      → lookup j (erase k d) ≡ (if j == k then none else lookup j d)
  lookup-erase j k [] h = ground arith
  lookup-erase j k ((i, w) ∷ d) h =
      ground (arith, e.beq_iff k i, e.beq_iff j i, e.beq_iff j k, lookup-erase j k d h.1)

  pub lookup-erase_ne : (j k : K) (d : Dict K V) → j ≢ k → lookup j (erase k d) ≡ lookup j d
  lookup-erase_ne j k [] h = refl
  lookup-erase_ne j k ((i, w) ∷ d) h =
      ground (arith, e.beq_iff k i, e.beq_iff j i, e.beq_iff j k, lookup-erase_ne j k d h)

  pub erase-IsDict : (k : K) (d : Dict K V) → IsDict d → IsDict (erase k d)
  erase-IsDict k [] h = tt
  erase-IsDict k ((i, w) ∷ d) h =
      ground (arith, e.beq_iff i k, e.beq_iff k i, lookup-erase_ne i k d, erase-IsDict k d h.1)

  pub size-insert :
      (k : K) (v : V) (d : Dict K V)
      → size (insert k v d) ≡ (if has k d then size d else suc (size d))
  size-insert k v [] = refl
  size-insert k v ((i, w) ∷ d) = ground (arith, size-insert k v d)

  pub size-erase : (k : K) (d : Dict K V) → has k d ≡ true → suc (size (erase k d)) ≡ size d
  size-erase k [] h = ground arith
  size-erase k ((i, w) ∷ d) h = ground (arith, size-erase k d)
