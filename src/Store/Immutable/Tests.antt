-- ===== src/Store/Immutable/Tests.antt =====
-- store/immutable.py: runs on small trees, and the theorems at concrete inputs.
use data_py_os.Base.Lists.{length}
use data_py_os.Base.{ℕ, zero, suc, ◌≡◌, ◌⊎◌, refl, true, some, List, [], ◌∷◌, arith}
use data_py_os.Base.Eq.{Text}
use data_py_os.Store.Sos.Types.{Host}
use data_py_os.Store.Immutable.Merkle.{
  at, Direction, merkle_root, merkle_proof, verify_proof, climb, node,
}
use data_py_os.Store.Immutable.Proving.{proof_verifies}
use data_py_os.Store.Immutable.Binding.{IsHash, HashLaws, inputs, Collision, root_binds}

instance abbrev plain : Host
plain = record { hexdigest = λ b. b; encode = λ t. t; decode = λ b. b }

abbrev leaves : List Text
leaves = (1 ∷ []) ∷ (2 ∷ []) ∷ (3 ∷ []) ∷ []

-- Repeating the last of an odd number of leaves does not change the root.
repeated_leaf : merkle_root ((1 ∷ []) ∷ (2 ∷ []) ∷ (3 ∷ []) ∷ (3 ∷ []) ∷ []) ≡ merkle_root leaves
unfolding merkle_root climb
repeated_leaf = refl

proof_verifies_example :
    (root : Text) × (proof : List (Text × Direction)) × (merkle_root leaves ≡ some root)
    × (merkle_proof leaves 2 ≡ some proof)
    × (verify_proof (at leaves 2) proof root ≡ true)
proof_verifies_example = proof_verifies leaves 2 (omega arith)

-- the first bytes, or zeros if there are not so many
abbrev fit : ℕ → Text → Text
fit zero t = []
fit (suc n) [] = 0 ∷ fit n []
fit (suc n) (c ∷ t) = c ∷ fit n t

-- A host whose digest looks at the first half of its input only.
abbrev half : Host
half = record { hexdigest = fit 64; encode = λ t. t; decode = λ b. b }

length-fit : (n : ℕ) (t : Text) → length (fit n t) ≡ n
length-fit zero t = refl
length-fit (suc n) [] = let rest = length-fit n [] in omega (arith, rest)
length-fit (suc n) (c ∷ t) = let rest = length-fit n t in omega (arith, rest)

fit-IsHash : (t : Text) → IsHash ⦃h = half⦄ (fit 64 t)
fit-IsHash t = record { size = length-fit 64 t; bytes = refl }

half_laws : HashLaws ⦃h = half⦄
half_laws = record { digests = fit-IsHash }

abbrev hash_of : ℕ → Text
hash_of n = fit 64 (n ∷ [])

abbrev two : List Text
two = hash_of 1 ∷ hash_of 2 ∷ []

abbrev other_two : List Text
other_two = hash_of 1 ∷ hash_of 3 ∷ []

two_root : merkle_root ⦃h = half⦄ two ≡ some (hash_of 1)
unfolding merkle_root climb node
two_root = refl

other_two_root : merkle_root ⦃h = half⦄ other_two ≡ some (hash_of 1)
unfolding merkle_root climb node
other_two_root = refl

-- Two different lists with one root: that digest collides on what was hashed.
root_binds_example :
    (two ≡ other_two)
    ⊎ Collision ⦃h = half⦄ (inputs ⦃h = half⦄ 2 two) (inputs ⦃h = half⦄ 2 other_two)
root_binds_example =
    root_binds ⦃h = half⦄ half_laws two other_two (hash_of 1)
      (fit-IsHash (1 ∷ []), (fit-IsHash (2 ∷ []), tt))
      (fit-IsHash (1 ∷ []), (fit-IsHash (3 ∷ []), tt)) refl two_root other_two_root
