-- ===== src/Store/Immutable/Merkle.antt =====
-- store/immutable.py: `_merkle_root`, `_merkle_proof` and `_verify_proof`. The loops over the levels
-- of the tree take fuel, and `none` is a loop that has not ended. Indices outside a list give the
-- empty text where the source raises.
use data_py_os.Base.{
  ℕ, zero, suc, ◌+◌, ◌-◌, ◌/◌, ◌%◌, Bool, Option, none, some, List, [], ◌∷◌, ◌++◌, nat_beq,
  if◌then◌else◌,
}
use data_py_os.Base.Eq.{◌==◌, text_eq, Text, chars}
use data_py_os.Base.Lists.{length}
use data_py_os.Store.Sos.Types.{Host}

-- level[i]
abbrev pub at : List Text → ℕ → Text
at [] i = []
at (x ∷ xs) zero = x
at (x ∷ xs) (suc i) = at xs i

-- The level with its last hash repeated if their number is odd.
abbrev pub pad : List Text → List Text
pad [] = []
pad (a ∷ []) = a ∷ a ∷ []
pad (a ∷ b ∷ rest) = a ∷ b ∷ pad rest

pub data Direction : Type 0 where
  left right : Direction

-- one level of the loop of `_merkle_proof`: the sibling of a position
abbrev pub sibling : List Text → ℕ → Text × Direction
sibling level i = if nat_beq (i % 2) 0 then (at level (i + 1), right) else (at level (i - 1), left)

abbrev pub onto {ℓ} : {A : Type ℓ} → A → Option (List A) → Option (List A)
onto x none = none
onto x (some xs) = some (x ∷ xs)

module _ ⦃h : Host⦄ where
  -- `_sha256` of two texts
  unfoldable pub node : Text → Text → Text
  node a b = h.hexdigest (h.encode a ++ h.encode b)

  abbrev pub hash_pairs : List Text → List Text
  hash_pairs [] = []
  hash_pairs (a ∷ []) = []
  hash_pairs (a ∷ b ∷ rest) = node a b ∷ hash_pairs rest

  -- the next level
  abbrev pub above : List Text → List Text
  above level = hash_pairs (pad level)

  unfoldable pub climb : ℕ → List Text → Option Text
  climb zero level = none
  climb (suc fuel) [] = some []
  climb (suc fuel) (a ∷ []) = some a
  climb (suc fuel) (a ∷ b ∷ rest) = climb fuel (above (a ∷ b ∷ rest))

  unfoldable pub merkle_root : List Text → Option Text
  unfolding climb
  merkle_root [] = some (h.hexdigest (h.encode (chars "empty")))
  merkle_root (a ∷ leaves) = climb (length (a ∷ leaves)) (a ∷ leaves)

  unfoldable pub collect : ℕ → List Text → ℕ → Option (List (Text × Direction))
  collect zero level i = none
  collect (suc fuel) [] i = some []
  collect (suc fuel) (a ∷ []) i = some []
  collect (suc fuel) (a ∷ b ∷ rest) i =
      let level = pad (a ∷ b ∷ rest) in
      onto (sibling level i) (collect fuel (hash_pairs level) (i / 2))

  unfoldable pub merkle_proof : List Text → ℕ → Option (List (Text × Direction))
  unfolding collect
  merkle_proof leaves i = collect (length leaves) leaves i

  -- one step of `_verify_proof`
  abbrev pub combine : Text → Text → Direction → Text
  combine current s right = node current s
  combine current s left = node s current

  abbrev pub fold : Text → List (Text × Direction) → Text
  fold current [] = current
  fold current ((s, d) ∷ proof) = fold (combine current s d) proof

  unfoldable pub verify_proof : Text → List (Text × Direction) → Text → Bool
  verify_proof leaf proof root = fold leaf proof == root
