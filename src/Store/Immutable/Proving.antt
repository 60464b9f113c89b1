-- ===== src/Store/Immutable/Proving.antt =====
-- store/immutable.py: the loops over the tree end, and what the proofs of inclusion verify.
use data_py_os.Base.{
  ℕ, zero, suc, ◌+◌, ◌-◌, ◌/◌, ◌%◌, ◌<◌, ◌≡◌, refl, sym, ap, ◌∙◌, inl, inr, true, some, List, [],
  ◌∷◌, arith, nat_beq, Bool-cases,
}
use data_py_os.Base.Eq.{text_eq, text_beq_iff, Text}
use data_py_os.Base.Lists.{length}
use data_py_os.Store.Sos.Types.{Host}
use data_py_os.Store.Immutable.Merkle.{
  at, pad, Direction, sibling, node, above, climb, merkle_root, collect, merkle_proof, combine,
  fold, verify_proof,
}

at-pad : (xs : List Text) (i : ℕ) → i < length xs → at (pad xs) i ≡ at xs i
at-pad [] i h = absurd (omega arith)
at-pad (a ∷ []) zero h = refl
at-pad (a ∷ []) (suc i) h = absurd (omega arith)
at-pad (a ∷ b ∷ xs) zero h = refl
at-pad (a ∷ b ∷ xs) (suc zero) h = refl
at-pad (a ∷ b ∷ xs) (suc (suc i)) h = at-pad xs i (omega arith)

abbrev twice : ℕ → ℕ
twice zero = zero
twice (suc k) = suc (suc (twice k))

twice_lem : (k : ℕ) → twice k ≡ k + k
twice_lem zero = omega arith
twice_lem (suc k) = omega (arith, twice_lem k)

module _ ⦃h : Host⦄ where
  -- Half as many hashes above, rounded up.
  pub length-above : (xs : List Text) → length (above xs) ≡ (length xs + 1) / 2
  length-above [] = omega arith
  length-above (a ∷ []) = omega arith
  length-above (a ∷ b ∷ xs) = omega (arith, length-above xs)

  -- The hash above is that of two neighbours.
  at-above_pair :
      (xs : List Text) (k : ℕ)
      → twice k < length xs
      → at (above xs) k ≡ node (at (pad xs) (twice k)) (at (pad xs) (suc (twice k)))
  at-above_pair [] k lt = absurd (omega arith)
  at-above_pair (a ∷ []) zero lt = refl
  at-above_pair (a ∷ []) (suc k) lt = absurd (omega arith)
  at-above_pair (a ∷ b ∷ xs) zero lt = refl
  at-above_pair (a ∷ b ∷ xs) (suc k) lt = at-above_pair xs k (omega arith)

  -- The hash above a position is that of it and its sibling, in the order of their places.
  at-above :
      (xs : List Text) (i : ℕ)
      → i < length xs
      → at (above xs) (i / 2) ≡ combine (at xs i) (sibling (pad xs) i).0 (sibling (pad xs) i).1
  at-above xs i lt =
      let k = i / 2 in
      let pair = at-above_pair xs k (omega (arith, twice_lem k)) in
      elim (Bool-cases (nat_beq (i % 2) 0)) [
        | inl even ↦
            let here : twice k ≡ i = ground (arith, even, twice_lem k) in
            let next : suc (twice k) ≡ i + 1 = omega (arith, here) in
            rw (even, pair, next, here) (ap (λ z. node z (at (pad xs) (i + 1))) (at-pad xs i lt))
        | inr odd ↦
            let here : suc (twice k) ≡ i = ground (arith, odd, twice_lem k) in
            let before : twice k ≡ i - 1 = omega (arith, here) in
            rw (odd, pair, here, before) (ap (node (at (pad xs) (i - 1))) (at-pad xs i lt))
      ]

  -- A position under a tree of any height: the loops end, and folding the proof gives the root.
  climbs :
      (fuel : ℕ) (a : Text) (xs : List Text) (i : ℕ)
      → length xs < fuel
      → i < length (a ∷ xs)
      → (root : Text) × (proof : List (Text × Direction)) × (climb fuel (a ∷ xs) ≡ some root)
        × (collect fuel (a ∷ xs) i ≡ some proof)
        × (fold (at (a ∷ xs) i) proof ≡ root)
  unfolding climb collect
  climbs zero a xs i enough lt = absurd (omega arith)
  climbs (suc fuel) a [] zero enough lt = (a, [], refl, refl, refl)
  climbs (suc fuel) a [] (suc i) enough lt = absurd (omega arith)
  climbs (suc fuel) a (b ∷ xs) i enough lt =
      let size = length-above xs in
      let (root, proof, up, path, folds) =
        climbs fuel (node a b) (above xs) (i / 2) (omega (arith, size)) (omega (arith, size)) in
      let (s, d) = sibling (pad (a ∷ b ∷ xs)) i in
      (
        root,
        (s, d) ∷ proof,
        up,
        rw path refl,
        ap (λ z. fold z proof) (sym (at-above (a ∷ b ∷ xs) i lt)) ∙ folds,
      )

  -- For every list of leaves and every position in it the loops end, and the proof of inclusion that
  -- they produce verifies the leaf against the root.
  pub proof_verifies :
      (leaves : List Text) (i : ℕ)
      → i < length leaves
      → (root : Text) × (proof : List (Text × Direction)) × (merkle_root leaves ≡ some root)
        × (merkle_proof leaves i ≡ some proof)
        × (verify_proof (at leaves i) proof root ≡ true)
  unfolding merkle_root merkle_proof verify_proof
  proof_verifies [] i lt = absurd (omega arith)
  proof_verifies (a ∷ leaves) i lt =
      let (root, proof, up, path, folds) =
        climbs (length (a ∷ leaves)) a leaves i (omega arith) lt in
      (root, proof, up, path, (text_beq_iff (fold (at (a ∷ leaves) i) proof) root).1 folds)
