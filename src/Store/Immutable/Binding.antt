-- ===== src/Store/Immutable/Binding.antt =====
-- store/immutable.py: what a root commits to. The source hashes the bytes of two hashes one after the other; hashes are
-- of one length, so these bytes tell the two apart.
use data_py_os.Base.{
  ℕ, zero, suc, ◌≡◌, ◌≢◌, refl, sym, ap, ◌∙◌, ◌⊎◌, inl, inr, some, List, [], ◌∷◌, ◌++◌, arith,
  Bool-cases,
}
use data_py_os.Base.Eq.{◌==◌, text_eq, text_beq_iff, Text}
use data_py_os.Base.Lists.{length, In, All}
use data_py_os.Store.Sos.Types.{Bytes, Host}
use data_py_os.Store.Immutable.Merkle.{node, pad, above, climb, merkle_root}
use data_py_os.Store.Immutable.Proving.{length-above}

append_binds : (a b c d : Bytes) → length a ≡ length c → (a ++ b) ≡ (c ++ d) → (a ≡ c) × (b ≡ d)
append_binds [] b [] d size same = (refl, same)
append_binds [] b (y ∷ c) d size same = absurd (omega (arith, size))
append_binds (x ∷ a) b [] d size same = absurd (omega (arith, size))
append_binds (x ∷ a) b (y ∷ c) d size same =
    let (rest, tail) = append_binds a b c d (omega (arith, size)) (cc same) in
    let head : x ≡ y = cc same in (cc (head, rest), tail)

module _ ⦃h : Host⦄ where
  -- The form of a hash: 64 characters, which `encode` turns into as many bytes.
  pub record IsHash (t : Text) : Type 0 where
    pub size : length t ≡ 64
    pub bytes : h.encode t ≡ t

  -- What `hashlib` and the codec document: a hexadecimal digest of SHA-256 is 64 ASCII characters.
  pub record HashLaws : Type 0 where
    pub digests : (b : Bytes) → IsHash (h.hexdigest b)

  -- the bytes that one level hashes
  abbrev pub pair_inputs : List Text → List Bytes
  pair_inputs [] = []
  pair_inputs (a ∷ []) = []
  pair_inputs (a ∷ b ∷ rest) = (h.encode a ++ h.encode b) ∷ pair_inputs rest

  -- all bytes that the loop of `_merkle_root` hashes
  abbrev pub inputs : ℕ → List Text → List Bytes
  inputs zero level = []
  inputs (suc fuel) [] = []
  inputs (suc fuel) (a ∷ []) = []
  inputs (suc fuel) (a ∷ b ∷ rest) =
      pair_inputs (pad (a ∷ b ∷ rest)) ++ inputs fuel (above (a ∷ b ∷ rest))

  -- Two of these byte strings are different and have one hash.
  pub record Collision (xs ys : List Bytes) : Type 0 where
    pub x : Bytes
    pub y : Bytes
    pub hashed_x : In x xs
    pub hashed_y : In y ys
    pub differ : x ≢ y
    pub same : h.hexdigest x ≡ h.hexdigest y

  abbrev Hashes : List Text → Type 0
  Hashes = All IsHash

  Collision-later :
      (x y : Bytes) (xs ys : List Bytes) → Collision xs ys → Collision (x ∷ xs) (y ∷ ys)
  Collision-later x y xs ys c = record {
    x = c.x;
    y = c.y;
    hashed_x = inr c.hashed_x;
    hashed_y = inr c.hashed_y;
    differ = c.differ;
    same = c.same;
  }

  In-first : (x : Bytes) (xs ys : List Bytes) → In x xs → In x (xs ++ ys)
  In-first x [] ys at = elim at [ ]
  In-first x (z ∷ xs) ys (inl e) = inl e
  In-first x (z ∷ xs) ys (inr at) = inr (In-first x xs ys at)

  In-second : (x : Bytes) (xs ys : List Bytes) → In x ys → In x (xs ++ ys)
  In-second x [] ys at = at
  In-second x (z ∷ xs) ys at = inr (In-second x xs ys at)

  -- One hash of two pairs of hashes: they are the same, or the bytes collide.
  node_binds :
      (a b c d : Text) (xs ys : List Bytes)
      → IsHash a
      → IsHash b
      → IsHash c
      → IsHash d
      → node a b ≡ node c d
      → ((a ≡ c) × (b ≡ d))
        ⊎ Collision ((h.encode a ++ h.encode b) ∷ xs) ((h.encode c ++ h.encode d) ∷ ys)
  unfolding node
  node_binds a b c d xs ys ha hb hc hd same =
      elim (Bool-cases ((h.encode a ++ h.encode b) == (h.encode c ++ h.encode d))) [
        | inl equal ↦
            let e = (text_beq_iff (h.encode a ++ h.encode b) (h.encode c ++ h.encode d)).0 equal in
            let flat : (a ++ b) ≡ (c ++ d) = cc (e, ha.bytes, hb.bytes, hc.bytes, hd.bytes) in
            inl (append_binds a b c d (ha.size ∙ sym hc.size) flat)
        | inr other ↦ inr (record {
          x = h.encode a ++ h.encode b;
          y = h.encode c ++ h.encode d;
          hashed_x = inl refl;
          hashed_y = inl refl;
          differ = λ e.
              cc (other, (text_beq_iff (h.encode a ++ h.encode b) (h.encode c ++ h.encode d)).1 e);
          same = same;
        })
      ]

  cons_binds :
      (a b : Text) (xs ys : List Text) (x y : Bytes) (us vs : List Bytes)
      → a ≡ b
      → (xs ≡ ys) ⊎ Collision us vs
      → ((a ∷ xs) ≡ (b ∷ ys)) ⊎ Collision (x ∷ us) (y ∷ vs)
  cons_binds a b xs ys x y us vs same (inl rest) = inl (cc (same, rest))
  cons_binds a b xs ys x y us vs same (inr c) = inr (Collision-later x y us vs c)

  tails :
      (b d : Text) (xs ys : List Text) {us vs : List Bytes}
      → b ≡ d
      → (xs ≡ ys) ⊎ Collision us vs
      → ((b ∷ xs) ≡ (d ∷ ys)) ⊎ Collision us vs
  tails b d xs ys same (inl rest) = inl (cc (same, rest))
  tails b d xs ys same (inr c) = inr c

  above_binds :
      (xs ys : List Text)
      → Hashes xs
      → Hashes ys
      → length xs ≡ length ys
      → above xs ≡ above ys
      → (xs ≡ ys) ⊎ Collision (pair_inputs (pad xs)) (pair_inputs (pad ys))
  above_binds [] [] hx hy size same = inl refl
  above_binds [] (b ∷ ys) hx hy size same = absurd (omega (arith, size))
  above_binds (a ∷ xs) [] hx hy size same = absurd (omega (arith, size))
  above_binds (a ∷ []) (b ∷ []) (ha, _) (hb, _) size same =
      elim (node_binds a a b b [] [] ha ha hb hb (cc same)) [
        | inl equal ↦ inl (ap (λ z. z ∷ []) equal.0)
        | inr collision ↦ inr collision
      ]
  above_binds (a ∷ []) (b ∷ c ∷ ys) hx hy size same = absurd (omega (arith, size))
  above_binds (a ∷ b ∷ xs) (c ∷ []) hx hy size same = absurd (omega (arith, size))
  above_binds (a ∷ b ∷ xs) (c ∷ d ∷ ys) (ha, (hb, hx)) (hc, (hd, hy)) size same =
      elim (node_binds a b c d (pair_inputs (pad xs)) (pair_inputs (pad ys)) ha hb hc hd
        (cc same)) [
          | inl equal ↦
              cons_binds a c (b ∷ xs) (d ∷ ys) (h.encode a ++ h.encode b) (h.encode c ++ h.encode d)
                (pair_inputs (pad xs)) (pair_inputs (pad ys)) equal.0
                (tails b d xs ys equal.1 (above_binds xs ys hx hy (omega (arith, size)) (cc same)))
          | inr collision ↦ inr collision
        ]

  above-Hashes : (laws : HashLaws) (xs : List Text) → Hashes (above xs)
  unfolding node
  above-Hashes laws [] = tt
  above-Hashes laws (a ∷ []) = (laws.digests (h.encode a ++ h.encode a), tt)
  above-Hashes laws (a ∷ b ∷ xs) = (laws.digests (h.encode a ++ h.encode b), above-Hashes laws xs)

  climb_binds :
      (laws : HashLaws) (fuel : ℕ) (a b : Text) (xs ys : List Text) (root : Text)
      → Hashes (a ∷ xs)
      → Hashes (b ∷ ys)
      → length xs ≡ length ys
      → climb fuel (a ∷ xs) ≡ some root
      → climb fuel (b ∷ ys) ≡ some root
      → ((a ∷ xs) ≡ (b ∷ ys)) ⊎ Collision (inputs fuel (a ∷ xs)) (inputs fuel (b ∷ ys))
  unfolding climb
  climb_binds laws zero a b xs ys root hx hy size up up' = absurd (cc up)
  climb_binds laws (suc fuel) a b [] [] root hx hy size up up' = inl (cc (up, up'))
  climb_binds laws (suc fuel) a b [] (d ∷ ys) root hx hy size up up' = absurd (omega (arith, size))
  climb_binds laws (suc fuel) a b (c ∷ xs) [] root hx hy size up up' = absurd (omega (arith, size))
  climb_binds laws (suc fuel) a b (c ∷ xs) (d ∷ ys) root hx hy size up up' =
      let size' : length (above xs) ≡ length (above ys) =
        omega (arith, size, length-above xs, length-above ys) in
      let us = pair_inputs (pad (a ∷ c ∷ xs)) in
      let vs = pair_inputs (pad (b ∷ d ∷ ys)) in
      let us' = inputs fuel (above (a ∷ c ∷ xs)) in
      let vs' = inputs fuel (above (b ∷ d ∷ ys)) in
      elim (climb_binds laws fuel (node a c) (node b d) (above xs) (above ys) root
        (above-Hashes laws (a ∷ c ∷ xs)) (above-Hashes laws (b ∷ d ∷ ys)) size' up up') [
          | inl equal ↦
              elim (above_binds (a ∷ c ∷ xs) (b ∷ d ∷ ys) hx hy (omega (arith, size)) equal) [
                | inl same ↦ inl same
                | inr k ↦ inr (record {
                  x = k.x;
                  y = k.y;
                  hashed_x = In-first k.x us us' k.hashed_x;
                  hashed_y = In-first k.y vs vs' k.hashed_y;
                  differ = k.differ;
                  same = k.same;
                })
              ]
          | inr k ↦ inr (record {
            x = k.x;
            y = k.y;
            hashed_x = In-second k.x us us' k.hashed_x;
            hashed_y = In-second k.y vs vs' k.hashed_y;
            differ = k.differ;
            same = k.same;
          })
        ]

  -- Where digests are 64 ASCII characters: two lists of as many leaves, all of that form, with the same root are the same list,
  -- or among the byte strings that were hashed for the two roots there are two different ones with one hash.
  pub root_binds :
      (laws : HashLaws) (xs ys : List Text) (root : Text)
      → All IsHash xs
      → All IsHash ys
      → length xs ≡ length ys
      → merkle_root xs ≡ some root
      → merkle_root ys ≡ some root
      → (xs ≡ ys) ⊎ Collision (inputs (length xs) xs) (inputs (length xs) ys)
  unfolding merkle_root
  root_binds laws [] [] root hx hy size up up' = inl refl
  root_binds laws [] (b ∷ ys) root hx hy size up up' = absurd (omega (arith, size))
  root_binds laws (a ∷ xs) [] root hx hy size up up' = absurd (omega (arith, size))
  root_binds laws (a ∷ xs) (b ∷ ys) root hx hy size up up' =
      let size' : length xs ≡ length ys = omega (arith, size) in
      climb_binds laws (length (a ∷ xs)) a b xs ys root hx hy size' up
        (ap (λ n. climb n (b ∷ ys)) size ∙ up')
