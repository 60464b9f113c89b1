-- ===== src/Store/Bloom/Bits.antt =====
-- store/bloom.py: setting a bit sets that bit and no other.
use data_py_os.Base.{
  ℕ, zero, suc, ◌+◌, ◌*◌, ◌/◌, ◌%◌, ◌<◌, ◌≡◌, refl, ap, ◌∙◌, inl, inr, Bool, true, false, ◌||◌,
  ◌&&◌, List, [], ◌∷◌, arith, nat_beq, Bool-cases,
}
use data_py_os.Base.Eq.{nat_eq}
use data_py_os.Base.Lists.{length, elem}
use data_py_os.Store.Bloom.{zeros, has_bit, or_bit, bit_at, set_at, set_all}

half_or : (n b : ℕ) → (2 * n + b % 2) / 2 ≡ n
half_or n b = omega arith

parity_or : (n b : ℕ) → (2 * n + b % 2) % 2 ≡ b % 2
parity_or n b = omega arith

half_next : (b : ℕ) → nat_beq (b % 2) 1 ≡ false → (b + 1) / 2 ≡ b / 2
half_next b even = ground (arith, even)

has_bit-or_bit : (j k b : ℕ) → has_bit j (or_bit k b) ≡ (has_bit j b || nat_beq j k)
has_bit-or_bit zero zero b = elim (Bool-cases (nat_beq (b % 2) 1)) [
  | inl odd ↦ rw (odd, odd) refl
  | inr even ↦ rw even (ground (arith, even))
]
has_bit-or_bit (suc j) zero b = elim (Bool-cases (nat_beq (b % 2) 1)) [
  | inl odd ↦ rw odd (ground arith)
  | inr even ↦ rw (even, half_next b even) (ground arith)
]
has_bit-or_bit zero (suc k) b = rw (parity_or (or_bit k (b / 2)) b) (ground arith)
has_bit-or_bit (suc j) (suc k) b =
    rw (half_or (or_bit k (b / 2)) b) (ground (arith, has_bit-or_bit j k (b / 2)))

bit_at-set_at :
    (i k j l : ℕ) (bits : List ℕ)
    → j < length bits
    → bit_at i k (set_at j l bits) ≡ (bit_at i k bits || (nat_beq i j && nat_beq k l))
bit_at-set_at i k j l [] h = absurd (omega arith)
bit_at-set_at zero k zero l (b ∷ bits) h = has_bit-or_bit k l b
bit_at-set_at zero k (suc j) l (b ∷ bits) h = ground arith
bit_at-set_at (suc i) k zero l (b ∷ bits) h = ground arith
bit_at-set_at (suc i) k (suc j) l (b ∷ bits) h =
    ground (arith, bit_at-set_at i k j l bits (omega arith))

-- The bit at a position.
abbrev pub marked : ℕ → List ℕ → Bool
marked p bits = bit_at (p / 8) (p % 8) bits

same_place : (p q : ℕ) → (nat_beq (p / 8) (q / 8) && nat_beq (p % 8) (q % 8)) ≡ nat_beq p q
same_place p q = ground arith

length-set_at : (i k : ℕ) (bits : List ℕ) → length (set_at i k bits) ≡ length bits
length-set_at i k [] = refl
length-set_at zero k (b ∷ bits) = refl
length-set_at (suc i) k (b ∷ bits) = ap suc (length-set_at i k bits)

pub length-set_all : (ps bits : List ℕ) → length (set_all ps bits) ≡ length bits
length-set_all [] bits = refl
length-set_all (p ∷ ps) bits =
    length-set_all ps (set_at (p / 8) (p % 8) bits) ∙ length-set_at (p / 8) (p % 8) bits

-- The positions lie within the bytes.
abbrev pub Inside : List ℕ → ℕ → Type 0
Inside [] n = Unit
Inside (p ∷ ps) n = (p / 8 < n) × Inside ps n

or_assoc : (a b c : Bool) → ((a || b) || c) ≡ (a || (b || c))
or_assoc true b c = refl
or_assoc false b c = refl

-- Setting positions adds these and no other.
pub marked-set_all :
    (p : ℕ) (qs bits : List ℕ)
    → Inside qs (length bits)
    → marked p (set_all qs bits) ≡ (marked p bits || elem p qs)
marked-set_all p [] bits h = ground arith
marked-set_all p (q ∷ qs) bits h =
    let bits' = set_at (q / 8) (q % 8) bits in
    let inside : Inside qs (length bits') = rw (length-set_at (q / 8) (q % 8) bits) h.1 in
    marked-set_all p qs bits' inside
    ∙ ap (λ b. b || elem p qs)
        (bit_at-set_at (p / 8) (p % 8) (q / 8) (q % 8) bits h.0
          ∙ ap (λ b. marked p bits || b) (same_place p q))
    ∙ or_assoc (marked p bits) (nat_beq p q) (elem p qs)

pub marked-zeros : (p n : ℕ) → marked p (zeros n) ≡ false
marked-zeros p n = go (p / 8) (p % 8) n
  where
    no_bit : (k : ℕ) → has_bit k 0 ≡ false
    no_bit zero = refl
    no_bit (suc k) = no_bit k

    go : (i k n : ℕ) → bit_at i k (zeros n) ≡ false
    go i k zero = refl
    go zero k (suc n) = no_bit k
    go (suc i) k (suc n) = go i k n
