-- ===== src/Store/Bloom.antt =====
-- store/bloom.py: the Bloom filter over paths. Its size and number of hashes come from logarithms of
-- the capacity and the error rate, and are arguments here; SHA-256 and MD5 are parameters. A byte is a
-- number below 256. `Index` has the index of the object store; the other modules prove.
use data_py_os.Base.{
  ℕ, zero, suc, ◌+◌, ◌*◌, ◌/◌, ◌%◌, Bool, true, false, ◌&&◌, Option, none, some, List, [], ◌∷◌,
  ◌++◌, ltb, nat_beq, if◌then◌else◌,
}
use data_py_os.Base.Eq.{Text}
pub mod Bits
pub mod Membership
pub mod Packing
pub mod Index
pub mod Asking
mod Tests

-- int(hashlib.sha256(item.encode()).hexdigest(), 16), and the same with md5
pub record Digests : Type 0 where
  pub sha256 : Text → ℕ
  pub md5 : Text → ℕ

-- `struct` on the format "<f": a float, which stands here as a number of its own, is packed into four bytes as a
-- float of single precision, and unpacked from them.
pub record Floats : Type 0 where
  pub pack_f : ℕ → ℕ × ℕ × ℕ × ℕ
  pub unpack_f : ℕ × ℕ × ℕ × ℕ → ℕ

pub record BloomFilter : Type 0 where
  pub capacity : ℕ
  pub error_rate : ℕ
  pub n_bits : ℕ
  pub n_hashes : ℕ
  pub bits : List ℕ
  pub count : ℕ

abbrev pub zeros : ℕ → List ℕ
zeros zero = []
zeros (suc n) = 0 ∷ zeros n

-- The capacity and the error rate, then what they give.
unfoldable pub init : ℕ → ℕ → ℕ → ℕ → BloomFilter
init capacity error_rate n_bits n_hashes = record {
  capacity = capacity;
  error_rate = error_rate;
  n_bits = n_bits;
  n_hashes = n_hashes;
  bits = zeros ((n_bits + 7) / 8);
  count = 0;
}

-- byte & (1 << k)
abbrev pub has_bit : ℕ → ℕ → Bool
has_bit zero byte = nat_beq (byte % 2) 1
has_bit (suc k) byte = has_bit k (byte / 2)

-- byte | (1 << k)
abbrev pub or_bit : ℕ → ℕ → ℕ
or_bit zero byte = if nat_beq (byte % 2) 1 then byte else byte + 1
or_bit (suc k) byte = 2 * or_bit k (byte / 2) + byte % 2

-- bits[i] & (1 << k); a byte that is not there is no bit
abbrev pub bit_at : ℕ → ℕ → List ℕ → Bool
bit_at i k [] = false
bit_at zero k (b ∷ bits) = has_bit k b
bit_at (suc i) k (b ∷ bits) = bit_at i k bits

-- bits[i] |= 1 << k
abbrev pub set_at : ℕ → ℕ → List ℕ → List ℕ
set_at i k [] = []
set_at zero k (b ∷ bits) = or_bit k b ∷ bits
set_at (suc i) k (b ∷ bits) = b ∷ set_at i k bits

abbrev pub set_all : List ℕ → List ℕ → List ℕ
set_all [] bits = bits
set_all (pos ∷ ps) bits = set_all ps (set_at (pos / 8) (pos % 8) bits)

abbrev pub all_set : List ℕ → List ℕ → Bool
all_set [] bits = true
all_set (pos ∷ ps) bits = bit_at (pos / 8) (pos % 8) bits && all_set ps bits

module _ ⦃d : Digests⦄ where
  -- the positions from the i-th hash on
  abbrev pub positions : ℕ → ℕ → ℕ → Text → List ℕ
  positions n_bits i zero item = []
  positions n_bits i (suc n) item =
      (d.sha256 item + i * d.md5 item) % n_bits ∷ positions n_bits (suc i) n item

  unfoldable pub hashes : Text → BloomFilter → List ℕ
  hashes item f = positions f.n_bits 0 f.n_hashes item

  unfoldable pub add : Text → BloomFilter → BloomFilter
  add item f = record f { bits = set_all (hashes item f) f.bits; count = f.count + 1 }

  -- item in filter
  unfoldable pub contains : Text → BloomFilter → Bool
  contains item f = all_set (hashes item f) f.bits

-- the four bytes of a number, the lowest first
abbrev pub four : ℕ → List ℕ
four n = n % 256 ∷ n / 256 % 256 ∷ n / 65536 % 256 ∷ n / 16777216 ∷ []

-- struct.pack("<I", n)
abbrev pub pack : ℕ → Option (List ℕ)
pack n = if ltb n 4294967296 then some (four n) else none

abbrev pub join : Option (List ℕ) → Option (List ℕ) → Option (List ℕ)
join (some a) (some b) = some (a ++ b)
join _ _ = none

abbrev pub listed : ℕ × ℕ × ℕ × ℕ → List ℕ
listed (a, b, c, d) = a ∷ b ∷ c ∷ d ∷ []

unfoldable pub to_bytes : ⦃fl : Floats⦄ → BloomFilter → Option (List ℕ)
to_bytes ⦃fl⦄ f = join (pack f.n_bits) (
    join (pack f.n_hashes) (join (pack f.count) (some (listed (fl.pack_f f.error_rate) ++ f.bits))))

-- struct.unpack("<I", ...)
abbrev pub unpack : ℕ → ℕ → ℕ → ℕ → ℕ
unpack a b c d = a + 256 * b + 65536 * c + 16777216 * d

-- The capacity is the count; fewer than 16 bytes make `unpack` raise.
unfoldable pub from_bytes : ⦃fl : Floats⦄ → List ℕ → Option BloomFilter
from_bytes ⦃fl⦄
      (a0 ∷ a1 ∷ a2 ∷ a3 ∷ b0 ∷ b1 ∷ b2 ∷ b3 ∷ c0 ∷ c1 ∷ c2 ∷ c3 ∷ r0 ∷ r1 ∷ r2 ∷ r3 ∷ bits) =
    some (record {
      capacity = unpack c0 c1 c2 c3;
      error_rate = fl.unpack_f (r0, r1, r2, r3);
      n_bits = unpack a0 a1 a2 a3;
      n_hashes = unpack b0 b1 b2 b3;
      bits = bits;
      count = unpack c0 c1 c2 c3;
    })
from_bytes _ = none
