-- ===== src/Store/Bloom/Packing.antt =====
-- store/bloom.py: a filter that is saved and loaded answers as before.
use data_py_os.Base.{ℕ, ◌/◌, ◌%◌, ◌<◌, ◌≡◌, refl, ap, some, List, ◌++◌, arith}
use data_py_os.Base.Eq.{Text}
use data_py_os.Store.Bloom.{
  Digests, Floats, listed, contains, hashes, BloomFilter, four, pack, unpack, to_bytes, from_bytes,
}

-- What `struct` can pack.
pub record Packs (f : BloomFilter) : Type 0 where
  pub n_bits : f.n_bits < 4294967296
  pub n_hashes : f.n_hashes < 4294967296
  pub count : f.count < 4294967296

unpack-pack : (n : ℕ) → unpack (n % 256) (n / 256 % 256) (n / 65536 % 256) (n / 16777216) ≡ n
unpack-pack n = omega arith

pack_lem : (n : ℕ) → n < 4294967296 → pack n ≡ some (four n)
pack_lem n h = ground arith

-- What loading makes of a filter that was saved: the capacity is the count, and the rate is what single precision leaves of it.
abbrev pub loaded : ⦃fl : Floats⦄ → BloomFilter → BloomFilter
loaded ⦃fl⦄ f = record f { capacity = f.count; error_rate = fl.unpack_f (fl.pack_f f.error_rate) }

-- A filter whose numbers fit into 32 bits can be saved, and loading the bytes gives its bits, sizes and count back; its capacity
-- becomes the count and its rate is rounded. The loaded filter answers for every item as the saved one.
pub from_bytes-to_bytes :
    ⦃d : Digests⦄ ⦃fl : Floats⦄ (f : BloomFilter) (item : Text)
    → Packs f
    → (bytes : List ℕ) × (to_bytes f ≡ some bytes)
      × (from_bytes bytes ≡ some (loaded f))
      × (contains item (loaded f) ≡ contains item f)
unfolding to_bytes from_bytes contains hashes
from_bytes-to_bytes ⦃d⦄ ⦃fl⦄ f item p =
    let count =
      unpack (f.count % 256) (f.count / 256 % 256) (f.count / 65536 % 256) (f.count / 16777216) in
    let g : BloomFilter = record {
      capacity = count;
      error_rate = fl.unpack_f (fl.pack_f f.error_rate);
      n_bits =
          unpack (f.n_bits % 256) (f.n_bits / 256 % 256) (f.n_bits / 65536 % 256)
            (f.n_bits / 16777216);
      n_hashes =
          unpack (f.n_hashes % 256) (f.n_hashes / 256 % 256) (f.n_hashes / 65536 % 256)
            (f.n_hashes / 16777216);
      bits = f.bits;
      count = count;
    } in
    let same : g ≡ loaded f =
      cc (unpack-pack f.n_bits, unpack-pack f.n_hashes, unpack-pack f.count) in
    (
      four f.n_bits
          ++ (four f.n_hashes ++ (four f.count ++ (listed (fl.pack_f f.error_rate) ++ f.bits))),
      rw (pack_lem f.n_bits p.n_bits, pack_lem f.n_hashes p.n_hashes, pack_lem f.count p.count)
          refl,
      ap some same,
      refl,
    )
