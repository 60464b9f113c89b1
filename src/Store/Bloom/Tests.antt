-- ===== src/Store/Bloom/Tests.antt =====
-- store/bloom.py: runs with small digests, and the theorems at concrete inputs.
use data_py_os.Base.{
  ℕ, ◌+◌, ◌*◌, ◌/◌, ◌%◌, ◌≡◌, ◌↔◌, refl, inl, inr, true, false, some, List, [], ◌∷◌, arith,
}
use data_py_os.Base.Eq.{Text, chars, text_beq}
use data_py_os.Base.Lists.{All}
use data_py_os.Store.Paths.{parent_of, parts_of, name_of, strip, lower}
use data_py_os.Store.Lru
use data_py_os.Store.Sos.Types.{Host, str, init as empty, oid_of}
use data_py_os.Store.Sos.Objects.{store, get, get_parent, put_object, index_tags, index_links}
use data_py_os.Store.Sos.Aliases.{resolve, alias, exists}
use data_py_os.Store.Sos.Files.{write, ensure_dir, mkdir, make_dirs, make_dir, parent_exists}
use data_py_os.Store.Sos.Extending.{init-Sound}
use data_py_os.Store.Bloom.{
  Digests, Floats, BloomFilter, init, add, contains, hashes, to_bytes, from_bytes,
}
use data_py_os.Store.Bloom.Membership.{init-IsValid, add_all, Hit, no_false_negative, contains_iff}
use data_py_os.Store.Bloom.Packing.{loaded, from_bytes-to_bytes}
use data_py_os.Store.Bloom.Index.{
  BloomIndex, build, add_path, fast_exists, might_exist, write_and_index,
}
use data_py_os.Store.Bloom.Asking.{fast_exists-exists}

abbrev first : Text → ℕ
first [] = 1
first (c ∷ s) = c

abbrev sum : Text → ℕ
sum [] = 1
sum (c ∷ s) = c + sum s

instance abbrev small : Digests
small = record { sha256 = first; md5 = sum }

instance abbrev plain : Host
plain = record { hexdigest = λ b. b; encode = λ t. t; decode = λ b. b }

abbrev sizes : ℕ → ℕ × ℕ
sizes n = (64, 2)

abbrev items : List Text
items = chars "/a" ∷ chars "/b" ∷ []

found : contains (chars "/b") (add_all items (init 10 7 64 3)) ≡ true
unfolding contains add hashes init
found = refl

not_found : contains (chars "x") (add_all items (init 10 7 64 3)) ≡ false
unfolding contains add hashes init
not_found = refl

no_false_negative_example : contains (chars "/b") (add_all items (init 10 7 64 3)) ≡ true
no_false_negative_example =
    no_false_negative (chars "/b") items (init 10 7 64 3) (init-IsValid 10 7 64 3 (omega arith))
      (inr (inr (inl refl)))

contains_iff_example :
    (contains (chars "/b") (add_all items (init 10 7 64 3)) ≡ true)
    ↔ All (Hit items (init 10 7 64 3)) (hashes (chars "/b") (init 10 7 64 3))
contains_iff_example = contains_iff (chars "/b") items 10 7 64 3 (omega arith)

abbrev tiny : BloomFilter
tiny = record {
  capacity = 500;
  error_rate = 1000;
  n_bits = 16;
  n_hashes = 2;
  bits = 5 ∷ 9 ∷ [];
  count = 300;
}

-- A packing that keeps two bytes of a number.
instance abbrev floats : Floats
floats = record { pack_f = λ n. (n % 256, n / 256 % 256, 0, 0); unpack_f = λ b. b.0 + 256 * b.1 }

from_bytes-to_bytes_example :
    (bytes : List ℕ) × (to_bytes tiny ≡ some bytes)
    × (from_bytes bytes ≡ some (loaded tiny))
    × (contains (chars "/b") (loaded tiny) ≡ contains (chars "/b") tiny)
from_bytes-to_bytes_example =
    from_bytes-to_bytes tiny (chars "/b")
      (record { n_bits = omega arith; n_hashes = omega arith; count = omega arith })

abbrev index : BloomIndex
index = record { filter = some (build 7 sizes empty); saves = 0; total = 0 }

fast_exists-exists_example :
    (fast_exists (chars "/a") index empty).0 ≡ (exists (chars "/a") empty).0
fast_exists-exists_example =
    fast_exists-exists 7 sizes (chars "/a") index empty init-Sound.coherent (λ n. omega arith) refl

-- The directory that a write makes is not in the filter: the index denies it, though it exists.
parent_denied :
    let (oid, index', s') =
      write_and_index 1 (chars "/a/x") (str (chars "c")) (chars "text") [] [] index empty in
    ((fast_exists (chars "/a") index' s').0 ≡ false) × ((exists (chars "/a") s').0 ≡ true)
unfolding write_and_index add_path fast_exists might_exist build contains add hashes init exists
    write store resolve get_parent put_object alias parent_of parts_of name_of oid_of text_beq
    index_tags index_links get Lru.get Lru.set ensure_dir mkdir make_dirs make_dir parent_exists
    strip lower
parent_denied = (refl, refl)
