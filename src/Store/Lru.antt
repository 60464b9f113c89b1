-- ===== src/Store/Lru.antt =====
-- store/sos.py: the bounded cache `_LRUDict`. `order` holds the keys from the least to the most
-- recently used. `set` on an empty `order` with no room raises an IndexError in the source; a valid
-- cache with a positive bound has no such state (`Lru.Laws`), and here `set` then evicts nothing.
pub mod Order
pub mod Laws
mod Tests
use data_py_os.Base.{ℕ, Bool, Option, none, some, List, [], ◌∷◌, ◌++◌, leb, if◌then◌else◌}
use data_py_os.Base.Eq.{Eq, ◌==◌}
use data_py_os.Base.Dict.{Dict, lookup, insert, erase, has, size}

pub record LruDict {ℓ κ} (K : Type ℓ) (V : Type κ) : Type (ℓ ⊔ κ) where
  pub max_size : ℕ
  pub cache : Dict K V
  pub order : List K

abbrev pub empty {ℓ κ} : {K : Type ℓ} {V : Type κ} → ℕ → LruDict K V
empty n = record { max_size = n; cache = []; order = [] }

-- `list.remove`: the first occurrence goes
abbrev pub remove {ℓ} : {K : Type ℓ} ⦃e : Eq K⦄ → K → List K → List K
remove k [] = []
remove k (x ∷ xs) = if k == x then xs else x ∷ remove k xs

module _ {ℓ κ} {K : Type ℓ} {V : Type κ} ⦃e : Eq K⦄ where
  -- on a hit the key becomes the most recent one
  touch : K → Option V → LruDict K V → Option V × LruDict K V
  touch k none c = (none, c)
  touch k (some v) c = (some v, record c { order = remove k c.order ++ k ∷ [] })

  unfoldable pub get : K → LruDict K V → Option V × LruDict K V
  unfolding touch
  get k c = touch k (lookup k c.cache) c

  -- the keys and entries with the least recent key gone
  pub evict : List K → LruDict K V → LruDict K V
  evict [] c = c
  evict (old ∷ rest) c = record c { cache = erase old c.cache; order = rest }

  -- room for `k`: its old place in the order goes, or the least recent key if there is no room
  pub make_room : K → LruDict K V → LruDict K V
  unfolding evict
  make_room k c =
      if has k c.cache
      then record c { order = remove k c.order }
      else if leb c.max_size (size c.cache)
      then evict c.order c
      else c

  unfoldable pub set : K → V → LruDict K V → LruDict K V
  unfolding make_room
  set k v c =
      let c' = make_room k c in
      record c' { cache = insert k v c'.cache; order = c'.order ++ k ∷ [] }

  unfoldable pub invalidate : K → LruDict K V → LruDict K V
  invalidate k c =
      if has k c.cache then record c { cache = erase k c.cache; order = remove k c.order } else c
