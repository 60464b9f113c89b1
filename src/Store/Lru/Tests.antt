-- ===== src/Store/Lru/Tests.antt =====
-- store/sos.py: a run of the cache, and its theorem at a concrete input.
use data_py_os.Base.{ℕ, ◌≡◌, refl, none, some, arith}
use data_py_os.Base.Eq.{nat_eq}
use data_py_os.Store.Lru.{LruDict, empty, get, set}
use data_py_os.Store.Lru.Order.{IsValid, entry}
use data_py_os.Store.Lru.Laws.{empty-IsValid, set-IsValid, set_lem}

abbrev full : LruDict ℕ ℕ
full = set 2 20 (set 1 10 (empty 2))

-- The lookup of 1 makes 2 the least recent key, which the next `set` evicts.
eviction :
    ((get 2 (set 3 30 (get 1 full).1)).0 ≡ none) × ((get 1 (set 3 30 (get 1 full).1)).0 ≡ some 10)
unfolding get set
eviction = (refl, refl)

full-IsValid : IsValid full
full-IsValid =
    set-IsValid 2 20 (set 1 10 (empty 2))
      (set-IsValid 1 10 (empty 2) (empty-IsValid 2 (omega arith)))

set_lem_example :
    IsValid (set 3 30 full)
    × (entry 3 (set 3 30 full) ≡ some 30)
    × ((entry 2 (set 3 30 full) ≡ some 20) → (entry 2 full ≡ some 20))
set_lem_example = set_lem 2 3 30 20 full full-IsValid (omega arith)
