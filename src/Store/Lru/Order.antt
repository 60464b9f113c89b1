-- ===== src/Store/Lru/Order.antt =====
-- store/sos.py: the order of `_LRUDict` lists the keys of its cache, through every change.
use data_py_os.Base.{
  suc, ◌≤◌, ◌<◌, ◌≡◌, refl, ◌∙◌, ap, true, false, ◌&&◌, ◌||◌, not, Option, List, [], ◌∷◌, ◌++◌,
  arith,
}
use data_py_os.Base.Eq.{Eq, ◌==◌, ==_refl}
use data_py_os.Base.Dict.{
  Dict, lookup, insert, erase, has, size, IsDict, insert-IsDict, erase-IsDict, lookup-insert,
  lookup-erase, size-insert, size-erase,
}
use data_py_os.Base.Lists.{elem, length}
use data_py_os.Store.Lru.{LruDict, remove, evict}

module _ {ℓ} {K : Type ℓ} ⦃e : Eq K⦄ where
  -- No element twice.
  abbrev pub Distinct : List K → Type 0
  Distinct [] = Unit
  Distinct (x ∷ xs) = (elem x xs ≡ false) × Distinct xs

  elem-append : (k : K) (xs ys : List K) → elem k (xs ++ ys) ≡ (elem k xs || elem k ys)
  elem-append k [] ys = refl
  elem-append k (x ∷ xs) ys = ground (arith, elem-append k xs ys)

  length-snoc : (xs : List K) (k : K) → length (xs ++ k ∷ []) ≡ suc (length xs)
  length-snoc [] k = refl
  length-snoc (x ∷ xs) k = ap suc (length-snoc xs k)

  Distinct-snoc : (xs : List K) (k : K) → Distinct xs → elem k xs ≡ false → Distinct (xs ++ k ∷ [])
  Distinct-snoc [] k h n = (refl, tt)
  Distinct-snoc (x ∷ xs) k h n =
      ground
        (arith, elem-append x xs (k ∷ []), Distinct-snoc xs k h.1, e.beq_iff x k, e.beq_iff k x)

  pub elem-remove :
      (j k : K) (xs : List K) → Distinct xs → elem j (remove k xs) ≡ (not (j == k) && elem j xs)
  elem-remove j k [] h = ground arith
  elem-remove j k (x ∷ xs) h =
      ground (arith, e.beq_iff j k, e.beq_iff k x, e.beq_iff j x, elem-remove j k xs h.1)

  pub Distinct-remove : (k : K) (xs : List K) → Distinct xs → Distinct (remove k xs)
  Distinct-remove k [] h = tt
  Distinct-remove k (x ∷ xs) h = ground (arith, elem-remove x k xs h.1, Distinct-remove k xs h.1)

  pub length-remove :
      (k : K) (xs : List K) → elem k xs ≡ true → suc (length (remove k xs)) ≡ length xs
  length-remove k [] h = ground arith
  length-remove k (x ∷ xs) h = ground (arith, length-remove k xs)

module _ {ℓ κ} {K : Type ℓ} {V : Type κ} ⦃e : Eq K⦄ where
  -- The order lists exactly the keys of the cache, each once.
  pub record Tracks (c : LruDict K V) : Type (ℓ ⊔ κ) where
    pub keys : IsDict c.cache
    pub distinct : Distinct c.order
    pub same : (k : K) → elem k c.order ≡ has k c.cache
    pub counted : length c.order ≡ size c.cache

  pub record IsValid (c : LruDict K V) : Type (ℓ ⊔ κ) where
    pub tracks : Tracks c
    pub bounded : size c.cache ≤ c.max_size
    pub positive : 0 < c.max_size

  -- The cache as a partial map.
  abbrev pub entry : K → LruDict K V → Option V
  entry k c = lookup k c.cache

  -- the entry and the key at the most recent end
  abbrev pub push : K → V → LruDict K V → LruDict K V
  push k v c = record c { cache = insert k v c.cache; order = c.order ++ k ∷ [] }

  -- without the key in the order
  abbrev pub lift_out : K → LruDict K V → LruDict K V
  lift_out k c = record c { order = remove k c.order }

  pub has-insert : (j k : K) (v : V) (d : Dict K V) → has j (insert k v d) ≡ ((j == k) || has j d)
  has-insert j k v d = ground (arith, lookup-insert j k v d)

  pub has-erase :
      (j k : K) (d : Dict K V) → IsDict d → has j (erase k d) ≡ (not (j == k) && has j d)
  has-erase j k d h = ground (arith, lookup-erase j k d h)

  pub push-Tracks :
      (k : K) (v : V) (c : LruDict K V) → Tracks c → has k c.cache ≡ false → Tracks (push k v c)
  push-Tracks k v c t h = record {
    keys = insert-IsDict k v c.cache t.keys;
    distinct = Distinct-snoc c.order k t.distinct (t.same k ∙ h);
    same = λ j.
        ground (
          arith,
          elem-append j c.order (k ∷ []),
          has-insert j k v c.cache,
          t.same j,
          e.beq_iff j k,
        );
    counted = ground (arith, length-snoc c.order k, size-insert k v c.cache, t.counted);
  }

  -- a hit: the key moves to the recent end, and the entry is written or not
  pub repush-Tracks :
      (k : K) (v : V) (c : LruDict K V)
      → Tracks c
      → has k c.cache ≡ true
      → Tracks (push k v (lift_out k c))
  repush-Tracks k v c t h = record {
    keys = insert-IsDict k v c.cache t.keys;
    distinct =
        Distinct-snoc (remove k c.order) k (Distinct-remove k c.order t.distinct)
          (ground (arith, elem-remove k k c.order t.distinct, ==_refl k));
    same = λ j. ground (
      arith,
      elem-append j (remove k c.order) (k ∷ []),
      elem-remove j k c.order t.distinct,
      has-insert j k v c.cache,
      t.same j,
    );
    counted = ground (
      arith,
      length-snoc (remove k c.order) k,
      length-remove k c.order (t.same k ∙ h),
      size-insert k v c.cache,
      t.counted,
    );
  }

  pub evict-Tracks : (o : List K) (c : LruDict K V) → c.order ≡ o → Tracks c → Tracks (evict o c)
  unfolding evict
  evict-Tracks [] c p t = t
  evict-Tracks (old ∷ rest) c p t =
      let d : Distinct (old ∷ rest) = rw p at t.distinct in
      let here : has old c.cache ≡ true = ground (arith, t.same old, p, ==_refl old) in
      record {
        keys = erase-IsDict old c.cache t.keys;
        distinct = d.1;
        same = λ j. ground (arith, p, t.same j, has-erase j old c.cache t.keys, e.beq_iff j old, d);
        counted = omega (arith, ap length p, size-erase old c.cache here, t.counted);
      }
