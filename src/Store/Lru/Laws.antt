-- ===== src/Store/Lru/Laws.antt =====
-- store/sos.py: the bounded cache never grows past its bound, and holds what was set last.
use data_py_os.Base.{
  ℕ, suc, ◌<◌, ◌≡◌, ◌≢◌, refl, ◌∙◌, sym, ap, ◌⊎◌, inl, inr, true, false, none, some, List, [], ◌∷◌,
  arith, leb, if◌then◌else◌, Bool-cases, Option-cases,
}
use data_py_os.Base.Eq.{Eq, ◌==◌, ==_refl}
use data_py_os.Base.Dict.{
  Dict, lookup, insert, has, size, IsDict, erase-IsDict, lookup-insert, lookup-insert_self,
  lookup-erase, size-insert, size-erase,
}
use data_py_os.Base.Lists.{length}
use data_py_os.Store.Lru.{LruDict, empty, get, set, invalidate, evict, make_room}
use data_py_os.Store.Lru.Order.{
  Tracks, IsValid, Distinct-remove, elem-remove, length-remove, entry, push, lift_out, has-erase,
  push-Tracks, repush-Tracks, evict-Tracks,
}

module _ {ℓ κ} {K : Type ℓ} {V : Type κ} ⦃e : Eq K⦄ where
  has-evict :
      (k : K) (o : List K) (c : LruDict K V)
      → IsDict c.cache
      → has k c.cache ≡ false
      → has k (evict o c).cache ≡ false
  unfolding evict
  has-evict k [] c u h = h
  has-evict k (old ∷ rest) c u h = ground (arith, has-erase k old c.cache u, h)

  set_hit :
      (k : K) (v : V) (c : LruDict K V) → has k c.cache ≡ true → set k v c ≡ push k v (lift_out k c)
  unfolding set
  set_hit k v c h = rw h

  set_full :
      (k : K) (v : V) (c : LruDict K V)
      → has k c.cache ≡ false
      → leb c.max_size (size c.cache) ≡ true
      → set k v c ≡ push k v (evict c.order c)
  unfolding set
  set_full k v c h full = rw (h, full)

  set_room :
      (k : K) (v : V) (c : LruDict K V)
      → has k c.cache ≡ false
      → leb c.max_size (size c.cache) ≡ false
      → set k v c ≡ push k v c
  unfolding set
  set_room k v c h room = rw (h, room)

  size-evict :
      (o : List K) (c : LruDict K V)
      → c.order ≡ o
      → Tracks c
      → 0 < size c.cache
      → (suc (size (evict o c).cache) ≡ size c.cache) × ((evict o c).max_size ≡ c.max_size)
  unfolding evict
  size-evict [] c p t h = absurd (omega (arith, ap length p, t.counted))
  size-evict (old ∷ rest) c p t h =
      let here : has old c.cache ≡ true = ground (arith, t.same old, p, ==_refl old) in
      (size-erase old c.cache here, refl)

  -- Setting a key in a valid cache leaves it valid, its bound included.
  pub set-IsValid : (k : K) (v : V) (c : LruDict K V) → IsValid c → IsValid (set k v c)
  set-IsValid k v c w = elim (Bool-cases (has k c.cache)) [
    | inl hit ↦ rw (set_hit k v c hit) (record {
      tracks = repush-Tracks k v c w.tracks hit;
      bounded = ground (arith, size-insert k v c.cache, hit, w.bounded);
      positive = w.positive;
    })
    | inr miss ↦ elim (Bool-cases (leb c.max_size (size c.cache))) [
      | inr room ↦ rw (set_room k v c miss room) (record {
        tracks = push-Tracks k v c w.tracks miss;
        bounded = ground (arith, size-insert k v c.cache, miss, room);
        positive = w.positive;
      })
      | inl full ↦
          let less = size-evict c.order c refl w.tracks (ground (arith, full, w.positive)) in
          let gone = has-evict k c.order c w.tracks.keys miss in
          rw (set_full k v c miss full) (record {
            tracks = push-Tracks k v (evict c.order c) (evict-Tracks c.order c refl w.tracks) gone;
            bounded =
                ground (
                  arith,
                  size-insert k v (evict c.order c).cache,
                  gone,
                  less,
                  w.bounded,
                  w.positive,
                );
            positive = omega (arith, less.1, w.positive);
          })
    ]
  ]

  pub entry-set_self : (k : K) (v : V) (c : LruDict K V) → entry k (set k v c) ≡ some v
  unfolding set
  entry-set_self k v c = lookup-insert_self k v (make_room k c).cache

  entry-evict :
      (j : K) {w : V} (o : List K) (c : LruDict K V)
      → IsDict c.cache
      → entry j (evict o c) ≡ some w
      → entry j c ≡ some w
  unfolding evict
  entry-evict j [] c u h = h
  entry-evict j (old ∷ rest) c u h = ground (arith, lookup-erase j old c.cache u, h)

  entry-make_room :
      (j k : K) {w : V} (c : LruDict K V)
      → IsDict c.cache
      → entry j (make_room k c) ≡ some w
      → entry j c ≡ some w
  unfolding make_room
  entry-make_room j k {w} c u h = ground (arith, entry-evict j {w = w} c.order c u)

  -- What a cache holds after `set` is the new entry or was there before.
  pub entry-set :
      (j k : K) (v : V) {w : V} (c : LruDict K V)
      → IsValid c
      → entry j (set k v c) ≡ some w
      → ((j ≡ k) × (v ≡ w)) ⊎ ((j ≢ k) × (entry j c ≡ some w))
  unfolding set
  entry-set j k v {w} c valid h =
      let d = (make_room k c).cache in
      let found = sym (lookup-insert j k v d) ∙ h in
      elim (Bool-cases (j == k)) [
        | inl same ↦ inl ((e.beq_iff j k).0 same, cc (rw same at found))
        | inr other ↦ inr (
          λ p. cc (other, (e.beq_iff j k).1 p),
          entry-make_room j k c valid.tracks.keys (rw other at found),
        )
      ]

  -- Setting a key in a valid cache leaves it valid, so within its bound and with one place in the
  -- order for each key; the key is found with the new value, and what is found under another key
  -- was there before.
  pub set_lem :
      (j k : K) (v w : V) (c : LruDict K V)
      → IsValid c
      → j ≢ k
      → IsValid (set k v c)
        × (entry k (set k v c) ≡ some v)
        × ((entry j (set k v c) ≡ some w) → (entry j c ≡ some w))
  set_lem j k v w c valid ne = (
    set-IsValid k v c valid,
    entry-set_self k v c,
    λ h. elim (entry-set j k v {w = w} c valid h) [ inl new ↦ absurd (ne new.0) | inr old ↦ old.1 ],
  )

  -- A lookup answers from the entries and leaves them alone; the cache stays valid.
  pub get_lem :
      (k : K) (c : LruDict K V) → ((get k c).0 ≡ entry k c) × ((get k c).1.cache ≡ c.cache)
  unfolding get
  get_lem k c = elim (Option-cases (lookup k c.cache)) [
    | inl miss ↦ rw miss (refl, refl)
    | inr (v, hit) ↦ rw hit (refl, refl)
  ]

  insert_same : (k : K) {v : V} (d : Dict K V) → lookup k d ≡ some v → insert k v d ≡ d
  insert_same k [] h = ground arith
  insert_same k {v} ((j, w) ∷ d) h = ground (arith, e.beq_iff k j, insert_same k {v = v} d)

  pub get-IsValid : (k : K) (c : LruDict K V) → IsValid c → IsValid (get k c).1
  unfolding get
  get-IsValid k c w = elim (Option-cases (lookup k c.cache)) [
    | inl miss ↦ rw miss w
    | inr (v, hit) ↦
        let moved = repush-Tracks k v c w.tracks (rw hit) in
        rw hit (record {
          tracks = rw (insert_same k c.cache hit) at moved;
          bounded = w.bounded;
          positive = w.positive;
        })
  ]

  -- An invalidated key is not found, and the other entries stay.
  pub entry-invalidate :
      (j k : K) (c : LruDict K V)
      → IsValid c
      → entry j (invalidate k c) ≡ (if j == k then none else entry j c)
  unfolding invalidate
  entry-invalidate j k c w = ground (arith, lookup-erase j k c.cache w.tracks.keys, e.beq_iff j k)

  pub invalidate-IsValid : (k : K) (c : LruDict K V) → IsValid c → IsValid (invalidate k c)
  unfolding invalidate
  invalidate-IsValid k c w = elim (Bool-cases (has k c.cache)) [
    | inr miss ↦ rw miss w
    | inl hit ↦
        let fewer = size-erase k c.cache hit in
        rw hit (record {
          tracks = record {
            keys = erase-IsDict k c.cache w.tracks.keys;
            distinct = Distinct-remove k c.order w.tracks.distinct;
            same = λ j. ground (
              arith,
              elem-remove j k c.order w.tracks.distinct,
              has-erase j k c.cache w.tracks.keys,
              w.tracks.same j,
            );
            counted =
                omega
                  (arith, fewer, length-remove k c.order (w.tracks.same k ∙ hit), w.tracks.counted);
          };
          bounded = omega (arith, fewer, w.bounded);
          positive = w.positive;
        })
  ]

pub empty-IsValid {ℓ κ} :
    {K : Type ℓ} {V : Type κ} ⦃e : Eq K⦄ (n : ℕ) → 0 < n → IsValid (empty {K = K} {V = V} n)
empty-IsValid n h = record {
  tracks = record { keys = tt; distinct = tt; same = λ k. refl; counted = refl };
  bounded = omega arith;
  positive = h;
}
