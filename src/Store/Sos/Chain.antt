-- ===== src/Store/Sos/Chain.antt =====
-- store/sos.py: version chains, and the walk of `history` along them.
use data_py_os.Base.{
  ℕ, zero, suc, ◌≤◌, ◌≡◌, refl, sym, ap, ◌∙◌, ◌⊎◌, inl, inr, Option, none, some, List, [], ◌∷◌,
  arith,
}
use data_py_os.Base.Eq.{text_eq, Text}
use data_py_os.Base.Dict.{Dict, lookup}
use data_py_os.Store.Lru
use data_py_os.Store.Lru.{LruDict}
use data_py_os.Store.Lru.Order.{entry}
use data_py_os.Store.Lru.Laws.{get_lem, get-IsValid, entry-set}
use data_py_os.Store.Sos.Types.{Host, SObject, Sos}
use data_py_os.Store.Sos.Objects.{get, fetch, load}
use data_py_os.Store.Sos.Aliases.{resolve}
use data_py_os.Store.Sos.History.{walk, visit, onto, history}
use data_py_os.Store.Sos.Coherent.{Coherent, Reads, target, oid_in, resolve-Reads, get-Reads}
use data_py_os.Store.Sos.Versions.{obj_cache-resolve}

-- The object that a row names as its parent is there, one version back; a row without a parent is
-- version 1.
abbrev pub Follows : SObject → Dict Text SObject → Type 0
Follows row objects =
    ((row.parent_oid ≡ none) × (row.version ≡ 1))
    ⊎ ((q : Text) × (prev : SObject) × (row.parent_oid ≡ some q)
        × (lookup q objects ≡ some prev)
        × (row.version ≡ suc prev.version))

-- Cached objects have the parents and versions of their rows.
abbrev pub Aligned : LruDict Text SObject → Dict Text SObject → Type 0
Aligned cache objects =
    (oid : Text) (o row : SObject)
    → entry oid cache ≡ some o
    → lookup oid objects ≡ some row
    → (o.parent_oid ≡ row.parent_oid) × (o.version ≡ row.version)

-- Versions count down to 1 along a chain of that many objects.
abbrev pub Counts : ℕ → List SObject → Type 0
Counts n [] = n ≡ 0
Counts n (o ∷ chain) = (m : ℕ) × (n ≡ suc m) × (o.version ≡ n) × Counts m chain

module _ ⦃h : Host⦄ where
  pub record Sound (s : Sos) : Type 0 where
    pub coherent : Coherent s
    pub aligned : Aligned s.obj_cache s.objects
    pub versioned :
        (oid : Text) (row : SObject) → lookup oid s.objects ≡ some row → Follows row s.objects
    pub pointed :
        (path oid : Text)
        → target path s ≡ some oid
        → (row : SObject) × (lookup oid s.objects ≡ some row)

  -- what a read leaves, if the cache stays aligned
  Reads-Sound : {s t : Sos} → Sound s → Reads s t → Aligned t.obj_cache s.objects → Sound t
  Reads-Sound {s} {t} k r a = record {
    coherent = r.coherent;
    aligned = λ oid o row e q. a oid o row e (ap (lookup oid) (sym r.tables.objects) ∙ q);
    versioned = λ oid row q.
        rw r.tables.objects (k.versioned oid row (ap (lookup oid) (sym r.tables.objects) ∙ q));
    pointed = λ path oid q.
        let (row, e) =
          k.pointed path oid (ap (λ d. oid_in (lookup path d)) (sym r.tables.aliases) ∙ q) in
        (row, ap (lookup oid) r.tables.objects ∙ e);
  }

  pub resolve-Sound : (path : Text) (s : Sos) → Sound s → Sound (resolve path s).1
  resolve-Sound path s k =
      Reads-Sound k (resolve-Reads path s k.coherent).1 (λ oid o row e q.
        k.aligned oid o row (ap (entry oid) (sym (obj_cache-resolve path s)) ∙ e) q)

  fetch-Sound :
      (oid : Text) (row : SObject) (s : Sos) (c : LruDict Text SObject) (hit : Option SObject)
      → Sound s
      → lookup oid s.objects ≡ some row
      → Lru.Order.IsValid c
      → c.cache ≡ s.obj_cache.cache
      → entry oid s.obj_cache ≡ hit
      → ((o : SObject) × ((fetch oid (hit, c) s).0 ≡ some o)
          × (o.parent_oid ≡ row.parent_oid)
          × (o.version ≡ row.version))
        × Aligned (fetch oid (hit, c) s).1.obj_cache s.objects
  unfolding fetch
  fetch-Sound oid row s c (some o) k q v same e = (
    (o, refl, (k.aligned oid o row e q).0, (k.aligned oid o row e q).1),
    λ i x r p. k.aligned i x r (ap (lookup i) (sym same) ∙ p),
  )
  fetch-Sound oid row s c none k q v same e =
      rw (q, load)
        (
          (row, refl, refl, refl),
          λ i x r p p'. elim (entry-set i oid row c v p) [
            | inr (_, old) ↦ k.aligned i x r (ap (lookup i) (sym same) ∙ old) p'
            | inl (at, is) ↦
                let one : x ≡ r = cc (is, ap (λ z. lookup z s.objects) at, q, p') in
                (ap (λ (z : SObject). z.parent_oid) one, ap (λ (z : SObject). z.version) one)
          ],
        )

  pub get-Sound :
      (oid : Text) (row : SObject) (s : Sos)
      → Sound s
      → lookup oid s.objects ≡ some row
      → ((o : SObject) × ((get oid s).0 ≡ some o)
          × (o.parent_oid ≡ row.parent_oid)
          × (o.version ≡ row.version))
        × Sound (get oid s).1
  unfolding get
  get-Sound oid row s k q =
      let (answer, same) = get_lem oid s.obj_cache in
      let (found, aligned) =
        fetch-Sound oid row s (Lru.get oid s.obj_cache).1 (Lru.get oid s.obj_cache).0 k q
          (get-IsValid oid s.obj_cache k.coherent.obj_cache) same (sym answer) in
      (found, Reads-Sound k (get-Reads oid s k.coherent).1 aligned)

  walk-none : (fuel : ℕ) (s : Sos) → (walk fuel none s).0 ≡ some []
  unfolding walk
  walk-none zero s = refl
  walk-none (suc fuel) s = refl

  -- one round of the walk: the object that is found goes in front of the chain behind it
  walk_onto :
      (fuel : ℕ) (oid : Text) (o : SObject) (p : Option Text) (chain : List SObject) (s : Sos)
      → (get oid s).0 ≡ some o
      → o.parent_oid ≡ p
      → (walk fuel p (get oid s).1).0 ≡ some chain
      → (walk (suc fuel) (some oid) s).0 ≡ some (o ∷ chain)
  unfolding walk
  walk_onto fuel oid o p chain s is par e =
      rw (is, visit) (ap (onto o) (ap (λ z. (walk fuel z (get oid s).1).0) par ∙ e))

  walk-Counts :
      (fuel : ℕ) (oid : Text) (row : SObject) (s : Sos)
      → Sound s
      → lookup oid s.objects ≡ some row
      → row.version ≤ fuel
      → (chain : List SObject) × ((walk fuel (some oid) s).0 ≡ some chain)
        × Counts row.version chain
  walk-Counts zero oid row s k q le = elim (k.versioned oid row q) [
    | inl (_, first) ↦ absurd (omega (arith, first))
    | inr (_, prev, _, _, next) ↦ absurd (omega (arith, next))
  ]
  walk-Counts (suc fuel) oid row s k q le =
      let ((o, is, par, ver), k') = get-Sound oid row s k q in
      let s' = (get oid s).1 in
      elim (k.versioned oid row q) [
        | inl (alone, first) ↦ (
          o ∷ [],
          walk_onto fuel oid o none [] s is (par ∙ alone) (walk-none fuel s'),
          (0, first, ver, refl),
        )
        | inr (parent, prev, named, found, next) ↦
            let there = ap (lookup parent) (get-Reads oid s k.coherent).1.tables.objects ∙ found in
            let (chain, e, counts) =
              walk-Counts fuel parent prev s' k' there (omega (arith, next, le)) in
            (
              o ∷ chain,
              walk_onto fuel oid o (some parent) chain s is (par ∙ named) e,
              (prev.version, next, ver, counts),
            )
      ]

  -- In a sound store the history of a path ends: with as many rounds as the version of the object
  -- that the path stands for, it is a chain whose versions are that one, the one before, down to 1.
  pub history-Counts :
      (fuel : ℕ) (path oid : Text) (row : SObject) (s : Sos)
      → Sound s
      → target path s ≡ some oid
      → lookup oid s.objects ≡ some row
      → row.version ≤ fuel
      → (chain : List SObject) × ((history fuel path s).0 ≡ some chain) × Counts row.version chain
  unfolding history
  history-Counts fuel path oid row s k at found le =
      let (answer, r) = resolve-Reads path s k.coherent in
      rw (answer ∙ at) (
        walk-Counts fuel oid row (resolve path s).1 (resolve-Sound path s k)
          (ap (lookup oid) r.tables.objects ∙ found) le)
