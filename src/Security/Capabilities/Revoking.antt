-- ===== src/Security/Capabilities/Revoking.antt =====
-- security/capabilities.py: what `revoke` does to the tokens delegated from a token.
use data_py_os.Base.{
  ℕ, zero, suc, ◌≤◌, ◌≡◌, refl, sym, ap, ◌∙◌, ◌⊎◌, inl, inr, true, false, some, List, [], ◌∷◌,
  arith, Option-cases, Bool-cases,
}
use data_py_os.Base.Eq.{◌==◌, text_eq, text_beq_iff, Text}
use data_py_os.Base.Dict.{Dict, lookup, insert}
use data_py_os.Base.Lists.{elem}
use data_py_os.Store.Sos.Types.{Host}
use data_py_os.Security.Capabilities.Types.{Capability, Json, Caps, keys, is_live_child, is_valid}
use data_py_os.Security.Capabilities.Methods.{
  save, cascade, revoke, revoke_found, check, check_found,
}
use data_py_os.Security.Capabilities.Cascade.{
  parent_at, revoked_at, active, Filed, Filed-Later, Closed, Later, Later-refl, Later-trans, mark,
  active-mark, mark-Later, mark-Closed, revoked-mark, elem-keys,
}

-- What a revocation of `token` leaves of the cache `d`.
pub record Revoked (Except : Text → Type 0) (token : Text) (d e : Dict Text Capability)
    : Type 0 where
  pub later : Later d e
  pub gone : revoked_at token e ≡ true
  pub closed : Closed Except e

live_child_lem :
    (token k : Text) (d : Dict Text Capability)
    → is_live_child token (lookup k d) ≡ true
    → (cap : Capability) × (lookup k d ≡ some cap) × (cap.revoked ≡ false)
live_child_lem token k d h = elim (Option-cases (lookup k d)) [
  | inl e ↦ absurd (cc (rw e at h))
  | inr (cap, e) ↦ (cap, e, ground (arith, h, e))
]

no_live_child :
    (token k : Text) (d : Dict Text Capability)
    → is_live_child token (lookup k d) ≡ false
    → parent_at k d ≡ some token
    → revoked_at k d ≡ true
no_live_child token k d h named = ground (arith, text_beq_iff token token)

module _ ⦃h : Host⦄ ⦃j : Json⦄ (now : ℕ) where
  -- What the loop over the tokens `ks` leaves.
  record Cascaded (Except : Text → Type 0) (token : Text) (ks : List Text)
      (d e : Dict Text Capability) : Type 0 where
    later : Later d e
    closed : Closed Except e
    done : (k : Text) → elem k ks ≡ true → parent_at k d ≡ some token → revoked_at k e ≡ true

  -- A revocation of a token that is not revoked ends with as much fuel as there are such tokens.
  abbrev Ends : ℕ → Type 1
  Ends n =
      (Except : Text → Type 0) (k : Text) (cap : Capability) (m : Caps)
      → Filed m.cache
      → Closed Except m.cache
      → lookup k m.cache ≡ some cap
      → cap.revoked ≡ false
      → active m.cache ≤ n
      → (m' : Caps) × (revoke n now k m ≡ some (true, m')) × Revoked Except k m.cache m'.cache

  cascade_lem :
      (n : ℕ) (Except : Text → Type 0) (token : Text) (ks : List Text) (m : Caps)
      → Ends n
      → Filed m.cache
      → Closed Except m.cache
      → active m.cache ≤ n
      → (m' : Caps) × (cascade (revoke n now) token ks m ≡ some (true, m'))
        × Cascaded Except token ks m.cache m'.cache
  unfolding cascade
  cascade_lem n Except token [] m ends f c few =
      (m, refl, record { later = Later-refl m.cache; closed = c; done = λ k e. absurd (cc e) })
  cascade_lem n Except token (k ∷ ks) m ends f c few =
      elim (Bool-cases (is_live_child token (lookup k m.cache))) [
        | inr idle ↦
            let (m', is, r) = cascade_lem n Except token ks m ends f c few in
            (
              m',
              rw idle is,
              record {
                later = r.later;
                closed = r.closed;
                done = λ i here named. elim (Bool-cases (i == k)) [
                  | inl same ↦
                      r.later.stays i
                        (no_live_child token i m.cache (rw ((text_beq_iff i k).0 same) idle) named)
                  | inr other ↦ r.done i (rw other at here) named
                ];
              },
            )
        | inl live ↦
            let (cap, found, fresh) = live_child_lem token k m.cache live in
            let (m1, is1, r1) = ends Except k cap m f c found fresh few in
            let (m', is, r) =
              cascade_lem n Except token ks m1 ends (Filed-Later m.cache m1.cache f r1.later)
                r1.closed (omega (arith, r1.later.fewer, few)) in
            (
              m',
              rw (live, is1) is,
              record {
                later = Later-trans m.cache m1.cache m'.cache r1.later r.later;
                closed = r.closed;
                done = λ i here named. elim (Bool-cases (i == k)) [
                  | inl same ↦ r.later.stays i (rw ((text_beq_iff i k).0 same) r1.gone)
                  | inr other ↦ r.done i (rw other at here) (r1.later.parents i ∙ named)
                ];
              },
            )
      ]

  finish :
      (Except : Text → Type 0) (token : Text) (d e : Dict Text Capability)
      → Cascaded (λ p. (p ≡ token) ⊎ Except p) token (keys d) d e
      → revoked_at token d ≡ true
      → Revoked Except token d e
  finish Except token d e r gone = record {
    later = r.later;
    gone = r.later.stays token gone;
    closed = record {
      follows = λ k p named dead. elim (r.closed.follows k p named dead) [
        | inl h ↦ inl h
        | inr (inr h) ↦ inr h
        | inr (inl same) ↦
            let before : parent_at k d ≡ some token =
              sym (r.later.parents k) ∙ named ∙ ap some same in
            inl (r.done k (elem-keys k token d before) before)
      ];
    };
  }

  saved :
      (token : Text) (cap : Capability) (m : Caps)
      → cap.token ≡ token
      → (save now (mark cap) m).cache ≡ insert token (mark cap) m.cache
  unfolding save
  saved token cap m own = ap (λ t. insert t (mark cap) m.cache) own

  revoke_step :
      (n : ℕ) (Except : Text → Type 0) (token : Text) (cap : Capability) (m : Caps)
      → Ends n
      → Filed m.cache
      → Closed Except m.cache
      → lookup token m.cache ≡ some cap
      → active (insert token (mark cap) m.cache) ≤ n
      → (m' : Caps) × (revoke (suc n) now token m ≡ some (true, m'))
        × Revoked Except token m.cache m'.cache
  unfolding revoke
  revoke_step n Except token cap m ends f c found few =
      let m1 = save now (mark cap) m in
      let same = saved token cap m (f.own token cap found) in
      let l : Later m.cache m1.cache = rw same (mark-Later token cap m.cache found) in
      let gone : revoked_at token m1.cache ≡ true =
        rw same (ground (arith, revoked-mark token token cap m.cache, text_beq_iff token token)) in
      let c1 : Closed (λ p. (p ≡ token) ⊎ Except p) m1.cache =
        rw same (mark-Closed Except token cap m.cache found c) in
      let (m', is, r) =
        cascade_lem n (λ p. (p ≡ token) ⊎ Except p) token (keys m1.cache) m1 ends
          (Filed-Later m.cache m1.cache f l) c1 (rw same few) in
      let done = finish Except token m1.cache m'.cache r gone in
      (
        m',
        rw (found, revoke_found) is,
        record {
          later = Later-trans m.cache m1.cache m'.cache l done.later;
          gone = done.gone;
          closed = done.closed;
        },
      )

  revoke-Ends : (n : ℕ) → Ends n
  revoke-Ends zero Except k cap m f c found fresh few =
      absurd (ground (arith, active-mark k cap m.cache found, fresh, few))
  revoke-Ends (suc n) Except k cap m f c found fresh few =
      revoke_step n Except k cap m (revoke-Ends n) f c found
        (ground (arith, active-mark k cap m.cache found, fresh, few))

-- `k` is `token`, or its parents lead up to it. Each of them is in the cache: a chain from which `purge_expired` has
-- taken a token is not followed, as the code does not follow it.
pub data Descends (d : Dict Text Capability) (token : Text) : Text → Type 0 where
  itself : Descends d token token
  child : (k p : Text) → parent_at k d ≡ some p → Descends d token p → Descends d token k

abbrev pub NoExcept : Text → Type 0
NoExcept p = ⊥

descendant-Revoked :
    (d e : Dict Text Capability) (token k : Text)
    → Revoked NoExcept token d e
    → Descends d token k
    → revoked_at k e ≡ true
descendant-Revoked d e token _ r itself = r.gone
descendant-Revoked d e token _ r (child k p named up) =
    elim (r.closed.follows k p (r.later.parents k ∙ named) (descendant-Revoked d e token p r up)) [
      | inl h ↦ h
      | inr h ↦ absurd h
    ]

check_revoked :
    ⦃h : Host⦄ ⦃j : Json⦄ (now : ℕ) (k right path : Text) (m : Caps)
    → revoked_at k m.cache ≡ true
    → check now k right path m ≡ (false, m)
unfolding check is_valid
check_revoked now k right path m gone = elim (Option-cases (lookup k m.cache)) [
  | inl e ↦ rw e
  | inr (cap, e) ↦ let dead : cap.revoked ≡ true = cc (rw e at gone) in rw (e, check_found, dead)
]

-- In a cache that files each token under its name, where every child of a revoked token is revoked: revoking a cached token ends with as much fuel as there
-- are tokens that are not revoked and one more, keeps that property, and denies every later check of that token and of
-- every token whose parents, all of them still in the cache, lead up to it in any number of steps, whatever the right, path and time.
-- Tokens that `purge_expired` has cut off from it are not among these.
pub revoke_descendants :
    ⦃h : Host⦄ ⦃j : Json⦄ (now later : ℕ) (token : Text) (cap : Capability) (m : Caps)
    (k right path : Text)
    → Filed m.cache
    → Closed NoExcept m.cache
    → lookup token m.cache ≡ some cap
    → Descends m.cache token k
    → (m' : Caps) × (revoke (suc (active m.cache)) now token m ≡ some (true, m'))
      × Closed NoExcept m'.cache
      × (check later k right path m' ≡ (false, m'))
revoke_descendants now later token cap m k right path f c found down =
    let n = active m.cache in
    let (m', is, r) =
      revoke_step now n NoExcept token cap m (revoke-Ends now n) f c found
        (omega (arith, active-mark token cap m.cache found)) in
    (
      m',
      is,
      r.closed,
      check_revoked later k right path m' (descendant-Revoked m.cache m'.cache token k r down),
    )
