-- ===== src/Security/Capabilities/Delegating.antt =====
-- security/capabilities.py: what `delegate` hands on from a token.
use data_py_os.Base.{
  ℕ, ◌≤◌, ◌≡◌, ◌≢◌, refl, sym, ap, ◌∙◌, ◌⊎◌, inl, inr, true, false, Option, none, some, List, arith,
  Option-cases, Bool-cases,
}
use data_py_os.Base.Eq.{◌==◌, text_eq, text_beq_iff, Text}
use data_py_os.Base.Dict.{Dict, lookup, insert, lookup-insert, lookup-insert_self}
use data_py_os.Base.Lists.{elem}
use data_py_os.Store.Sos.Types.{Host}
use data_py_os.Store.Sos.Aliases.{resolve}
use data_py_os.Security.Capabilities.Types.{
  Capability, Json, Caps, make, can_delegate, has_right, is_valid, or_else,
}
use data_py_os.Security.Capabilities.Methods.{save, grant, delegate, delegate_found, delegation}
use data_py_os.Security.Capabilities.Cascade.{
  parent_at, revoked_at, parent_in, revoked_in, Filed, Closed,
}
use data_py_os.Security.Capabilities.Revoking.{NoExcept, Descends, itself, child}
use data_py_os.Security.Capabilities.Rights.{Attenuates, make-Attenuates}

-- Every cached token whose parent is cached attenuates it.
pub record Attenuated (d : Dict Text Capability) : Type 0 where
  pub less :
      (k p : Text) (cap parent : Capability)
      → lookup k d ≡ some cap
      → cap.parent_token ≡ some p
      → lookup p d ≡ some parent
      → Attenuates cap parent

-- A new token: it is not cached and no cached token names it.
pub record Fresh (token : Text) (d : Dict Text Capability) : Type 0 where
  pub absent : lookup token d ≡ none
  pub unnamed : (k : Text) → parent_at k d ≢ some token

pub record Sound (d : Dict Text Capability) : Type 0 where
  pub filed : Filed d
  pub closed : Closed NoExcept d
  pub attenuated : Attenuated d

valid_live :
    (now : ℕ) (parent : Capability) → can_delegate now parent ≡ true → parent.revoked ≡ false
unfolding can_delegate has_right is_valid
valid_live now parent ok = ground arith

lookup-insert_other :
    (k token : Text) (cap : Capability) (d : Dict Text Capability)
    → (k == token) ≡ false
    → lookup k (insert token cap d) ≡ lookup k d
lookup-insert_other k token cap d other = rw other at (lookup-insert k token cap d)

-- Adding a child of a live cached token under a new name.
module _ (token p : Text) (cap parent : Capability) (d : Dict Text Capability) (s : Sound d)
    (fresh : Fresh token d) (named : cap.parent_token ≡ some p)
    (found : lookup p d ≡ some parent) where
  parent_ne : p ≢ token
  parent_ne same = cc (fresh.absent, found, same)

  parent_beq : (p == token) ≡ false
  parent_beq = ground (arith, text_beq_iff p token, parent_ne)

  at_self : (k : Text) → (k == token) ≡ true → lookup k (insert token cap d) ≡ some cap
  at_self k same = rw ((text_beq_iff k token).0 same) (lookup-insert_self token cap d)

  -- no token names the new one
  childless : (k : Text) → parent_at k (insert token cap d) ≢ some token
  childless k is = elim (Bool-cases (k == token)) [
    | inl same ↦ parent_ne (cc (ap parent_in (at_self k same), named, is))
    | inr other ↦
        fresh.unnamed k (sym (ap parent_in (lookup-insert_other k token cap d other)) ∙ is)
  ]

  follows_insert :
      (k q : Text)
      → parent.revoked ≡ false
      → parent_at k (insert token cap d) ≡ some q
      → revoked_at q d ≡ true
      → (revoked_at k (insert token cap d) ≡ true) ⊎ NoExcept q
  follows_insert k q live is dead = elim (Bool-cases (k == token)) [
    | inl same ↦
        let eq : some p ≡ some q = sym named ∙ sym (ap parent_in (at_self k same)) ∙ is in
        absurd (cc (eq, found, dead, live))
    | inr other ↦
        let e = lookup-insert_other k token cap d other in
        elim (s.closed.follows k q (sym (ap parent_in e) ∙ is) dead) [
          | inl h ↦ inl (ap revoked_in e ∙ h)
          | inr h ↦ inr h
        ]
  ]

  less_insert :
      (k q : Text) (c par : Capability)
      → Attenuates cap parent
      → lookup k (insert token cap d) ≡ some c
      → c.parent_token ≡ some q
      → lookup q d ≡ some par
      → Attenuates c par
  less_insert k q c par less e is e' = elim (Bool-cases (k == token)) [
    | inl same ↦
        let one : cap ≡ c = cc (at_self k same, e) in
        let two : parent ≡ par = cc (one, named, is, found, e') in rw (← one, ← two) less
    | inr other ↦
        s.attenuated.less k q c par (sym (lookup-insert_other k token cap d other) ∙ e) is e'
  ]

  insert-Sound :
      cap.token ≡ token
      → parent.revoked ≡ false
      → Attenuates cap parent
      → Sound (insert token cap d)
  insert-Sound own live less = record {
    filed = record {
      own = λ k c e. elim (Bool-cases (k == token)) [
        | inl same ↦ cc (at_self k same, e, own, (text_beq_iff k token).0 same)
        | inr other ↦ s.filed.own k c (sym (lookup-insert_other k token cap d other) ∙ e)
      ];
    };
    closed = record {
      follows = λ k q is dead. elim (Bool-cases (q == token)) [
        | inl same ↦ absurd (childless k (is ∙ ap some ((text_beq_iff q token).0 same)))
        | inr other ↦
            follows_insert k q live is
              (sym (ap revoked_in (lookup-insert_other q token cap d other)) ∙ dead)
      ];
    };
    attenuated = record {
      less = λ k q c par e is e'. elim (Bool-cases (q == token)) [
        | inl same ↦
            absurd (childless k (ap parent_in e ∙ is ∙ ap some ((text_beq_iff q token).0 same)))
        | inr other ↦
            less_insert k q c par less e is (sym (lookup-insert_other q token cap d other) ∙ e')
      ];
    };
  }

delegate_steps :
    ⦃h : Host⦄ ⦃j : Json⦄ (parent_token : Text) (rights : List Text) (owner : Text) (ttl : Option ℕ)
    (now : ℕ) (token : Text) (m : Caps) (cap : Capability)
    → (delegate parent_token rights owner ttl now token m).0 ≡ some cap
    → (parent : Capability) × (oid : Text) × (lookup parent_token m.cache ≡ some parent)
      × (can_delegate now parent ≡ true)
      × (cap ≡ make (delegation parent_token rights owner ttl now token parent) oid)
      × ((delegate parent_token rights owner ttl now token m).1.cache ≡ insert token cap m.cache)
unfolding delegate grant save
delegate_steps parent_token rights owner ttl now token m cap h =
    elim (Option-cases (lookup parent_token m.cache)) [
      | inl e ↦ absurd (cc (rw (e, delegate_found) at h))
      | inr (parent, e) ↦ elim (Bool-cases (can_delegate now parent)) [
        | inr unable ↦ absurd (cc (rw (e, delegate_found, unable) at h))
        | inl able ↦
            let oid = or_else (resolve parent.target_path m.sos).0 parent.target_path in
            let made = make (delegation parent_token rights owner ttl now token parent) oid in
            let is : cap ≡ made = cc (rw (e, delegate_found, able) at h) in
            (
              parent,
              oid,
              e,
              able,
              is,
              rw (e, delegate_found, able) (ap (λ c. insert token c m.cache) (sym is)),
            )
      ]
    ]

-- In a sound cache, a delegation that succeeds, under a new token, was allowed by its parent. It
-- leaves a sound cache, in which the new token names that parent, is not revoked, and has none but
-- the parent's rights, less depth and the same target.
pub delegate-Attenuates :
    ⦃h : Host⦄ ⦃j : Json⦄ (parent_token : Text) (rights : List Text) (owner : Text) (ttl : Option ℕ)
    (now : ℕ) (token : Text) (m : Caps) (cap : Capability)
    → Sound m.cache
    → Fresh token m.cache
    → (delegate parent_token rights owner ttl now token m).0 ≡ some cap
    → (parent : Capability) × (lookup parent_token m.cache ≡ some parent)
      × (can_delegate now parent ≡ true)
      × Sound (delegate parent_token rights owner ttl now token m).1.cache
      × (lookup token (delegate parent_token rights owner ttl now token m).1.cache ≡ some cap)
      × (cap.parent_token ≡ some parent_token)
      × (cap.revoked ≡ false)
      × Attenuates cap parent
delegate-Attenuates parent_token rights owner ttl now token m cap s fresh h =
    let (parent, oid, found, able, is, after) =
      delegate_steps parent_token rights owner ttl now token m cap h in
    let made = make (delegation parent_token rights owner ttl now token parent) oid in
    let less : Attenuates cap parent =
      rw is (make-Attenuates parent_token rights owner ttl now token oid parent able) in
    let named : cap.parent_token ≡ some parent_token = ap (λ (c : Capability). c.parent_token) is in
    let own : cap.token ≡ token = ap (λ (c : Capability). c.token) is in
    let sound : Sound (insert token cap m.cache) =
      insert-Sound token parent_token cap parent m.cache s fresh named found own
        (valid_live now parent able) less in
    (
      parent,
      found,
      able,
      rw after sound,
      rw after (lookup-insert_self token cap m.cache),
      named,
      ap (λ (c : Capability). c.revoked) is,
      less,
    )

-- the chain goes through cached tokens
cached_ancestor :
    (d : Dict Text Capability) (token p : Text) (top : Capability)
    → Descends d token p
    → lookup token d ≡ some top
    → lookup p d ≢ none
cached_ancestor d token _ top itself found absent = cc (found, absent)
cached_ancestor d token _ top (child p q named up) found absent = cc (named, ap parent_in absent)

-- along a chain of a sound cache
descendant_rights :
    (d : Dict Text Capability) (token k : Text) (top cap : Capability) (r : Text)
    → Sound d
    → Descends d token k
    → lookup token d ≡ some top
    → lookup k d ≡ some cap
    → ((elem r cap.rights ≡ true) → (elem r top.rights ≡ true))
      × (cap.delegate_depth ≤ top.delegate_depth)
      × (cap.target_path ≡ top.target_path)
descendant_rights d token _ top cap r s itself found is =
    let same : cap ≡ top = cc (found, is) in rw same (λ h. h, omega arith, refl)
descendant_rights d token _ top cap r s (child k p named up) found is =
    elim (Option-cases (lookup p d)) [
      | inl absent ↦ absurd (cached_ancestor d token p top up found absent)
      | inr (parent, e) ↦
          let less = s.attenuated.less k p cap parent is (sym (ap parent_in is) ∙ named) e in
          let (wider, deeper, same) = descendant_rights d token p top parent r s up found e in
          (λ h. wider (less.rights r h), omega (arith, less.depth, deeper), less.target ∙ same)
    ]

-- In a sound cache, what a delegation under a new token hands out is bounded by every token of the cache that the new one's
-- parents lead up to, not only by its parent: it has none but that token's rights, at most its depth and the same target.
pub delegated_rights :
    ⦃h : Host⦄ ⦃j : Json⦄ (parent_token : Text) (rights : List Text) (owner : Text) (ttl : Option ℕ)
    (now : ℕ) (token : Text) (m : Caps) (cap : Capability) (ancestor : Text) (top : Capability)
    (r : Text)
    → Sound m.cache
    → Fresh token m.cache
    → (delegate parent_token rights owner ttl now token m).0 ≡ some cap
    → Descends (delegate parent_token rights owner ttl now token m).1.cache ancestor token
    → lookup ancestor (delegate parent_token rights owner ttl now token m).1.cache ≡ some top
    → elem r cap.rights ≡ true
    → (elem r top.rights ≡ true)
      × (cap.delegate_depth ≤ top.delegate_depth)
      × (cap.target_path ≡ top.target_path)
delegated_rights parent_token rights owner ttl now token m cap ancestor top r s fresh ok down found
      has =
    let d = (delegate parent_token rights owner ttl now token m).1.cache in
    let (parent, _, _, sound, is, _, _, _) =
      delegate-Attenuates parent_token rights owner ttl now token m cap s fresh ok in
    let (wider, deeper, same) = descendant_rights d ancestor token top cap r sound down found is in
    (wider has, deeper, same)
