-- ===== src/Security/Capabilities/Cascade.antt =====
-- security/capabilities.py: what marking one token revoked does to the cache, and the order in which
-- a cascade of revocations leaves it.
use data_py_os.Base.{
  ℕ, ◌+◌, ◌≤◌, ◌≡◌, refl, sym, ◌∙◌, ◌⊎◌, inl, inr, Bool, true, false, not, Option, none, some, [],
  ◌∷◌, arith, if◌then◌else◌, Bool-cases,
}
use data_py_os.Base.Eq.{◌==◌, text_eq, text_beq_iff, Text}
use data_py_os.Base.Dict.{Dict, lookup, insert, lookup-insert}
use data_py_os.Base.Lists.{elem}
use data_py_os.Security.Capabilities.Types.{Capability, keys}

abbrev pub parent_in : Option Capability → Option Text
parent_in none = none
parent_in (some cap) = cap.parent_token

abbrev pub token_in : Option Capability → Option Text
token_in none = none
token_in (some cap) = some cap.token

abbrev pub revoked_in : Option Capability → Bool
revoked_in none = false
revoked_in (some cap) = cap.revoked

-- The parent that the cached token names, and whether it is revoked.
abbrev pub parent_at : Text → Dict Text Capability → Option Text
parent_at k d = parent_in (lookup k d)

abbrev pub revoked_at : Text → Dict Text Capability → Bool
revoked_at k d = revoked_in (lookup k d)

abbrev pub one : Bool → ℕ
one true = 1
one false = 0

-- How many tokens are not revoked.
abbrev pub active : Dict Text Capability → ℕ
active [] = 0
active ((k, cap) ∷ d) = one (not cap.revoked) + active d

-- Every token is filed under itself.
pub record Filed (d : Dict Text Capability) : Type 0 where
  pub own : (k : Text) (cap : Capability) → lookup k d ≡ some cap → cap.token ≡ k

-- The child of a revoked token is revoked, unless the token is excepted.
pub record Closed (Except : Text → Type 0) (d : Dict Text Capability) : Type 0 where
  pub follows :
      (k p : Text)
      → parent_at k d ≡ some p
      → revoked_at p d ≡ true
      → (revoked_at k d ≡ true) ⊎ Except p

-- Tokens were revoked, and nothing else that matters to a cascade.
pub record Later (d e : Dict Text Capability) : Type 0 where
  pub parents : (k : Text) → parent_at k e ≡ parent_at k d
  pub tokens : (k : Text) → token_in (lookup k e) ≡ token_in (lookup k d)
  pub stays : (k : Text) → revoked_at k d ≡ true → revoked_at k e ≡ true
  pub fewer : active e ≤ active d

pub Later-refl : (d : Dict Text Capability) → Later d d
Later-refl d = record {
  parents = λ k. refl;
  tokens = λ k. refl;
  stays = λ k e. e;
  fewer = omega arith;
}

pub Later-trans : (a b c : Dict Text Capability) → Later a b → Later b c → Later a c
Later-trans a b c f g = record {
  parents = λ k. g.parents k ∙ f.parents k;
  tokens = λ k. g.tokens k ∙ f.tokens k;
  stays = λ k e. g.stays k (f.stays k e);
  fewer = omega (arith, f.fewer, g.fewer);
}

filed_back :
    (k t : Text) (o p : Option Capability)
    → token_in o ≡ token_in p
    → ((cap : Capability) → p ≡ some cap → cap.token ≡ k)
    → (cap : Capability) → o ≡ some cap
    → cap.token ≡ k
filed_back k t o none same own cap e = absurd (cc (same, e))
filed_back k t o (some old) same own cap e = cc (same, e, own old refl)

pub Filed-Later : (d e : Dict Text Capability) → Filed d → Later d e → Filed e
Filed-Later d e f l = record {
  own = λ k cap is. filed_back k k (lookup k e) (lookup k d) (l.tokens k) (f.own k) cap is;
}

-- `cap.revoked = True` and the write of `_save` to the cache
abbrev pub mark : Capability → Capability
mark cap = record cap { revoked = true }

pub active-mark :
    (k : Text) (cap : Capability) (d : Dict Text Capability)
    → lookup k d ≡ some cap
    → active (insert k (mark cap) d) + one (not cap.revoked) ≡ active d
active-mark k cap [] e = ground arith
active-mark k cap ((j, c) ∷ d) e = ground (arith, active-mark k cap d)

pub revoked-mark :
    (j k : Text) (cap : Capability) (d : Dict Text Capability)
    → revoked_at j (insert k (mark cap) d) ≡ (if j == k then true else revoked_at j d)
revoked-mark j k cap d = ground (arith, lookup-insert j k (mark cap) d)

pub mark-Later :
    (k : Text) (cap : Capability) (d : Dict Text Capability)
    → lookup k d ≡ some cap
    → Later d (insert k (mark cap) d)
mark-Later k cap d e = record {
  parents = λ j. ground (arith, lookup-insert j k (mark cap) d, text_beq_iff j k, e);
  tokens = λ j. ground (arith, lookup-insert j k (mark cap) d, text_beq_iff j k, e);
  stays = λ j h. ground (arith, revoked-mark j k cap d, h);
  fewer = omega (arith, active-mark k cap d e);
}

-- Marking a token leaves only its own children to be revoked.
pub mark-Closed :
    (Except : Text → Type 0) (k : Text) (cap : Capability) (d : Dict Text Capability)
    → lookup k d ≡ some cap
    → Closed Except d
    → Closed (λ p. (p ≡ k) ⊎ Except p) (insert k (mark cap) d)
mark-Closed Except k cap d e c = record {
  follows = λ j p named gone. elim (Bool-cases (p == k)) [
    | inl same ↦ inr (inl ((text_beq_iff p k).0 same))
    | inr other ↦
        elim (c.follows j p (sym ((mark-Later k cap d e).parents j) ∙ named)
          (cc (revoked-mark p k cap d, other, gone))) [
            | inl h ↦ inl ((mark-Later k cap d e).stays j h)
            | inr h ↦ inr (inr h)
          ]
  ];
}

-- A token that names a parent is one of the cached tokens.
pub elem-keys :
    (k p : Text) (d : Dict Text Capability) → parent_at k d ≡ some p → elem k (keys d) ≡ true
elem-keys k p [] h = ground arith
elem-keys k p ((j, c) ∷ d) h = ground (arith, elem-keys k p d)
