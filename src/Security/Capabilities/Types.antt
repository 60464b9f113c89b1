-- ===== src/Security/Capabilities/Types.antt =====
-- security/capabilities.py: the tokens and what they allow. The clock is read once per method, and a
-- new token is an argument.
use data_py_os.Base.{
  ℕ, zero, suc, ◌+◌, Bool, false, not, ◌&&◌, ◌||◌, Option, none, some, List, [], ◌∷◌, ◌++◌, ltb,
  if◌then◌else◌,
}
use data_py_os.Base.Eq.{◌==◌, nat_eq, text_eq, Text, chars}
use data_py_os.Base.Order.{sort_texts}
use data_py_os.Base.Dict.{Dict}
use data_py_os.Base.Lists.{keep, elem}
use data_py_os.Store.Paths.{slash, rstrip, starts_with}
use data_py_os.Store.Sos.Types.{Sos}

pub record Capability : Type 0 where
  pub token : Text
  pub target_oid : Text
  pub target_path : Text
  pub rights : List Text
  pub owner : Text
  pub created_at : ℕ
  pub expires_at : Option ℕ
  pub delegate_depth : ℕ
  pub parent_token : Option Text
  pub revoked : Bool
  pub last_used : ℕ
  pub use_count : ℕ

-- `json.dumps(cap.to_dict(), indent=2)` and `Capability.from_dict(json.loads(...))`, which is `none`
-- where it raises.
pub record Json : Type 0 where
  pub dumps : Capability → Text
  pub loads : Text → Option Capability

pub record Caps : Type 0 where
  pub sos : Sos
  pub cache : Dict Text Capability

abbrev pub caps_base : Text
caps_base = chars "/security/caps"

abbrev pub right_grant : Text
right_grant = chars "grant"

abbrev pub right_admin : Text
right_admin = chars "admin"

abbrev pub all_rights : List Text
all_rights = chars "read" ∷ chars "write" ∷ chars "execute" ∷ chars "delete" ∷ right_grant ∷ []

abbrev pub past : ℕ → Option ℕ → Bool
past now none = false
past now (some end) = ltb end now

abbrev pub is_expired : ℕ → Capability → Bool
is_expired now cap = past now cap.expires_at

unfoldable pub is_valid : ℕ → Capability → Bool
is_valid now cap = not cap.revoked && not (is_expired now cap)

unfoldable pub has_right : ℕ → Text → Capability → Bool
has_right now right cap = is_valid now cap && (elem right cap.rights || elem right_admin cap.rights)

unfoldable pub can_delegate : ℕ → Capability → Bool
can_delegate now cap = ltb 0 cap.delegate_depth && has_right now right_grant cap

-- the target is the path or a directory above it
unfoldable pub covers : Text → Text → Bool
covers target path = target == path || starts_with (rstrip target ++ slash ∷ []) path

-- sorted(rights & ALL_RIGHTS | ({RIGHT_ADMIN} if RIGHT_ADMIN in rights else set()))
unfoldable pub known_rights : List Text → List Text
known_rights rights = sort_texts (
    keep (λ r. elem r rights) all_rights
    ++ (if elem right_admin rights then right_admin ∷ [] else []))

-- time.time() + ttl if ttl else None
abbrev pub expiry : ℕ → Option ℕ → Option ℕ
expiry now none = none
expiry now (some zero) = none
expiry now (some (suc t)) = some (now + suc t)

abbrev pub or_else : Option Text → Text → Text
or_else none t = t
or_else (some s) t = s

abbrev pub path_of : Text → Text
path_of token = caps_base ++ slash ∷ token

-- The arguments of `grant`, with the clock and the new token.
pub record Grant : Type 0 where
  pub target_path : Text
  pub rights : List Text
  pub owner : Text
  pub ttl : Option ℕ
  pub delegate_depth : ℕ
  pub parent_token : Option Text
  pub now : ℕ
  pub token : Text

abbrev pub make : Grant → Text → Capability
make g oid = record {
  token = g.token;
  target_oid = oid;
  target_path = g.target_path;
  rights = known_rights g.rights;
  owner = g.owner;
  created_at = g.now;
  expires_at = expiry g.now g.ttl;
  delegate_depth = g.delegate_depth;
  parent_token = g.parent_token;
  revoked = false;
  last_used = 0;
  use_count = 0;
}

-- child.parent_token == token
abbrev pub names_parent : Text → Option Text → Bool
names_parent token none = false
names_parent token (some parent) = parent == token

-- child.parent_token == token and not child.revoked
abbrev pub is_live_child : Text → Option Capability → Bool
is_live_child token none = false
is_live_child token (some child) = names_parent token child.parent_token && not child.revoked

-- list(self._cache)
abbrev pub keys : Dict Text Capability → List Text
keys [] = []
keys ((k, c) ∷ d) = k ∷ keys d
