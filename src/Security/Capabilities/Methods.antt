-- ===== src/Security/Capabilities/Methods.antt =====
-- security/capabilities.py: the methods of `CapabilityStore`. The cache holds the live objects, so
-- the fields of a token are read from it at the time of use. A path that is None is the empty text,
-- which the source tests in the same way. `revoke` takes fuel for its recursion, and `none` is
-- Python's RecursionError.
use data_py_os.Base.{
  ℕ, zero, suc, ◌+◌, ◌-◌, Bool, true, false, not, ◌&&◌, Option, none, some, List, [], ◌∷◌,
  if◌then◌else◌,
}
use data_py_os.Base.Eq.{◌==◌, text_eq, Text, chars}
use data_py_os.Base.Result.{Result, ok, err}
use data_py_os.Base.Dict.{Dict, lookup, insert, erase, values}
use data_py_os.Base.Lists.{length, keep, elem}
use data_py_os.Store.Sos.Types.{Host, str, Sos, Error}
use data_py_os.Store.Sos.Aliases.{resolve, exists}
use data_py_os.Store.Sos.Files.{read, write, mkdir}
use data_py_os.Store.Sos.Listing.{listdir}
use data_py_os.Store.Sos.Listing
use data_py_os.Security.Capabilities.Types.{
  Capability, Json, Caps, Grant, make, caps_base, path_of, or_else, is_expired, is_valid, has_right,
  can_delegate, covers, is_live_child, keys,
}

-- the arguments that `delegate` passes to `grant`
abbrev pub delegation : Text → List Text → Text → Option ℕ → ℕ → Text → Capability → Grant
delegation parent_token rights owner ttl now token parent = record {
  target_path = parent.target_path;
  rights = keep (λ r. elem r parent.rights) rights;
  owner = owner;
  ttl = ttl;
  delegate_depth = parent.delegate_depth - 1;
  parent_token = some parent_token;
  now = now;
  token = token;
}

module _ ⦃h : Host⦄ ⦃j : Json⦄ where
  -- `_save`
  unfoldable pub save : ℕ → Capability → Caps → Caps
  save now cap m = record {
    sos =
        (write now (path_of cap.token) (str (j.dumps cap)) (chars "text") []
          (chars "capability"
            ∷ cap.owner
            ∷ (if cap.revoked then chars "revoked" else chars "active")
            ∷ [])
          m.sos).1;
    cache = insert cap.token cap m.cache;
  }

  unfoldable pub grant : Grant → Caps → Capability × Caps
  grant g m =
      let (oid, s) = resolve g.target_path m.sos in
      let cap = make g (or_else oid g.target_path) in (cap, save g.now cap (record m { sos = s }))

  -- the rest of the loop, after a call of `revoke` for a child
  abbrev pub and_then : Option (Bool × Caps) → (Caps → Option (Bool × Caps)) → Option (Bool × Caps)
  and_then none rest = none
  and_then (some (r, m)) rest = rest m

  -- the loop of `revoke` over the tokens that were there when it started
  unfoldable pub cascade :
      (Text → Caps → Option (Bool × Caps)) → Text → List Text → Caps → Option (Bool × Caps)
  cascade rec token [] m = some (true, m)
  cascade rec token (k ∷ ks) m =
      if is_live_child token (lookup k m.cache)
      then and_then (rec k m) (cascade rec token ks)
      else cascade rec token ks m

  -- `revoke` once the token is looked up
  unfoldable pub revoke_found :
      (Text → Caps → Option (Bool × Caps))
      → ℕ
      → Text
      → Option Capability
      → Caps
      → Option (Bool × Caps)
  unfolding cascade
  revoke_found rec now token none m = some (false, m)
  revoke_found rec now token (some cap) m =
      let m' = save now (record cap { revoked = true }) m in cascade rec token (keys m'.cache) m'

  unfoldable pub revoke : ℕ → ℕ → Text → Caps → Option (Bool × Caps)
  unfolding revoke_found
  revoke zero now token m = none
  revoke (suc fuel) now token m = revoke_found (revoke fuel now) now token (lookup token m.cache) m

  unfoldable pub get : Text → Caps → Option Capability
  get token m = lookup token m.cache

  -- a granted check is counted and saved
  unfoldable pub use_right : ℕ → Text → Capability → Caps → Bool × Caps
  use_right now right cap m =
      if has_right now right cap
      then (true, save now (record cap { last_used = now; use_count = cap.use_count + 1 }) m)
      else (false, m)

  -- `check` once the token is looked up
  unfoldable pub check_found : ℕ → Text → Text → Option Capability → Caps → Bool × Caps
  unfolding use_right
  check_found now right path none m = (false, m)
  check_found now right path (some cap) m =
      if not (is_valid now cap)
      then (false, m)
      else if not (path == []) && not (covers cap.target_path path)
      then (false, m)
      else use_right now right cap m

  unfoldable pub check : ℕ → Text → Text → Text → Caps → Bool × Caps
  unfolding check_found
  check now token right path m = check_found now right path (lookup token m.cache) m

  -- `delegate` once the parent is looked up
  unfoldable pub delegate_found :
      Text
      → List Text
      → Text
      → Option ℕ
      → ℕ
      → Text
      → Option Capability
      → Caps
      → Option Capability × Caps
  delegate_found parent_token rights owner ttl now token none m = (none, m)
  delegate_found parent_token rights owner ttl now token (some parent) m =
      if can_delegate now parent
      then (let (cap, m') = grant (delegation parent_token rights owner ttl now token parent) m in
          (some cap, m'))
      else (none, m)

  -- The last two arguments before the state are the clock and the new token.
  unfoldable pub delegate :
      Text → List Text → Text → Option ℕ → ℕ → Text → Caps → Option Capability × Caps
  unfolding delegate_found
  delegate parent_token rights owner ttl now token m =
      delegate_found parent_token rights owner ttl now token (lookup parent_token m.cache) m

  unfoldable pub capabilities_for : ℕ → Text → Caps → List Capability
  capabilities_for now path m =
      keep (λ cap. is_valid now cap && covers cap.target_path path) (values m.cache)

  -- The removal from the object store may raise, which is ignored; without `recursive` it does not
  -- recur.
  unfoldable pub purge_one : Text → Caps → Caps
  purge_one token m = record {
    sos = (Listing.remove 1 (path_of token) false m.sos).1;
    cache = erase token m.cache;
  }

  -- the loop of `purge_expired` over the tokens that were there when it started
  unfoldable pub purge : ℕ → Dict Text Capability → Caps → ℕ × Caps
  purge now [] m = (0, m)
  purge now ((token, cap) ∷ rest) m =
      if is_expired now cap
      then (let (n, m') = purge now rest (purge_one token m) in (n + 1, m'))
      else purge now rest m

  unfoldable pub purge_expired : ℕ → Caps → ℕ × Caps
  unfolding purge
  purge_expired now m = purge now m.cache m

  -- `_ensure_dirs`
  abbrev pub ensure_dirs : ℕ → Sos → Sos
  ensure_dirs now s =
      let (there, s') = exists caps_base s in if there then s' else (mkdir now caps_base true s').1

  -- `_load_all`: what cannot be read or parsed is skipped
  abbrev pub file_loaded : Result Error Text → Dict Text Capability → Dict Text Capability
  file_loaded (err e) cache = cache
  file_loaded (ok t) cache = elim (j.loads t) [
    | none ↦ cache
    | some cap ↦ insert cap.token cap cache
  ]

  unfoldable pub load_all : List Text → Caps → Caps
  load_all [] m = m
  load_all (name ∷ names) m =
      let (r, s) = read (path_of name) m.sos in
      load_all names (record { sos = s; cache = file_loaded r m.cache })

  -- `__init__`
  unfoldable pub init : ℕ → Sos → Caps
  unfolding load_all
  init now s =
      let s' = ensure_dirs now s in
      load_all (listdir caps_base s') (record { sos = s'; cache = [] })

  pub record Status : Type 0 where
    pub total : ℕ
    pub active : ℕ
    pub revoked : ℕ
    pub expired : ℕ

  unfoldable pub status : ℕ → Caps → Status
  status now m =
      let caps = values m.cache in
      record {
        total = length caps;
        active = length (keep (is_valid now) caps);
        revoked = length (keep (λ cap. cap.revoked) caps);
        expired = length (keep (is_expired now) caps);
      }
