-- ===== src/Security/Capabilities/Checking.antt =====
-- security/capabilities.py: when `check` grants access.
use data_py_os.Base.{
  ℕ, ◌≡◌, ◌↔◌, refl, ap, ◌∙◌, ◌⊎◌, inl, inr, true, false, some, [], ◌∷◌, ◌++◌, arith, Option-cases,
  Bool-cases,
}
use data_py_os.Base.Eq.{◌==◌, text_eq, nat_eq, text_beq_iff, Text}
use data_py_os.Base.Dict.{lookup}
use data_py_os.Base.Lists.{elem}
use data_py_os.Store.Paths.{slash}
use data_py_os.Store.Sos.Types.{Host}
use data_py_os.Security.Capabilities.Types.{
  Capability, Json, Caps, covers, is_valid, is_expired, has_right, right_admin,
}
use data_py_os.Store.Paths.{rstrip, starts_with}
use data_py_os.Security.Capabilities.Methods.{check, check_found, use_right}

rest_of : (s path : Text) → starts_with s path ≡ true → (rest : Text) × (path ≡ s ++ rest)
unfolding starts_with
rest_of [] path h = (path, refl)
rest_of (c ∷ s) [] h = absurd (cc h)
rest_of (c ∷ s) (d ∷ path) h =
    let (rest, e) = rest_of s path (ground (arith, h)) in
    let same : d ≡ c = ground (arith, h) in (rest, cc (same, e))

starts_with-append : (s rest : Text) → starts_with s (s ++ rest) ≡ true
unfolding starts_with
starts_with-append [] rest = refl
starts_with-append (c ∷ s) rest = ground (arith, starts_with-append s rest)

-- The path is the target or lies below it.
abbrev pub Below : Text → Text → Type 0
Below target path =
    (target ≡ path) ⊎ ((rest : Text) × (path ≡ (rstrip target ++ slash ∷ []) ++ rest))

Below-of : (target path : Text) → covers target path ≡ true → Below target path
unfolding covers
Below-of target path h = elim (Bool-cases (target == path)) [
  | inl same ↦ inl ((text_beq_iff target path).0 same)
  | inr other ↦ inr (rest_of (rstrip target ++ slash ∷ []) path (rw other at h))
]

covers_of : (target path : Text) → Below target path → covers target path ≡ true
unfolding covers
covers_of target path (inl same) = rw ((text_beq_iff target path).1 same) refl
covers_of target path (inr (rest, e)) =
    let below = starts_with-append (rstrip target ++ slash ∷ []) rest in
    ground (arith, ap (starts_with (rstrip target ++ slash ∷ [])) e ∙ below)

-- What `check` asks of a token.
pub record Permits (now : ℕ) (right path : Text) (cap : Capability) : Type 0 where
  pub live : cap.revoked ≡ false
  pub current : is_expired now cap ≡ false
  pub holds : (elem right cap.rights ≡ true) ⊎ (elem right_admin cap.rights ≡ true)
  pub reaches : (path ≡ []) ⊎ Below cap.target_path path

Permits-of :
    ⦃h : Host⦄ ⦃j : Json⦄ (now : ℕ) (right path : Text) (cap : Capability) (m : Caps)
    → (check_found now right path (some cap) m).0 ≡ true
    → Permits now right path cap
unfolding check_found is_valid has_right use_right
Permits-of now right path cap m h =
    let live : cap.revoked ≡ false = ground (arith, h) in
    let current : is_expired now cap ≡ false = ground (arith, h) in
    record {
      live = live;
      current = current;
      holds = ground (arith, h);
      reaches = elim (Bool-cases (path == [])) [
        | inl none_given ↦ inl ((text_beq_iff path []).0 none_given)
        | inr given ↦ inr (Below-of cap.target_path path (ground (arith, h, given)))
      ];
    }

of_Permits :
    ⦃h : Host⦄ ⦃j : Json⦄ (now : ℕ) (right path : Text) (cap : Capability) (m : Caps)
    → Permits now right path cap
    → (check_found now right path (some cap) m).0 ≡ true
unfolding check_found is_valid has_right use_right
of_Permits now right path cap m p = elim p.reaches [
  | inl none_given ↦ ground (arith, p.live, p.current, p.holds, (text_beq_iff path []).1 none_given)
  | inr below ↦ ground (arith, p.live, p.current, p.holds, covers_of cap.target_path path below)
]

-- A check grants exactly if the token is known, not revoked and not expired, holds the right or
-- `admin`, and its target is the path or lies above it, or no path is given.
pub check_iff :
    ⦃h : Host⦄ ⦃j : Json⦄ (now : ℕ) (token right path : Text) (m : Caps)
    → ((check now token right path m).0 ≡ true)
      ↔ ((cap : Capability) × (lookup token m.cache ≡ some cap) × Permits now right path cap)
unfolding check
check_iff now token right path m = elim (Option-cases (lookup token m.cache)) [
  | inl e ↦ (λ h. absurd (cc (rw (e, check_found) at h)), λ (cap, is, p). absurd (cc (is, e)))
  | inr (cap, e) ↦ (
    λ h. (cap, e, Permits-of now right path cap m (rw e at h)),
    λ (cap', is, p).
        let one : cap' ≡ cap = cc (is, e) in rw e (of_Permits now right path cap m (rw one at p)),
  )
]
