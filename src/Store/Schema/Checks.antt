-- ===== src/Store/Schema/Checks.antt =====
-- store/schema.py: each check passes exactly if its keyword is satisfied.
use data_py_os.Base.{
  ◌≡◌, ◌↔◌, refl, ap, inl, inr, Bool, true, false, not, Option, none, some, List, [], ◌∷◌,
  if◌then◌else◌,
}
use data_py_os.Base.Eq.{◌==◌, text_eq, text_beq_iff, Text}
use data_py_os.Base.Lists.{In, All}
use data_py_os.Store.Schema.Json.{
  Value, null, boolean, number, string, array, object, Fields, end, field, Expected, anything, one,
  several, Schema, Properties,
}
use data_py_os.Store.Schema.Validation.{
  Step, ValidationError, Kind, kind_of, isinstance, isinstance_if, validate_type, any_type,
  error_if, check_type, is_string, allows, not_allowed, has_field, missing, find, is_unknown,
  unexpected, type_key, required_key, additional_properties_key,
}
use data_py_os.Store.Schema.Meaning.{HasType, HasSome, Fitting, Says, HasField, Known}
use data_py_os.Store.Schema.Logic.{chain, no_errors, no_error_if, says, not_iff, or_iff, never_iff}

module _ {Float : Type 0} where
  pub is_string_iff :
      (t : Text) (v : Value Float) → (is_string t v ≡ true) ↔ ◌≡◌ {A = Value Float} (string t) v
  is_string_iff t null = never_iff (λ e. cc e)
  is_string_iff t (boolean b) = never_iff (λ e. cc e)
  is_string_iff t (number n) = never_iff (λ e. cc e)
  is_string_iff t (array xs) = never_iff (λ e. cc e)
  is_string_iff t (object fs) = never_iff (λ e. cc e)
  is_string_iff t (string u) =
      (λ e. ap string ((text_beq_iff t u).0 e), λ e. (text_beq_iff t u).1 (cc e))

  pub allows_iff :
      (t : Text) (vs : List (Value Float))
      → (allows t vs ≡ true) ↔ In {A = Value Float} (string t) vs
  allows_iff t [] = never_iff (λ e. e)
  allows_iff t (v ∷ vs) = or_iff (is_string t v) (allows t vs) (is_string_iff t v) (allows_iff t vs)

  pub not_allowed_iff :
      (t : Text) (o : Option (List (Value Float)))
      → (not_allowed t o ≡ false) ↔ Says o (λ vs. In {A = Value Float} (string t) vs)
  not_allowed_iff t o =
      says (λ vs. In {A = Value Float} (string t) vs) (not_allowed t) o refl
        (λ vs. not_iff (allows t vs) (allows_iff t vs))

  pub has_field_iff : (f : Text) (fs : Fields Float) → (has_field f fs ≡ true) ↔ HasField f fs
  has_field_iff f end = never_iff (λ e. e)
  has_field_iff f (field k v fs) =
      or_iff (f == k) (has_field f fs) (text_beq_iff f k) (has_field_iff f fs)

  pub missing_iff :
      (required : List Text) (fs : Fields Float) (path : List Step)
      → (missing required fs path ≡ []) ↔ All (λ f. HasField f fs) required
  missing_iff [] fs path = (λ e. tt, λ p. refl)
  missing_iff (f ∷ required) fs path =
      no_errors (error_if (not (has_field f fs)) path required_key) (missing required fs path)
        (no_error_if (not (has_field f fs)) path required_key
          (not_iff (has_field f fs) (has_field_iff f fs)))
        (missing_iff required fs path)

  pub known_field :
      (o : Option (Schema Float)) → (is_unknown o ≡ false) ↔ ((s : Schema Float) × (o ≡ some s))
  known_field none = (λ e. absurd (cc e), λ p. absurd (cc p.1))
  known_field (some s) = (λ e. (s, refl), λ p. refl)

  pub Known-step :
      (k : Text) (v : Value Float) (fs : Fields Float) (ps : Properties Float)
      → (((s : Schema Float) × (find k ps ≡ some s)) × Known fs ps) ↔ Known (field k v fs) ps
  Known-step k v fs ps = (
    λ p l at. elim at [ inl same ↦ rw same p.0 | inr further ↦ p.1 l further ],
    λ all. (all k (inl refl), λ l at. all l (inr at)),
  )

  pub unexpected_iff :
      (fs : Fields Float) (ps : Properties Float) (path : List Step)
      → (unexpected fs ps path ≡ []) ↔ Known fs ps
  unexpected_iff end ps path = (λ e k at. elim at [ ], λ p. refl)
  unexpected_iff (field k v fs) ps path =
      chain
        (no_errors (error_if (is_unknown (find k ps)) path additional_properties_key)
          (unexpected fs ps path)
          (no_error_if (is_unknown (find k ps)) path additional_properties_key
            (known_field (find k ps)))
          (unexpected_iff fs ps path))
        (Known-step k v fs ps)

  pub closed_iff :
      (b : Bool) (fs : Fields Float) (ps : Properties Float) (path : List Step)
      → ((if b then unexpected fs ps path else []) ≡ []) ↔ (b ≡ true → Known fs ps)
  closed_iff true fs ps path =
      let f = unexpected_iff fs ps path in (λ e is. f.0 e, λ p. f.1 (p refl))
  closed_iff false fs ps path = (λ e is. absurd (cc is), λ p. refl)

  pub HasType-iff : (v : Value Float) (t : Text) → (validate_type v t ≡ true) ↔ HasType v t
  unfolding validate_type
  HasType-iff v t = go (kind_of t) refl
    where
      go :
          (o : Option Kind)
          → kind_of t ≡ o
          → (isinstance_if v o ≡ true) ↔ ((k : Kind) → o ≡ some k → isinstance v k ≡ true)
      go none e = (λ _ k is. absurd (cc is), λ _. refl)
      go (some k) e = (λ yes' k' is. cc (yes', ap (λ z. isinstance_if v z) is), λ all. all k refl)

  pub any_type_iff : (v : Value Float) (ts : List Text) → (any_type v ts ≡ true) ↔ HasSome v ts
  any_type_iff v [] = never_iff (λ e. e)
  any_type_iff v (t ∷ ts) =
      or_iff (validate_type v t) (any_type v ts) (HasType-iff v t) (any_type_iff v ts)

  pub check_type_iff :
      {P : Type 0} (v : Value Float) (e : Expected) (path : List Step) (rest : List ValidationError)
      → (rest ≡ []) ↔ P
      → (check_type v e path rest ≡ []) ↔ (Fitting v e × P)
  check_type_iff v anything path rest f = (λ e. (tt, f.0 e), λ p. f.1 p.1)
  check_type_iff v (several ts) path rest f =
      no_errors (error_if (not (any_type v ts)) path type_key) rest
        (no_error_if (not (any_type v ts)) path type_key
          (not_iff (any_type v ts) (any_type_iff v ts)))
        f
  check_type_iff {P} v (one t) path rest f = go (validate_type v t) (HasType-iff v t)
    where
      go :
          (b : Bool)
          → (b ≡ true) ↔ HasType v t
          → ((if b then rest else record { path = path; keyword = type_key } ∷ []) ≡ [])
            ↔ (HasType v t × P)
      go true g = (λ e. (g.0 refl, f.0 e), λ p. f.1 p.1)
      go false g = (λ e. absurd (cc e), λ p. absurd (cc (g.1 p.0)))
