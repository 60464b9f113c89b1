-- ===== src/Store/Schema/Deciding.antt =====
-- store/schema.py: `validate_against_schema` finds an error exactly if the value is not what the
-- schema says.
use data_py_os.Base.{
  ℕ, suc, ◌≡◌, ◌↔◌, refl, false, Option, none, some, List, [], ◌∷◌, ◌++◌, if◌then◌else◌,
}
use data_py_os.Base.Eq.{text_eq, Text}
use data_py_os.Base.Lists.{length}
use data_py_os.Store.Schema.Json.{
  Number, Value, null, boolean, number, string, array, object, Items, nil, cons, Fields, end, field,
  Keywords, Schema, no_dict, dict, Properties,
}
use data_py_os.Store.Schema.Validation.{
  Step, ValidationError, Host, error_if, shorter, longer, check_sizes, not_allowed, missing, find,
  unexpected, count, no_match, below, above, check_string, check_number, of_bool, validate,
  validate_items, validate_fields, min_length_key, max_length_key, pattern_key, enum_key,
  minimum_key, maximum_key, min_items_key, max_items_key, index, key,
}
use data_py_os.Store.Schema.Meaning.{
  MeansString, MeansNumber, Satisfies, ItemsSatisfy, FieldsSatisfy,
}
use data_py_os.Store.Schema.Logic.{chain, no_errors, no_error_if, says, no_match_iff, lengths_iff}
use data_py_os.Store.Schema.Checks.{not_allowed_iff, missing_iff, closed_iff, check_type_iff}

module _ {Float : Type 0} ⦃h : Host Float⦄ where
  check_number_iff :
      (n : Number Float) (k : Keywords Float) (path : List Step)
      → (check_number n k path ≡ []) ↔ MeansNumber n k
  check_number_iff n k path =
      no_errors (error_if (below n k.minimum) path minimum_key)
        (error_if (above n k.maximum) path maximum_key)
        (no_error_if (below n k.minimum) path minimum_key
          (says (λ m. h.less n m ≡ false) (below n) k.minimum refl (λ m. (λ e. e, λ e. e))))
        (no_error_if (above n k.maximum) path maximum_key
          (says (λ m. h.less m n ≡ false) (above n) k.maximum refl (λ m. (λ e. e, λ e. e))))

  check_string_iff :
      (t : Text) (k : Keywords Float) (path : List Step)
      → (check_string t k path ≡ []) ↔ MeansString t k
  check_string_iff t k path =
      let a = error_if (shorter (length t) k.min_length) path min_length_key in
      let b = error_if (longer (length t) k.max_length) path max_length_key in
      let c = error_if (no_match h.search t k.pattern) path pattern_key in
      let d = error_if (not_allowed t k.enum) path enum_key in
      chain
        (no_errors (a ++ b ++ c) d
          (no_errors (a ++ b) c
            (lengths_iff (length t) k.min_length k.max_length path min_length_key max_length_key)
            (no_error_if (no_match h.search t k.pattern) path pattern_key
              (no_match_iff h.search t k.pattern)))
          (no_error_if (not_allowed t k.enum) path enum_key (not_allowed_iff t k.enum)))
        (λ p. (p.0.0, p.0.1, p.1), λ p. ((p.0, p.1), p.2))

  -- a field whose value is checked if its key is a property
  found_iff :
      (o : Option (Schema Float)) (run : Schema Float → List ValidationError)
      (Good : Schema Float → Type 0)
      → ((s : Schema Float) → (run s ≡ []) ↔ Good s)
      → ((elim o [ none ↦ [] | some s ↦ run s ]) ≡ []) ↔ ((s : Schema Float) → o ≡ some s → Good s)
  found_iff none run Good f = (λ e s is. absurd (cc is), λ p. refl)
  found_iff (some s) run Good f =
      (λ e s' is. (let same : s ≡ s' = cc is in rw (← same) ((f s).0 e)), λ p. (f s).1 (p s refl))

  mutual
    unfolding validate Satisfies

    validates :
        (v : Value Float) (s : Schema Float) (path : List Step)
        → (validate v s path ≡ []) ↔ Satisfies v s
    validates v no_dict path = (λ e. tt, λ p. refl)
    validates null (dict k ps s) path =
        chain (check_type_iff {Float = Float} null k.expected path [] ((λ e. tt), λ p. refl))
          (λ p. p.0, λ p. (p, tt))
    validates (string t) (dict k ps s) path =
        check_type_iff {Float = Float} (string t) k.expected path (check_string t k path)
          (check_string_iff t k path)
    validates (boolean b) (dict k ps s) path =
        check_type_iff {Float = Float} (boolean b) k.expected path (check_number (of_bool b) k path)
          (check_number_iff (of_bool b) k path)
    validates (number n) (dict k ps s) path =
        check_type_iff {Float = Float} (number n) k.expected path (check_number n k path)
          (check_number_iff n k path)
    validates (object fs) (dict k ps s) path =
        let inner = validate_fields_iff fs ps path in
        let extra = if k.closed then unexpected fs ps path else [] in
        chain
          (check_type_iff {Float = Float} (object fs) k.expected path
            (missing k.required fs path ++ (validate_fields fs ps path ++ extra))
            (no_errors (missing k.required fs path) (validate_fields fs ps path ++ extra)
              (missing_iff k.required fs path)
              (no_errors (validate_fields fs ps path) extra inner
                (closed_iff k.closed fs ps path))))
          (λ p. (p.0, p.1.0, p.1.1.0, p.1.1.1), λ p. (p.0, (p.1, (p.2, p.3))))
    validates (array xs) (dict k ps s) path =
        let inner = validate_items_iff xs s 0 path in
        let sizes = check_sizes (count xs) k.min_items k.max_items path in
        chain
          (check_type_iff {Float = Float} (array xs) k.expected path
            (validate_items xs s 0 path ++ sizes)
            (no_errors (validate_items xs s 0 path) sizes inner
              (lengths_iff (count xs) k.min_items k.max_items path min_items_key max_items_key)))
          (λ p. (p.0, p.1.0, p.1.1), λ p. (p.0, (p.1, p.2)))

    validate_items_iff :
        (xs : Items Float) (s : Schema Float) (i : ℕ) (path : List Step)
        → (validate_items xs s i path ≡ []) ↔ ItemsSatisfy xs s
    validate_items_iff nil s i path = (λ e. tt, λ p. refl)
    validate_items_iff (cons x xs) s i path =
        no_errors (validate x s (path ++ index i ∷ [])) (validate_items xs s (suc i) path)
          (validates x s (path ++ index i ∷ [])) (validate_items_iff xs s (suc i) path)

    validate_fields_iff :
        (fs : Fields Float) (ps : Properties Float) (path : List Step)
        → (validate_fields fs ps path ≡ []) ↔ FieldsSatisfy fs ps
    validate_fields_iff end ps path = (λ e. tt, λ p. refl)
    validate_fields_iff (field k v fs) ps path =
        let here = λ (s : Schema Float). validates v s (path ++ key k ∷ []) in
        no_errors (elim (find k ps) [ none ↦ [] | some s ↦ validate v s (path ++ key k ∷ []) ])
          (validate_fields fs ps path)
          (found_iff (find k ps) (λ s. validate v s (path ++ key k ∷ [])) (λ s. Satisfies v s) here)
          (validate_fields_iff fs ps path)

  -- For every value, schema and path the validation reports no error exactly if the value satisfies the schema:
  -- its type, if it has one of the seven names, the limits of strings, numbers and arrays, the
  -- allowed strings, the required keys, the properties and the items, and no other keys where these are ruled out.
  pub validate_iff :
      (v : Value Float) (s : Schema Float) (path : List Step)
      → (validate v s path ≡ []) ↔ Satisfies v s
  validate_iff v s path = validates v s path
