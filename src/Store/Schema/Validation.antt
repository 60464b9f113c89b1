-- ===== src/Store/Schema/Validation.antt =====
-- store/schema.py: `_validate_type` and `validate_against_schema`. The messages of the errors, which
-- are for people to read, are left out; a path is the list of its steps below "#".
use data_py_os.Base.{
  ℕ, suc, Bool, true, false, not, ◌||◌, Option, none, some, List, [], ◌∷◌, ◌++◌, ltb, if◌then◌else◌,
}
use data_py_os.Base.Eq.{◌==◌, text_eq, Text, chars}
use data_py_os.Base.Int.{pos}
use data_py_os.Base.Lists.{length}
use data_py_os.Store.Schema.Json.{
  Number, whole, Value, null, boolean, number, string, array, object, Items, nil, cons, Fields, end,
  field, Expected, anything, one, several, Keywords, Schema, no_dict, dict, Properties, last,
  property,
}

-- the keyword that an error names
pub data Keyword : Type 0 where
  type_key min_length_key max_length_key pattern_key enum_key minimum_key maximum_key : Keyword
  required_key additional_properties_key min_items_key max_items_key : Keyword

pub data Step : Type 0 where
  key : Text → Step
  index : ℕ → Step

pub record ValidationError : Type 0 where
  pub path : List Step
  pub keyword : Keyword

-- `<` of Python's numbers, and `re.search(pattern, text)`
pub record Host (Float : Type 0) : Type 0 where
  pub less : (a b : Number Float) → Bool
  pub search : (pattern text : Text) → Bool

-- The classes of type_map. True and False are also of the class int.
pub data Kind : Type 0 where
  string_kind number_kind integer_kind boolean_kind array_kind object_kind null_kind : Kind

-- type_map.get(expected)
unfoldable pub kind_of : Text → Option Kind
kind_of t =
    if t == chars "string"
    then some string_kind
    else if t == chars "number"
    then some number_kind
    else if t == chars "integer"
    then some integer_kind
    else if t == chars "boolean"
    then some boolean_kind
    else if t == chars "array"
    then some array_kind
    else if t == chars "object"
    then some object_kind
    else if t == chars "null"
    then some null_kind
    else none

abbrev pub error_if : Bool → List Step → Keyword → List ValidationError
error_if b path k = if b then record { path = path; keyword = k } ∷ [] else []

-- len(data) < schema[k], if the keyword is there
abbrev pub shorter : ℕ → Option ℕ → Bool
shorter n none = false
shorter n (some m) = ltb n m

-- len(data) > schema[k], if the keyword is there
abbrev pub longer : ℕ → Option ℕ → Bool
longer n none = false
longer n (some m) = ltb m n

-- not re.search(schema["pattern"], data), if the keyword is there
abbrev pub no_match : (Text → Text → Bool) → Text → Option Text → Bool
no_match search t none = false
no_match search t (some p) = not (search p t)

abbrev pub check_sizes : ℕ → Option ℕ → Option ℕ → List Step → List ValidationError
check_sizes n lower upper path =
    error_if (shorter n lower) path min_items_key ++ error_if (longer n upper) path max_items_key

module _ {Float : Type 0} where
  -- isinstance(value, t)
  abbrev pub isinstance : Value Float → Kind → Bool
  isinstance (string t) string_kind = true
  isinstance (number n) number_kind = true
  isinstance (number (whole i)) integer_kind = true
  isinstance (boolean b) number_kind = true
  isinstance (boolean b) integer_kind = true
  isinstance (boolean b) boolean_kind = true
  isinstance (array xs) array_kind = true
  isinstance (object fs) object_kind = true
  isinstance null null_kind = true
  isinstance _ _ = false

  abbrev pub isinstance_if : Value Float → Option Kind → Bool
  isinstance_if v none = true
  isinstance_if v (some k) = isinstance v k

  unfoldable pub validate_type : Value Float → Text → Bool
  validate_type v expected = isinstance_if v (kind_of expected)

  abbrev pub any_type : Value Float → List Text → Bool
  any_type v [] = false
  any_type v (t ∷ ts) = validate_type v t || any_type v ts

  -- `rest` is what the later checks find; a single type that does not fit ends the validation.
  abbrev pub check_type :
      Value Float → Expected → List Step → List ValidationError → List ValidationError
  check_type v anything path rest = rest
  check_type v (several ts) path rest = error_if (not (any_type v ts)) path type_key ++ rest
  check_type v (one t) path rest =
      if validate_type v t then rest else record { path = path; keyword = type_key } ∷ []

  abbrev pub is_string : Text → Value Float → Bool
  is_string t (string u) = t == u
  is_string t _ = false

  -- data in allowed
  abbrev pub allows : Text → List (Value Float) → Bool
  allows t [] = false
  allows t (v ∷ vs) = is_string t v || allows t vs

  abbrev pub not_allowed : Text → Option (List (Value Float)) → Bool
  not_allowed t none = false
  not_allowed t (some vs) = not (allows t vs)

  -- field in data
  abbrev pub has_field : Text → Fields Float → Bool
  has_field f end = false
  has_field f (field k v fs) = f == k || has_field f fs

  abbrev pub missing : List Text → Fields Float → List Step → List ValidationError
  missing [] fs path = []
  missing (f ∷ required) fs path =
      error_if (not (has_field f fs)) path required_key ++ missing required fs path

  -- props[key], if the key is there
  abbrev pub find : Text → Properties Float → Option (Schema Float)
  find k last = none
  find k (property l s ps) = if k == l then some s else find k ps

  abbrev pub is_unknown : Option (Schema Float) → Bool
  is_unknown none = true
  is_unknown (some s) = false

  abbrev pub unexpected : Fields Float → Properties Float → List Step → List ValidationError
  unexpected end ps path = []
  unexpected (field k v fs) ps path =
      error_if (is_unknown (find k ps)) path additional_properties_key ++ unexpected fs ps path

  abbrev pub count : Items Float → ℕ
  count nil = 0
  count (cons x xs) = suc (count xs)

module _ {Float : Type 0} ⦃h : Host Float⦄ where
  abbrev pub below : Number Float → Option (Number Float) → Bool
  below n none = false
  below n (some m) = h.less n m

  abbrev pub above : Number Float → Option (Number Float) → Bool
  above n none = false
  above n (some m) = h.less m n

  abbrev pub check_string : Text → Keywords Float → List Step → List ValidationError
  check_string t k path =
      error_if (shorter (length t) k.min_length) path min_length_key
      ++ error_if (longer (length t) k.max_length) path max_length_key
      ++ error_if (no_match h.search t k.pattern) path pattern_key
      ++ error_if (not_allowed t k.enum) path enum_key

  abbrev pub check_number : Number Float → Keywords Float → List Step → List ValidationError
  check_number n k path =
      error_if (below n k.minimum) path minimum_key ++ error_if (above n k.maximum) path maximum_key

  -- True is the number 1.
  abbrev pub of_bool : Bool → Number Float
  of_bool true = whole (pos 1)
  of_bool false = whole (pos 0)

  unfoldable mutual
    pub validate : Value Float → Schema Float → List Step → List ValidationError
    validate v no_dict path = []
    validate null (dict k ps s) path = check_type {Float = Float} null k.expected path []
    validate (string t) (dict k ps s) path =
        check_type {Float = Float} (string t) k.expected path (check_string t k path)
    validate (boolean b) (dict k ps s) path =
        check_type {Float = Float} (boolean b) k.expected path (check_number (of_bool b) k path)
    validate (number n) (dict k ps s) path =
        check_type {Float = Float} (number n) k.expected path (check_number n k path)
    validate (object fs) (dict k ps s) path =
        let inner = validate_fields fs ps path in
        check_type {Float = Float} (object fs) k.expected path (
          missing k.required fs path ++ (inner ++ (if k.closed then unexpected fs ps path else [])))
    validate (array xs) (dict k ps s) path =
        let inner = validate_items xs s 0 path in
        check_type {Float = Float} (array xs) k.expected path
          (inner ++ check_sizes (count xs) k.min_items k.max_items path)

    pub validate_items : Items Float → Schema Float → ℕ → List Step → List ValidationError
    validate_items nil s i path = []
    validate_items (cons x xs) s i path =
        validate x s (path ++ index i ∷ []) ++ validate_items xs s (suc i) path

    pub validate_fields : Fields Float → Properties Float → List Step → List ValidationError
    validate_fields end ps path = []
    validate_fields (field k v fs) ps path =
        (elim (find k ps) [ none ↦ [] | some s ↦ validate v s (path ++ key k ∷ []) ])
        ++ validate_fields fs ps path
