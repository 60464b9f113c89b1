-- ===== src/Store/Schema/Tests.antt =====
-- store/schema.py: runs over whole numbers, and the theorem at a concrete value.
use data_py_os.Base.{◌≡◌, ◌↔◌, refl, Bool, true, false, none, some, [], ◌∷◌, ltb}
use data_py_os.Base.Eq.{chars, text_beq}
use data_py_os.Base.Int.{ℤ, pos, negsuc}
use data_py_os.Store.Schema.Json.{
  Number, whole, float, Value, null, boolean, number, string, array, object, nil, cons, end, field,
  anything, one, Keywords, Schema, no_dict, dict, last, property,
}
use data_py_os.Store.Schema.Validation.{
  Host, validate, key, index, type_key, required_key, maximum_key, validate_type, kind_of,
}
use data_py_os.Store.Schema.Meaning.{Satisfies}
use data_py_os.Store.Schema.Deciding.{validate_iff}

-- Whole numbers only, and patterns that are found everywhere.
abbrev below : ℤ → ℤ → Bool
below (pos a) (pos b) = ltb a b
below (pos a) (negsuc b) = false
below (negsuc a) (pos b) = true
below (negsuc a) (negsuc b) = ltb b a

abbrev compare : Number ℤ → Number ℤ → Bool
compare (whole a) (whole b) = below a b
compare (whole a) (float b) = below a b
compare (float a) (whole b) = below a b
compare (float a) (float b) = below a b

instance abbrev plain : Host ℤ
plain = record { less = compare; search = λ p t. true }

abbrev no_keywords : Keywords ℤ
no_keywords = record {
  expected = anything;
  min_length = none;
  max_length = none;
  pattern = none;
  enum = none;
  minimum = none;
  maximum = none;
  required = [];
  closed = false;
  min_items = none;
  max_items = none;
}

abbrev small : Schema ℤ
small =
    dict (record no_keywords { expected = one (chars "integer"); maximum = some (whole (pos 9)) })
      last no_dict

abbrev user : Schema ℤ
user =
    dict (record no_keywords { required = chars "name" ∷ [] })
      (property (chars "age") small (property (chars "marks") (dict no_keywords last small) last))
      no_dict

abbrev ann : Value ℤ
ann = object (
    field (chars "age") (number (whole (pos 12)))
      (field (chars "marks") (array (cons (number (whole (pos 3))) (cons null nil))) end))

ann_errors :
    validate ann user []
    ≡ record { path = []; keyword = required_key }
      ∷ record { path = key (chars "age") ∷ []; keyword = maximum_key }
      ∷ record { path = key (chars "marks") ∷ index 1 ∷ []; keyword = type_key }
      ∷ []
unfolding validate text_beq validate_type kind_of
ann_errors = refl

-- `enum` is not checked for a value that is no string.
enum_of_number :
    validate
      (number (whole (pos 5)))
      (dict (record no_keywords { enum = some (string (chars "a") ∷ []) }) last no_dict)
      []
    ≡ []
unfolding validate
enum_of_number = refl

-- True passes for an integer within its limits.
true_is_integer : validate (boolean true) small [] ≡ []
unfolding validate text_beq validate_type kind_of
true_is_integer = refl

validate_iff_example : (validate ann user [] ≡ []) ↔ Satisfies ann user
validate_iff_example = validate_iff ann user []
