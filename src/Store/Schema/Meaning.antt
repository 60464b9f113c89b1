-- ===== src/Store/Schema/Meaning.antt =====
-- store/schema.py: what a schema says of a value, keyword by keyword. It is read off the code, which
-- applies `enum` to strings only and counts True and False as numbers.
use data_py_os.Base.{ℕ, ◌≡◌, ◌≤◌, ◌⊎◌, true, false, Option, some, List, [], ◌∷◌}
use data_py_os.Base.Eq.{Text}
use data_py_os.Base.Lists.{length, In, All}
use data_py_os.Store.Schema.Json.{
  Number, Value, null, boolean, number, string, array, object, Items, nil, cons, Fields, end, field,
  Expected, anything, one, several, Keywords, Schema, no_dict, dict, Properties,
}
use data_py_os.Store.Schema.Validation.{Host, Kind, kind_of, isinstance, of_bool, count, find}

-- What a keyword says, if it is there.
abbrev pub Says : {Limit : Type 0} → Option Limit → (Limit → Type 0) → Type 0
Says {Limit} o P = (m : Limit) → o ≡ some m → P m

-- A length within two limits.
abbrev pub Within : ℕ → Option ℕ → Option ℕ → Type 0
Within n lower upper = Says lower (λ m. m ≤ n) × Says upper (λ m. n ≤ m)

module _ {Float : Type 0} where
  -- The value is of the class that the name stands for; a name that stands for none says nothing.
  abbrev pub HasType : Value Float → Text → Type 0
  HasType v t = (k : Kind) → kind_of t ≡ some k → isinstance v k ≡ true

  abbrev pub HasSome : Value Float → List Text → Type 0
  HasSome v [] = ⊥
  HasSome v (t ∷ ts) = HasType v t ⊎ HasSome v ts

  abbrev pub Fitting : Value Float → Expected → Type 0
  Fitting v anything = Unit
  Fitting v (one t) = HasType v t
  Fitting v (several ts) = HasSome v ts

  abbrev pub HasField : Text → Fields Float → Type 0
  HasField f end = ⊥
  HasField f (field k v fs) = (f ≡ k) ⊎ HasField f fs

  -- Every key of the object is a property.
  abbrev pub Known : Fields Float → Properties Float → Type 0
  Known fs ps = (k : Text) → HasField k fs → (s : Schema Float) × (find k ps ≡ some s)

module _ {Float : Type 0} ⦃h : Host Float⦄ where
  abbrev pub MeansString : Text → Keywords Float → Type 0
  MeansString t k =
      Within (length t) k.min_length k.max_length
      × Says k.pattern (λ p. h.search p t ≡ true)
      × Says k.enum (λ vs. In {A = Value Float} (string t) vs)

  abbrev pub MeansNumber : Number Float → Keywords Float → Type 0
  MeansNumber n k =
      Says k.minimum (λ m. h.less n m ≡ false) × Says k.maximum (λ m. h.less m n ≡ false)

  unfoldable mutual
    pub Satisfies : Value Float → Schema Float → Type 0
    Satisfies v no_dict = Unit
    Satisfies null (dict k ps s) = Fitting {Float = Float} null k.expected
    Satisfies (string t) (dict k ps s) =
        Fitting {Float = Float} (string t) k.expected × MeansString t k
    Satisfies (boolean b) (dict k ps s) =
        Fitting {Float = Float} (boolean b) k.expected × MeansNumber (of_bool b) k
    Satisfies (number n) (dict k ps s) =
        Fitting {Float = Float} (number n) k.expected × MeansNumber n k
    Satisfies (object fs) (dict k ps s) =
        Fitting {Float = Float} (object fs) k.expected
        × All (λ f. HasField f fs) k.required
        × FieldsSatisfy fs ps
        × (k.closed ≡ true → Known fs ps)
    Satisfies (array xs) (dict k ps s) =
        Fitting {Float = Float} (array xs) k.expected
        × ItemsSatisfy xs s
        × Within (count xs) k.min_items k.max_items

    pub ItemsSatisfy : Items Float → Schema Float → Type 0
    ItemsSatisfy nil s = Unit
    ItemsSatisfy (cons x xs) s = Satisfies x s × ItemsSatisfy xs s

    -- The value of every key that is a property satisfies its schema.
    pub FieldsSatisfy : Fields Float → Properties Float → Type 0
    FieldsSatisfy end ps = Unit
    FieldsSatisfy (field k v fs) ps =
        ((s : Schema Float) → find k ps ≡ some s → Satisfies v s) × FieldsSatisfy fs ps
