-- ===== src/Store/Schema/Json.antt =====
-- store/schema.py: the values that `json.loads` returns, and schemas whose keywords have values of the
-- types that JSON Schema gives them. Floating point numbers are a parameter.
use data_py_os.Base.{ℕ, Bool, Option, List}
use data_py_os.Base.Eq.{Text}
use data_py_os.Base.Int.{ℤ}

-- int or float
pub data Number (Float : Type 0) : Type 0 where
  whole : ℤ → Number Float
  float : Float → Number Float

mutual
  pub data Value (Float : Type 0) : Type 0 where
    null : Value Float
    boolean : Bool → Value Float
    number : Number Float → Value Float
    string : Text → Value Float
    array : Items Float → Value Float
    object : Fields Float → Value Float

  -- the items of an array
  pub data Items (Float : Type 0) : Type 0 where
    nil : Items Float
    cons : Value Float → Items Float → Items Float

  -- the keys of an object, in their order
  pub data Fields (Float : Type 0) : Type 0 where
    end : Fields Float
    field : Text → Value Float → Fields Float → Fields Float

-- schema["type"]
pub data Expected : Type 0 where
  anything : Expected
  one : Text → Expected
  several : List Text → Expected

-- The keywords of a schema other than those that hold schemas. `closed` is an additionalProperties
-- that is False.
pub record Keywords (Float : Type 0) : Type 0 where
  pub expected : Expected
  pub min_length : Option ℕ
  pub max_length : Option ℕ
  pub pattern : Option Text
  pub enum : Option (List (Value Float))
  pub minimum : Option (Number Float)
  pub maximum : Option (Number Float)
  pub required : List Text
  pub closed : Bool
  pub min_items : Option ℕ
  pub max_items : Option ℕ

-- A schema that is no dictionary says nothing.
mutual
  pub data Schema (Float : Type 0) : Type 0 where
    no_dict : Schema Float
    dict :
        (keys : Keywords Float) (properties : Properties Float) (items : Schema Float)
        → Schema Float

  pub data Properties (Float : Type 0) : Type 0 where
    last : Properties Float
    property : Text → Schema Float → Properties Float → Properties Float
