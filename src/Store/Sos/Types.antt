-- ===== src/Store/Sos/Types.antt =====
-- store/sos.py: `SObject`, the tables of `SCHEMA` and the two caches. A row's JSON columns hold the
-- values that they encode. The full-text index is left out: only keyword search reads it.
-- An OID is never the empty text, so the source's `if not oid` is a test for None.
use data_py_os.Base.{ℕ, zero, suc, Bool, Option, List, [], ◌∷◌}
use data_py_os.Base.Eq.{Text}
use data_py_os.Base.Dict.{Dict}
use data_py_os.Store.Lru.{LruDict, empty}

abbrev pub Bytes : Type 0
Bytes = List ℕ

-- The functions of the host's libraries: `hashlib.sha256(...).hexdigest()`, `str.encode` and
-- `bytes.decode` with `errors="replace"`.
pub record Host : Type 0 where
  pub hexdigest : Bytes → Text
  pub encode : Text → Bytes
  pub decode : Bytes → Text

pub data Content : Type 0 where
  str : Text → Content
  raw : Bytes → Content

pub record SObject : Type 0 where
  pub oid : Text
  pub content : Bytes
  pub kind : Text
  pub meta : Dict Text Text
  pub tags : List Text
  pub links : List Text
  pub parent_oid : Option Text
  pub version : ℕ
  pub created_at : ℕ
  pub size : ℕ

-- a row of `aliases` without its key
pub record Alias : Type 0 where
  pub oid : Text
  pub is_dir : Bool

pub record Link : Type 0 where
  pub src : Text
  pub dst : Text
  pub relation : Text

pub record Sos : Type 0 where
  pub objects : Dict Text SObject
  pub aliases : Dict Text Alias
  pub links : List Link
  pub tag_index : List (Text × Text)
  pub obj_cache : LruDict Text SObject
  pub path_cache : LruDict Text Text

abbrev pub lru_obj_size : ℕ
lru_obj_size = 2048

abbrev pub lru_path_size : ℕ
lru_path_size = 4096

-- A new database, before its seed.
abbrev pub init : Sos
init = record {
  objects = [];
  aliases = [];
  links = [];
  tag_index = [];
  obj_cache = empty lru_obj_size;
  path_cache = empty lru_path_size;
}

pub data Error : Type 0 where
  file_not_found is_a_directory file_exists not_empty recursion_error attribute_error : Error

abbrev take {ℓ} : {A : Type ℓ} → ℕ → List A → List A
take zero xs = []
take (suc n) [] = []
take (suc n) (x ∷ xs) = x ∷ take n xs

module _ ⦃h : Host⦄ where
  abbrev pub to_bytes : Content → Bytes
  to_bytes (str t) = h.encode t
  to_bytes (raw b) = b

  -- `_oid`
  unfoldable pub oid_of : Bytes → Text
  oid_of content = take 32 (h.hexdigest content)
