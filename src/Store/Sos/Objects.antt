-- ===== src/Store/Sos/Objects.antt =====
-- store/sos.py: `get` and `store`.
use data_py_os.Base.{
  ℕ, ◌+◌, Bool, false, ◌&&◌, ◌||◌, Option, none, some, List, [], ◌∷◌, if◌then◌else◌,
}
use data_py_os.Base.Eq.{◌==◌, text_eq, Text, chars}
use data_py_os.Base.Dict.{Dict, lookup, insert, has}
use data_py_os.Base.Lists.{length}
use data_py_os.Store.Lru
use data_py_os.Store.Lru.{LruDict}
use data_py_os.Store.Paths.{lower, strip}
use data_py_os.Store.Sos.Types.{Bytes, Host, SObject, Link, Sos, oid_of}

-- on a miss in the table nothing changes, on a hit the cache is filled
unfoldable pub load : Text → Option SObject → Sos → Option SObject × Sos
load oid none s = (none, s)
load oid (some row) s = (some row, record s { obj_cache = Lru.set oid row s.obj_cache })

-- the answer of the cache, or else of the table
unfoldable pub fetch : Text → Option SObject × LruDict Text SObject → Sos → Option SObject × Sos
unfolding load
fetch oid (some obj, cache) s = (some obj, record s { obj_cache = cache })
fetch oid (none, cache) s = load oid (lookup oid s.objects) (record s { obj_cache = cache })

unfoldable pub get : Text → Sos → Option SObject × Sos
unfolding fetch
get oid s = fetch oid (Lru.get oid s.obj_cache) s

-- [t.lower().strip() for t in tags if t.strip()]
abbrev pub clean_tags : List Text → List Text
clean_tags [] = []
clean_tags (t ∷ ts) = if strip t == [] then clean_tags ts else strip (lower t) ∷ clean_tags ts

-- INSERT OR IGNORE INTO tag_index
abbrev pub has_tag : Text → Text → List (Text × Text) → Bool
has_tag tag oid [] = false
has_tag tag oid ((t, o) ∷ rows) = (tag == t && oid == o) || has_tag tag oid rows

unfoldable pub add_tag : Text → Text → List (Text × Text) → List (Text × Text)
add_tag tag oid rows = if has_tag tag oid rows then rows else (tag, oid) ∷ rows

unfoldable pub index_tags : Text → List Text → List (Text × Text) → List (Text × Text)
index_tags oid [] rows = rows
index_tags oid (t ∷ ts) rows = index_tags oid ts (add_tag t oid rows)

-- INSERT OR IGNORE INTO links
abbrev pub same_link : Link → Link → Bool
same_link a b = a.src == b.src && a.dst == b.dst && a.relation == b.relation

abbrev pub has_link : Link → List Link → Bool
has_link l [] = false
has_link l (k ∷ rows) = same_link l k || has_link l rows

unfoldable pub add_link : Link → List Link → List Link
add_link l rows = if has_link l rows then rows else l ∷ rows

unfoldable pub index_links : Text → List Text → List Link → List Link
index_links oid [] rows = rows
index_links oid (dst ∷ rest) rows =
    index_links oid rest (add_link (record { src = oid; dst = dst; relation = chars "ref" }) rows)

-- The arguments of `store`, with the clock.
pub record Draft : Type 0 where
  pub content : Bytes
  pub kind : Text
  pub meta : Dict Text Text
  pub tags : List Text
  pub links : List Text
  pub parent_oid : Option Text
  pub now : ℕ

-- version = parent.version + 1 if the parent is there, else 1
abbrev pub next_version : Option SObject → ℕ
next_version none = 1
next_version (some parent) = parent.version + 1

unfoldable pub get_parent : Option Text → Sos → Option SObject × Sos
get_parent none s = (none, s)
get_parent (some oid) s = get oid s

abbrev pub build : Text → Draft → ℕ → SObject
build oid d version = record {
  oid = oid;
  content = d.content;
  kind = d.kind;
  meta = d.meta;
  tags = clean_tags d.tags;
  links = d.links;
  parent_oid = d.parent_oid;
  version = version;
  created_at = d.now;
  size = length d.content;
}

-- INSERT OR IGNORE INTO objects
abbrev pub add_row : Text → SObject → Dict Text SObject → Dict Text SObject
add_row oid obj objects = if has oid objects then objects else insert oid obj objects

-- the writes of `store`
unfoldable pub put_object : SObject → Sos → Sos
put_object obj s = record s {
  objects = add_row obj.oid obj s.objects;
  links = index_links obj.oid obj.links s.links;
  tag_index = index_tags obj.oid obj.tags s.tag_index;
  obj_cache = Lru.set obj.oid obj s.obj_cache;
}

module _ ⦃h : Host⦄ where
  unfoldable pub store : Draft → Sos → Text × Sos
  store d s =
      let oid = oid_of d.content in
      let (parent, s') = get_parent d.parent_oid s in
      (oid, put_object (build oid d (next_version parent)) s')
