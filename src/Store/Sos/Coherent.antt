-- ===== src/Store/Sos/Coherent.antt =====
-- store/sos.py: the caches agree with the tables, and every object is stored under its own OID.
use data_py_os.Base.{◌≡◌, ◌≢◌, refl, sym, ap, ◌∙◌, inl, inr, Bool, false, Option, none, some, []}
use data_py_os.Base.Eq.{◌==◌, text_eq, Text, chars}
use data_py_os.Base.Dict.{Dict, lookup, IsDict}
use data_py_os.Store.Lru
use data_py_os.Store.Lru.{LruDict}
use data_py_os.Store.Lru.Order.{IsValid, entry}
use data_py_os.Store.Lru.Laws.{set-IsValid, get_lem, get-IsValid, entry-set}
use data_py_os.Store.Sos.Types.{Host, SObject, Alias, Sos, oid_of}
use data_py_os.Store.Sos.Objects.{get, load, fetch}
use data_py_os.Store.Sos.Aliases.{resolve, look_up, find_path}

-- What the table of paths says of a path.
abbrev pub oid_in : Option Alias → Option Text
oid_in none = none
oid_in (some row) = some row.oid

abbrev pub target : Text → Sos → Option Text
target path s = oid_in (lookup path s.aliases)

abbrev pub is_dir_object : SObject → Bool
is_dir_object o = o.kind == chars "dir"

-- Reading changes no table.
pub record SameTables (s t : Sos) : Type 0 where
  pub objects : t.objects ≡ s.objects
  pub aliases : t.aliases ≡ s.aliases
  pub links : t.links ≡ s.links
  pub tag_index : t.tag_index ≡ s.tag_index

module _ ⦃h : Host⦄ where
  -- An object under its OID. Only the empty content may be a directory.
  pub record Fits (oid : Text) (o : SObject) : Type 0 where
    pub own : o.oid ≡ oid
    pub hashed : oid_of o.content ≡ oid
    pub file : oid ≢ oid_of [] → is_dir_object o ≡ false

  -- A cached object fits, and the table holds an object of the same content.
  pub record Backed (oid : Text) (o : SObject) (objects : Dict Text SObject) : Type 0 where
    pub fits : Fits oid o
    pub row : SObject
    pub found : lookup oid objects ≡ some row
    pub same : row.content ≡ o.content

  pub record Coherent (s : Sos) : Type 0 where
    pub obj_cache : IsValid s.obj_cache
    pub path_cache : IsValid s.path_cache
    pub rows : IsDict s.objects
    pub names : IsDict s.aliases
    pub stored : (oid : Text) (o : SObject) → lookup oid s.objects ≡ some o → Fits oid o
    pub backed :
        (oid : Text) (o : SObject) → entry oid s.obj_cache ≡ some o → Backed oid o s.objects
    pub cached : (path oid : Text) → entry path s.path_cache ≡ some oid → target path s ≡ some oid

  touch_objects :
      (s : Sos) (c : LruDict Text SObject)
      → Coherent s
      → IsValid c
      → c.cache ≡ s.obj_cache.cache
      → Coherent (record s { obj_cache = c })
  touch_objects s c k v e = record {
    obj_cache = v;
    path_cache = k.path_cache;
    rows = k.rows;
    names = k.names;
    stored = k.stored;
    backed = λ oid o p. k.backed oid o (ap (lookup oid) (sym e) ∙ p);
    cached = k.cached;
  }

  pub cache_object :
      (s : Sos) (oid : Text) (o : SObject)
      → Coherent s
      → Backed oid o s.objects
      → Coherent (record s { obj_cache = Lru.set oid o s.obj_cache })
  cache_object s oid o k b = record {
    obj_cache = set-IsValid oid o s.obj_cache k.obj_cache;
    path_cache = k.path_cache;
    rows = k.rows;
    names = k.names;
    stored = k.stored;
    backed = λ i x p. elim (entry-set i oid o s.obj_cache k.obj_cache p) [
      | inr (_, old) ↦ k.backed i x old
      | inl (at, is) ↦ rw (at, ← is) b
    ];
    cached = k.cached;
  }

  load_objects :
      (s : Sos) (oid : Text) (o : SObject)
      → Coherent s
      → lookup oid s.objects ≡ some o
      → Coherent (record s { obj_cache = Lru.set oid o s.obj_cache })
  load_objects s oid o k e =
      cache_object s oid o k record { fits = k.stored oid o e; row = o; found = e; same = refl }

  -- What `get` and `resolve` do: the caches change, the tables do not.
  pub record Reads (s t : Sos) : Type 0 where
    pub coherent : Coherent t
    pub tables : SameTables s t

  -- An answer of `get`: an object that fits, of the content in the table; none if there is none.
  abbrev pub Answers : Text → Option SObject → Option SObject → Type 0
  Answers oid row none = row ≡ none
  Answers oid row (some o) = Fits oid o × ((r : SObject) × (row ≡ some r) × (r.content ≡ o.content))

  fetch_lem :
      (oid : Text) (hit : Option SObject) (s : Sos)
      → Coherent s
      → entry oid s.obj_cache ≡ hit
      → (c : LruDict Text SObject) → IsValid c
      → c.cache ≡ s.obj_cache.cache
      → Answers oid (lookup oid s.objects) (fetch oid (hit, c) s).0
        × Reads s (fetch oid (hit, c) s).1
  unfolding fetch
  fetch_lem oid (some o) s k e c v same =
      let b = k.backed oid o e in
      (
        (b.fits, (b.row, b.found, b.same)),
        record {
          coherent = touch_objects s c k v same;
          tables = record { objects = refl; aliases = refl; links = refl; tag_index = refl };
        },
      )
  fetch_lem oid none s k e c v same = go (lookup oid s.objects) refl
    where
      touched : Coherent (record s { obj_cache = c })
      touched = touch_objects s c k v same

      go :
          (row : Option SObject)
          → lookup oid s.objects ≡ row
          → Answers oid row (load oid row (record s { obj_cache = c })).0
            × Reads s (load oid row (record s { obj_cache = c })).1
      go none q = (
        refl,
        record {
          coherent = touched;
          tables = record { objects = refl; aliases = refl; links = refl; tag_index = refl };
        },
      )
      go (some o) q = (
        (k.stored oid o q, (o, refl, refl)),
        record {
          coherent = load_objects (record s { obj_cache = c }) oid o touched q;
          tables = record { objects = refl; aliases = refl; links = refl; tag_index = refl };
        },
      )

  pub get-Reads :
      (oid : Text) (s : Sos)
      → Coherent s
      → Answers oid (lookup oid s.objects) (get oid s).0 × Reads s (get oid s).1
  unfolding get
  get-Reads oid s k =
      let (answer, same) = get_lem oid s.obj_cache in
      fetch_lem oid (Lru.get oid s.obj_cache).0 s k (sym answer) (Lru.get oid s.obj_cache).1
        (get-IsValid oid s.obj_cache k.obj_cache) same

  touch_paths :
      (s : Sos) (c : LruDict Text Text)
      → Coherent s
      → IsValid c
      → ((path oid : Text) → entry path c ≡ some oid → target path s ≡ some oid)
      → Coherent (record s { path_cache = c })
  touch_paths s c k v e = record {
    obj_cache = k.obj_cache;
    path_cache = v;
    rows = k.rows;
    names = k.names;
    stored = k.stored;
    backed = k.backed;
    cached = e;
  }

  find_path_lem :
      (path : Text) (hit : Option Text) (s : Sos)
      → Coherent s
      → entry path s.path_cache ≡ hit
      → (c : LruDict Text Text) → IsValid c
      → c.cache ≡ s.path_cache.cache
      → ((find_path path (hit, c) s).0 ≡ target path s) × Reads s (find_path path (hit, c) s).1
  unfolding find_path
  find_path_lem path (some oid) s k e c v same = (
    sym (k.cached path oid e),
    record {
      coherent = touch_paths s c k v (λ p o q. k.cached p o (ap (lookup p) (sym same) ∙ q));
      tables = record { objects = refl; aliases = refl; links = refl; tag_index = refl };
    },
  )
  find_path_lem path none s k e c v same = go (lookup path s.aliases) refl
    where
      touched : Coherent (record s { path_cache = c })
      touched = touch_paths s c k v (λ p o q. k.cached p o (ap (lookup p) (sym same) ∙ q))

      go :
          (row : Option Alias)
          → lookup path s.aliases ≡ row
          → ((look_up path row (record s { path_cache = c })).0 ≡ oid_in row)
            × Reads s (look_up path row (record s { path_cache = c })).1
      go none q = (
        refl,
        record {
          coherent = touched;
          tables = record { objects = refl; aliases = refl; links = refl; tag_index = refl };
        },
      )
      go (some row) q = (
        refl,
        record {
          coherent =
              touch_paths (record s { path_cache = c }) (Lru.set path row.oid c) touched
                (set-IsValid path row.oid c v)
                (λ p o set. elim (entry-set p path row.oid c v set) [
                  | inl (at, is) ↦ rw (at, q, is)
                  | inr (_, old) ↦ k.cached p o (ap (lookup p) (sym same) ∙ old)
                ]);
          tables = record { objects = refl; aliases = refl; links = refl; tag_index = refl };
        },
      )

  -- Whatever the cache holds, `resolve` answers from the table of paths and changes no table.
  pub resolve-Reads :
      (path : Text) (s : Sos)
      → Coherent s
      → ((resolve path s).0 ≡ target path s) × Reads s (resolve path s).1
  unfolding resolve
  resolve-Reads path s k =
      let (answer, same) = get_lem path s.path_cache in
      find_path_lem path (Lru.get path s.path_cache).0 s k (sym answer)
        (Lru.get path s.path_cache).1 (get-IsValid path s.path_cache k.path_cache) same
