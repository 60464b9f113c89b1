-- ===== src/Store/Sos/Storing.antt =====
-- store/sos.py: `store`, `alias` and `unalias` keep the caches and tables coherent.
use data_py_os.Base.{
  ◌≡◌, ◌≢◌, refl, sym, ap, ◌∙◌, ◌⊎◌, inl, inr, Bool, false, Option, none, some, [], arith,
  Option-cases, Bool-cases,
}
use data_py_os.Base.Eq.{◌==◌, text_eq, text_beq_iff, Text, chars}
use data_py_os.Base.Dict.{
  Dict, lookup, has, IsDict, insert-IsDict, erase-IsDict, lookup-insert, lookup-insert_self,
  lookup-insert_ne, lookup-erase,
}
use data_py_os.Store.Lru.Order.{entry}
use data_py_os.Store.Lru.Laws.{
  set-IsValid, entry-set_self, entry-set, entry-invalidate, invalidate-IsValid,
}
use data_py_os.Store.Sos.Types.{Bytes, Host, SObject, Alias, Sos, oid_of}
use data_py_os.Store.Sos.Objects.{
  Draft, build, add_row, put_object, get_parent, next_version, store,
}
use data_py_os.Store.Sos.Aliases.{alias, unalias}
use data_py_os.Store.Sos.Coherent.{Fits, Coherent, Reads, get-Reads}

module _ (oid : Text) (obj : SObject) (objects : Dict Text SObject) where
  -- a row that is there stays
  pub add_row_keeps :
      (i : Text) {r : SObject}
      → lookup i objects ≡ some r
      → lookup i (add_row oid obj objects) ≡ some r
  add_row_keeps i {r} e = elim (Bool-cases (has oid objects)) [
    | inl old ↦ rw old e
    | inr new ↦ rw new (ground (arith, lookup-insert i oid obj objects, text_beq_iff i oid, e, new))
  ]

  -- a row that is there after was there before, or is the new one
  pub add_row_back :
      (i : Text) (r : SObject)
      → lookup i (add_row oid obj objects) ≡ some r
      → (lookup i objects ≡ some r) ⊎ ((i ≡ oid) × (obj ≡ r))
  add_row_back i r e = elim (Bool-cases (has oid objects)) [
    | inl old ↦ inl (rw old at e)
    | inr new ↦
        let e' = sym (lookup-insert i oid obj objects) ∙ (rw new at e) in
        elim (Bool-cases (i == oid)) [
          | inl same ↦ inr ((text_beq_iff i oid).0 same, cc (rw same at e'))
          | inr other ↦ inl (rw other at e')
        ]
  ]

  -- the row that the OID has afterwards
  add_row_has :
      ((r : SObject) → lookup oid objects ≡ some r → r.content ≡ obj.content)
      → (r : SObject) × (lookup oid (add_row oid obj objects) ≡ some r) × (r.content ≡ obj.content)
  add_row_has agree = elim (Option-cases (lookup oid objects)) [
    | inl new ↦ (obj, rw new (lookup-insert_self oid obj objects), refl)
    | inr (r, old) ↦ (r, rw (old, old), agree r old)
  ]

  add_row-IsDict : IsDict objects → IsDict (add_row oid obj objects)
  add_row-IsDict u = elim (Bool-cases (has oid objects)) [
    | inl old ↦ rw old u
    | inr new ↦ rw new (insert-IsDict oid obj objects u)
  ]

module _ ⦃h : Host⦄ where
  -- No other content in the store has this OID.
  abbrev pub NoCollision : Bytes → Sos → Type 0
  NoCollision content s =
      (r : SObject) → lookup (oid_of content) s.objects ≡ some r → r.content ≡ content

  pub put_object-Coherent :
      (obj : SObject) (s : Sos)
      → Coherent s
      → Fits obj.oid obj
      → ((r : SObject) → lookup obj.oid s.objects ≡ some r → r.content ≡ obj.content)
      → Coherent (put_object obj s)
  unfolding put_object
  put_object-Coherent obj s k fits agree = record {
    obj_cache = set-IsValid obj.oid obj s.obj_cache k.obj_cache;
    path_cache = k.path_cache;
    rows = add_row-IsDict obj.oid obj s.objects k.rows;
    names = k.names;
    stored = λ i r e. elim (add_row_back obj.oid obj s.objects i r e) [
      | inl old ↦ k.stored i r old
      | inr (at, is) ↦ rw (at, ← is) fits
    ];
    backed = λ i o e. elim (entry-set i obj.oid obj s.obj_cache k.obj_cache e) [
      | inl (at, is) ↦
          let (r, found, same) = add_row_has obj.oid obj s.objects agree in
          record { fits = rw (at, ← is) fits; row = r; found = rw at found; same = rw (← is) same }
      | inr (_, old) ↦
          let b = k.backed i o old in
          record {
            fits = b.fits;
            row = b.row;
            found = add_row_keeps obj.oid obj s.objects i b.found;
            same = b.same;
          }
    ];
    cached = k.cached;
  }

  -- a row that is there after was there before, or is the object
  put_object_back :
      (obj : SObject) (s : Sos) (i : Text) (r : SObject)
      → lookup i (put_object obj s).objects ≡ some r
      → (lookup i s.objects ≡ some r) ⊎ ((i ≡ obj.oid) × (obj ≡ r))
  unfolding put_object
  put_object_back obj s i r e = add_row_back obj.oid obj s.objects i r e

  pub alias-Coherent :
      (path oid : Text) (dir : Bool) (s : Sos) → Coherent s → Coherent (alias path oid dir s)
  unfolding alias
  alias-Coherent path oid dir s k =
      let row : Alias = record { oid = oid; is_dir = dir } in
      record {
        obj_cache = k.obj_cache;
        path_cache = set-IsValid path oid s.path_cache k.path_cache;
        rows = k.rows;
        names = insert-IsDict path row s.aliases k.names;
        stored = k.stored;
        backed = k.backed;
        cached = λ p o e. elim (entry-set p path oid s.path_cache k.path_cache e) [
          | inl (at, is) ↦ rw (at, lookup-insert_self path row s.aliases, is)
          | inr (ne, old) ↦ rw (lookup-insert_ne p path row s.aliases ne) (k.cached p o old)
        ];
      }

  pub unalias-Coherent : (path : Text) (s : Sos) → Coherent s → Coherent (unalias path s)
  unfolding unalias
  unalias-Coherent path s k = record {
    obj_cache = k.obj_cache;
    path_cache = invalidate-IsValid path s.path_cache k.path_cache;
    rows = k.rows;
    names = erase-IsDict path s.aliases k.names;
    stored = k.stored;
    backed = k.backed;
    cached = λ p o e.
        let e' = sym (entry-invalidate p path s.path_cache k.path_cache) ∙ e in
        elim (Bool-cases (p == path)) [
          | inl same ↦ absurd (cc (rw same at e'))
          | inr other ↦
              rw (lookup-erase p path s.aliases k.names, other) (k.cached p o (rw other at e'))
        ];
  }

  -- What a `store` finds and leaves: the new object is cached under the OID of its content.
  pub record Stores (d : Draft) (s t : Sos) : Type 0 where
    pub coherent : Coherent t
    pub names : t.aliases ≡ s.aliases
    pub kept : (i : Text) (r : SObject) → lookup i s.objects ≡ some r → lookup i t.objects ≡ some r
    pub obj : SObject
    pub content : obj.content ≡ d.content
    pub parent : obj.parent_oid ≡ d.parent_oid
    pub cached : entry (oid_of d.content) t.obj_cache ≡ some obj
    pub row : SObject
    pub found : lookup (oid_of d.content) t.objects ≡ some row
    pub same : row.content ≡ d.content
    pub back :
        (i : Text) (r : SObject)
        → lookup i t.objects ≡ some r
        → (lookup i s.objects ≡ some r) ⊎ (r.content ≡ d.content)

  get_parent-Reads : (p : Option Text) (s : Sos) → Coherent s → Reads s (get_parent p s).1
  unfolding get_parent
  get_parent-Reads none s k = record {
    coherent = k;
    tables = record { objects = refl; aliases = refl; links = refl; tag_index = refl };
  }
  get_parent-Reads (some oid) s k = (get-Reads oid s k).1

  -- a draft that may be stored: only the empty content may be a directory
  abbrev pub Storable : Draft → Type 0
  Storable d = oid_of d.content ≢ oid_of [] → (d.kind == chars "dir") ≡ false

  pub store-Stores :
      (d : Draft) (s : Sos)
      → Coherent s
      → NoCollision d.content s
      → Storable d
      → Stores d s (store d s).1
  unfolding store
  store-Stores d s k free kind =
      let (parent, s') = get_parent d.parent_oid s in
      let r = get_parent-Reads d.parent_oid s k in
      let oid = oid_of d.content in
      let obj = build oid d (next_version parent) in
      let agree = λ (x : SObject) (e : lookup oid s'.objects ≡ some x).
        free x (ap (lookup oid) (sym r.tables.objects) ∙ e) in
      let fits : Fits oid obj = record { own = refl; hashed = refl; file = kind } in
      record {
        coherent = put_object-Coherent obj s' r.coherent fits agree;
        names = unfold put_object in r.tables.aliases;
        kept = λ i x e.
            unfold put_object in
            add_row_keeps oid obj s'.objects i (ap (lookup i) r.tables.objects ∙ e);
        obj = obj;
        content = refl;
        parent = refl;
        cached = unfold put_object in entry-set_self oid obj s'.obj_cache;
        row = (add_row_has oid obj s'.objects agree).0;
        found = unfold put_object in (add_row_has oid obj s'.objects agree).1;
        same = (add_row_has oid obj s'.objects agree).2;
        back = λ i x e. elim (put_object_back obj s' i x e) [
          | inl old ↦ inl (ap (lookup i) (sym r.tables.objects) ∙ old)
          | inr (at, is) ↦ inr (ap (λ (z : SObject). z.content) (sym is))
        ];
      }
