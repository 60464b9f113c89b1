-- ===== src/Store/Sos/RoundTrip.antt =====
-- store/sos.py: `write` and what `read` returns afterwards.
use data_py_os.Base.{
  ℕ, ◌≡◌, ◌≢◌, refl, sym, ap, ◌∙◌, ◌⊎◌, inl, inr, Bool, true, false, ◌||◌, Option, none, some, List,
  [], if◌then◌else◌,
}
use data_py_os.Base.Eq.{◌==◌, text_eq, Text, chars}
use data_py_os.Base.Result.{ok}
use data_py_os.Base.Dict.{Dict, lookup}
use data_py_os.Store.Paths.{parent_of}
use data_py_os.Store.Sos.Types.{Bytes, Host, Content, str, SObject, Sos, to_bytes, oid_of}
use data_py_os.Store.Sos.Objects.{store, get}
use data_py_os.Store.Sos.Aliases.{resolve, alias}
use data_py_os.Store.Sos.Files.{object_at, get_at, read, ensure_dir, file_draft, write}
use data_py_os.Store.Sos.Coherent.{
  Coherent, Fits, Answers, target, oid_in, resolve-Reads, get-Reads,
}
use data_py_os.Store.Sos.Storing.{NoCollision, Storable, store-Stores, alias-Coherent}
use data_py_os.Store.Sos.Writing.{
  Grows, Grows-refl, EmptyAlone, ensure_dir-Grows, target-alias_self, target-alias_ne,
  alias_objects,
}

module _ ⦃h : Host⦄ where
  -- What a write of `content` at `path` leaves.
  pub record Writes (path : Text) (content : Bytes) (s t : Sos) : Type 0 where
    pub coherent : Coherent t
    pub at : target path t ≡ some (oid_of content)
    pub others : (p o : Text) → p ≢ path → target p s ≡ some o → target p t ≡ some o
    pub kept : (i : Text) (r : SObject) → lookup i s.objects ≡ some r → lookup i t.objects ≡ some r
    pub row : SObject
    pub found : lookup (oid_of content) t.objects ≡ some row
    pub same : row.content ≡ content
    pub fresh : (p : Text) → p ≢ path → (target p t ≡ target p s) ⊎ (target p t ≡ some (oid_of []))
    pub back :
        (i : Text) (r : SObject)
        → lookup i t.objects ≡ some r
        → (lookup i s.objects ≡ some r) ⊎ (r.content ≡ content) ⊎ (r.content ≡ [])

  file_draft-Storable :
      (now : ℕ) (path : Text) (c : Content) (kind : Text) (meta : Dict Text Text) (tags : List Text)
      (old : Option Text)
      → (kind == chars "dir") ≡ false
      → Storable (file_draft now path c kind meta tags old)
  file_draft-Storable now path c kind meta tags old e ne = e

  -- The parent directories of a path, made after the path is in place.
  parents-Grows :
      (alone : EmptyAlone) (now : ℕ) (path : Text) (s : Sos) (b : Bool)
      → Coherent s
      → Grows s (if b then s else ensure_dir now (parent_of path) s)
  parents-Grows alone now path s true k = Grows-refl k
  parents-Grows alone now path s false k = ensure_dir-Grows alone now (parent_of path) s k

  -- From a coherent store, where only the empty content has its OID, a write of a content that no
  -- other content in the store collides with, of a kind that is not a directory, leaves a coherent store in which the path stands for the
  -- content, every other path is as it was, and every stored object is still there.
  pub write-Writes :
      (alone : EmptyAlone) (now : ℕ) (path : Text) (c : Content) (kind : Text)
      (meta : Dict Text Text) (tags : List Text) (s : Sos)
      → Coherent s
      → NoCollision (to_bytes c) s
      → (kind == chars "dir") ≡ false
      → Writes path (to_bytes c) s (write now path c kind meta tags s).1
  unfolding write store
  write-Writes alone now path c kind meta tags s k free file =
      let r = (resolve-Reads path s k).1 in
      let s1 = (resolve path s).1 in
      let d = file_draft now path c kind meta tags (resolve path s).0 in
      let free' = λ (x : SObject) (e : lookup (oid_of (to_bytes c)) s1.objects ≡ some x).
        free x (ap (lookup (oid_of (to_bytes c))) (sym r.tables.objects) ∙ e) in
      let st = store-Stores d s1 r.coherent free' (λ ne. file) in
      let s2 = (store d s1).1 in
      let oid = oid_of (to_bytes c) in
      let s3 = alias path oid false s2 in
      let g =
        parents-Grows alone now path s3 (parent_of path == [] || parent_of path == path)
          (alias-Coherent path oid false s2 st.coherent) in
      record {
        coherent = g.coherent;
        at = g.extends.targets path oid (target-alias_self path oid false s2);
        others = λ p o ne e. g.extends.targets p o (
            target-alias_ne p path oid false s2 ne
            ∙ ap (λ x. oid_in (lookup p x)) (st.names ∙ r.tables.aliases)
            ∙ e);
        kept = λ i x e.
            g.extends.rows i x (unfold alias in st.kept i x (ap (lookup i) r.tables.objects ∙ e));
        row = st.row;
        found = g.extends.rows oid st.row (unfold alias in st.found);
        same = st.same;
        fresh = λ p ne.
            let before =
              target-alias_ne p path oid false s2 ne
              ∙ ap (λ x. oid_in (lookup p x)) (st.names ∙ r.tables.aliases) in
            elim (g.fresh p) [ inl same ↦ inl (same ∙ before) | inr dir ↦ inr dir ];
        back = λ i x e. elim (g.back i x e) [
          | inr bare ↦ inr (inr bare)
          | inl here ↦
              elim (st.back i x (ap (lookup i) (sym (alias_objects path oid false s2)) ∙ here)) [
                | inl old ↦ inl (ap (lookup i) (sym r.tables.objects) ∙ old)
                | inr is ↦ inr (inl is)
              ]
        ];
      }

  answer_some :
      (oid : Text) (row : SObject) (o found : Option SObject)
      → Answers oid found o
      → found ≡ some row
      → (obj : SObject) × (o ≡ some obj) × Fits oid obj × (obj.content ≡ row.content)
  answer_some oid row none found a e = absurd (cc (a, e))
  answer_some oid row (some obj) found (fits, (r, is, same)) e =
      let one : r ≡ row = cc (is, e) in
      (obj, refl, fits, sym same ∙ ap (λ (x : SObject). x.content) one)

  -- What a path stands for is found as an object of the stored content.
  pub object_at_lem :
      (path : Text) (s : Sos) (oid : Text) (row : SObject)
      → Coherent s
      → target path s ≡ some oid
      → lookup oid s.objects ≡ some row
      → (obj : SObject) × ((object_at path s).0 ≡ some obj)
        × Fits oid obj
        × (obj.content ≡ row.content)
  unfolding object_at get_at
  object_at_lem path s oid row k at found =
      let (answer, r) = resolve-Reads path s k in
      let s' = (resolve path s).1 in
      rw (answer ∙ at, get_at)
        (answer_some oid row (get oid s').0 (lookup oid s'.objects) (get-Reads oid s' r.coherent).0
          (ap (lookup oid) r.tables.objects ∙ found))

  read_object :
      (path : Text) (s : Sos) (obj : SObject)
      → (object_at path s).0 ≡ some obj
      → (obj.kind == chars "dir") ≡ false
      → (read path s).0 ≡ ok (h.decode obj.content)
  unfolding read
  read_object path s obj e file = rw (e, file)

  -- A path that stands for a content other than the empty one is read as that content, whatever
  -- the caches hold.
  pub read_found :
      (path : Text) (s : Sos) (oid : Text) (row : SObject)
      → Coherent s
      → target path s ≡ some oid
      → lookup oid s.objects ≡ some row
      → oid ≢ oid_of []
      → (read path s).0 ≡ ok (h.decode row.content)
  read_found path s oid row k at found ne =
      let (obj, is, fits, same) = object_at_lem path s oid row k at found in
      read_object path s obj is (fits.file ne) ∙ ap (λ b. ok (h.decode b)) same

  -- Reading a path back after a text was written to it, into an empty store as into any other, returns the text. The store is coherent, decoding undoes
  -- encoding, only the empty content has its OID, the bytes of the text are not empty and collide with no stored content, and
  -- the kind is not that of a directory.
  pub read-write :
      (alone : EmptyAlone) (codec : (t : Text) → h.decode (h.encode t) ≡ t) (now : ℕ)
      (path text kind : Text) (meta : Dict Text Text) (tags : List Text) (s : Sos)
      → Coherent s
      → NoCollision (h.encode text) s
      → (kind == chars "dir") ≡ false
      → h.encode text ≢ []
      → (read path (write now path (str text) kind meta tags s).1).0 ≡ ok text
  read-write alone codec now path text kind meta tags s k free file full =
      let w = write-Writes alone now path (str text) kind meta tags s k free file in
      let s' = (write now path (str text) kind meta tags s).1 in
      read_found path s' (oid_of (h.encode text)) w.row w.coherent w.at w.found
        (λ e. full (alone (h.encode text) e))
      ∙ ap (λ b. ok (h.decode b)) w.same
      ∙ ap ok (codec text)

  -- A write leaves what is read elsewhere: from a coherent store, where the written content collides with no stored one and only
  -- the empty content has its OID, reading any other path that stood for a stored content that is not empty
  -- returns what it returned before the write.
  pub read-write_other :
      (alone : EmptyAlone) (now : ℕ) (path : Text) (c : Content) (kind : Text)
      (meta : Dict Text Text) (tags : List Text) (s : Sos) (p o : Text) (row : SObject)
      → Coherent s
      → NoCollision (to_bytes c) s
      → (kind == chars "dir") ≡ false
      → p ≢ path
      → target p s ≡ some o
      → lookup o s.objects ≡ some row
      → o ≢ oid_of []
      → (read p (write now path c kind meta tags s).1).0 ≡ (read p s).0
  read-write_other alone now path c kind meta tags s p o row k free file ne at found ne' =
      let w = write-Writes alone now path c kind meta tags s k free file in
      let s' = (write now path c kind meta tags s).1 in
      read_found p s' o row w.coherent (w.others p o ne at) (w.kept o row found) ne'
      ∙ sym (read_found p s o row k at found ne')
