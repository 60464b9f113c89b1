-- ===== src/Store/Sos/Writing.antt =====
-- store/sos.py: `write` and the directories that it makes; what `read` returns afterwards.
use data_py_os.Base.{
  ℕ, ◌≡◌, ◌≢◌, refl, sym, ap, ◌∙◌, ◌⊎◌, inl, inr, Bool, true, Option, none, some, List, [], ◌∷◌,
  ◌++◌, if◌then◌else◌, Option-cases, Bool-cases, is_some,
}
use data_py_os.Base.Eq.{◌==◌, text_eq, text_beq_iff, Text}
use data_py_os.Base.Dict.{lookup, lookup-insert_self, lookup-insert_ne}
use data_py_os.Store.Paths.{slash, parts_of}
use data_py_os.Store.Sos.Types.{Bytes, Host, SObject, Sos, oid_of}
use data_py_os.Store.Sos.Objects.{Draft, store}
use data_py_os.Store.Sos.Aliases.{resolve, alias, exists}
use data_py_os.Store.Sos.Files.{
  object_at, get_at, is_dir, dir_draft, make_dir, make_dirs, mkdir, ensure_dir,
}
use data_py_os.Store.Sos.Coherent.{
  Coherent, Reads, SameTables, target, oid_in, resolve-Reads, get-Reads,
}
use data_py_os.Store.Sos.Storing.{Stores, store-Stores, alias-Coherent}

-- Every path and every object that is there stays.
pub record Extends (s t : Sos) : Type 0 where
  pub targets : (p o : Text) → target p s ≡ some o → target p t ≡ some o
  pub rows : (i : Text) (r : SObject) → lookup i s.objects ≡ some r → lookup i t.objects ≡ some r

pub Extends-refl : (s : Sos) → Extends s s
Extends-refl s = record { targets = λ p o e. e; rows = λ i r e. e }

pub Extends-trans : {s t u : Sos} → Extends s t → Extends t u → Extends s u
Extends-trans a b = record {
  targets = λ p o e. b.targets p o (a.targets p o e);
  rows = λ i r e. b.rows i r (a.rows i r e);
}

pub SameTables-Extends : {s t : Sos} → SameTables s t → Extends s t
SameTables-Extends same = record {
  targets = λ p o e. ap (λ d. oid_in (lookup p d)) same.aliases ∙ e;
  rows = λ i r e. ap (lookup i) same.objects ∙ e;
}

module _ ⦃h : Host⦄ where
  -- A coherent state that holds all that `s` held.
  pub record Grows (s t : Sos) : Type 0 where
    pub coherent : Coherent t
    pub extends : Extends s t
    pub fresh : (p : Text) → (target p t ≡ target p s) ⊎ (target p t ≡ some (oid_of []))
    pub back :
        (i : Text) (r : SObject)
        → lookup i t.objects ≡ some r
        → (lookup i s.objects ≡ some r) ⊎ (r.content ≡ [])

  pub Grows-refl : {s : Sos} → Coherent s → Grows s s
  Grows-refl {s} k = record {
    coherent = k;
    extends = Extends-refl s;
    fresh = λ p. inl refl;
    back = λ i r e. inl e;
  }

  Reads-Grows : {s t : Sos} → Reads s t → Grows s t
  Reads-Grows r = record {
    coherent = r.coherent;
    extends = SameTables-Extends r.tables;
    fresh = λ p. inl (ap (λ d. oid_in (lookup p d)) r.tables.aliases);
    back = λ i x e. inl (ap (lookup i) (sym r.tables.objects) ∙ e);
  }

  Grows-trans : {s t u : Sos} → Grows s t → Grows t u → Grows s u
  Grows-trans a b = record {
    coherent = b.coherent;
    extends = Extends-trans a.extends b.extends;
    fresh = λ p. elim (b.fresh p) [
      | inl same ↦ elim (a.fresh p) [ inl same' ↦ inl (same ∙ same') | inr dir ↦ inr (same ∙ dir) ]
      | inr dir ↦ inr dir
    ];
    back = λ i r e. elim (b.back i r e) [ inl old ↦ a.back i r old | inr bare ↦ inr bare ];
  }

  pub target-alias_self : (p o : Text) (dir : Bool) (s : Sos) → target p (alias p o dir s) ≡ some o
  unfolding alias
  target-alias_self p o dir s =
      ap oid_in (lookup-insert_self p (record { oid = o; is_dir = dir }) s.aliases)

  pub target-alias_ne :
      (p q o : Text) (dir : Bool) (s : Sos) → p ≢ q → target p (alias q o dir s) ≡ target p s
  unfolding alias
  target-alias_ne p q o dir s ne =
      ap oid_in (lookup-insert_ne p q (record { oid = o; is_dir = dir }) s.aliases ne)

  pub alias_objects : (p o : Text) (dir : Bool) (s : Sos) → (alias p o dir s).objects ≡ s.objects
  unfolding alias
  alias_objects p o dir s = refl

  alias-Grows :
      (p : Text) (s : Sos) → Coherent s → target p s ≡ none → Grows s (alias p (oid_of []) true s)
  alias-Grows p s k new = record {
    coherent = alias-Coherent p (oid_of []) true s k;
    extends = record {
      targets = λ q x e.
          target-alias_ne q p (oid_of []) true s (λ same. cc (ap (λ z. target z s) same, e, new))
          ∙ e;
      rows = λ i r e. unfold alias in e;
    };
    fresh = λ q. elim (Bool-cases (q == p)) [
      | inl same ↦
          let is = (text_beq_iff q p).0 same in
          inr (
            ap (λ z. target z (alias p (oid_of []) true s)) is
            ∙ target-alias_self p (oid_of []) true s)
      | inr other ↦
          inl (target-alias_ne q p (oid_of []) true s (λ e. cc (other, (text_beq_iff q p).1 e)))
    ];
    back = λ i r e. inl (ap (lookup i) (sym (alias_objects p (oid_of []) true s)) ∙ e);
  }

  Stores-Grows : (d : Draft) {s t : Sos} → d.content ≡ [] → Stores d s t → Grows s t
  Stores-Grows d bare st = record {
    coherent = st.coherent;
    extends = record {
      targets = λ p o e. ap (λ x. oid_in (lookup p x)) st.names ∙ e;
      rows = st.kept;
    };
    fresh = λ p. inl (ap (λ x. oid_in (lookup p x)) st.names);
    back = λ i r e. elim (st.back i r e) [ inl old ↦ inl old | inr is ↦ inr (is ∙ bare) ];
  }

  pub exists-Reads :
      (p : Text) (s : Sos)
      → Coherent s
      → ((exists p s).0 ≡ is_some (target p s)) × Reads s (exists p s).1
  unfolding exists
  exists-Reads p s k = let (answer, r) = resolve-Reads p s k in (ap is_some answer, r)

  -- Only the empty content has the OID of the empty content.
  abbrev pub EmptyAlone : Type 0
  EmptyAlone = (b : Bytes) → oid_of b ≡ oid_of [] → b ≡ []

  module _ (alone : EmptyAlone) (now : ℕ) where
    make_dir-Grows :
        (p : Text) (s : Sos) → Coherent s → target p s ≡ none → Grows s (make_dir now p s)
    unfolding make_dir store oid_of
    make_dir-Grows p s k new =
        let d = dir_draft now p in
        let free = λ (r : SObject) (e : lookup (oid_of []) s.objects ≡ some r).
          alone r.content (k.stored (oid_of []) r e).hashed in
        let st = store-Stores d s k free (λ ne. absurd (ne refl)) in
        Grows-trans (Stores-Grows d refl st)
          (alias-Grows p (store d s).1 st.coherent (ap (λ x. oid_in (lookup p x)) st.names ∙ new))

    -- one round of the loop of `mkdir`
    make_dirs_step :
        (p : Text) (s : Sos)
        → Coherent s
        → let (there, s') = exists p s in Grows s (if there then s' else make_dir now p s')
    make_dirs_step p s k =
        let (answer, r) = exists-Reads p s k in
        elim (Option-cases (target p s)) [
          | inr (o, e) ↦ rw (answer, e) (Reads-Grows r)
          | inl e ↦
              rw (answer, e)
                (Grows-trans (Reads-Grows r) (
                  make_dir-Grows p (exists p s).1 r.coherent
                    (ap (λ d. oid_in (lookup p d)) r.tables.aliases ∙ e)))
        ]

    make_dirs-Grows :
        (cur : Text) (ps : List Text) (s : Sos) → Coherent s → Grows s (make_dirs now cur ps s)
    unfolding make_dirs
    make_dirs-Grows cur [] s k = Grows-refl k
    make_dirs-Grows cur (p ∷ ps) s k =
        let cur' = cur ++ slash ∷ p in
        let step = make_dirs_step cur' s k in
        Grows-trans step (make_dirs-Grows cur' ps _ step.coherent)

  pub SameTables-refl : (s : Sos) → SameTables s s
  SameTables-refl s = record { objects = refl; aliases = refl; links = refl; tag_index = refl }

  pub SameTables-trans : {s t u : Sos} → SameTables s t → SameTables t u → SameTables s u
  SameTables-trans a b = record {
    objects = b.objects ∙ a.objects;
    aliases = b.aliases ∙ a.aliases;
    links = b.links ∙ a.links;
    tag_index = b.tag_index ∙ a.tag_index;
  }

  pub get_at-Reads : (o : Option Text) (s : Sos) → Coherent s → Reads s (get_at o s).1
  unfolding get_at
  get_at-Reads none s k = record { coherent = k; tables = SameTables-refl s }
  get_at-Reads (some oid) s k = (get-Reads oid s k).1

  pub object_at-Reads : (p : Text) (s : Sos) → Coherent s → Reads s (object_at p s).1
  unfolding object_at
  object_at-Reads p s k =
      let r = (resolve-Reads p s k).1 in
      let g = get_at-Reads (resolve p s).0 (resolve p s).1 r.coherent in
      record { coherent = g.coherent; tables = SameTables-trans r.tables g.tables }

  pub is_dir-Reads : (p : Text) (s : Sos) → Coherent s → Reads s (is_dir p s).1
  unfolding is_dir
  is_dir-Reads p s k = object_at-Reads p s k

  module _ (alone : EmptyAlone) (now : ℕ) where
    mkdir-Grows : (p : Text) (s : Sos) → Coherent s → Grows s (mkdir now p true s).1
    unfolding mkdir
    mkdir-Grows p s k =
        let (answer, r) = exists-Reads p s k in
        elim (Bool-cases (exists p s).0) [
          | inr new ↦ rw new (
              Grows-trans (Reads-Grows r)
                (make_dirs-Grows alone now [] (parts_of p) (exists p s).1 r.coherent))
          | inl there ↦
              let g =
                Grows-trans (Reads-Grows r)
                  (Reads-Grows (is_dir-Reads p (exists p s).1 r.coherent)) in
              elim (Bool-cases (is_dir p (exists p s).1).0) [
                | inl dir ↦ rw (there, dir) g
                | inr file ↦ rw (there, file) g
              ]
        ]

    pub ensure_dir-Grows : (p : Text) (s : Sos) → Coherent s → Grows s (ensure_dir now p s)
    unfolding ensure_dir
    ensure_dir-Grows p s k =
        let (answer, r) = exists-Reads p s k in
        elim (Bool-cases (exists p s).0) [
          | inl there ↦ rw there (Reads-Grows r)
          | inr new ↦ rw new (Grows-trans (Reads-Grows r) (mkdir-Grows p (exists p s).1 r.coherent))
        ]
