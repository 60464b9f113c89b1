-- ===== src/Store/Sos/Showing.antt =====
-- store/sos.py: the tables of a store that hold the files of `Spec`, and how aliases change them.
use data_py_os.Base.{
  ◌≡◌, ◌≢◌, refl, sym, ap, ◌∙◌, ◌⊎◌, inl, inr, true, false, Option, none, some, [], if◌then◌else◌,
  Bool-cases,
}
use data_py_os.Base.Eq.{◌==◌, text_eq, Text}
use data_py_os.Base.Dict.{lookup}
use data_py_os.Store.Sos.Types.{Bytes, Host, SObject, Sos, oid_of}
use data_py_os.Store.Sos.Aliases.{alias, unalias}
use data_py_os.Store.Sos.Coherent.{Coherent, Reads, target, oid_in}
use data_py_os.Store.Sos.Storing.{alias-Coherent, unalias-Coherent}
use data_py_os.Store.Sos.Writing.{alias_objects}
use data_py_os.Store.Sos.Moving.{target-alias, target-unalias}
use data_py_os.Store.Sos.Spec.{View, set}

pub set_at :
    (p path : Text) (v : Option Bytes) (fs : View) → (p == path) ≡ true → set path v fs p ≡ v
set_at p path v fs e = rw e refl

pub set_off :
    (p path : Text) (v : Option Bytes) (fs : View) → (p == path) ≡ false → set path v fs p ≡ fs p
set_off p path v fs e = rw e refl

module _ ⦃h : Host⦄ where
  pub unalias_objects : (p : Text) (s : Sos) → (unalias p s).objects ≡ s.objects
  unfolding unalias
  unalias_objects p s = refl

  -- A file of the view, in the tables.
  pub record Held (p : Text) (content : Bytes) (s : Sos) : Type 0 where
    pub full : content ≢ []
    pub at : target p s ≡ some (oid_of content)
    pub row : SObject
    pub found : lookup (oid_of content) s.objects ≡ some row
    pub same : row.content ≡ content

  abbrev pub Bare : Option Text → Type 0
  Bare o = (o ≡ none) ⊎ (o ≡ some (oid_of []))

  pub Held-moved :
      (p q : Text) (content : Bytes) (s t : Sos)
      → target q t ≡ target p s
      → t.objects ≡ s.objects
      → Held p content s
      → Held q content t
  Held-moved p q content s t at rows held = record {
    full = held.full;
    at = at ∙ held.at;
    row = held.row;
    found = ap (lookup (oid_of content)) rows ∙ held.found;
    same = held.same;
  }

module _ ⦃h : Host⦄ (Known : Bytes → Type 0) where
  -- The tables hold the view, and only contents that are known.
  pub record Shows (fs : View) (s : Sos) : Type 0 where
    pub coherent : Coherent s
    pub held : (p : Text) (content : Bytes) → fs p ≡ some content → Held p content s
    pub bare : (p : Text) → fs p ≡ none → Bare (target p s)
    pub known : (i : Text) (r : SObject) → lookup i s.objects ≡ some r → Known r.content

  pub Shows-Reads : (fs : View) (s t : Sos) → Shows fs s → Reads s t → Shows fs t
  Shows-Reads fs s t v r =
      let same = λ (p : Text). ap (λ d. oid_in (lookup p d)) r.tables.aliases in
      record {
        coherent = r.coherent;
        held = λ p c e. Held-moved p p c s t (same p) r.tables.objects (v.held p c e);
        bare = λ p e. elim (v.bare p e) [
          | inl gone ↦ inl (same p ∙ gone)
          | inr dir ↦ inr (same p ∙ dir)
        ];
        known = λ i x e. v.known i x (ap (lookup i) (sym r.tables.objects) ∙ e);
      }

  pub Shows-unalias :
      (path : Text) (fs : View) (s : Sos) → Shows fs s → Shows (set path none fs) (unalias path s)
  Shows-unalias path fs s v =
      let t = unalias path s in
      let off = λ (p : Text) (e : (p == path) ≡ false).
        target-unalias p path s v.coherent ∙ ap (λ b. if b then none else target p s) e in
      record {
        coherent = unalias-Coherent path s v.coherent;
        held = λ p c e. elim (Bool-cases (p == path)) [
          | inl same ↦ absurd (cc (e, set_at p path none fs same))
          | inr other ↦
              Held-moved p p c s t (off p other) (unalias_objects path s)
                (v.held p c (sym (set_off p path none fs other) ∙ e))
        ];
        bare = λ p e. elim (Bool-cases (p == path)) [
          | inl same ↦
              inl
                (target-unalias p path s v.coherent ∙ ap (λ b. if b then none else target p s) same)
          | inr other ↦ elim (v.bare p (sym (set_off p path none fs other) ∙ e)) [
            | inl gone ↦ inl (off p other ∙ gone)
            | inr dir ↦ inr (off p other ∙ dir)
          ]
        ];
        known = λ i x e. v.known i x (ap (lookup i) (sym (unalias_objects path s)) ∙ e);
      }

  pub Shows-alias :
      (src dst : Text) (content : Bytes) (fs : View) (s : Sos)
      → Shows fs s
      → fs src ≡ some content
      → Shows (set dst (fs src) fs) (alias dst (oid_of content) false s)
  Shows-alias src dst content fs s v is =
      let o = oid_of content in
      let t = alias dst o false s in
      let from = v.held src content is in
      let on = λ (p : Text) (e : (p == dst) ≡ true).
        target-alias p dst o false s ∙ ap (λ b. if b then some o else target p s) e in
      let off = λ (p : Text) (e : (p == dst) ≡ false).
        target-alias p dst o false s ∙ ap (λ b. if b then some o else target p s) e in
      record {
        coherent = alias-Coherent dst o false s v.coherent;
        held = λ p c e. elim (Bool-cases (p == dst)) [
          | inl same ↦
              Held-moved src p c s t (on p same ∙ sym from.at) (alias_objects dst o false s)
                (v.held src c (sym (set_at p dst (fs src) fs same) ∙ e))
          | inr other ↦
              Held-moved p p c s t (off p other) (alias_objects dst o false s)
                (v.held p c (sym (set_off p dst (fs src) fs other) ∙ e))
        ];
        bare = λ p e. elim (Bool-cases (p == dst)) [
          | inl same ↦ absurd (cc (e, set_at p dst (fs src) fs same, is))
          | inr other ↦ elim (v.bare p (sym (set_off p dst (fs src) fs other) ∙ e)) [
            | inl gone ↦ inl (off p other ∙ gone)
            | inr dir ↦ inr (off p other ∙ dir)
          ]
        ];
        known = λ i x e. v.known i x (ap (lookup i) (sym (alias_objects dst o false s)) ∙ e);
      }
