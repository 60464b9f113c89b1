-- ===== src/Store/Sos/Extending.antt =====
-- store/sos.py: the version chains after a write of a new content to a flat path.
use data_py_os.Base.{
  ℕ, suc, ◌≡◌, ◌≢◌, refl, sym, ap, ◌∙◌, inl, inr, false, Option, none, some, List, arith,
  Bool-cases,
}
use data_py_os.Base.Eq.{◌==◌, text_eq, text_beq_iff, Text, chars}
use data_py_os.Base.Dict.{Dict, lookup, lookup-insert_self}
use data_py_os.Store.Paths.{parent_of}
use data_py_os.Store.Lru.Laws.{entry-set, empty-IsValid}
use data_py_os.Store.Sos.Types.{Host, Content, SObject, Sos, init, to_bytes, oid_of}
use data_py_os.Store.Sos.Objects.{get_parent, next_version, build, put_object, store}
use data_py_os.Store.Sos.Aliases.{resolve, alias}
use data_py_os.Store.Sos.Files.{write, file_draft}
use data_py_os.Store.Sos.History.{history}
use data_py_os.Store.Sos.Coherent.{SameTables, Fits, target, oid_in, resolve-Reads, get-Reads}
use data_py_os.Store.Sos.Storing.{add_row_keeps, add_row_back, put_object-Coherent, alias-Coherent}
use data_py_os.Store.Sos.Writing.{target-alias_self, target-alias_ne}
use data_py_os.Store.Sos.Versions.{write_flat}
use data_py_os.Store.Sos.Chain.{Sound, Follows, Counts, get-Sound, resolve-Sound, history-Counts}

-- A row still follows when rows are added.
Follows-mono :
    (row : SObject) (a b : Dict Text SObject)
    → ((i : Text) (r : SObject) → lookup i a ≡ some r → lookup i b ≡ some r)
    → Follows row a
    → Follows row b
Follows-mono row a b keeps (inl first) = inl first
Follows-mono row a b keeps (inr (q, prev, named, found, next)) =
    inr (q, prev, named, keeps q prev found, next)

-- the version of a stored object, 0 if there is none
abbrev pub version_in : Option SObject → ℕ
version_in none = 0
version_in (some row) = row.version

-- The version of the object that an alias names, 0 for no alias.
abbrev pub version_of : Option Text → Sos → ℕ
version_of none s = 0
version_of (some oid) s = version_in (lookup oid s.objects)

version_of-same :
    (p : Option Text) (s t : Sos) → t.objects ≡ s.objects → version_of p t ≡ version_of p s
version_of-same none s t e = refl
version_of-same (some oid) s t e = ap (λ d. version_in (lookup oid d)) e

module _ ⦃h : Host⦄ where
  -- the parent of a draft whose parent is a stored object, or none
  get_parent-Sound :
      (p : Option Text) (s : Sos)
      → Sound s
      → ((q : Text) → p ≡ some q → (row : SObject) × (lookup q s.objects ≡ some row))
      → Sound (get_parent p s).1
        × SameTables s (get_parent p s).1
        × (next_version (get_parent p s).0 ≡ suc (version_of p s))
        × ((obj : SObject)
            → obj.parent_oid ≡ p
            → obj.version ≡ suc (version_of p s)
            → Follows obj s.objects)
  unfolding get_parent
  get_parent-Sound none s k there = (
    k,
    record { objects = refl; aliases = refl; links = refl; tag_index = refl },
    refl,
    λ obj par ver. inl (par, ver),
  )
  get_parent-Sound (some q) s k there =
      let (row, found) = there q refl in
      let ((o, is, par, ver), k') = get-Sound q row s k found in
      let old = ap version_in found in
      (
        k',
        (get-Reads q s k.coherent).1.tables,
        ap next_version is ∙ omega (arith, ver, old),
        λ obj named version. inr (q, row, named, found, version ∙ ap suc old),
      )

  -- an object with a new OID that follows what is there
  put_object-Sound :
      (obj : SObject) (s : Sos)
      → Sound s
      → Fits obj.oid obj
      → lookup obj.oid s.objects ≡ none
      → Follows obj s.objects
      → Sound (put_object obj s)
  put_object-Sound obj s k fits new follows = record {
    coherent = put_object-Coherent obj s k.coherent fits (λ r e. absurd (cc (new, e)));
    aligned =
        unfold put_object in
        λ i o row e q. elim (entry-set i obj.oid obj s.obj_cache k.coherent.obj_cache e) [
          | inl (at, is) ↦ elim (add_row_back obj.oid obj s.objects i row q) [
            | inl old ↦ absurd (cc (ap (λ z. lookup z s.objects) at, old, new))
            | inr (_, is') ↦
                let one : o ≡ row = cc (is, is') in
                (ap (λ (z : SObject). z.parent_oid) one, ap (λ (z : SObject). z.version) one)
          ]
          | inr (ne, there) ↦ elim (add_row_back obj.oid obj s.objects i row q) [
            | inl old ↦ k.aligned i o row there old
            | inr (at, _) ↦ absurd (ne at)
          ]
        ];
    versioned =
        unfold put_object in
        λ i row q. elim (add_row_back obj.oid obj s.objects i row q) [
          | inl old ↦
              Follows-mono row s.objects _ (λ j r. add_row_keeps obj.oid obj s.objects j)
                (k.versioned i row old)
          | inr (_, is) ↦
              rw (← is) (
                Follows-mono obj s.objects _ (λ j r. add_row_keeps obj.oid obj s.objects j) follows)
        ];
    pointed =
        unfold put_object in
        λ path oid q.
          let (row, e) = k.pointed path oid q in (row, add_row_keeps obj.oid obj s.objects oid e);
  }

  alias-Sound :
      (path oid : Text) (row : SObject) (s : Sos)
      → Sound s
      → lookup oid s.objects ≡ some row
      → Sound (alias path oid false s)
  alias-Sound path oid row s k found = record {
    coherent = alias-Coherent path oid false s k.coherent;
    aligned = unfold alias in k.aligned;
    versioned = unfold alias in k.versioned;
    pointed = λ p o q. elim (Bool-cases (p == path)) [
      | inl same ↦
          let at = (text_beq_iff p path).0 same in
          let is : oid ≡ o = cc (
            ap (λ z. target z (alias path oid false s)) at,
            q,
            target-alias_self path oid false s,
          ) in
          (row, unfold alias in ap (λ z. lookup z s.objects) (sym is) ∙ found)
      | inr other ↦
          let ne : p ≢ path = λ e. cc ((text_beq_iff p path).1 e, other) in
          unfold alias in k.pointed p o (sym (target-alias_ne p path oid false s ne) ∙ q)
    ];
  }

  lookup-put_object_new :
      (obj : SObject) (s : Sos)
      → lookup obj.oid s.objects ≡ none
      → lookup obj.oid (put_object obj s).objects ≡ some obj
  unfolding put_object
  lookup-put_object_new obj s new = rw new (lookup-insert_self obj.oid obj s.objects)

  -- the state after a write to a flat path
  write_steps :
      (now : ℕ) (path : Text) (c : Content) (kind : Text) (meta : Dict Text Text) (tags : List Text)
      (s : Sos)
      → Sound s
      → parent_of path ≡ path
      → lookup (oid_of (to_bytes c)) s.objects ≡ none
      → (kind == chars "dir") ≡ false
      → (row : SObject) × Sound (write now path c kind meta tags s).1
        × (target path (write now path c kind meta tags s).1 ≡ some (oid_of (to_bytes c)))
        × (lookup (oid_of (to_bytes c)) (write now path c kind meta tags s).1.objects ≡ some row)
        × (row.version ≡ suc (version_of (target path s) s))
  write_steps now path c kind meta tags s k flat new file =
      let oid = oid_of (to_bytes c) in
      let s1 = (resolve path s).1 in
      let (answer, r) = resolve-Reads path s k.coherent in
      let k1 = resolve-Sound path s k in
      let d = file_draft now path c kind meta tags (resolve path s).0 in
      let there : (q : Text)
          → (resolve path s).0 ≡ some q
          → (row : SObject) × (lookup q s1.objects ≡ some row) =
        λ q e.
          k1.pointed path q (ap (λ z. oid_in (lookup path z)) r.tables.aliases ∙ sym answer ∙ e) in
      let (k2, same, next, follow) = get_parent-Sound (resolve path s).0 s1 k1 there in
      let s2 = (get_parent (resolve path s).0 s1).1 in
      let obj = build oid d (next_version (get_parent (resolve path s).0 s1).0) in
      let before : version_of (resolve path s).0 s1 ≡ version_of (target path s) s =
        version_of-same (resolve path s).0 s s1 r.tables.objects
        ∙ ap (λ z. version_of z s) answer in
      let new2 : lookup oid s2.objects ≡ none =
        ap (lookup oid) (same.objects ∙ r.tables.objects) ∙ new in
      let follows : Follows obj s2.objects = rw same.objects (follow obj refl next) in
      let k3 =
        put_object-Sound obj s2 k2 (record { own = refl; hashed = refl; file = λ ne. file }) new2
          follows in
      let s3 = put_object obj s2 in
      let found = lookup-put_object_new obj s2 new2 in
      rw (write_flat now path c kind meta tags s flat) (
        obj,
        unfold store in alias-Sound path oid obj s3 k3 found,
        unfold store in target-alias_self path oid false s3,
        unfold store alias in found,
        next ∙ ap suc before,
      )

  -- In a sound store, a write of a new content to a flat path, of a kind that is not a directory,
  -- leaves a sound store in which the path has one version more, and from then on its history ends
  -- and counts down from that version.
  pub write_new :
      (now : ℕ) (path : Text) (c : Content) (kind : Text) (meta : Dict Text Text) (tags : List Text)
      (s : Sos)
      → Sound s
      → parent_of path ≡ path
      → lookup (oid_of (to_bytes c)) s.objects ≡ none
      → (kind == chars "dir") ≡ false
      → let s' = (write now path c kind meta tags s).1 in
        let version = suc (version_of (target path s) s) in
        Sound s'
        × (version_of (target path s') s' ≡ version)
        × ((chain : List SObject) × ((history version path s').0 ≡ some chain)
            × Counts version chain)
  write_new now path c kind meta tags s k flat new file =
      let s' = (write now path c kind meta tags s).1 in
      let oid = oid_of (to_bytes c) in
      let (row, k', at, found, version) = write_steps now path c kind meta tags s k flat new file in
      let n = suc (version_of (target path s) s) in
      let (chain, ends, counts) =
        history-Counts n path oid row s' k' at found (omega (arith, version)) in
      (
        k',
        ap (λ z. version_of z s') at ∙ ap version_in found ∙ version,
        (chain, ends, rw version at counts),
      )

  -- A new store, before it is seeded, is sound.
  pub init-Sound : Sound init
  init-Sound = record {
    coherent = record {
      obj_cache = empty-IsValid 2048 (omega arith);
      path_cache = empty-IsValid 4096 (omega arith);
      rows = tt;
      names = tt;
      stored = λ oid o e. cc;
      backed = λ oid o e. cc;
      cached = λ p o e. cc;
    };
    aligned = λ oid o row e q. cc;
    versioned = λ oid row e. cc;
    pointed = λ p o e. cc;
  }
