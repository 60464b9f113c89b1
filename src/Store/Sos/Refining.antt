-- ===== src/Store/Sos/Refining.antt =====
-- store/sos.py: the object store does to its files what `Spec` says.
use data_py_os.Base.{◌≡◌, ◌≢◌, refl, sym, ap, ◌∙◌, inl, inr, false, some, List, [], ◌∷◌, Bool-cases}
use data_py_os.Base.Eq.{◌==◌, text_eq, text_beq_iff, Text}
use data_py_os.Base.Result.{Result, ok}
use data_py_os.Store.Sos.Types.{Bytes, Host, Sos, Error, init, to_bytes, oid_of}
use data_py_os.Store.Sos.Aliases.{resolve, alias}
use data_py_os.Store.Sos.Files.{◌>>◌, is_dir, read, write}
use data_py_os.Store.Sos.Coherent.{resolve-Reads}
use data_py_os.Store.Sos.Storing.{NoCollision}
use data_py_os.Store.Sos.Writing.{EmptyAlone, is_dir-Reads}
use data_py_os.Store.Sos.RoundTrip.{Writes, write-Writes}
use data_py_os.Store.Sos.Moving.{move_steps, copy_lem}
use data_py_os.Store.Sos.Extending.{init-Sound}
use data_py_os.Store.Sos.Spec.{
  View, set, Call, put, look, drop, duplicate, rename, apply, apply_all, no_files, perform,
  perform_all, Matches, Allowed, AllAllowed,
}
use data_py_os.Store.Sos.Showing.{Shows, set_at, set_off, Shows-Reads, Shows-unalias, Shows-alias}
use data_py_os.Store.Sos.Answering.{remove_lem, read-Reads, Held-is_file, Shows-Matches}

module _ ⦃h : Host⦄ where
  -- The contents that are known have OIDs of their own.
  abbrev pub Apart : (Bytes → Type 0) → Type 0
  Apart Known = (a b : Bytes) → Known a → Known b → oid_of a ≡ oid_of b → a ≡ b

  module _ (alone : EmptyAlone) (Known : Bytes → Type 0) (bare : Known [])
      (apart : Apart Known) where
    free : (fs : View) (s : Sos) (c : Bytes) → Shows Known fs s → Known c → NoCollision c s
    free fs s c v known r e =
        apart r.content c (v.known (oid_of c) r e) known (v.coherent.stored (oid_of c) r e).hashed

    Shows-put :
        (path : Text) (content : Bytes) (fs : View) (s t : Sos)
        → Shows Known fs s
        → Known content
        → content ≢ []
        → Writes path content s t
        → Shows Known (set path (some content) fs) t
    Shows-put path content fs s t v known full w =
        let ne : (p : Text) → (p == path) ≡ false → p ≢ path =
          λ p e same. cc (e, (text_beq_iff p path).1 same) in
        record {
          coherent = w.coherent;
          held = λ p c e. elim (Bool-cases (p == path)) [
            | inl here ↦
                let is : content ≡ c = cc (set_at p path (some content) fs here, e) in
                let same = (text_beq_iff p path).0 here in
                rw (same, ← is)
                  record { full = full; at = w.at; row = w.row; found = w.found; same = w.same }
            | inr other ↦
                let old = v.held p c (sym (set_off p path (some content) fs other) ∙ e) in
                record {
                  full = old.full;
                  at = w.others p (oid_of c) (ne p other) old.at;
                  row = old.row;
                  found = w.kept (oid_of c) old.row old.found;
                  same = old.same;
                }
          ];
          bare = λ p e. elim (Bool-cases (p == path)) [
            | inl here ↦ absurd (cc (e, set_at p path (some content) fs here))
            | inr other ↦ elim (w.fresh p (ne p other)) [
              | inr dir ↦ inr dir
              | inl same ↦ elim (v.bare p (sym (set_off p path (some content) fs other) ∙ e)) [
                | inl gone ↦ inl (same ∙ gone)
                | inr dir ↦ inr (same ∙ dir)
              ]
            ]
          ];
          known = λ i r e. elim (w.back i r e) [
            | inl old ↦ v.known i r old
            | inr (inl is) ↦ rw is known
            | inr (inr is) ↦ rw is bare
          ];
        }

    step :
        (call : Call) (fs : View) (s : Sos)
        → Shows Known fs s
        → Allowed Known call fs
        → ((perform call s).0 ≡ ok tt) × Shows Known (apply call fs) (perform call s).1
    step (put now path content kind meta tags) fs s v (known, full, file) = (
      refl,
      Shows-put path (to_bytes content) fs s (write now path content kind meta tags s).1 v known
          full
          (write-Writes alone now path content kind meta tags s v.coherent
            (free fs s (to_bytes content) v known) file),
    )
    step (look path) fs s v ok' =
        (refl, Shows-Reads Known fs s (read path s).1 v (read-Reads path s v.coherent))
    step (drop path) fs s v (content, is) =
        let file = Held-is_file alone path content s v.coherent (v.held path content is) in
        let v' = Shows-Reads Known fs s (is_dir path s).1 v (is_dir-Reads path s v.coherent) in
        rw (remove_lem path s file) (refl, Shows-unalias Known path fs (is_dir path s).1 v')
    step (duplicate src dst) fs s v (content, is) =
        let (answer, r) = resolve-Reads src s v.coherent in
        let v' = Shows-Reads Known fs s (resolve src s).1 v r in
        rw (copy_lem src dst (oid_of content) s (answer ∙ (v.held src content is).at))
          (refl, Shows-alias Known src dst content fs (resolve src s).1 v' is)
    step (rename src dst) fs s v (content, is) =
        let (answer, r) = resolve-Reads src s v.coherent in
        let s1 = (resolve src s).1 in
        let v' = Shows-Reads Known fs s s1 v r in
        rw (move_steps src dst (oid_of content) s (answer ∙ (v.held src content is).at)) (
          refl,
          Shows-unalias Known src (set dst (fs src) fs) (alias dst (oid_of content) false s1)
              (Shows-alias Known src dst content fs s1 v' is),
        )

    then_all :
        (call : Call) (calls : List Call) (s : Sos)
        → (perform call s).0 ≡ ok tt
        → perform_all (call ∷ calls) s ≡ perform_all calls (perform call s).1
    then_all call calls s e =
        ap
          (λ (r : Result Error (Unit {0})). ((λ _. (r, (perform call s).1)) >> perform_all calls) s)
          e

    steps :
        (calls : List Call) (fs : View) (s : Sos)
        → Shows Known fs s
        → AllAllowed Known calls fs
        → ((perform_all calls s).0 ≡ ok tt)
          × Shows Known (apply_all calls fs) (perform_all calls s).1
    steps [] fs s v allowed = (refl, v)
    steps (call ∷ calls) fs s v (first, rest) =
        let (fine, v') = step call fs s v first in
        rw (then_all call calls s fine) (steps calls (apply call fs) (perform call s).1 v' rest)

    init-Shows : Shows Known no_files init
    init-Shows = record {
      coherent = init-Sound.coherent;
      held = λ p c e. absurd (cc e);
      bare = λ p e. inl refl;
      known = λ i r e. absurd (cc e);
    }

    -- Where only the empty content has its OID and the contents that are written have different
    -- OIDs: every sequence of calls on an empty store that writes
    -- files that are not empty and removes, copies, moves and reads files succeeds, and afterwards
    -- reading any path answers what the files of the specification say, whatever was cached or evicted.
    pub refines :
        (calls : List Call)
        → AllAllowed Known calls no_files
        → let (r, s) = perform_all calls init in
          (r ≡ ok tt) × ((path : Text) → Matches (apply_all calls no_files path) (read path s).0)
    refines calls allowed =
        let (fine, v) = steps calls no_files init init-Shows allowed in
        (
          fine,
          λ path.
              Shows-Matches alone Known (apply_all calls no_files) (perform_all calls init).1 v path
                (apply_all calls no_files path) refl,
        )
