-- ===== src/Store/Branches/Keeping.antt =====
-- store/branches.py: what `merge` leaves as it is.
use data_py_os.Base.{
  ℕ, suc, ◌+◌, ◌≡◌, ◌≢◌, ◌⊎◌, refl, sym, ap, ◌∙◌, inl, inr, false, not, ◌||◌, Option, none, some,
  List, [], ◌∷◌, Bool-cases, arith,
}
use data_py_os.Base.Eq.{◌==◌, text_eq, text_beq_iff, Text}
use data_py_os.Base.Lists.{length}
use data_py_os.Base.Dict.{Dict, lookup, IsDict, lookup-insert_ne}
use data_py_os.Store.Lru
use data_py_os.Store.Lru.{LruDict}
use data_py_os.Store.Sos.Types.{Host, SObject, Sos, oid_of}
use data_py_os.Store.Sos.Objects.{
  Draft, build, load, fetch, get, get_parent, next_version, put_object, store,
}
use data_py_os.Store.Sos.Aliases.{alias}
use data_py_os.Store.Sos.Files.{get_at}
use data_py_os.Store.Sos.Storing.{add_row_keeps}
use data_py_os.Store.Branches.{Opcode, merge_text}
use data_py_os.Store.Branches.Walking.{
  Outcome, merged, conflict, unchanged, Counts, count, same_oid, is_text, merged_draft, merge_texts,
  merge_objects, merge_differing, merge_path, merge_paths,
}

-- No object is lost, and only the path may stand for another one.
record Moves (path : Text) (s t : Sos) : Type 0 where
  names : (p : Text) → p ≢ path → lookup p t.aliases ≡ lookup p s.aliases
  kept : (i : Text) (r : SObject) → lookup i s.objects ≡ some r → lookup i t.objects ≡ some r

Moves-trans : (path : Text) (s t u : Sos) → Moves path s t → Moves path t u → Moves path s u
Moves-trans path s t u m n = record {
  names = λ p ne. n.names p ne ∙ m.names p ne;
  kept = λ i r e. n.kept i r (m.kept i r e);
}

same_tables :
    (path : Text) (s t : Sos) → t.aliases ≡ s.aliases → t.objects ≡ s.objects → Moves path s t
same_tables path s t a o = record {
  names = λ p ne. ap (lookup p) a;
  kept = λ i r e. ap (lookup i) o ∙ e;
}

load-Moves : (path oid : Text) (row : Option SObject) (s : Sos) → Moves path s (load oid row s).1
unfolding load
load-Moves path oid none s = same_tables path s s refl refl
load-Moves path oid (some row) s = same_tables path s (load oid (some row) s).1 refl refl

get-Moves : (path oid : Text) (s : Sos) → Moves path s (get oid s).1
unfolding get
get-Moves path oid s = fetched (Lru.get oid s.obj_cache)
  where
    fetched : (hit : Option SObject × LruDict Text SObject) → Moves path s (fetch oid hit s).1
    fetched (none, cache) =
        let s1 : Sos = record s { obj_cache = cache } in
        unfold fetch in
        Moves-trans path s s1 (load oid (lookup oid s.objects) s1).1
          (same_tables path s s1 refl refl) (load-Moves path oid (lookup oid s.objects) s1)
    fetched (some obj, cache) =
        unfold fetch in same_tables path s (record s { obj_cache = cache }) refl refl

get_at-Moves : (path : Text) (oid : Option Text) (s : Sos) → Moves path s (get_at oid s).1
unfolding get_at
get_at-Moves path none s = same_tables path s s refl refl
get_at-Moves path (some oid) s = get-Moves path oid s

get_parent-Moves : (path : Text) (oid : Option Text) (s : Sos) → Moves path s (get_parent oid s).1
unfolding get_parent
get_parent-Moves path none s = same_tables path s s refl refl
get_parent-Moves path (some oid) s = get-Moves path oid s

put_object-Moves : (path : Text) (obj : SObject) (s : Sos) → Moves path s (put_object obj s)
unfolding put_object
put_object-Moves path obj s = record {
  names = λ p ne. refl;
  kept = λ i r e. add_row_keeps obj.oid obj s.objects i e;
}

alias-Moves : (path oid : Text) (s : Sos) → Moves path s (alias path oid false s)
unfolding alias
alias-Moves path oid s = record {
  names = λ p ne. lookup-insert_ne p path (record { oid = oid; is_dir = false }) s.aliases ne;
  kept = λ i r e. e;
}

module _ ⦃h : Host⦄ where
  store-Moves : (path : Text) (d : Draft) (s : Sos) → Moves path s (store d s).1
  unfolding store
  store-Moves path d s =
      let (parent, s1) = get_parent d.parent_oid s in
      let obj = build (oid_of d.content) d (next_version parent) in
      Moves-trans path s s1 (put_object obj s1) (get_parent-Moves path d.parent_oid s)
        (put_object-Moves path obj s1)

  module _ (now : ℕ) (get_opcodes : List Text → List Text → List Opcode) where
    merge_texts-Moves :
        (path : Text) (tgt_oid : Option Text) (src tgt : SObject) (s : Sos)
        → Moves path s (merge_texts now get_opcodes path tgt_oid src tgt s).1
    unfolding merge_texts
    merge_texts-Moves path tgt_oid src tgt s =
        let result = (merge_text get_opcodes (h.decode tgt.content) (h.decode src.content)).0 in
        let d = merged_draft now result tgt_oid tgt in
        let (new_oid, s1) = store d s in
        Moves-trans path s s1 (alias path new_oid false s1) (store-Moves path d s)
          (alias-Moves path new_oid s1)

    merge_objects-Moves :
        (path src_oid : Text) (tgt_oid : Option Text) (src tgt : Option SObject) (s : Sos)
        → Moves path s (merge_objects now get_opcodes path src_oid tgt_oid src tgt s).1
    unfolding merge_objects
    merge_objects-Moves path src_oid tgt_oid none tgt s = same_tables path s s refl refl
    merge_objects-Moves path src_oid tgt_oid (some src) none s =
        let s1 = alias path src_oid false s in
        let s2 : Sos = record s1 { path_cache = Lru.set path src_oid s1.path_cache } in
        Moves-trans path s s1 s2 (alias-Moves path src_oid s) (same_tables path s1 s2 refl refl)
    merge_objects-Moves path src_oid tgt_oid (some src) (some tgt) s =
        elim (Bool-cases (not (is_text src) || not (is_text tgt))) [
          | inl binary ↦ rw binary (alias-Moves path src_oid s)
          | inr texts ↦ rw texts (merge_texts-Moves path tgt_oid src tgt s)
        ]

    merge_differing-Moves :
        (path src_oid : Text) (tgt_oid : Option Text) (s : Sos)
        → Moves path s (merge_differing now get_opcodes path src_oid tgt_oid s).1
    unfolding merge_differing
    merge_differing-Moves path src_oid tgt_oid s =
        let (src, s1) = get src_oid s in
        let (tgt, s2) = get_at tgt_oid s1 in
        Moves-trans path s s1 (merge_objects now get_opcodes path src_oid tgt_oid src tgt s2).1
          (get-Moves path src_oid s)
          (Moves-trans path s1 s2 (merge_objects now get_opcodes path src_oid tgt_oid src tgt s2).1
            (get_at-Moves path tgt_oid s1) (merge_objects-Moves path src_oid tgt_oid src tgt s2))

    -- A round moves its path only where the two branches have different tips.
    record Round (path src_oid : Text) (tgt_oid : Option Text) (s t : Sos) : Type 0 where
      moves : Moves path s t
      still : tgt_oid ≡ some src_oid → t.aliases ≡ s.aliases

    merge_path-Round :
        (path src_oid : Text) (tgt_oid : Option Text) (s : Sos)
        → Round path src_oid tgt_oid s (merge_path now get_opcodes path src_oid tgt_oid s).1
    unfolding merge_path
    merge_path-Round path src_oid tgt_oid s = elim (Bool-cases (same_oid src_oid tgt_oid)) [
      | inl same ↦ rw same (record { moves = same_tables path s s refl refl; still = λ e. refl })
      | inr other ↦ rw other (record {
        moves = merge_differing-Moves path src_oid tgt_oid s;
        still = λ e.
            let same : (src_oid == src_oid) ≡ false = ap (same_oid src_oid) (sym e) ∙ other in
            absurd (cc (same, (text_beq_iff src_oid src_oid).1 refl));
      })
    ]

    merge_paths-Moves :
        (src tgt : Dict Text Text) (p i : Text) (r : SObject) (s : Sos)
        → IsDict src
        → (lookup p src ≡ none) ⊎ (lookup p src ≡ lookup p tgt)
        → lookup i s.objects ≡ some r
        → let t = (merge_paths now get_opcodes src tgt s).1 in
          (lookup p t.aliases ≡ lookup p s.aliases) × (lookup i t.objects ≡ some r)
    unfolding merge_paths
    merge_paths-Moves [] tgt p i r s u agree e = (refl, e)
    merge_paths-Moves ((path, src_oid) ∷ tips) tgt p i r s u agree e =
        let one = merge_path-Round path src_oid (lookup path tgt) s in
        let s1 = (merge_path now get_opcodes path src_oid (lookup path tgt) s).1 in
        let e1 = one.moves.kept i r e in
        elim (Bool-cases (p == path)) [
          | inl here ↦
              let at = (text_beq_iff p path).0 here in
              let gone : lookup p tips ≡ none = ap (λ z. lookup z tips) at ∙ u.0 in
              let same : lookup path tgt ≡ some src_oid = elim agree [
                | inl none' ↦ absurd (cc (rw here at none'))
                | inr equal' ↦ ap (λ z. lookup z tgt) (sym at) ∙ sym (rw here at equal')
              ] in
              let (names, kept) = merge_paths-Moves tips tgt p i r s1 u.1 (inl gone) e1 in
              (names ∙ ap (lookup p) (one.still same), kept)
          | inr other ↦
              let ne : p ≢ path = λ z. cc (other, (text_beq_iff p path).1 z) in
              let (names, kept) = merge_paths-Moves tips tgt p i r s1 u.1 (rw other at agree) e1 in
              (names ∙ one.moves.names p ne, kept)
        ]

abbrev pub total : Counts → ℕ
total n = n.merged + n.conflicts + n.unchanged

total-count : (o : Outcome) (n : Counts) → total (count o n) ≡ suc (total n)
total-count merged n = omega arith
total-count conflict n = omega arith
total-count unchanged n = omega arith

module _ ⦃h : Host⦄ (now : ℕ) (get_opcodes : List Text → List Text → List Opcode) where
  total-merge_paths :
      (src tgt : Dict Text Text) (s : Sos)
      → total (merge_paths now get_opcodes src tgt s).0 ≡ length src
  unfolding merge_paths
  total-merge_paths [] tgt s = refl
  total-merge_paths ((path, src_oid) ∷ tips) tgt s =
      let (outcome, s1) = merge_path now get_opcodes path src_oid (lookup path tgt) s in
      total-count outcome (merge_paths now get_opcodes tips tgt s1).0
      ∙ ap suc (total-merge_paths tips tgt s1)

  -- The walk of a merge over the tips of the source branch, each path once: its three counters add up to the number of these tips, every
  -- object that was stored is stored as it was, and a path that the source branch does not have, or for which both branches have the same
  -- tip, keeps its row in the table of paths.
  pub merge_paths_lem :
      (src tgt : Dict Text Text) (p i : Text) (r : SObject) (s : Sos)
      → IsDict src
      → (lookup p src ≡ none) ⊎ (lookup p src ≡ lookup p tgt)
      → lookup i s.objects ≡ some r
      → let (n, t) = merge_paths now get_opcodes src tgt s in
        (total n ≡ length src)
        × (lookup p t.aliases ≡ lookup p s.aliases)
        × (lookup i t.objects ≡ some r)
  merge_paths_lem src tgt p i r s u agree e =
      let (names, kept) = merge_paths-Moves now get_opcodes src tgt p i r s u agree e in
      (total-merge_paths src tgt s, names, kept)
