-- ===== src/Store/Branches/Walking.antt =====
-- store/branches.py: `merge`, which walks over the tips of the source branch.
use data_py_os.Base.{
  ℕ, suc, Bool, true, false, not, ◌||◌, Option, none, some, List, [], ◌∷◌, if◌then◌else◌,
}
use data_py_os.Base.Eq.{◌==◌, text_eq, Text, chars}
use data_py_os.Base.Result.{Result, ok, err}
use data_py_os.Base.Dict.{Dict, lookup, insert}
use data_py_os.Store.Lru
use data_py_os.Store.Paths.{strip}
use data_py_os.Store.Sos.Types.{Host, SObject, Sos, Error}
use data_py_os.Store.Sos.Objects.{Draft, get, store}
use data_py_os.Store.Sos.Aliases.{alias}
use data_py_os.Store.Sos.Files.{get_at, read}
use data_py_os.Store.Branches.{
  Branch, Json, BranchError, value_error, Opcode, head_path, tips_of, load_branches, save_branches,
  merge_text,
}

-- which of the three counters the round of a path adds to
pub data Outcome : Type 0 where
  merged conflict unchanged : Outcome

pub record Counts : Type 0 where
  pub merged : ℕ
  pub conflicts : ℕ
  pub unchanged : ℕ

abbrev pub count : Outcome → Counts → Counts
count merged n = record n { merged = suc n.merged }
count conflict n = record n { conflicts = suc n.conflicts }
count unchanged n = record n { unchanged = suc n.unchanged }

abbrev pub no_counts : Counts
no_counts = record { merged = 0; conflicts = 0; unchanged = 0 }

-- src_oid == tgt_oid
abbrev pub same_oid : Text → Option Text → Bool
same_oid oid none = false
same_oid oid (some other) = oid == other

abbrev pub is_text : SObject → Bool
is_text o = o.kind == chars "text"

abbrev pub outcome_of : Bool → Outcome
outcome_of true = conflict
outcome_of false = merged

module _ ⦃h : Host⦄ where
  -- current_branch
  abbrev pub head_or_main : Result Error Text → Text
  head_or_main (ok text) = strip text
  head_or_main (err e) = chars "main"

  unfoldable pub current_branch : Sos → Text × Sos
  current_branch s = let (r, s') = read head_path s in (head_or_main r, s')

  -- The arguments with which the merged text is stored. The value of "merged" is a text here, as
  -- every value of `meta`.
  abbrev pub merged_draft : ℕ → Text → Option Text → SObject → Draft
  merged_draft now result tgt_oid tgt = record {
    content = h.encode result;
    kind = chars "text";
    meta = insert (chars "merged") (chars "True") tgt.meta;
    tags = [];
    links = [];
    parent_oid = tgt_oid;
    now = now;
  }

  module _ (now : ℕ) (get_opcodes : List Text → List Text → List Opcode) where
    unfoldable pub merge_texts : Text → Option Text → SObject → SObject → Sos → Outcome × Sos
    merge_texts path tgt_oid src tgt s =
        let (result, had_conflict) =
          merge_text get_opcodes (h.decode tgt.content) (h.decode src.content) in
        let (new_oid, s1) = store (merged_draft now result tgt_oid tgt) s in
        (outcome_of had_conflict, alias path new_oid false s1)

    unfoldable pub merge_objects :
        Text → Text → Option Text → Option SObject → Option SObject → Sos → Outcome × Sos
    merge_objects path src_oid tgt_oid none tgt s = (unchanged, s)
    merge_objects path src_oid tgt_oid (some src) none s =
        let s1 = alias path src_oid false s in
        (merged, record s1 { path_cache = Lru.set path src_oid s1.path_cache })
    merge_objects path src_oid tgt_oid (some src) (some tgt) s =
        if not (is_text src) || not (is_text tgt)
        then (merged, alias path src_oid false s)
        else merge_texts path tgt_oid src tgt s

    unfoldable pub merge_differing : Text → Text → Option Text → Sos → Outcome × Sos
    merge_differing path src_oid tgt_oid s =
        let (src, s1) = get src_oid s in
        let (tgt, s2) = get_at tgt_oid s1 in merge_objects path src_oid tgt_oid src tgt s2

    -- one round of the loop
    unfoldable pub merge_path : Text → Text → Option Text → Sos → Outcome × Sos
    merge_path path src_oid tgt_oid s =
        if same_oid src_oid tgt_oid then (unchanged, s) else merge_differing path src_oid tgt_oid s

    unfoldable pub merge_paths : Dict Text Text → Dict Text Text → Sos → Counts × Sos
    merge_paths [] tgt_tips s = (no_counts, s)
    merge_paths ((path, src_oid) ∷ tips) tgt_tips s =
        let (outcome, s1) = merge_path path src_oid (lookup path tgt_tips) s in
        let (counts, s2) = merge_paths tips tgt_tips s1 in (count outcome counts, s2)

module _ ⦃h : Host⦄ ⦃j : Json⦄ (now : ℕ) (get_opcodes : List Text → List Text → List Opcode) where
  abbrev pub merge_found :
      Text
      → Dict Text Branch
      → Option Branch
      → Option Branch
      → Sos
      → Result BranchError Counts × Sos
  merge_found target branches none tgt s = (err value_error, s)
  merge_found target branches (some src) none s = (err value_error, s)
  merge_found target branches (some src) (some tgt) s =
      let (counts, s1) = merge_paths now get_opcodes src.tips tgt.tips s in
      let updated : Branch = record tgt { tips = tips_of s1.aliases } in
      (ok counts, save_branches now (insert target updated branches) s1)

  abbrev pub merge_into : Text → Text → Sos → Result BranchError Counts × Sos
  merge_into source target s =
      let (branches, s1) = load_branches now s in
      merge_found target branches (lookup source branches) (lookup target branches) s1

  unfoldable pub merge : Text → Option Text → Sos → Result BranchError Counts × Sos
  merge source (some target) s = merge_into source target s
  merge source none s = let (target, s1) = current_branch s in merge_into source target s1
