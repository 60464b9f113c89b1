-- ===== src/Store/Branches.antt =====
-- store/branches.py: branches of the store, kept in a file of it: a branch is the path table as it was. The
-- merge of two texts takes its pieces from `difflib`, which is a parameter.
use data_py_os.Base.{
  ℕ, zero, suc, ◌+◌, ◌-◌, Bool, true, false, not, ◌&&◌, ◌||◌, Option, none, some, List, [], ◌∷◌,
  ◌++◌, if◌then◌else◌, is_some, nat_beq,
}
use data_py_os.Base.Eq.{◌==◌, text_eq, Text, chars}
use data_py_os.Base.Result.{Result, ok, err}
use data_py_os.Base.Dict.{Dict, lookup, insert, has}
use data_py_os.Store.Lines.{is_line_end}
use data_py_os.Store.Lru
use data_py_os.Store.Sos.Types.{Host, Alias, Sos, Error, str}
use data_py_os.Store.Sos.Files.{read, write}
pub mod Restoring
pub mod Merging
pub mod Walking
pub mod Keeping
mod Tests

pub record Branch : Type 0 where
  pub name : Text
  pub tips : Dict Text Text
  pub created : ℕ
  pub description : Text

-- `json.dumps` of the branches and `json.loads`, which is `none` where it raises
pub record Json : Type 0 where
  pub dumps : Dict Text Branch → Text
  pub loads : Text → Option (Dict Text Branch)

abbrev pub branches_path : Text
branches_path = chars "/sos/branches.json"

abbrev pub head_path : Text
head_path = chars "/sos/HEAD"

pub data BranchError : Type 0 where
  value_error : BranchError

-- {row["path"]: row["oid"] for row in rows}
abbrev pub tips_of : Dict Text Alias → Dict Text Text
tips_of [] = []
tips_of ((path, row) ∷ rows) = (path, row.oid) ∷ tips_of rows

-- one round of the loop of `checkout` over the table: only an OID that is stored is restored
abbrev pub put_tip : Text → Text → Sos → Dict Text Alias → Dict Text Alias
put_tip path oid s aliases =
    if is_some (lookup oid s.objects)
    then insert path (record { oid = oid; is_dir = false }) aliases
    else aliases

unfoldable pub put_tips : Dict Text Text → Sos → Dict Text Alias → Dict Text Alias
put_tips [] s aliases = aliases
put_tips ((path, oid) ∷ tips) s aliases = put_tips tips s (put_tip path oid s aliases)

-- the loop of `checkout` over the cache
unfoldable pub forget_tips : Dict Text Text → Sos → Sos
forget_tips [] s = s
forget_tips ((path, oid) ∷ tips) s =
    forget_tips tips (record s { path_cache = Lru.invalidate path s.path_cache })

unfoldable pub restore_tips : Dict Text Text → Sos → Sos
restore_tips tips s = forget_tips tips (record s { aliases = put_tips tips s s.aliases })

-- branches.values()
abbrev pub branches_of : Dict Text Branch → List Branch
branches_of [] = []
branches_of ((name, branch) ∷ branches) = branch ∷ branches_of branches

module _ ⦃h : Host⦄ ⦃j : Json⦄ where
  abbrev pub or_main : ℕ → Option (Dict Text Branch) → Dict Text Branch
  or_main now (some branches) = branches
  or_main now none =
      (chars "main", record { name = chars "main"; tips = []; created = now; description = [] })
      ∷ []

  abbrev pub parsed : ℕ → Result Error Text → Dict Text Branch
  parsed now (ok text) = or_main now (j.loads text)
  parsed now (err e) = or_main now none

  unfoldable pub load_branches : ℕ → Sos → Dict Text Branch × Sos
  load_branches now s = let (r, s') = read branches_path s in (parsed now r, s')

  unfoldable pub save_branches : ℕ → Dict Text Branch → Sos → Sos
  save_branches now branches s =
      (write now branches_path (str (j.dumps branches)) (chars "text") [] [] s).1

  unfoldable pub set_head : ℕ → Text → Sos → Sos
  set_head now name s = (write now head_path (str name) (chars "text") [] [] s).1

  unfoldable pub list_branches : ℕ → Sos → List Branch × Sos
  list_branches now s = let (branches, s') = load_branches now s in (branches_of branches, s')

  -- The tips are taken before the file of the branches is written.
  unfoldable pub create_branch : ℕ → Text → Text → Sos → Result BranchError Branch × Sos
  create_branch now name description s =
      let (branches, s1) = load_branches now s in
      let branch : Branch = record {
        name = name;
        tips = tips_of s1.aliases;
        created = now;
        description = description;
      } in
      if has name branches
      then (err value_error, s1)
      else (ok branch, save_branches now (insert name branch branches) s1)

  abbrev pub checkout_found : ℕ → Text → Option Branch → Sos → Result BranchError Branch × Sos
  checkout_found now name none s = (err value_error, s)
  checkout_found now name (some branch) s =
      (ok branch, set_head now name (restore_tips branch.tips s))

  unfoldable pub checkout : ℕ → Text → Sos → Result BranchError Branch × Sos
  checkout now name s =
      let (branches, s1) = load_branches now s in checkout_found now name (lookup name branches) s1

-- One piece of `SequenceMatcher.get_opcodes()`.
pub data Tag : Type 0 where
  equal replace delete insertion : Tag

pub record Opcode : Type 0 where
  pub tag : Tag
  pub i1 : ℕ
  pub i2 : ℕ
  pub j1 : ℕ
  pub j2 : ℕ

-- c is not the first half of "\r\n"
abbrev pub ends_line : ℕ → Text → Bool
ends_line c [] = is_line_end c
ends_line c (d ∷ s) = is_line_end c && not (nat_beq c 13 && nat_beq d 10)

abbrev pub begin_line : ℕ → List Text → List Text
begin_line c [] = (c ∷ []) ∷ []
begin_line c (l ∷ ls) = (c ∷ l) ∷ ls

-- text.splitlines(keepends=True)
unfoldable pub split_keeping : Text → List Text
split_keeping [] = []
split_keeping (c ∷ s) =
    let ls = split_keeping s in if ends_line c s then (c ∷ []) ∷ ls else begin_line c ls

-- "".join(lines)
abbrev pub concat : List Text → Text
concat [] = []
concat (l ∷ ls) = l ++ concat ls

abbrev pub drop : ℕ → List Text → List Text
drop zero ls = ls
drop (suc n) [] = []
drop (suc n) (l ∷ ls) = drop n ls

abbrev pub take : ℕ → List Text → List Text
take zero ls = []
take (suc n) [] = []
take (suc n) (l ∷ ls) = l ∷ take n ls

-- lines[i:j]
abbrev pub slice : ℕ → ℕ → List Text → List Text
slice i j ls = take (j - i) (drop i ls)

-- the lines that one piece adds to the result
abbrev pub piece : List Text → List Text → Tag → Opcode → List Text
piece base incoming equal o = slice o.i1 o.i2 base
piece base incoming replace o =
    (chars "<<<<<<< current" ++ 10 ∷ [])
    ∷ (slice o.i1 o.i2 base
        ++ ((chars "=======" ++ 10 ∷ [])
            ∷ (slice o.j1 o.j2 incoming ++ (chars ">>>>>>> incoming" ++ 10 ∷ []) ∷ [])))
piece base incoming delete o = []
piece base incoming insertion o = slice o.j1 o.j2 incoming

abbrev pub is_conflict : Tag → Bool
is_conflict replace = true
is_conflict _ = false

-- the loop of `_merge_text`
unfoldable pub merge_lines : List Text → List Text → List Opcode → List Text × Bool
merge_lines base incoming [] = ([], false)
merge_lines base incoming (o ∷ os) =
    let (rest, conflict) = merge_lines base incoming os in
    (piece base incoming o.tag o ++ rest, is_conflict o.tag || conflict)

unfoldable pub merge_text : (List Text → List Text → List Opcode) → Text → Text → Text × Bool
merge_text get_opcodes base incoming =
    let base_lines = split_keeping base in
    let incoming_lines = split_keeping incoming in
    let (result, conflict) =
      merge_lines base_lines incoming_lines (get_opcodes base_lines incoming_lines) in
    (concat result, conflict)
