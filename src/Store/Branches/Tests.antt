-- ===== src/Store/Branches/Tests.antt =====
-- store/branches.py: the theorems at concrete inputs.
use data_py_os.Base.{none, false, some, ◌≡◌, refl, List, [], ◌∷◌, arith, inl}
use data_py_os.Base.Eq.{Text, chars, text_beq, text_eq}
use data_py_os.Base.Dict.{Dict, lookup}
use data_py_os.Store.Paths.{parent_of}
use data_py_os.Store.Sos.Types.{Host, SObject, Sos, str, init as empty}
use data_py_os.Store.Sos.Files.{write}
use data_py_os.Store.Sos.Coherent.{Coherent, target}
use data_py_os.Store.Sos.Extending.{init-Sound, write_new}
use data_py_os.Store.Branches.{
  equal, insertion, Opcode, restore_tips, split_keeping, merge_lines, merge_text,
}
use data_py_os.Store.Branches.Walking.{merge_paths}
use data_py_os.Store.Branches.Keeping.{total, merge_paths_lem}
use data_py_os.Store.Branches.Restoring.{tip_or, restore_tips_lem}
use data_py_os.Store.Branches.Merging.{merge_text_lem}

instance abbrev plain : Host
plain = record { hexdigest = λ b. b; encode = λ t. t; decode = λ b. b }

abbrev note : Text
note = chars "@n"

flat_note : parent_of note ≡ note
unfolding parent_of
flat_note = refl

abbrev one : Sos
one = (write 1 note (str (chars "a")) (chars "text") [] [] empty).1

one-Coherent : Coherent one
unfolding text_beq
one-Coherent =
    (write_new 1 note (str (chars "a")) (chars "text") [] [] empty init-Sound flat_note refl
      refl).0.coherent

abbrev saved : Dict Text Text
saved = (note, chars "a") ∷ []

restore_tips_lem_example :
    let s' = restore_tips saved one in
    Coherent s'
    × (s'.objects ≡ one.objects)
    × (target note s' ≡ tip_or (lookup note saved) one (target note one))
restore_tips_lem_example = restore_tips_lem saved note one (refl, tt) one-Coherent

-- "x" and the line after it, which only the second text has
abbrev before : Text
before = 120 ∷ 10 ∷ []

abbrev after : Text
after = 120 ∷ 10 ∷ 121 ∷ []

abbrev found : List Opcode
found =
    (record { tag = equal; i1 = 0; i2 = 1; j1 = 0; j2 = 1 })
    ∷ (record { tag = insertion; i1 = 1; i2 = 1; j1 = 1; j2 = 2 })
    ∷ []

merge_text_lem_example : (merge_text (λ a b. found) before after).0 ≡ after
unfolding split_keeping merge_text merge_lines
merge_text_lem_example =
    merge_text_lem (λ a b. found) before after
      (refl, omega arith, refl, (refl, omega arith, refl, refl)) refl

-- A store with one file, and a source branch that has that content under another path.
abbrev object : SObject
object = record {
  oid = chars "a";
  content = chars "a";
  kind = chars "text";
  meta = [];
  tags = [];
  links = [];
  parent_oid = none;
  version = 1;
  created_at = 1;
  size = 1;
}

abbrev held : Sos
held = record empty {
  objects = (chars "a", object) ∷ [];
  aliases = (note, record { oid = chars "a"; is_dir = false }) ∷ [];
}

abbrev other : Dict Text Text
other = (chars "@p", chars "a") ∷ []

merge_paths_lem_example :
    let (n, t) = merge_paths 2 (λ a b. found) other [] held in
    (total n ≡ 1)
    × (lookup note t.aliases ≡ lookup note held.aliases)
    × (lookup (chars "a") t.objects ≡ some object)
unfolding text_beq
merge_paths_lem_example =
    merge_paths_lem 2 (λ a b. found) other [] note (chars "a") object held (refl, tt) (inl refl)
      refl
