-- ===== src/Store/Sos/Tests.antt =====
-- store/sos.py: runs over a small host, and the theorems at concrete inputs.
use data_py_os.Base.{
  ◌≡◌, ◌≢◌, ◌⊎◌, inl, inr, ap, refl, false, none, some, List, [], ◌∷◌, if◌then◌else◌,
}
use data_py_os.Base.Eq.{◌==◌, text_eq, text_beq, text_beq_iff, Text, chars}
use data_py_os.Base.Order.{text_ltb}
use data_py_os.Base.Result.{ok, err}
use data_py_os.Base.Dict.{lookup}
use data_py_os.Store.Paths.{parent_of, parts_of, name_of, strip, lower}
use data_py_os.Store.Lru
use data_py_os.Store.Sos.Types.{Bytes, Host, str, SObject, Sos, init, is_a_directory, oid_of}
use data_py_os.Store.Sos.Objects.{store, get, get_parent, put_object, index_tags, index_links}
use data_py_os.Store.Sos.Aliases.{resolve, alias, exists}
use data_py_os.Store.Sos.Files.{
  read, write, is_dir, object_at, ensure_dir, mkdir, make_dirs, make_dir, parent_exists,
}
use data_py_os.Store.Sos.History.{history}
use data_py_os.Store.Sos.Listing.{listdir, move}
use data_py_os.Store.Sos.Coherent.{Coherent, target}
use data_py_os.Store.Sos.Storing.{NoCollision}
use data_py_os.Store.Sos.Writing.{EmptyAlone}
use data_py_os.Store.Sos.RoundTrip.{Writes, write-Writes, read-write, read-write_other}
use data_py_os.Store.Sos.Versions.{history_endless}
use data_py_os.Store.Sos.Chain.{Sound, Counts}
use data_py_os.Store.Sos.Extending.{version_of, write_new, init-Sound}
use data_py_os.Store.Sos.Spec.{
  Call, put, look, drop, duplicate, apply_all, no_files, perform_all, Matches, AllAllowed,
}
use data_py_os.Store.Sos.Refining.{Apart, refines}
use data_py_os.Store.Sos.Moving.{move_lem}

-- A host whose digest is the content itself and whose texts are their bytes.
instance abbrev plain : Host
plain = record { hexdigest = λ b. b; encode = λ t. t; decode = λ b. b }

plain_alone : EmptyAlone
unfolding oid_of
plain_alone [] e = refl
plain_alone (c ∷ b) e = absurd (cc e)

abbrev note : Text
note = chars "@note"

abbrev plan : Text
plan = chars "@plan"

abbrev text : Text
text = chars "text"

init-Coherent : Coherent init
init-Coherent = init-Sound.coherent

nothing_stored : (c : Bytes) → NoCollision c init
nothing_stored c r e = absurd (cc e)

abbrev one : Sos
one = (write 1 note (str (chars "a")) text [] [] init).1

-- what the first write left
one-Writes : Writes note (chars "a") init one
unfolding text_beq
one-Writes =
    write-Writes plain_alone 1 note (str (chars "a")) text [] [] init init-Coherent
      (nothing_stored (chars "a")) refl

other_content : lookup (oid_of (chars "b")) one.objects ≡ none
unfolding write store resolve get_parent put_object alias parent_of oid_of text_beq index_tags
    index_links Lru.get
other_content = refl

other_free : NoCollision (chars "b") one
other_free r e = absurd (cc (other_content, e))

flat_note : parent_of note ≡ note
unfolding parent_of
flat_note = refl

flat_plan : parent_of plan ≡ plan
unfolding parent_of
flat_plan = refl

plan_absent : target plan one ≡ none
unfolding write store resolve get_parent put_object alias parent_of oid_of text_beq index_tags
    index_links Lru.get
plan_absent = refl

note_beq_plan : text_beq note plan ≡ false
unfolding text_beq
note_beq_plan = refl

note_ne : note ≢ plan
note_ne e = absurd (cc ((text_beq_iff note plan).1 e, note_beq_plan))

note_file : (is_dir note one).0 ≡ false
unfolding is_dir write store resolve get_parent put_object alias parent_of oid_of text_beq
    index_tags index_links object_at get Lru.get Lru.set
note_file = refl

-- A directory that has been stored makes an empty file read as a directory.
empty_file_is_dir :
    (read (chars "/a/x") (write 1 (chars "/a/x") (str []) text [] [] init).1).0 ≡ err is_a_directory
unfolding read write store resolve get_parent put_object alias parent_of parts_of name_of oid_of
    text_beq index_tags index_links object_at get Lru.get Lru.set ensure_dir mkdir make_dirs
    make_dir exists parent_exists strip lower
empty_file_is_dir = refl

-- The names of a directory are those under every path that matches it as a pattern.
listdir_wildcard :
    listdir (chars "/a_b") (alias (chars "/axb/y") (chars "0") false init) ≡ chars "y" ∷ []
unfolding listdir alias text_beq text_ltb
listdir_wildcard = refl

read-write_example :
    (read note (write 1 note (str (chars "a")) text [] [] init).1).0 ≡ ok (chars "a")
unfolding text_beq
read-write_example =
    read-write plain_alone (λ t. refl) 1 note (chars "a") text [] [] init init-Coherent
      (nothing_stored (chars "a")) refl (λ e. absurd (cc e))

read-write_other_example :
    (read note (write 2 plan (str (chars "b")) text [] [] one).1).0 ≡ (read note one).0
unfolding text_beq oid_of
read-write_other_example =
    read-write_other plain_alone 2 plan (str (chars "b")) text [] [] one note (chars "a")
      one-Writes.row one-Writes.coherent other_free refl note_ne one-Writes.at one-Writes.found
      (λ e. absurd (cc e))

write_new_example :
    let s' = (write 1 note (str (chars "a")) text [] [] init).1 in
    Sound s'
    × (version_of (target note s') s' ≡ 1)
    × ((chain : List SObject) × ((history 1 note s').0 ≡ some chain) × Counts 1 chain)
unfolding text_beq
write_new_example =
    write_new 1 note (str (chars "a")) text [] [] init init-Sound flat_note refl refl

history_endless_example :
    (history 9 note (write 2 note (str (chars "a")) text [] [] one).1).0 ≡ none
unfolding text_beq
history_endless_example =
    history_endless plain_alone 9 2 note (str (chars "a")) text [] [] one one-Writes.coherent
      flat_note one-Writes.at (λ r e. cc (one-Writes.found, one-Writes.same, e)) refl

move_lem_example :
    let (r, s') = move note note one in
    (r ≡ ok tt)
    × Coherent s'
    × (target note s' ≡ (
        if ◌==◌ {A = Text} note note
        then none
        else if ◌==◌ {A = Text} note note
        then some (oid_of (chars "a"))
        else target note one))
move_lem_example =
    move_lem note note note (oid_of (chars "a")) one one-Writes.coherent one-Writes.at

-- The contents that the calls below write.
abbrev Written : Bytes → Type 0
Written content = (content ≡ []) ⊎ (content ≡ chars "a")

own_oids : Apart Written
unfolding oid_of
own_oids a b (inl e) (inl e') same = cc (e, e')
own_oids a b (inr e) (inr e') same = cc (e, e')
own_oids a b (inl e) (inr e') same =
    let short : oid_of [] ≡ oid_of (chars "a") = cc (ap oid_of e, ap oid_of e', same) in
    absurd (cc short)
own_oids a b (inr e) (inl e') same =
    let short : oid_of (chars "a") ≡ oid_of [] = cc (ap oid_of e, ap oid_of e', same) in
    absurd (cc short)

abbrev calls : List Call
calls = put 1 note (str (chars "a")) text [] [] ∷ look note ∷ duplicate note plan ∷ drop note ∷ []

calls-AllAllowed : AllAllowed Written calls no_files
unfolding text_beq
calls-AllAllowed =
    ((inr refl, (λ e. absurd (cc e)), refl), (tt, ((chars "a", refl), ((chars "a", refl), tt))))

refines_example :
    let (r, s) = perform_all calls init in
    (r ≡ ok tt) × ((path : Text) → Matches (apply_all calls no_files path) (read path s).0)
refines_example = refines plain_alone Written (inl refl) own_oids calls calls-AllAllowed
