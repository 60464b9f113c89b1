-- ===== src/Store/Eventsource/Tests.antt =====
-- store/eventsource.py: runs with a small format of lines, and the theorems at concrete inputs.
use data_py_os.Base.{
  ℕ, ◌+◌, ◌-◌, ◌≡◌, refl, true, false, Option, none, some, List, [], ◌∷◌, arith, nat_beq, ◌∙◌,
  if◌then◌else◌,
}
use data_py_os.Base.Eq.{Text, chars, text_beq, text_eq}
use data_py_os.Base.Dict.{Dict, lookup}
use data_py_os.Store.Lines.{is_line_end, is_one_line}
use data_py_os.Store.Paths.{parent_of}
use data_py_os.Store.Sos.Types.{Host, Sos, str, oid_of, init as empty}
use data_py_os.Store.Sos.Aliases.{alias, unalias, resolve}
use data_py_os.Store.Lru
use data_py_os.Store.Sos.Objects.{store, get, get_parent, put_object, index_tags, index_links}
use data_py_os.Store.Sos.Writing.{EmptyAlone}
use data_py_os.Store.Sos.Files.{read, write, object_at}
use data_py_os.Store.Sos.Storing.{unalias-Coherent}
use data_py_os.Store.Sos.Coherent.{Coherent, target}
use data_py_os.Store.Sos.Extending.{init-Sound, write_new}
use data_py_os.Store.Eventsource.{
  SourceEvent, EventSourceLog, Json, append, init, replay_to, replay_in, flush_in, flush_of, rewind,
}
use data_py_os.Store.Eventsource.Events.{Step, happen, tick, recorded, changes, until}
use data_py_os.Store.Eventsource.Replaying.{JsonLaws}
use data_py_os.Store.Eventsource.Recording.{steps, replay_to_lem}
use data_py_os.Store.Eventsource.Rewinding.{restored, Flushes, flushed_text, rewind_lem}

instance abbrev plain : Host
plain = record { hexdigest = λ b. b; encode = λ t. t; decode = λ b. b }

abbrev put : Text → Text → Text
put [] rest = 59 ∷ rest
put (c ∷ t) rest = (9000 + c) ∷ put t rest

abbrev put_pairs : Dict Text Text → Text
put_pairs [] = []
put_pairs ((k, v) ∷ d) = put k (put v (put_pairs d))

abbrev print : SourceEvent → Text
print e =
    60
    ∷ (9000 + e.seq)
    ∷ (9000 + e.ts)
    ∷ put e.event_type
        (put e.path (put e.oid (put e.content_ref (put e.user (put_pairs e.metadata)))))

abbrev prefix : ℕ → List Text → List Text
prefix c [] = []
prefix c (t ∷ ts) = (c ∷ t) ∷ ts

abbrev fields : Text → List Text
fields [] = []
fields (c ∷ s) = let ts = fields s in if nat_beq c 59 then [] ∷ ts else prefix (c - 9000) ts

abbrev pairs : List Text → Dict Text Text
pairs (k ∷ v ∷ ts) = (k, v) ∷ pairs ts
pairs _ = []

abbrev from_fields : ℕ → ℕ → List Text → Option SourceEvent
from_fields seq ts (event_type ∷ path ∷ oid ∷ content_ref ∷ user ∷ rest) = some (record {
  seq = seq - 9000;
  ts = ts - 9000;
  event_type = event_type;
  path = path;
  oid = oid;
  content_ref = content_ref;
  user = user;
  metadata = pairs rest;
})
from_fields seq ts _ = none

abbrev scan : Text → Option SourceEvent
scan (mark ∷ seq ∷ ts ∷ s) = from_fields seq ts (fields s)
scan _ = none

fields-put : (t rest : Text) → fields (put t rest) ≡ t ∷ fields rest
fields-put [] rest = refl
fields-put (c ∷ t) rest =
    let other : nat_beq (9000 + c) 59 ≡ false = ground arith in
    let back : (9000 + c) - 9000 ≡ c = omega arith in rw (other, fields-put t rest, back) refl

pairs-put_pairs : (d : Dict Text Text) → pairs (fields (put_pairs d)) ≡ d
pairs-put_pairs [] = refl
pairs-put_pairs ((k, v) ∷ d) =
    rw (fields-put k (put v (put_pairs d)), fields-put v (put_pairs d), pairs-put_pairs d) refl

is_one_line-put : (t rest : Text) → is_one_line (put t rest) ≡ is_one_line rest
is_one_line-put [] rest = refl
is_one_line-put (c ∷ t) rest = ground (arith, is_one_line-put t rest)

is_one_line-put_pairs : (d : Dict Text Text) → is_one_line (put_pairs d) ≡ true
is_one_line-put_pairs [] = refl
is_one_line-put_pairs ((k, v) ∷ d) =
    is_one_line-put k (put v (put_pairs d))
    ∙ is_one_line-put v (put_pairs d)
    ∙ is_one_line-put_pairs d

instance abbrev json : Json
json = record { to_line = print; from_line = scan }

scan-print : (e : SourceEvent) → scan (print e) ≡ some e
scan-print e =
    let d = put_pairs e.metadata in
    let c = put e.user d in
    let b = put e.content_ref c in
    let a = put e.oid b in
    let seq : (9000 + e.seq) - 9000 ≡ e.seq = omega arith in
    let ts : (9000 + e.ts) - 9000 ≡ e.ts = omega arith in
    rw
      (
        fields-put e.event_type (put e.path a),
        fields-put e.path a,
        fields-put e.oid b,
        fields-put e.content_ref c,
        fields-put e.user d,
        pairs-put_pairs e.metadata,
        seq,
        ts,
      )
      refl

plain_number : (n : ℕ) → is_line_end (9000 + n) ≡ false
plain_number n = ground arith

print_one_line : (e : SourceEvent) → is_one_line (print e) ≡ true
print_one_line e =
    let d = put_pairs e.metadata in
    let c = put e.user d in
    let b = put e.content_ref c in
    let a = put e.oid b in
    rw (plain_number e.seq, plain_number e.ts)
      (is_one_line-put e.event_type (put e.path a)
        ∙ is_one_line-put e.path a
        ∙ is_one_line-put e.oid b
        ∙ is_one_line-put e.content_ref c
        ∙ is_one_line-put e.user d
        ∙ is_one_line-put_pairs e.metadata)

laws : JsonLaws json
laws = record { one_line = print_one_line; not_blank = λ e. refl; round = scan-print }

abbrev note : Text
note = chars "@n"

abbrev story : List Step
story =
    happen 3 (chars "write") note (chars "a") (chars "ann") []
    ∷ tick
    ∷ happen 5 (chars "write") note (chars "b") (chars "ann") []
    ∷ happen 7 (chars "delete") note [] (chars "ann") []
    ∷ []

-- The state between the second write and the removal.
story_at_6 : changes note (until 6 (recorded story 0)) none ≡ some (chars "b")
unfolding text_beq
story_at_6 = refl

replay_to_lem_example :
    lookup note (replay_to 6 (steps story (init none))).0
    ≡ changes note (until 6 (recorded story 0)) none
replay_to_lem_example =
    replay_to_lem laws 6 story note (omega arith, (omega arith, (omega arith, tt)))

flat_note : parent_of note ≡ note
unfolding parent_of
flat_note = refl

-- A store that holds the first content.
abbrev one : Sos
one = (write 1 note (str (chars "a")) (chars "text") [] [] empty).1

one-Coherent : Coherent one
unfolding text_beq
one-Coherent =
    (write_new 1 note (str (chars "a")) (chars "text") [] [] empty init-Sound flat_note refl
      refl).0.coherent

plain_alone : EmptyAlone
unfolding oid_of
plain_alone [] e = refl
plain_alone (c ∷ b) e = absurd (cc e)

-- The write of that content is in the buffer, and the path is gone.
abbrev log : EventSourceLog
log = append 3 (chars "write") note (chars "a") (chars "ann") [] (init none)

abbrev gone : Sos
gone = unalias note one

new_text : lookup (oid_of (flushed_text log.buf log gone)) gone.objects ≡ none
unfolding write store resolve get_parent put_object alias unalias parent_of oid_of text_beq
    index_tags index_links Lru.get get append init read object_at flush_of Lru.invalidate Lru.set
new_text = refl

rewind_lem_example :
    let s1 = (flush_in 9 log gone).1 in
    let s' = (rewind 9 4 log gone).2 in
    Flushes (flushed_text log.buf log gone) gone s1
    × Coherent s'
    × (s'.objects ≡ s1.objects)
    × (target note s' ≡ restored (lookup note (replay_in 9 4 log gone).0) s1 (target note s1))
rewind_lem_example =
    rewind_lem plain_alone 9 4 log note gone (unalias-Coherent note one one-Coherent)
      (λ r e. absurd (cc (new_text, e)))
