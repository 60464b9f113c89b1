-- ===== src/Security/Ledger/Tests.antt =====
-- security/ledger.py: the theorems at concrete inputs, with a plain text format for entries: the
-- numbers and characters moved past the control characters, and each field ended by a bar.
use data_py_os.Base.{
  ℕ, ◌+◌, ◌-◌, ◌≡◌, refl, ◌∙◌, true, false, Option, none, some, List, [], ◌∷◌, arith, nat_beq,
  if◌then◌else◌,
}
use data_py_os.Base.Eq.{Text, chars}
use data_py_os.Store.Sos.Types.{Host}
use data_py_os.Security.Ledger.{
  AuditEntry, AuditTrail, Json, genesis_hash, compute_hash, sign, verify, load_state, verified,
}
use data_py_os.Store.Lines.{is_line_end, lines_of}
use data_py_os.Security.Ledger.Lines
use data_py_os.Security.Ledger.Lines.{JsonLaws}
use data_py_os.Store.Lines.{is_one_line}
use data_py_os.Security.Ledger.Verifying.{
  Step, records, flushes, log, verify-log, truncation_passes,
}

instance abbrev plain : Host
plain = record { hexdigest = λ b. b; encode = λ t. t; decode = λ b. b }

abbrev put : Text → Text → Text
put [] rest = 124 ∷ rest
put (c ∷ t) rest = (9000 + c) ∷ put t rest

abbrev take_field : Text → Text × Text
take_field [] = ([], [])
take_field (c ∷ s) =
    let (t, rest) = take_field s in if nat_beq c 124 then ([], s) else ((c - 9000) ∷ t, rest)

take_field-put : (t rest : Text) → take_field (put t rest) ≡ (t, rest)
take_field-put [] rest = refl
take_field-put (c ∷ t) rest = ground (arith, take_field-put t rest)

abbrev print : AuditEntry → Text
print e =
    123
    ∷ (9000 + e.seq)
    ∷ (9000 + e.timestamp)
    ∷ put e.event (put e.user (put e.path (put e.detail (put e.prev_hash (put e.entry_hash [])))))

abbrev scan : Text → Option AuditEntry
scan (brace ∷ seq ∷ timestamp ∷ s) =
    let (event, s1) = take_field s in
    let (user, s2) = take_field s1 in
    let (path, s3) = take_field s2 in
    let (detail, s4) = take_field s3 in
    let (prev_hash, s5) = take_field s4 in
    some (record {
      seq = seq - 9000;
      timestamp = timestamp - 9000;
      event = event;
      user = user;
      path = path;
      detail = detail;
      prev_hash = prev_hash;
      entry_hash = (take_field s5).0;
    })
scan _ = none

instance abbrev json : Json
json = record {
  payload = λ seq timestamp event user path detail prev_hash. put event (put user (put path []));
  dumps = print;
  loads = scan;
}

is_one_line-put : (t rest : Text) → is_one_line (put t rest) ≡ is_one_line rest
is_one_line-put [] rest = refl
is_one_line-put (c ∷ t) rest = ground (arith, is_one_line-put t rest)

scan-print : (e : AuditEntry) → scan (print e) ≡ some e
scan-print e =
    let f = put e.entry_hash [] in
    let d = put e.prev_hash f in
    let c = put e.detail d in
    let b = put e.path c in
    let a = put e.user b in
    let seq : (9000 + e.seq) - 9000 ≡ e.seq = omega arith in
    let timestamp : (9000 + e.timestamp) - 9000 ≡ e.timestamp = omega arith in
    rw
      (
        seq,
        timestamp,
        take_field-put e.event a,
        take_field-put e.user b,
        take_field-put e.path c,
        take_field-put e.detail d,
        take_field-put e.prev_hash f,
        take_field-put e.entry_hash [],
      )
      refl

fields_one_line :
    (e : AuditEntry)
    → is_one_line (
        put e.event
          (put e.user (put e.path (put e.detail (put e.prev_hash (put e.entry_hash []))))))
      ≡ true
fields_one_line e =
    let f = put e.entry_hash [] in
    let d = put e.prev_hash f in
    let c = put e.detail d in
    let b = put e.path c in
    let a = put e.user b in
    is_one_line-put e.event a
    ∙ is_one_line-put e.user b
    ∙ is_one_line-put e.path c
    ∙ is_one_line-put e.detail d
    ∙ is_one_line-put e.prev_hash f
    ∙ is_one_line-put e.entry_hash []

plain_number : (n : ℕ) → is_line_end (9000 + n) ≡ false
plain_number n = ground arith

print_one_line : (e : AuditEntry) → is_one_line (print e) ≡ true
print_one_line e = rw (plain_number e.seq, plain_number e.timestamp) (fields_one_line e)

laws : JsonLaws json
laws = record { one_line = print_one_line; not_blank = λ e. refl; round = scan-print }

abbrev story : List Step
story =
    records 5 (chars "login") (chars "ann") [] []
    ∷ flushes
    ∷ records 7 (chars "write") (chars "ann") (chars "/x") []
    ∷ records 9 (chars "logout") (chars "ann") [] []
    ∷ []

verify-log_example : (verify (log story (load_state none none))).0 ≡ verified 3
verify-log_example = verify-log laws story

abbrev first : AuditEntry
first = sign (record {
  seq = 1;
  timestamp = 5;
  event = chars "login";
  user = chars "ann";
  path = [];
  detail = [];
  prev_hash = genesis_hash;
  entry_hash = [];
})

abbrev second : AuditEntry
second = sign (record {
  seq = 2;
  timestamp = 7;
  event = chars "write";
  user = chars "eve";
  path = [];
  detail = [];
  prev_hash = first.entry_hash;
  entry_hash = [];
})

-- A trail whose root is the hash of the second entry.
abbrev trail : AuditTrail
trail = record {
  buffer = [];
  seq = 2;
  tip_hash = second.entry_hash;
  chain = none;
  root = some second.entry_hash;
}

cut_line : lines_of (print first) ≡ print first ∷ []
cut_line = Lines.lines_of_one laws first

truncation_passes_example :
    (verify (record trail { chain = some (print first); root = some second.entry_hash })).0
    ≡ verified 1
unfolding sign compute_hash
truncation_passes_example =
    truncation_passes laws first [] (second ∷ []) (print first) second.entry_hash
      (some second.entry_hash) trail (refl, refl, (refl, refl, refl)) refl cut_line
