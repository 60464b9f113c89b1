-- ===== src/Security/Ledger.antt =====
-- security/ledger.py: the audit trail, a chain of entries in which each carries the hash of the one
-- before it. The state has the contents of the two files in the object store that the trail writes.
-- Blank lines are skipped, so a line ends at each of the characters of `str.splitlines` alone. The
-- flush that the timer thread makes is one of the steps. The clock is an argument.
pub mod Lines
pub mod Chain
pub mod Verifying
mod Tests
use data_py_os.Base.{
  ℕ, ◌+◌, Bool, true, false, not, ◌&&◌, ◌||◌, Option, none, some, List, [], ◌∷◌, ◌++◌, map, leb,
  nat_beq, if◌then◌else◌,
}
use data_py_os.Base.Eq.{◌==◌, text_eq, Text, chars}
use data_py_os.Base.Lists.{keep, is_nil}
use data_py_os.Store.Lines.{lines_of, join, text_or_empty, extend, last_of}
use data_py_os.Store.Sos.Types.{Host}

pub record AuditEntry : Type 0 where
  pub seq : ℕ
  pub timestamp : ℕ
  pub event : Text
  pub user : Text
  pub path : Text
  pub detail : Text
  pub prev_hash : Text
  pub entry_hash : Text

-- `json.dumps` of an entry and of its payload, and `AuditEntry.from_dict(json.loads(...))`, which is
-- `none` where it raises. The payload gets the fields in the order of `_payload`.
pub record Json : Type 0 where
  pub payload : ℕ → ℕ → Text → Text → Text → Text → Text → Text
  pub dumps : AuditEntry → Text
  pub loads : Text → Option AuditEntry

-- "0" * 64
abbrev pub genesis_hash : Text
genesis_hash = chars "0000000000000000000000000000000000000000000000000000000000000000"

-- The unflushed entries, the last sequence number and hash, and the files at CHAIN_PATH and
-- ROOT_PATH.
pub record AuditTrail : Type 0 where
  pub buffer : List AuditEntry
  pub seq : ℕ
  pub tip_hash : Text
  pub chain : Option Text
  pub root : Option Text

pub data Verdict : Type 0 where
  empty : Verdict
  verified parse_error broken tampered : ℕ → Verdict

module _ ⦃h : Host⦄ ⦃j : Json⦄ where
  unfoldable pub compute_hash : AuditEntry → Text
  compute_hash e = h.hexdigest (
      h.encode
        (e.prev_hash ++ j.payload e.seq e.timestamp e.event e.user e.path e.detail e.prev_hash))

  -- an entry with its hash
  unfoldable pub sign : AuditEntry → AuditEntry
  sign e = record e { entry_hash = compute_hash e }

  -- The clock comes first, then the arguments of the source.
  unfoldable pub append : ℕ → Text → Text → Text → Text → AuditTrail → AuditTrail
  append now event user path detail t =
      let entry = sign (record {
        seq = t.seq + 1;
        timestamp = now;
        event = event;
        user = user;
        path = path;
        detail = detail;
        prev_hash = t.tip_hash;
        entry_hash = [];
      }) in
      record t { buffer = t.buffer ++ entry ∷ []; seq = t.seq + 1; tip_hash = entry.entry_hash }

  -- `flush` with its buffer, which is left alone if it is empty
  unfoldable pub flush_of : List AuditEntry → AuditTrail → AuditTrail
  flush_of [] t = t
  flush_of (e ∷ es) t = record t {
    chain = some (extend (text_or_empty t.chain) (join (map j.dumps (e ∷ es))));
    root = some t.tip_hash;
    buffer = [];
  }

  unfoldable pub flush : AuditTrail → AuditTrail
  unfolding flush_of
  flush t = flush_of t.buffer t

  -- one line of `verify`, once it is parsed
  unfoldable pub check_entry : Text → AuditEntry → Verdict → Verdict
  check_entry prev e rest =
      if not (e.prev_hash == prev)
      then broken e.seq
      else if not (e.entry_hash == compute_hash e)
      then tampered e.seq
      else rest

  -- a line that does not parse ends the loop
  abbrev pub parsed : Option AuditEntry → ℕ → (AuditEntry → Verdict) → Verdict
  parsed none n go = parse_error n
  parsed (some e) n go = go e

  -- the loop of `verify`, after `n` lines
  unfoldable pub check_lines : Text → List Text → ℕ → Verdict
  check_lines prev [] n = verified n
  check_lines prev (l ∷ ls) n =
      parsed (j.loads l) (n + 1) (λ e. check_entry prev e (check_lines e.entry_hash ls (n + 1)))

  abbrev pub check_chain : Option Text → Verdict
  check_chain none = empty
  check_chain (some t) = check_lines genesis_hash (lines_of t) 0

  unfoldable pub verify : AuditTrail → Verdict × AuditTrail
  verify t = let t' = flush t in (check_chain t'.chain, t')

  -- the sequence number and hash to continue from: those of the first entry's predecessor if there is
  -- no line or the last one does not parse
  abbrev pub resume : Option Text → ℕ × Text
  resume none = (0, genesis_hash)
  resume (some l) = elim (j.loads l) [ none ↦ (0, genesis_hash) | some e ↦ (e.seq, e.entry_hash) ]

  -- `_load_state`: without the file at ROOT_PATH the chain is not read
  unfoldable pub load_state : Option Text → Option Text → AuditTrail
  load_state chain none = record {
    buffer = [];
    seq = 0;
    tip_hash = genesis_hash;
    chain = chain;
    root = none;
  }
  load_state chain (some root) =
      let (seq, tip) = resume (last_of (lines_of (text_or_empty chain))) in
      record { buffer = []; seq = seq; tip_hash = tip; chain = chain; root = some root }
