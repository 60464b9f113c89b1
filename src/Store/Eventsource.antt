-- ===== src/Store/Eventsource.antt =====
-- store/eventsource.py: the log of the changes of the store, the state of the paths at a past time, and
-- the way back to it. The state has the contents of the log file, which `rewind` reads from and writes to the store; the clock is an argument. The
-- flush that the timer thread makes is one of the steps.
use data_py_os.Base.{
  ℕ, ◌+◌, ◌-◌, Bool, true, false, not, ◌&&◌, ◌||◌, Option, none, some, List, [], ◌∷◌, ◌++◌, map,
  leb, ltb, if◌then◌else◌, is_some, nat_beq,
}
use mathlib.Core.List.{reverse}
use data_py_os.Base.Eq.{◌==◌, text_eq, Text, chars}
use data_py_os.Base.Result.{Result, ok, err}
use data_py_os.Base.Dict.{Dict, lookup, insert, erase}
use data_py_os.Store.Lines.{lines_of, join, text_or_empty, extend, last_of}
use data_py_os.Store.Lru
use data_py_os.Store.Sos.Types.{Host, Content, str, Error, SObject, Sos}
use data_py_os.Store.Sos.Objects.{get}
use data_py_os.Store.Sos.Aliases.{alias}
use data_py_os.Store.Sos.Files.{read, write, mkdir}
use data_py_os.Store.Sos.Listing.{remove}
pub mod Events
pub mod Replaying
pub mod Recording
pub mod Rewinding
mod Tests

pub record SourceEvent : Type 0 where
  pub seq : ℕ
  pub ts : ℕ
  pub event_type : Text
  pub path : Text
  pub oid : Text
  pub content_ref : Text
  pub user : Text
  pub metadata : Dict Text Text

-- `to_line`, and `from_line`, which is `none` where it raises
pub record Json : Type 0 where
  pub to_line : SourceEvent → Text
  pub from_line : Text → Option SourceEvent

pub record EventSourceLog : Type 0 where
  pub seq : ℕ
  pub buf : List SourceEvent
  pub log : Option Text

-- The clock comes first, then the arguments of the source.
unfoldable pub append :
    ℕ → Text → Text → Text → Text → Dict Text Text → EventSourceLog → EventSourceLog
append now event_type path oid user metadata l = record l {
  seq = l.seq + 1;
  buf =
      l.buf
      ++ (record {
        seq = l.seq + 1;
        ts = now;
        event_type = event_type;
        path = path;
        oid = oid;
        content_ref = oid;
        user = user;
        metadata = metadata;
      })
        ∷ [];
}

abbrev pub dir_mark : Text
dir_mark = chars "__dir__"

-- one event of `replay_to`
unfoldable pub apply : SourceEvent → Dict Text Text → Dict Text Text
apply e state =
    if e.event_type == chars "write"
    then insert e.path e.oid state
    else if e.event_type == chars "delete"
    then erase e.path state
    else if e.event_type == chars "mkdir"
    then insert e.path dir_mark state
    else state

-- from_ts and event.ts < from_ts, or path_filter and event.path != path_filter
abbrev pub is_early : Option ℕ → ℕ → Bool
is_early none ts = false
is_early (some from) ts = not (nat_beq from 0) && ltb ts from

abbrev pub is_other : Option Text → Text → Bool
is_other none path = false
is_other (some []) path = false
is_other (some (c ∷ s)) path = not (path == c ∷ s)

-- one line of `replay_to`, with the rest of the loop
abbrev pub replay_line :
    ℕ → Option SourceEvent → Dict Text Text → (Dict Text Text → Dict Text Text) → Dict Text Text
replay_line target none state next = next state
replay_line target (some e) state next = if ltb target e.ts then state else next (apply e state)

module _ ⦃j : Json⦄ where
  abbrev pub seq_of : Option SourceEvent → ℕ
  seq_of none = 0
  seq_of (some e) = e.seq

  abbrev pub last_seq : Option Text → ℕ
  last_seq none = 0
  last_seq (some line) = seq_of (j.from_line line)

  -- `__init__` with `_load_seq`
  unfoldable pub init : Option Text → EventSourceLog
  init log = record { seq = last_seq (last_of (lines_of (text_or_empty log))); buf = []; log = log }

  -- `_flush` with its buffer, which is left alone if it is empty
  unfoldable pub flush_of : List SourceEvent → EventSourceLog → EventSourceLog
  flush_of [] l = l
  flush_of (e ∷ es) l = record l {
    buf = [];
    log = some (extend (text_or_empty l.log) (join (map j.to_line (e ∷ es))));
  }

  unfoldable pub flush : EventSourceLog → EventSourceLog
  unfolding flush_of
  flush l = flush_of l.buf l

  -- The loop of `replay_to`: a line that does not parse is skipped, the first later event ends it.
  unfoldable pub replay : ℕ → List Text → Dict Text Text → Dict Text Text
  replay target [] state = state
  replay target (line ∷ lines) state =
      replay_line target (j.from_line line) state (replay target lines)

  unfoldable pub replay_to : ℕ → EventSourceLog → Dict Text Text × EventSourceLog
  replay_to target l = let l' = flush l in (replay target (lines_of (text_or_empty l'.log)) [], l')

  -- The loop of `events` over the lines, the newest first. It looks at `n` after it has added an event,
  -- so it returns one event even if `n` is 0.
  unfoldable pub select : Option ℕ → Option Text → ℕ → List Text → List SourceEvent
  select from path n [] = []
  select from path n (line ∷ lines) =
      let here = select from path n lines in
      let next = select from path (n - 1) lines in
      elim (j.from_line line) [
        | none ↦ here
        | some e ↦
            if is_early from e.ts || is_other path e.path
            then here
            else e ∷ (if leb n 1 then [] else next)
      ]

  unfoldable pub events :
      Option ℕ → Option Text → ℕ → EventSourceLog → List SourceEvent × EventSourceLog
  events from path n l =
      let l' = flush l in (select from path n (reverse (lines_of (text_or_empty l'.log))), l')

-- `_obj_cache.set(oid, get(oid))`; the row is there, so `get` finds it
abbrev pub cache_object : Text → Option SObject × Sos → Sos
cache_object oid (none, s) = s
cache_object oid (some obj, s) = record s { obj_cache = Lru.set oid obj s.obj_cache }

-- one path of `rewind`: the state, and the paths restored
abbrev pub restore_one : Text → Text → Sos → Sos × ℕ
restore_one path oid s =
    if oid == dir_mark || not (is_some (lookup oid s.objects))
    then (s, 0)
    else (cache_object oid (get oid (alias path oid false s)), 1)

unfoldable pub restore : Dict Text Text → Sos → ℕ × Sos
restore [] s = (0, s)
restore ((path, oid) ∷ state) s =
    let (s1, n) = restore_one path oid s in let (m, s2) = restore state s1 in (n + m, s2)

abbrev pub es_log_path : Text
es_log_path = chars "/eventsource/events.jsonl"

abbrev pub text_of : Result Error Text → Option Text
text_of (ok t) = some t
text_of (err e) = none

module _ ⦃h : Host⦄ where
  -- `_flush` on the store that has the file of the log: it reads the file, and writes it longer
  unfoldable pub flush_buffer :
      ⦃j : Json⦄ → ℕ → List SourceEvent → EventSourceLog → Sos → EventSourceLog × Sos
  flush_buffer now [] l s = (l, s)
  flush_buffer now (e ∷ es) l s =
      let (r, s1) = read es_log_path s in
      let l' = flush_of (e ∷ es) (record l { log = text_of r }) in
      let (oid, s2) =
        write now es_log_path (str (text_or_empty l'.log)) (chars "text") []
          (chars "event-source-log" ∷ []) s1 in
      (l', s2)

  unfoldable pub flush_in : ⦃j : Json⦄ → ℕ → EventSourceLog → Sos → EventSourceLog × Sos
  flush_in now l s = flush_buffer now l.buf l s

  -- `replay_to` on that store: it flushes, then reads the file
  unfoldable pub replay_in :
      ⦃j : Json⦄ → ℕ → ℕ → EventSourceLog → Sos → Dict Text Text × EventSourceLog × Sos
  replay_in now target l s =
      let (l1, s1) = flush_in now l s in
      let (r, s2) = read es_log_path s1 in
      (replay target (lines_of (text_or_empty (text_of r))) [], record l1 { log = text_of r }, s2)

  unfoldable pub rewind : ⦃j : Json⦄ → ℕ → ℕ → EventSourceLog → Sos → ℕ × EventSourceLog × Sos
  rewind now target l s =
      let (state, l', s2) = replay_in now target l s in
      let (n, s3) = restore state s2 in (n, l', s3)

  -- `write` as patched; the event gets the clock of its own.
  unfoldable pub write_logged :
      ℕ
      → Text
      → Text
      → Content
      → Text
      → Dict Text Text
      → List Text
      → EventSourceLog
      → Sos
      → EventSourceLog × Sos
  write_logged now user path content kind meta tags l s =
      let (oid, s') = write now path content kind meta tags s in
      (append now (chars "write") path oid user [] l, s')

  -- `remove` as patched: the event comes before the call, which may raise
  unfoldable pub remove_logged :
      ℕ
      → ℕ
      → Text
      → Text
      → Bool
      → EventSourceLog
      → Sos
      → Result Error (Unit {0}) × EventSourceLog × Sos
  remove_logged fuel now user path recursive l s =
      let l' = append now (chars "delete") path [] user [] l in
      let (r, s') = remove fuel path recursive s in (r, l', s')

  abbrev pub log_if_ok : Result Error (Unit {0}) → EventSourceLog → EventSourceLog → EventSourceLog
  log_if_ok (ok x) done l = done
  log_if_ok (err e) done l = l

  -- `mkdir` as patched
  unfoldable pub mkdir_logged :
      ℕ → Text → Text → Bool → EventSourceLog → Sos → Result Error (Unit {0}) × EventSourceLog × Sos
  mkdir_logged now user path parents l s =
      let (r, s') = mkdir now path parents s in
      (r, log_if_ok r (append now (chars "mkdir") path [] user [] l) l, s')
