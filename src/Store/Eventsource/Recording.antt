-- ===== src/Store/Eventsource/Recording.antt =====
-- store/eventsource.py: what `replay_to` makes of the events that were recorded.
use data_py_os.Base.{ℕ, ◌+◌, ◌≡◌, refl, sym, ap, ◌∙◌, none, List, [], ◌∷◌, ◌++◌, map}
use data_py_os.Base.Eq.{text_eq, Text}
use data_py_os.Base.Dict.{Dict, lookup}
use data_py_os.Store.Lines.{lines_of, lines_of_nil, lines_of-extend, text_or_empty}
use data_py_os.Store.Eventsource.{
  SourceEvent, EventSourceLog, Json, append, init, flush, flush_of, replay, replay_to,
}
use data_py_os.Store.Eventsource.Events.{
  Step, happen, tick, event_of, recorded, Clocked, InOrder, recorded-InOrder, changes, until,
  lookup-apply_all,
}
use data_py_os.Store.Eventsource.Replaying.{JsonLaws, replay_lem}

module _ ⦃j : Json⦄ where
  abbrev pub step : Step → EventSourceLog → EventSourceLog
  step (happen now event_type path oid user metadata) l =
      append now event_type path oid user metadata l
  step tick l = flush l

  abbrev pub steps : List Step → EventSourceLog → EventSourceLog
  steps [] l = l
  steps (s ∷ ss) l = steps ss (step s l)

module _ ⦃j : Json⦄ (laws : JsonLaws j) where
  -- The lines of the log and the buffer are the events.
  record Holds (es : List SourceEvent) (l : EventSourceLog) : Type 0 where
    written : List SourceEvent
    lines : lines_of (text_or_empty l.log) ≡ map j.to_line written
    all : written ++ l.buf ≡ es

  append_assoc : (xs ys zs : List SourceEvent) → xs ++ (ys ++ zs) ≡ (xs ++ ys) ++ zs
  append_assoc [] ys zs = refl
  append_assoc (x ∷ xs) ys zs = ap (λ z. x ∷ z) (append_assoc xs ys zs)

  append_nil : (xs : List SourceEvent) → xs ++ [] ≡ xs
  append_nil [] = refl
  append_nil (x ∷ xs) = ap (λ z. x ∷ z) (append_nil xs)

  map-append :
      (xs ys : List SourceEvent) → map j.to_line xs ++ map j.to_line ys ≡ map j.to_line (xs ++ ys)
  map-append [] ys = refl
  map-append (x ∷ xs) ys = ap (λ z. j.to_line x ∷ z) (map-append xs ys)

  flush_of-Holds :
      (b es : List SourceEvent) (l : EventSourceLog)
      → l.buf ≡ b
      → Holds es l
      → Holds es (flush_of b l)
  unfolding flush_of
  flush_of-Holds [] es l is h = h
  flush_of-Holds (e ∷ b) es l is h = record {
    written = h.written ++ e ∷ b;
    lines =
        lines_of-extend j.to_line laws.one_line laws.not_blank (text_or_empty l.log) e b
        ∙ ap (λ z. z ++ map j.to_line (e ∷ b)) h.lines
        ∙ map-append h.written (e ∷ b);
    all = append_nil (h.written ++ e ∷ b) ∙ ap (λ z. h.written ++ z) (sym is) ∙ h.all;
  }

  flush-Holds : (es : List SourceEvent) (l : EventSourceLog) → Holds es l → Holds es (flush l)
  unfolding flush
  flush-Holds es l h = flush_of-Holds l.buf es l refl h

  flush_buf : (l : EventSourceLog) → (flush l).buf ≡ []
  unfolding flush flush_of
  flush_buf l = go l.buf refl
    where
      go : (b : List SourceEvent) → l.buf ≡ b → (flush_of b l).buf ≡ []
      go [] is = is
      go (e ∷ b) is = refl

  append-Holds :
      (now : ℕ) (event_type path oid user : Text) (metadata : Dict Text Text)
      (es : List SourceEvent) (l : EventSourceLog)
      → Holds es l
      → Holds
          (es ++ event_of now event_type path oid user metadata (l.seq + 1) ∷ [])
          (append now event_type path oid user metadata l)
  unfolding append
  append-Holds now event_type path oid user metadata es l h = record {
    written = h.written;
    lines = h.lines;
    all =
        append_assoc h.written l.buf
          (event_of now event_type path oid user metadata (l.seq + 1) ∷ [])
        ∙ ap (λ z. z ++ event_of now event_type path oid user metadata (l.seq + 1) ∷ []) h.all;
  }

  append_seq :
      (now : ℕ) (event_type path oid user : Text) (metadata : Dict Text Text) (l : EventSourceLog)
      → (append now event_type path oid user metadata l).seq ≡ l.seq + 1
  unfolding append
  append_seq now event_type path oid user metadata l = refl

  flush_seq : (l : EventSourceLog) → (flush l).seq ≡ l.seq
  unfolding flush flush_of
  flush_seq l = go l.buf
    where
      go : (b : List SourceEvent) → (flush_of b l).seq ≡ l.seq
      go [] = refl
      go (e ∷ b) = refl

  steps-Holds :
      (ss : List Step) (es : List SourceEvent) (n : ℕ) (l : EventSourceLog)
      → l.seq ≡ n
      → Holds es l
      → Holds (es ++ recorded ss n) (steps ss l)
  steps-Holds [] es n l is h = rw (append_nil es) h
  steps-Holds (tick ∷ ss) es n l is h =
      steps-Holds ss es n (flush l) (flush_seq l ∙ is) (flush-Holds es l h)
  steps-Holds (happen now event_type path oid user metadata ∷ ss) es n l is h =
      let e = event_of now event_type path oid user metadata in
      let l' = append now event_type path oid user metadata l in
      let h' : Holds (es ++ e (n + 1) ∷ []) l' =
        rw (← is) (append-Holds now event_type path oid user metadata es l h) in
      rw (append_assoc es (e (n + 1) ∷ []) (recorded ss (n + 1))) (
        steps-Holds ss (es ++ e (n + 1) ∷ []) (n + 1) l'
          (append_seq now event_type path oid user metadata l ∙ ap (λ z. z + 1) is) h')

  init-Holds : Holds [] (init none)
  unfolding init
  init-Holds = record { written = []; lines = lines_of_nil; all = refl }

  init_seq : (init none).seq ≡ 0
  unfolding init lines_of
  init_seq = refl

  replay_flushed :
      (target from : ℕ) (es : List SourceEvent) (l : EventSourceLog) (p : Text)
      → InOrder from es
      → l.buf ≡ []
      → Holds es l
      → lookup p (replay target (lines_of (text_or_empty l.log)) [])
        ≡ changes p (until target es) none
  replay_flushed target from es l p order is h =
      let same : h.written ≡ es =
        sym (append_nil h.written) ∙ ap (λ z. h.written ++ z) (sym is) ∙ h.all in
      ap (λ z. lookup p (replay target z [])) (h.lines ∙ ap (map j.to_line) same)
      ∙ ap (lookup p) (replay_lem laws target from es [] order)
      ∙ lookup-apply_all p (until target es) [] tt

  -- Where each event is read back from its line: whatever is recorded in a new log and however often it is
  -- flushed in between, as long as the clock does not go back, `replay_to` gives every path the OID that the last
  -- event up to that time left it, and none if it was deleted or there is no such event.
  pub replay_to_lem :
      (target : ℕ) (ss : List Step) (p : Text)
      → Clocked 0 ss
      → lookup p (replay_to target (steps ss (init none))).0
        ≡ changes p (until target (recorded ss 0)) none
  unfolding replay_to
  replay_to_lem target ss p clocked =
      let l = steps ss (init none) in
      let es = recorded ss 0 in
      replay_flushed target 0 es (flush l) p (recorded-InOrder 0 ss 0 clocked) (flush_buf l)
        (flush-Holds es l (steps-Holds ss [] 0 (init none) init_seq init-Holds))
