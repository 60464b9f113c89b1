-- ===== src/Store/Eventsource/Replaying.antt =====
-- store/eventsource.py: the loop of `replay_to` over the lines of events.
use data_py_os.Base.{
  ℕ, ◌≡◌, refl, sym, ap, ◌∙◌, inl, inr, true, false, none, some, List, [], ◌∷◌, map, leb, ltb,
  arith, Bool-cases, Option-cases,
}
use data_py_os.Base.Eq.{text_eq, Text}
use data_py_os.Base.Dict.{Dict, IsDict}
use data_py_os.Store.Lines.{is_blank, is_one_line, lines_of, text_or_empty}
use data_py_os.Store.Eventsource.{
  SourceEvent, EventSourceLog, Json, apply, flush, replay, replay_to,
}
use data_py_os.Store.Eventsource.Events.{InOrder, until, apply_all, apply-IsDict, none_until}

-- What the log relies on in the line of an event: it is one line, it is not blank, and it is read
-- back as the event.
pub record JsonLaws (j : Json) : Type 0 where
  pub one_line : (e : SourceEvent) → is_one_line (j.to_line e) ≡ true
  pub not_blank : (e : SourceEvent) → is_blank (j.to_line e) ≡ false
  pub round : (e : SourceEvent) → j.from_line (j.to_line e) ≡ some e

module _ ⦃j : Json⦄ where
  skips :
      (time : ℕ) (line : Text) (lines : List Text) (state : Dict Text Text)
      → j.from_line line ≡ none
      → replay time (line ∷ lines) state ≡ replay time lines state
  unfolding replay
  skips time line lines state e = rw e refl

  stops :
      (time : ℕ) (line : Text) (lines : List Text) (state : Dict Text Text) (e : SourceEvent)
      → j.from_line line ≡ some e
      → ltb time e.ts ≡ true
      → replay time (line ∷ lines) state ≡ state
  unfolding replay
  stops time line lines state e is late = rw (is, late) refl

  goes_on :
      (time : ℕ) (line : Text) (lines : List Text) (state : Dict Text Text) (e : SourceEvent)
      → j.from_line line ≡ some e
      → ltb time e.ts ≡ false
      → replay time (line ∷ lines) state ≡ replay time lines (apply e state)
  unfolding replay
  goes_on time line lines state e is early = rw (is, early) refl

  pub replay-IsDict :
      (time : ℕ) (lines : List Text) (state : Dict Text Text)
      → IsDict state
      → IsDict (replay time lines state)
  unfolding replay
  replay-IsDict time [] state u = u
  replay-IsDict time (line ∷ lines) state u = elim (Option-cases (j.from_line line)) [
    | inl none' ↦ rw (skips time line lines state none') (replay-IsDict time lines state u)
    | inr (e, is) ↦ elim (Bool-cases (ltb time e.ts)) [
      | inl late ↦ rw (stops time line lines state e is late) u
      | inr early ↦
          rw (goes_on time line lines state e is early)
            (replay-IsDict time lines (apply e state) (apply-IsDict e state u))
    ]
  ]

  pub replay_to-IsDict : (time : ℕ) (l : EventSourceLog) → IsDict (replay_to time l).0
  unfolding replay_to
  replay_to-IsDict time l = replay-IsDict time (lines_of (text_or_empty (flush l).log)) [] tt

module _ ⦃j : Json⦄ (laws : JsonLaws j) where
  pub replay_lem :
      (target from : ℕ) (es : List SourceEvent) (state : Dict Text Text)
      → InOrder from es
      → replay target (map j.to_line es) state ≡ apply_all (until target es) state
  unfolding replay
  replay_lem target from [] state order = refl
  replay_lem target from (e ∷ es) state order = elim (Bool-cases (ltb target e.ts)) [
    | inl late ↦
        let over : until target (e ∷ es) ≡ [] =
          none_until target e.ts (e ∷ es) late (omega arith, order.1) in
        stops target (j.to_line e) (map j.to_line es) state e (laws.round e) late
        ∙ ap (λ z. apply_all z state) (sym over)
    | inr early ↦
        let here : leb e.ts target ≡ true = ground (arith, early) in
        rw here (
          goes_on target (j.to_line e) (map j.to_line es) state e (laws.round e) early
          ∙ replay_lem target e.ts es (apply e state) order.1)
  ]
