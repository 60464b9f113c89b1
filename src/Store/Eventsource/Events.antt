-- ===== src/Store/Eventsource/Events.antt =====
-- store/eventsource.py: the events that a client records, and what they make of the state of the paths.
use data_py_os.Base.{
  ℕ, ◌+◌, ◌≤◌, ◌≡◌, refl, ap, ◌∙◌, inl, inr, true, false, not, Option, none, some, List, [], ◌∷◌,
  leb, ltb, if◌then◌else◌, arith, Bool-cases,
}
use data_py_os.Base.Eq.{◌==◌, text_eq, Text, chars}
use data_py_os.Base.Lists.{keep}
use data_py_os.Base.Dict.{
  Dict, lookup, IsDict, insert-IsDict, erase-IsDict, lookup-insert, lookup-erase,
}
use data_py_os.Store.Eventsource.{SourceEvent, dir_mark, apply}

-- What a client and the timer do: an event is recorded, or the buffer is flushed.
pub data Step : Type 0 where
  happen : (now : ℕ) (event_type path oid user : Text) (metadata : Dict Text Text) → Step
  tick : Step

abbrev pub event_of : ℕ → Text → Text → Text → Text → Dict Text Text → ℕ → SourceEvent
event_of now event_type path oid user metadata seq = record {
  seq = seq;
  ts = now;
  event_type = event_type;
  path = path;
  oid = oid;
  content_ref = oid;
  user = user;
  metadata = metadata;
}

-- The events, numbered on from a number.
abbrev pub recorded : List Step → ℕ → List SourceEvent
recorded [] n = []
recorded (tick ∷ steps) n = recorded steps n
recorded (happen now event_type path oid user metadata ∷ steps) n =
    event_of now event_type path oid user metadata (n + 1) ∷ recorded steps (n + 1)

-- The clock does not go back.
abbrev pub Clocked : ℕ → List Step → Type 0
Clocked from [] = Unit
Clocked from (tick ∷ steps) = Clocked from steps
Clocked from (happen now event_type path oid user metadata ∷ steps) =
    (from ≤ now) × Clocked now steps

abbrev pub InOrder : ℕ → List SourceEvent → Type 0
InOrder from [] = Unit
InOrder from (e ∷ es) = (from ≤ e.ts) × InOrder e.ts es

pub recorded-InOrder :
    (from : ℕ) (steps : List Step) (n : ℕ) → Clocked from steps → InOrder from (recorded steps n)
recorded-InOrder from [] n c = tt
recorded-InOrder from (tick ∷ steps) n c = recorded-InOrder from steps n c
recorded-InOrder from (happen now event_type path oid user metadata ∷ steps) n c =
    (c.0, recorded-InOrder now steps (n + 1) c.1)

-- What an event makes of the OID of a path.
abbrev pub change : Text → SourceEvent → Option Text → Option Text
change p e before =
    if not (p == e.path)
    then before
    else if e.event_type == chars "write"
    then some e.oid
    else if e.event_type == chars "delete"
    then none
    else if e.event_type == chars "mkdir"
    then some dir_mark
    else before

abbrev pub changes : Text → List SourceEvent → Option Text → Option Text
changes p [] before = before
changes p (e ∷ es) before = changes p es (change p e before)

-- The events up to a time.
abbrev pub until : ℕ → List SourceEvent → List SourceEvent
until target es = keep (λ (e : SourceEvent). leb e.ts target) es

abbrev pub apply_all : List SourceEvent → Dict Text Text → Dict Text Text
apply_all [] state = state
apply_all (e ∷ es) state = apply_all es (apply e state)

pub apply-IsDict :
    (e : SourceEvent) (state : Dict Text Text) → IsDict state → IsDict (apply e state)
unfolding apply
apply-IsDict e state u = elim (Bool-cases (e.event_type == chars "write")) [
  | inl write ↦ rw write (insert-IsDict e.path e.oid state u)
  | inr a ↦ elim (Bool-cases (e.event_type == chars "delete")) [
    | inl delete ↦ rw (a, delete) (erase-IsDict e.path state u)
    | inr b ↦ elim (Bool-cases (e.event_type == chars "mkdir")) [
      | inl mkdir ↦ rw (a, b, mkdir) (insert-IsDict e.path dir_mark state u)
      | inr c ↦ rw (a, b, c) u
    ]
  ]
]

lookup-apply :
    (p : Text) (e : SourceEvent) (state : Dict Text Text)
    → IsDict state
    → lookup p (apply e state) ≡ change p e (lookup p state)
unfolding apply
lookup-apply p e state u = elim (Bool-cases (e.event_type == chars "write")) [
  | inl write ↦ rw write (ground (arith, lookup-insert p e.path e.oid state))
  | inr a ↦ elim (Bool-cases (e.event_type == chars "delete")) [
    | inl delete ↦ rw (a, delete) (ground (arith, lookup-erase p e.path state u))
    | inr b ↦ elim (Bool-cases (e.event_type == chars "mkdir")) [
      | inl mkdir ↦ rw (a, b, mkdir) (ground (arith, lookup-insert p e.path dir_mark state))
      | inr c ↦ rw (a, b, c) (ground arith)
    ]
  ]
]

pub lookup-apply_all :
    (p : Text) (es : List SourceEvent) (state : Dict Text Text)
    → IsDict state
    → lookup p (apply_all es state) ≡ changes p es (lookup p state)
lookup-apply_all p [] state u = refl
lookup-apply_all p (e ∷ es) state u =
    lookup-apply_all p es (apply e state) (apply-IsDict e state u)
    ∙ ap (changes p es) (lookup-apply p e state u)

pub none_until :
    (target from : ℕ) (es : List SourceEvent)
    → ltb target from ≡ true
    → InOrder from es
    → until target es ≡ []
none_until target from [] late order = refl
none_until target from (e ∷ es) late order =
    let early : leb e.ts target ≡ false = ground (arith, late, order.0) in
    let late' : ltb target e.ts ≡ true = ground (arith, late, order.0) in
    rw early (none_until target e.ts es late' order.1)
