-- ===== src/Store/Eventsource/Rewinding.antt =====
-- store/eventsource.py: what `rewind` restores.
use data_py_os.Base.{
  ℕ, ◌≡◌, refl, ap, ◌∙◌, inl, inr, Bool, true, false, not, ◌||◌, Option, none, some, List, [], ◌∷◌,
  sym, if◌then◌else◌, is_some, Bool-cases,
}
use data_py_os.Base.Eq.{◌==◌, text_eq, text_beq, text_beq_iff, Text, chars}
use data_py_os.Base.Dict.{Dict, lookup, IsDict}
use data_py_os.Store.Sos.Types.{Host, SObject, Sos, str, oid_of}
use data_py_os.Store.Sos.Objects.{get}
use data_py_os.Store.Sos.Aliases.{alias}
use data_py_os.Store.Sos.Coherent.{
  Coherent, Answers, Reads, target, oid_in, get-Reads, cache_object as cache_Coherent,
}
use data_py_os.Store.Sos.Storing.{alias-Coherent}
use data_py_os.Store.Sos.Writing.{alias_objects}
use data_py_os.Store.Sos.Moving.{target-alias}
use data_py_os.Store.Lines.{lines_of, text_or_empty}
use data_py_os.Store.Sos.Files.{read, write}
use data_py_os.Store.Sos.Writing.{EmptyAlone}
use data_py_os.Store.Sos.Storing.{NoCollision}
use data_py_os.Store.Sos.Answering.{read-Reads}
use data_py_os.Store.Sos.RoundTrip.{Writes, write-Writes}
use data_py_os.Store.Eventsource.Replaying.{replay-IsDict}
use data_py_os.Store.Eventsource.{
  SourceEvent, EventSourceLog, Json, dir_mark, cache_object, restore_one, restore, rewind, replay,
  replay_in, flush_in, flush_buffer, flush_of, es_log_path, text_of,
}

-- An OID that is restored: it is no directory, and its object is there.
abbrev pub usable : Text → Sos → Bool
usable oid s = not (oid == dir_mark || not (is_some (lookup oid s.objects)))

-- The OID that a restored path gets.
abbrev pub restored : Option Text → Sos → Option Text → Option Text
restored none s before = before
restored (some oid) s before = if usable oid s then some oid else before

module _ ⦃h : Host⦄ where
  -- What restoring a part of the state leaves.
  record Restores (s t : Sos) : Type 0 where
    coherent : Coherent t
    objects : t.objects ≡ s.objects

  cached :
      (oid : Text) (s s' : Sos) (o : Option SObject)
      → Answers oid (lookup oid s.objects) o
      → Reads s s'
      → Restores s (cache_object oid (o, s')) × ((cache_object oid (o, s')).aliases ≡ s.aliases)
  cached oid s s' none a r =
      (record { coherent = r.coherent; objects = r.tables.objects }, r.tables.aliases)
  cached oid s s' (some obj) (fits, (row, found, same)) r = (
    record {
      coherent = cache_Coherent s' oid obj r.coherent record {
        fits = fits;
        row = row;
        found = ap (lookup oid) r.tables.objects ∙ found;
        same = same;
      };
      objects = r.tables.objects;
    },
    r.tables.aliases,
  )

  restore_used :
      (path oid p : Text) (s : Sos)
      → Coherent s
      → let s' = cache_object oid (get oid (alias path oid false s)) in
        Restores s s' × (target p s' ≡ (if p == path then some oid else target p s))
  restore_used path oid p s k =
      let s1 = alias path oid false s in
      let (answer, r) = get-Reads oid s1 (alias-Coherent path oid false s k) in
      let (kept, names) = cached oid s1 (get oid s1).1 (get oid s1).0 answer r in
      (
        record {
          coherent = kept.coherent;
          objects = kept.objects ∙ alias_objects path oid false s;
        },
        ap (λ z. oid_in (lookup p z)) names ∙ target-alias p path oid false s,
      )

  restore_one_lem :
      (path oid p : Text) (s : Sos)
      → Coherent s
      → let s' = (restore_one path oid s).0 in
        Restores s s'
        × (target p s' ≡ (if p == path then restored (some oid) s (target p s) else target p s))
  restore_one_lem path oid p s k =
      elim (Bool-cases (oid == dir_mark || not (is_some (lookup oid s.objects)))) [
        | inl skip ↦
            rw skip (record { coherent = k; objects = refl }, same (p == path) (target p s))
        | inr use' ↦ rw use' (restore_used path oid p s k)
      ]
    where
      same : (b : Bool) (o : Option Text) → o ≡ (if b then o else o)
      same true o = refl
      same false o = refl

  usable_kept : (oid : Text) (s t : Sos) → t.objects ≡ s.objects → usable oid t ≡ usable oid s
  usable_kept oid s t e = ap (λ z. not (oid == dir_mark || not (is_some (lookup oid z)))) e

  restored_kept :
      (o before : Option Text) (s t : Sos)
      → t.objects ≡ s.objects
      → restored o t before ≡ restored o s before
  restored_kept none before s t e = refl
  restored_kept (some oid) before s t e =
      ap (λ b. if b then some oid else before) (usable_kept oid s t e)

  -- Restoring the paths of a state in any coherent store: each path that the state has gets its OID
  -- back if that is no directory and its object is there, every other path stays as it is.
  restore_lem :
      (state : Dict Text Text) (p : Text) (s : Sos)
      → IsDict state
      → Coherent s
      → let s' = (restore state s).1 in
        Restores s s' × (target p s' ≡ restored (lookup p state) s (target p s))
  unfolding restore
  restore_lem [] p s u k = (record { coherent = k; objects = refl }, refl)
  restore_lem ((path, oid) ∷ state) p s u k =
      let (one, at) = restore_one_lem path oid p s k in
      let s1 = (restore_one path oid s).0 in
      let (rest, at') = restore_lem state p s1 u.1 one.coherent in
      (
        record { coherent = rest.coherent; objects = rest.objects ∙ one.objects },
        at'
            ∙ restored_kept (lookup p state) (target p s1) s s1 one.objects
            ∙ (elim (Bool-cases (p == path)) [
              | inl same ↦
                  let gone : lookup p state ≡ none =
                    ap (λ q. lookup q state) ((text_beq_iff p path).0 same) ∙ u.0 in
                  rw same (
                    ap (λ z. restored z s (target p s1)) gone
                    ∙ at
                    ∙ ap (λ b. if b then restored (some oid) s (target p s) else target p s) same)
              | inr other ↦ rw other (
                  ap (restored (lookup p state) s) (
                    at
                    ∙ ap (λ b. if b then restored (some oid) s (target p s) else target p s) other))
            ]),
      )

  -- The text of the log that a flush of these events writes.
  abbrev pub flushed_text : ⦃j : Json⦄ → List SourceEvent → EventSourceLog → Sos → Text
  flushed_text es l s =
      text_or_empty (flush_of es (record l { log = text_of (read es_log_path s).0 })).log

  -- What a flush leaves of the store `s`: it stays as it is, or the text is written to the file of the log.
  pub data Flushes (text : Text) (s : Sos) : Sos → Type 0 where
    unchanged : Flushes text s s
    written :
        (t : Sos) → Writes es_log_path (h.encode text) (read es_log_path s).1 t → Flushes text s t

  flush_buffer-Coherent :
      ⦃j : Json⦄ (alone : EmptyAlone) (now : ℕ) (es : List SourceEvent) (l : EventSourceLog)
      (s : Sos)
      → Coherent s
      → NoCollision (h.encode (flushed_text es l s)) s
      → let t = (flush_buffer now es l s).1 in Coherent t × Flushes (flushed_text es l s) s t
  unfolding flush_buffer text_beq
  flush_buffer-Coherent alone now [] l s k free = (k, unchanged)
  flush_buffer-Coherent alone now (e ∷ es) l s k free =
      let text = flushed_text (e ∷ es) l s in
      let r = read-Reads es_log_path s k in
      let w =
        write-Writes alone now es_log_path (str text) (chars "text") []
          (chars "event-source-log" ∷ []) (read es_log_path s).1 r.coherent
          (λ row is. free row (ap (lookup (oid_of (h.encode text))) (sym r.tables.objects) ∙ is))
          refl in
      (
        w.coherent,
        written
            (write now es_log_path (str text) (chars "text") [] (chars "event-source-log" ∷ [])
              (read es_log_path s).1).1
            w,
      )

  -- In a coherent store, where only the empty content has its OID and the text of the log that is written collides with no stored
  -- content: `rewind` first flushes the log, which changes nothing or writes that text to the file of the log in the same store. From
  -- there it gives each path that `replay_to` has the OID that it has there, unless that stands for a directory or its object is
  -- not stored, and leaves every other path as it is, those made later too; it loses no object, and the store
  -- stays coherent.
  pub rewind_lem :
      ⦃j : Json⦄ (alone : EmptyAlone) (now time : ℕ) (l : EventSourceLog) (p : Text) (s : Sos)
      → Coherent s
      → NoCollision (h.encode (flushed_text l.buf l s)) s
      → let s1 = (flush_in now l s).1 in
        let s' = (rewind now time l s).2 in
        Flushes (flushed_text l.buf l s) s s1
        × Coherent s'
        × (s'.objects ≡ s1.objects)
        × (target p s' ≡ restored (lookup p (replay_in now time l s).0) s1 (target p s1))
  unfolding rewind replay_in flush_in
  rewind_lem alone now time l p s k free =
      let (k1, f) = flush_buffer-Coherent alone now l.buf l s k free in
      let s1 = (flush_buffer now l.buf l s).1 in
      let (o, s2) = read es_log_path s1 in
      let r = read-Reads es_log_path s1 k1 in
      let lines = lines_of (text_or_empty (text_of o)) in
      let state = replay time lines [] in
      let (q, at) = restore_lem state p s2 (replay-IsDict time lines [] tt) r.coherent in
      let same : target p s2 ≡ target p s1 = ap (λ z. oid_in (lookup p z)) r.tables.aliases in
      (
        f,
        q.coherent,
        q.objects ∙ r.tables.objects,
        at
            ∙ restored_kept (lookup p state) (target p s2) s1 s2 r.tables.objects
            ∙ ap (restored (lookup p state) s1) same,
      )
