-- ===== src/Security/Ledger/Verifying.antt =====
-- security/ledger.py: what `verify` reports.
use data_py_os.Base.{
  ℕ, zero, suc, ◌+◌, ◌≡◌, refl, ap, ◌∙◌, not, Option, none, some, List, [], ◌∷◌, ◌++◌, map, arith,
  is_some,
}
use data_py_os.Base.Eq.{Text}
use data_py_os.Base.Lists.{length, is_nil}
use data_py_os.Store.Sos.Types.{Host}
use data_py_os.Security.Ledger.{
  AuditEntry, AuditTrail, Json, genesis_hash, append, flush, flush_of, Verdict, verified,
  check_chain, empty, verify, load_state,
}
use data_py_os.Store.Lines.{lines_of, text_or_empty}
use data_py_os.Security.Ledger.Lines.{JsonLaws}
use data_py_os.Store.Lines.{lines_of_nil}
use data_py_os.Security.Ledger.Chain.{
  IsChain, Chained, append-IsChain, flush_of-IsChain, check_lines-Chained, Chained-take,
}

-- A step of the program or of the timer.
pub data Step : Type 0 where
  records : ℕ → Text → Text → Text → Text → Step
  flushes : Step

-- How many events the steps record.
abbrev pub recorded : List Step → ℕ
recorded [] = 0
recorded (records now event user path detail ∷ ss) = suc (recorded ss)
recorded (flushes ∷ ss) = recorded ss

-- The verdict on a sound chain of so many entries.
abbrev pub report : ℕ → Verdict
report zero = empty
report (suc n) = verified (suc n)

length-append : (xs ys : List AuditEntry) → length (xs ++ ys) ≡ length xs + length ys
length-append [] ys = omega arith
length-append (x ∷ xs) ys = ground (arith, length-append xs ys)

module _ ⦃h : Host⦄ ⦃j : Json⦄ where
  unfoldable pub log : List Step → AuditTrail → AuditTrail
  log [] t = t
  log (records now event user path detail ∷ ss) t = log ss (append now event user path detail t)
  log (flushes ∷ ss) t = log ss (flush t)

  -- the trail holds so many entries, in one chain
  record Holds (n : ℕ) (t : AuditTrail) : Type 0 where
    written : List AuditEntry
    chain : IsChain written t
    counted : length written + length t.buffer ≡ n

  append-Holds :
      (now : ℕ) (event user path detail : Text) (n : ℕ) (t : AuditTrail)
      → Holds n t
      → Holds (suc n) (append now event user path detail t)
  unfolding append
  append-Holds now event user path detail n t k = record {
    written = k.written;
    chain = unfold append in append-IsChain now event user path detail k.written t k.chain;
    counted = omega (arith, length-append t.buffer _, k.counted);
  }

  flush-Holds : (laws : JsonLaws j) (n : ℕ) (t : AuditTrail) → Holds n t → Holds n (flush t)
  unfolding flush
  flush-Holds laws n t k =
      let (c, done) = flush_of-IsChain laws k.written t.buffer t refl k.chain in
      record {
        written = k.written ++ t.buffer;
        chain = c;
        counted = rw done (omega (arith, length-append k.written t.buffer, k.counted));
      }

  log-Holds :
      (laws : JsonLaws j) (ss : List Step) (n : ℕ) (t : AuditTrail)
      → Holds n t
      → Holds (n + recorded ss) (log ss t)
  unfolding log
  log-Holds laws [] n t k = record {
    written = k.written;
    chain = k.chain;
    counted = omega (arith, k.counted);
  }
  log-Holds laws (records now event user path detail ∷ ss) n t k =
      let r =
        log-Holds laws ss (suc n) (append now event user path detail t)
          (append-Holds now event user path detail n t k) in
      record { written = r.written; chain = r.chain; counted = omega (arith, r.counted) }
  log-Holds laws (flushes ∷ ss) n t k = log-Holds laws ss n (flush t) (flush-Holds laws n t k)

  check_chain-report :
      (laws : JsonLaws j) (o : Option Text) (es : List AuditEntry) (to : Text)
      → lines_of (text_or_empty o) ≡ map j.dumps es
      → is_some o ≡ not (is_nil es)
      → Chained genesis_hash es to
      → check_chain o ≡ report (length es)
  check_chain-report laws none [] to l p c = refl
  check_chain-report laws none (e ∷ es) to l p c = absurd (cc p)
  check_chain-report laws (some t) [] to l p c = absurd (cc p)
  check_chain-report laws (some t) (e ∷ es) to l p c =
      rw l (check_lines-Chained laws genesis_hash to (e ∷ es) 0 c ∙ ap verified (omega arith))

  -- From a new trail, after any events recorded and any flushes in between, `verify` finds the chain
  -- sound and reports as many entries as events were recorded.
  pub verify-log :
      (laws : JsonLaws j) (ss : List Step)
      → (verify (log ss (load_state none none))).0 ≡ report (recorded ss)
  unfolding verify flush load_state
  verify-log laws ss =
      let start : Holds 0 (load_state none none) = record {
        written = [];
        chain = record {
          mid = genesis_hash;
          lines = lines_of_nil;
          before = refl;
          pending = refl;
          present = refl;
        };
        counted = omega arith;
      } in
      let t = log ss (load_state none none) in
      let k = log-Holds laws ss 0 (load_state none none) start in
      let c = (flush_of-IsChain laws k.written t.buffer t refl k.chain).0 in
      let all : length (k.written ++ t.buffer) ≡ recorded ss =
        omega (arith, length-append k.written t.buffer, k.counted) in
      check_chain-report laws (flush t).chain (k.written ++ t.buffer) c.mid c.lines c.present
        c.before
      ∙ ap report all

  -- `verify` does not look at the published root: when the last entries of a sound chain, but not
  -- its first, are taken off the file of a trail with an empty buffer, it reports the rest as verified, whatever the root is.
  pub truncation_passes :
      (laws : JsonLaws j) (e : AuditEntry) (es gone : List AuditEntry) (cut to : Text)
      (root : Option Text) (t : AuditTrail)
      → Chained genesis_hash (e ∷ es ++ gone) to
      → t.buffer ≡ []
      → lines_of cut ≡ map j.dumps (e ∷ es)
      → (verify (record t { chain = some cut; root = root })).0 ≡ verified (suc (length es))
  unfolding verify flush flush_of
  truncation_passes laws e es gone cut to root t c none_left l =
      let (mid, d) = Chained-take genesis_hash to (e ∷ es) gone c in
      rw (none_left, l)
        (check_lines-Chained laws genesis_hash mid (e ∷ es) 0 d ∙ ap verified (omega arith))
