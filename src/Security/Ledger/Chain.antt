-- ===== src/Security/Ledger/Chain.antt =====
-- security/ledger.py: the chain of hashes through appends and flushes.
use data_py_os.Base.{
  ℕ, ◌+◌, ◌≡◌, refl, sym, ap, ◌∙◌, true, false, not, List, [], ◌∷◌, ◌++◌, map, arith, is_some,
}
use data_py_os.Base.Eq.{◌==◌, text_eq, text_beq_iff, Text}
use data_py_os.Base.Lists.{length, is_nil}
use data_py_os.Store.Sos.Types.{Host}
use data_py_os.Security.Ledger.{
  AuditEntry, AuditTrail, Json, genesis_hash, compute_hash, sign, append, flush_of, check_lines,
  check_entry, verified,
}
use data_py_os.Store.Lines.{lines_of, text_or_empty}
use data_py_os.Security.Ledger.Lines.{JsonLaws, lines_of-extend}

module _ ⦃h : Host⦄ ⦃j : Json⦄ where
  -- The entries lead from one hash to another, each with the hash of its content.
  abbrev pub Chained : Text → List AuditEntry → Text → Type 0
  Chained from [] to = from ≡ to
  Chained from (e ∷ es) to =
      (e.prev_hash ≡ from) × (e.entry_hash ≡ compute_hash e) × Chained e.entry_hash es to

  pub Chained-append :
      (from mid to : Text) (es fs : List AuditEntry)
      → Chained from es mid
      → Chained mid fs to
      → Chained from (es ++ fs) to
  Chained-append from mid to [] fs c d = rw c d
  Chained-append from mid to (e ∷ es) fs c d =
      (c.0, c.1, Chained-append e.entry_hash mid to es fs c.2 d)

  -- What the trail wrote and has yet to write is one chain from the start to its tip.
  pub record IsChain (written : List AuditEntry) (t : AuditTrail) : Type 0 where
    pub mid : Text
    pub lines : lines_of (text_or_empty t.chain) ≡ map j.dumps written
    pub before : Chained genesis_hash written mid
    pub pending : Chained mid t.buffer t.tip_hash
    pub present : is_some t.chain ≡ not (is_nil written)

  pub append-IsChain :
      (now : ℕ) (event user path detail : Text) (es : List AuditEntry) (t : AuditTrail)
      → IsChain es t
      → IsChain es (append now event user path detail t)
  unfolding append sign compute_hash
  append-IsChain now event user path detail es t c = record {
    mid = c.mid;
    lines = c.lines;
    before = c.before;
    pending =
        Chained-append c.mid t.tip_hash (append now event user path detail t).tip_hash t.buffer _
          c.pending (refl, refl, refl);
    present = c.present;
  }

  append_nil : (xs : List AuditEntry) → xs ++ [] ≡ xs
  append_nil [] = refl
  append_nil (x ∷ xs) = ap (λ z. x ∷ z) (append_nil xs)

  map-append : (xs ys : List AuditEntry) → map j.dumps (xs ++ ys) ≡ map j.dumps xs ++ map j.dumps ys
  map-append [] ys = refl
  map-append (x ∷ xs) ys = ap (λ z. j.dumps x ∷ z) (map-append xs ys)

  is_nil-append :
      (xs : List AuditEntry) (y : AuditEntry) (ys : List AuditEntry) → is_nil (xs ++ y ∷ ys) ≡ false
  is_nil-append [] y ys = refl
  is_nil-append (x ∷ xs) y ys = refl

  -- A flush writes what was pending, and nothing is pending afterwards.
  pub flush_of-IsChain :
      (laws : JsonLaws j) (es b : List AuditEntry) (t : AuditTrail)
      → t.buffer ≡ b
      → IsChain es t
      → IsChain (es ++ b) (flush_of b t) × ((flush_of b t).buffer ≡ [])
  unfolding flush_of
  flush_of-IsChain laws es [] t is c = (rw (append_nil es) c, is)
  flush_of-IsChain laws es (e ∷ b) t is c =
      let there : Chained c.mid (e ∷ b) t.tip_hash = rw is at c.pending in
      (
        record {
          mid = t.tip_hash;
          lines =
              lines_of-extend laws (text_or_empty t.chain) e b
              ∙ ap (λ z. z ++ map j.dumps (e ∷ b)) c.lines
              ∙ sym (map-append es (e ∷ b));
          before = Chained-append genesis_hash c.mid t.tip_hash es (e ∷ b) c.before there;
          pending = refl;
          present = ap not (sym (is_nil-append es e b));
        },
        refl,
      )

  pub check_lines-Chained :
      (laws : JsonLaws j) (from to : Text) (es : List AuditEntry) (n : ℕ)
      → Chained from es to
      → check_lines from (map j.dumps es) n ≡ verified (n + length es)
  unfolding check_lines check_entry
  check_lines-Chained laws from to [] n c = ap verified (omega arith)
  check_lines-Chained laws from to (e ∷ es) n c =
      let linked : (e.prev_hash == from) ≡ true = (text_beq_iff e.prev_hash from).1 c.0 in
      let hashed : (e.entry_hash == compute_hash e) ≡ true =
        (text_beq_iff e.entry_hash (compute_hash e)).1 c.1 in
      rw (laws.round e, linked, hashed)
        (check_lines-Chained laws e.entry_hash to es (n + 1) c.2 ∙ ap verified (omega arith))

  -- The first part of a chain is a chain.
  pub Chained-take :
      (from to : Text) (es fs : List AuditEntry)
      → Chained from (es ++ fs) to
      → (mid : Text) × Chained from es mid
  Chained-take from to [] fs c = (from, refl)
  Chained-take from to (e ∷ es) fs c =
      let (mid, d) = Chained-take e.entry_hash to es fs c.2 in (mid, (c.0, c.1, d))
