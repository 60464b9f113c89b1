-- ===== src/Security/Ledger/Lines.antt =====
-- security/ledger.py: the lines of the chain file after more entries are added.
use data_py_os.Base.{◌≡◌, true, false, some, List, [], ◌∷◌, ◌++◌, map}
use data_py_os.Base.Eq.{Text}
use data_py_os.Store.Lines.{is_blank, is_one_line, lines_of, join, extend}
use data_py_os.Store.Lines as File
use data_py_os.Security.Ledger.{AuditEntry, Json}

-- What the trail relies on in the text of an entry: it is one line, it is not blank, and it is read
-- back as the entry.
pub record JsonLaws (j : Json) : Type 0 where
  pub one_line : (e : AuditEntry) → is_one_line (j.dumps e) ≡ true
  pub not_blank : (e : AuditEntry) → is_blank (j.dumps e) ≡ false
  pub round : (e : AuditEntry) → j.loads (j.dumps e) ≡ some e

module _ ⦃j : Json⦄ (laws : JsonLaws j) where
  pub lines_of_one : (e : AuditEntry) → lines_of (j.dumps e) ≡ j.dumps e ∷ []
  lines_of_one e = File.lines_of_one j.dumps laws.one_line laws.not_blank e

  -- The lines of the chain after a flush of entries: the old ones and theirs.
  pub lines_of-extend :
      (old : Text) (e : AuditEntry) (es : List AuditEntry)
      → lines_of (extend old (join (map j.dumps (e ∷ es)))) ≡ lines_of old ++ map j.dumps (e ∷ es)
  lines_of-extend old e es = File.lines_of-extend j.dumps laws.one_line laws.not_blank old e es
