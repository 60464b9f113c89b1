-- ===== src/Kernel/Process/Queries.antt =====
-- kernel/process.py: what the queries report.
use mathlib.Core.List.{Perm}
use data_py_os.Base.{ℕ, ◌≡◌, ◌↔◌, inl, inr, some, [], ◌∷◌, arith, ap}
use data_py_os.Base.Eq.{◌==◌, nat_eq, text_eq, Text, text_beq_iff}
use data_py_os.Base.Dict.{Dict, lookup, values, IsDict}
use data_py_os.Base.Lists.{In, In-keep}
use data_py_os.Base.Sort.{IsSortedBy, sort_by-IsSortedBy, sort_by-perm}
use data_py_os.Kernel.Process.{Process, ProcessManager, get, all, by_user}
use data_py_os.Kernel.Process.Table.{IsValid, Filed}

-- `all` lists exactly the processes of the table, in the order of their pids.
pub all_sorted :
    (m : ProcessManager) → IsSortedBy (λ p. p.pid) (all m) × Perm (all m) (values m.table)
unfolding all
all_sorted m =
    (sort_by-IsSortedBy (λ p. p.pid) (values m.table), sort_by-perm (λ p. p.pid) (values m.table))

In-values_of :
    (p : Process) (d : Dict ℕ Process) → Filed d → lookup p.pid d ≡ some p → In p (values d)
In-values_of p [] hs e = ground arith
In-values_of p (x ∷ d) hs e = ground (arith, In-values_of p d hs.1)

In-of_values :
    (p : Process) (d : Dict ℕ Process)
    → Filed d
    → IsDict d
    → In p (values d)
    → lookup p.pid d ≡ some p
In-of_values p [] hs u h = elim h [ ]
In-of_values p ((k, q) ∷ d) hs u h = elim h [
  | inl e ↦ ground (arith, ap (λ (x : Process). x.pid) e)
  | inr h' ↦ ground (arith, In-of_values p d hs.1 u.1 h')
]

-- In a valid table `by_user` lists exactly the processes that `get` finds under their pid and that
-- belong to the user.
pub In-by_user :
    (user : Text) (p : Process) (m : ProcessManager)
    → IsValid m
    → In p (by_user user m) ↔ ((get p.pid m ≡ some p) × (p.user ≡ user))
unfolding by_user get
In-by_user user p m v =
    let kept = In-keep (λ q. q.user == user) p (values m.table) in
    (
      λ h. (
        In-of_values p m.table v.filed v.keys (kept.0 h).0,
        (text_beq_iff p.user user).0 (kept.0 h).1,
      ),
      λ h. kept.1 (In-values_of p m.table v.filed h.0, (text_beq_iff p.user user).1 h.1),
    )
