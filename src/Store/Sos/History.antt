-- ===== src/Store/Sos/History.antt =====
-- store/sos.py: `history` and `checkout`. The loop of `history` has no bound in the source; here it
-- has fuel, and `none` says that the fuel ran out.
use data_py_os.Base.{ℕ, zero, suc, Option, none, some, List, [], ◌∷◌, if◌then◌else◌, nat_beq}
use data_py_os.Base.Eq.{Text}
use data_py_os.Store.Sos.Types.{SObject, Sos}
use data_py_os.Store.Sos.Objects.{get}
use data_py_os.Store.Sos.Aliases.{resolve}

-- the objects so far with one more in front, if the walk ended
abbrev pub onto : SObject → Option (List SObject) → Option (List SObject)
onto obj none = none
onto obj (some chain) = some (obj ∷ chain)

-- one round of the loop, with the rest of the loop as an argument
unfoldable pub visit :
    (Option Text → Sos → Option (List SObject) × Sos)
    → Option SObject
    → Sos
    → Option (List SObject) × Sos
visit rest none s = (some [], s)
visit rest (some obj) s = let (chain, s') = rest obj.parent_oid s in (onto obj chain, s')

unfoldable pub walk : ℕ → Option Text → Sos → Option (List SObject) × Sos
unfolding visit
walk fuel none s = (some [], s)
walk zero (some oid) s = (none, s)
walk (suc fuel) (some oid) s = let (found, s') = get oid s in visit (walk fuel) found s'

unfoldable pub history : ℕ → Text → Sos → Option (List SObject) × Sos
history fuel path s = let (oid, s') = resolve path s in walk fuel oid s'

-- the first object of that version
abbrev pub of_version : ℕ → List SObject → Option SObject
of_version version [] = none
of_version version (obj ∷ chain) =
    if nat_beq obj.version version then some obj else of_version version chain

unfoldable pub checkout : ℕ → Text → ℕ → Sos → Option (Option SObject) × Sos
checkout fuel path version s =
    let (chain, s') = history fuel path s in
    (elim chain [ none ↦ none | some objs ↦ some (of_version version objs) ], s')
