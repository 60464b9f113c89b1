-- ===== src/Net/Crdt/Tests.antt =====
-- net/crdt.py: a run in which ties do not converge, and the theorems at concrete inputs.
use data_py_os.Base.{ℕ, ◌≡◌, ◌↔◌, refl, ap, ◌⊎◌, inl, inr, some, [], ◌∷◌, arith}
use data_py_os.Base.Eq.{text_eq, text_beq, text_beq_iff, Text, chars}
use data_py_os.Base.Order.{text_ltb}
use data_py_os.Base.Dict.{lookup}
use data_py_os.Store.Sos.Types
use data_py_os.Net.Crdt.{LwwRegister, CrdtStore, wins, merge_register, merge_all}
use data_py_os.Net.Crdt.Merging.{NoTies, WithAll}
use data_py_os.Net.Crdt.Converging.{IsValid, Held, merge_all_converges}

abbrev x : Text
x = 120 ∷ []

abbrev written : ℕ → Text → LwwRegister
written ts oid = record { path = x; oid = oid; ts = ts; node_id = 110 ∷ [] }

abbrev holding : LwwRegister → CrdtStore
holding r = record { sos = Types.init; node_id = r.node_id; registers = (x, r) ∷ [] }

abbrev old : LwwRegister
old = written 1 (chars "0")

abbrev new : LwwRegister
new = written 2 (chars "1")

-- Two writes of one node at one time: each replica keeps its own.
tie :
    let mine = written 1 (chars "0") in
    let theirs = written 1 (chars "1") in
    (lookup x (merge_all (theirs ∷ []) (holding mine)).registers ≡ some mine)
    × (lookup x (merge_all (mine ∷ []) (holding theirs)).registers ≡ some theirs)
unfolding merge_all merge_register wins text_beq text_ltb
tie = (refl, refl)

holding-IsValid : (r : LwwRegister) → r.path ≡ x → IsValid (holding r)
holding-IsValid r e = record { keys = (refl, tt); filed = (e, tt) }

Held-is : (r q : LwwRegister) → Held (holding r) q → q ≡ r
Held-is r q h = ground (arith, text_beq_iff q.path x)

no_ties : NoTies (λ r. Held (holding old) r ⊎ Held (holding new) r)
no_ties a b ca cb path ts node = elim ca [
  | inl h ↦ elim cb [
    | inl k ↦ cc (Held-is old a h, Held-is old b k)
    | inr k ↦
        let ea = ap (λ (r : LwwRegister). r.ts) (Held-is old a h) in
        let eb = ap (λ (r : LwwRegister). r.ts) (Held-is new b k) in
        absurd (omega (arith, ea, eb, ts))
  ]
  | inr h ↦ elim cb [
    | inr k ↦ cc (Held-is new a h, Held-is new b k)
    | inl k ↦
        let ea = ap (λ (r : LwwRegister). r.ts) (Held-is new a h) in
        let eb = ap (λ (r : LwwRegister). r.ts) (Held-is old b k) in
        absurd (omega (arith, ea, eb, ts))
  ]
]

same_seen :
    (r : LwwRegister)
    → WithAll (Held (holding old)) (new ∷ new ∷ []) r ↔ WithAll (Held (holding old)) (new ∷ []) r
same_seen r = (
  λ c. elim c [ inl h ↦ inl h | inr (inl h) ↦ inr (inl h) | inr (inr h) ↦ inr h ],
  λ c. elim c [ inl h ↦ inl h | inr h ↦ inr (inr h) ],
)

seen_is :
    (r : LwwRegister)
    → WithAll (Held (holding old)) (new ∷ new ∷ []) r
    → Held (holding old) r ⊎ Held (holding new) r
unfolding text_beq
seen_is r (inl h) = inl h
seen_is r (inr (inl e)) = inr (rw e refl)
seen_is r (inr (inr (inl e))) = inr (rw e refl)
seen_is r (inr (inr (inr h))) = absurd h

merge_all_converges_example :
    lookup x (merge_all (new ∷ new ∷ []) (holding old)).registers
    ≡ lookup x (merge_all (new ∷ []) (holding old)).registers
merge_all_converges_example =
    merge_all_converges (new ∷ new ∷ []) (new ∷ []) (holding old) (holding old) x
      (holding-IsValid old refl) (holding-IsValid old refl) same_seen
      (λ a b ca cb. no_ties a b (seen_is a ca) (seen_is b cb))

abbrev empty_store : CrdtStore
empty_store = record { sos = Types.init; node_id = x; registers = [] }
