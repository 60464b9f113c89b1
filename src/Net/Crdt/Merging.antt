-- ===== src/Net/Crdt/Merging.antt =====
-- net/crdt.py: the register that a path holds after merges.
use data_py_os.Base.{
  ◌≡◌, ◌≢◌, refl, sym, ap, ◌∙◌, ◌⊎◌, inl, inr, true, false, Option, none, some, List, [], ◌∷◌,
  Bool-cases,
}
use data_py_os.Base.Eq.{◌==◌, text_eq, text_beq_iff, Text}
use data_py_os.Base.Dict.{lookup, lookup-insert}
use data_py_os.Base.Lists.{In}
use data_py_os.Net.Crdt.{
  LwwRegister, CrdtStore, wins, accept, merge_register, merge_found, merge_all,
}
use data_py_os.Net.Crdt.Stamps.{wins_irrefl, wins_trans, wins_antisym}

-- `o` is the winner of the candidates for the path, and `none` if there is none.
abbrev pub Best : (LwwRegister → Type 0) → Text → Option LwwRegister → Type 0
Best C p none = (q : LwwRegister) → C q → q.path ≢ p
Best C p (some r) = C r × (r.path ≡ p) × ((q : LwwRegister) → C q → q.path ≡ p → wins r q ≡ false)

pub Best-mono :
    (C D : LwwRegister → Type 0) (p : Text) (o : Option LwwRegister)
    → ((r : LwwRegister) → C r → D r)
    → ((r : LwwRegister) → D r → C r)
    → Best C p o
    → Best D p o
Best-mono C D p none f g b = λ q d. b q (g q d)
Best-mono C D p (some r) f g b = (f r b.0, b.1, λ q d. b.2 q (g q d))

-- No two different candidates for a path have the same time and node.
abbrev pub NoTies : (LwwRegister → Type 0) → Type 0
NoTies C =
    (a b : LwwRegister) → C a → C b → a.path ≡ b.path → a.ts ≡ b.ts → a.node_id ≡ b.node_id → a ≡ b

pub Best-unique :
    (C : LwwRegister → Type 0) (p : Text) (o o' : Option LwwRegister)
    → NoTies C
    → Best C p o
    → Best C p o'
    → o ≡ o'
Best-unique C p none none t b b' = refl
Best-unique C p none (some r) t b b' = absurd (b r b'.0 b'.1)
Best-unique C p (some r) none t b b' = absurd (b' r b.0 b.1)
Best-unique C p (some r) (some r') t b b' =
    let (ts, node) = wins_antisym r r' (b.2 r' b'.0 b'.1) (b'.2 r b.0 b.1) in
    ap some (t r r' b.0 b'.0 (b.1 ∙ sym b'.1) ts node)

-- The candidates after one more register.
abbrev pub With : (LwwRegister → Type 0) → LwwRegister → LwwRegister → Type 0
With C x r = C r ⊎ (r ≡ x)

-- a path that the new register is not for
Best-other :
    (C : LwwRegister → Type 0) (x : LwwRegister) (p : Text) (o : Option LwwRegister)
    → p ≢ x.path
    → Best C p o
    → Best (With C x) p o
Best-other C x p none ne b = λ q c at. elim c [
  | inl old ↦ b q old at
  | inr new ↦ ne (sym at ∙ ap (λ (r : LwwRegister). r.path) new)
]
Best-other C x p (some r) ne b = (
  inl b.0,
  b.1,
  λ q c at. elim c [
    | inl old ↦ b.2 q old at
    | inr new ↦ absurd (ne (sym at ∙ ap (λ (r : LwwRegister). r.path) new))
  ],
)

-- the new register is the first for its path
Best-first :
    (C : LwwRegister → Type 0) (x : LwwRegister)
    → Best C x.path none
    → Best (With C x) x.path (some x)
Best-first C x b = (
  inr refl,
  refl,
  λ q c at. elim c [ inl old ↦ absurd (b q old at) | inr new ↦ rw new (wins_irrefl x) ],
)

-- the new register wins
Best-won :
    (C : LwwRegister → Type 0) (x l : LwwRegister)
    → wins l x ≡ true
    → Best C x.path (some l)
    → Best (With C x) x.path (some x)
Best-won C x l won b = (
  inr refl,
  refl,
  λ q c at. elim c [
    | inl old ↦ elim (Bool-cases (wins x q)) [
      | inl later ↦ absurd (cc (b.2 q old at, wins_trans l x q won later))
      | inr not_later ↦ not_later
    ]
    | inr new ↦ rw new (wins_irrefl x)
  ],
)

-- the new register loses
Best-lost :
    (C : LwwRegister → Type 0) (x l : LwwRegister)
    → wins l x ≡ false
    → Best C x.path (some l)
    → Best (With C x) x.path (some l)
Best-lost C x l lost b =
    (inl b.0, b.1, λ q c at. elim c [ inl old ↦ b.2 q old at | inr new ↦ rw new lost ])

-- what the path of the new register holds afterwards
at_path :
    (C : LwwRegister → Type 0) (x : LwwRegister) (o : Option LwwRegister) (m : CrdtStore)
    → lookup x.path m.registers ≡ o
    → Best C x.path o
    → Best (With C x) x.path (lookup x.path (merge_found x o m).1.registers)
unfolding merge_found accept
at_path C x none m is b =
    rw (lookup-insert x.path x.path x m.registers, (text_beq_iff x.path x.path).1 refl)
      (Best-first C x b)
at_path C x (some l) m is b = elim (Bool-cases (wins l x)) [
  | inl won ↦
      rw (won, lookup-insert x.path x.path x m.registers, (text_beq_iff x.path x.path).1 refl)
        (Best-won C x l won b)
  | inr lost ↦ rw (lost, is) (Best-lost C x l lost b)
]

elsewhere :
    (x : LwwRegister) (o : Option LwwRegister) (m : CrdtStore) (p : Text)
    → (p == x.path) ≡ false
    → lookup p (merge_found x o m).1.registers ≡ lookup p m.registers
unfolding merge_found accept
elsewhere x none m p ne = rw ne at (lookup-insert p x.path x m.registers)
elsewhere x (some l) m p ne = elim (Bool-cases (wins l x)) [
  | inl won ↦ rw won (rw ne at (lookup-insert p x.path x m.registers))
  | inr lost ↦ rw lost refl
]

merge_register-Best :
    (C : LwwRegister → Type 0) (x : LwwRegister) (m : CrdtStore)
    → ((p : Text) → Best C p (lookup p m.registers))
    → (p : Text) → Best (With C x) p (lookup p (merge_register x m).1.registers)
unfolding merge_register
merge_register-Best C x m b p = elim (Bool-cases (p == x.path)) [
  | inl same ↦
      rw ((text_beq_iff p x.path).0 same)
        (at_path C x (lookup x.path m.registers) m refl (b x.path))
  | inr other ↦
      rw (elsewhere x (lookup x.path m.registers) m p other) (
        Best-other C x p (lookup p m.registers) (λ e. cc (other, (text_beq_iff p x.path).1 e))
          (b p))
]

-- The candidates after merging all of a list.
abbrev pub WithAll : (LwwRegister → Type 0) → List LwwRegister → LwwRegister → Type 0
WithAll C xs r = C r ⊎ In r xs

-- If every path holds the winner of the candidates, it does so after any merges, for the candidates
-- and the merged registers together.
pub merge_all-Best :
    (C : LwwRegister → Type 0) (xs : List LwwRegister) (m : CrdtStore)
    → ((p : Text) → Best C p (lookup p m.registers))
    → (p : Text) → Best (WithAll C xs) p (lookup p (merge_all xs m).registers)
unfolding merge_all
merge_all-Best C [] m b p =
    Best-mono C (WithAll C []) p (lookup p m.registers) (λ r c. inl c)
      (λ r c. elim c [ inl h ↦ h | inr h ↦ absurd h ]) (b p)
merge_all-Best C (x ∷ xs) m b p =
    Best-mono (WithAll (With C x) xs) (WithAll C (x ∷ xs)) p
      (lookup p (merge_all xs (merge_register x m).1).registers)
      (λ r c. elim c [ inl (inl h) ↦ inl h | inl (inr h) ↦ inr (inl h) | inr h ↦ inr (inr h) ])
      (λ r c. elim c [ inl h ↦ inl (inl h) | inr (inl h) ↦ inl (inr h) | inr (inr h) ↦ inr h ])
      (merge_all-Best (With C x) xs (merge_register x m).1 (merge_register-Best C x m b) p)
