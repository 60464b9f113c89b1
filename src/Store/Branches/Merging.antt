-- ===== src/Store/Branches/Merging.antt =====
-- store/branches.py: what a merge without a conflict returns.
use data_py_os.Base.{
  ℕ, zero, suc, ◌+◌, ◌-◌, ◌≤◌, ◌≡◌, refl, sym, ap, ◌∙◌, inl, inr, Bool, true, false, ◌||◌, List, [],
  ◌∷◌, ◌++◌, arith, Bool-cases,
}
use data_py_os.Base.Eq.{Text}
use data_py_os.Store.Branches.{
  Tag, equal, replace, delete, insertion, Opcode, ends_line, begin_line, split_keeping, concat,
  drop, take, slice, piece, is_conflict, merge_lines, merge_text,
}

-- What `difflib` documents of a piece: `equal` pieces are the same lines, a deletion takes no line of
-- the second text.
abbrev pub PieceOf : List Text → List Text → Tag → Opcode → Type 0
PieceOf base incoming equal o = slice o.i1 o.i2 base ≡ slice o.j1 o.j2 incoming
PieceOf base incoming replace o = Unit
PieceOf base incoming delete o = o.j2 ≡ o.j1
PieceOf base incoming insertion o = o.i2 ≡ o.i1

-- The pieces describe the second text from a line on to its end, one after the other.
abbrev pub Covers : List Text → List Text → ℕ → List Opcode → Type 0
Covers base incoming j [] = drop j incoming ≡ []
Covers base incoming j (o ∷ os) =
    (o.j1 ≡ j) × (o.j1 ≤ o.j2) × PieceOf base incoming o.tag o × Covers base incoming o.j2 os

concat-begin_line : (c : ℕ) (ls : List Text) → concat (begin_line c ls) ≡ c ∷ concat ls
concat-begin_line c [] = refl
concat-begin_line c (l ∷ ls) = refl

concat-split_keeping : (t : Text) → concat (split_keeping t) ≡ t
unfolding split_keeping
concat-split_keeping [] = refl
concat-split_keeping (c ∷ s) = elim (Bool-cases (ends_line c s)) [
  | inl ends ↦ rw ends (ap (λ z. c ∷ z) (concat-split_keeping s))
  | inr on ↦
      rw on (concat-begin_line c (split_keeping s) ∙ ap (λ z. c ∷ z) (concat-split_keeping s))
]

take-drop : (n : ℕ) (ls : List Text) → take n ls ++ drop n ls ≡ ls
take-drop zero ls = refl
take-drop (suc n) [] = refl
take-drop (suc n) (l ∷ ls) = ap (λ z. l ∷ z) (take-drop n ls)

drop_nil : (n : ℕ) → drop n [] ≡ []
drop_nil zero = refl
drop_nil (suc n) = refl

drop-drop : (n i : ℕ) (ls : List Text) → drop n (drop i ls) ≡ drop (i + n) ls
drop-drop n zero ls = ap (λ z. drop z ls) (omega arith)
drop-drop n (suc i) [] = drop_nil n ∙ sym (drop_nil (suc i + n))
drop-drop n (suc i) (l ∷ ls) =
    let next : suc (i + n) ≡ suc i + n = omega arith in
    drop-drop n i ls ∙ ap (λ z. drop z (l ∷ ls)) next

-- A slice and what comes behind it.
slice-drop : (i k : ℕ) (ls : List Text) → i ≤ k → slice i k ls ++ drop k ls ≡ drop i ls
slice-drop i k ls h =
    let end : i + (k - i) ≡ k = omega (arith, h) in
    ap (λ z. slice i k ls ++ z) (ap (λ z. drop z ls) (sym end) ∙ sym (drop-drop (k - i) i ls))
    ∙ take-drop (k - i) (drop i ls)

piece_lem :
    (base incoming : List Text) (t : Tag) (o : Opcode)
    → PieceOf base incoming t o
    → o.j1 ≤ o.j2
    → is_conflict t ≡ false
    → piece base incoming t o ++ drop o.j2 incoming ≡ drop o.j1 incoming
piece_lem base incoming equal o same h c =
    ap (λ z. z ++ drop o.j2 incoming) same ∙ slice-drop o.j1 o.j2 incoming h
piece_lem base incoming replace o same h c = absurd (cc c)
piece_lem base incoming delete o same h c = ap (λ z. drop z incoming) same
piece_lem base incoming insertion o same h c = slice-drop o.j1 o.j2 incoming h

or_false : (a b : Bool) → (a || b) ≡ false → (a ≡ false) × (b ≡ false)
or_false true b e = absurd (cc e)
or_false false b e = (refl, e)

append_assoc : (xs ys zs : List Text) → xs ++ (ys ++ zs) ≡ (xs ++ ys) ++ zs
append_assoc [] ys zs = refl
append_assoc (x ∷ xs) ys zs = ap (λ z. x ∷ z) (append_assoc xs ys zs)

merge_lines_lem :
    (base incoming : List Text) (j : ℕ) (os : List Opcode)
    → Covers base incoming j os
    → (merge_lines base incoming os).1 ≡ false
    → (merge_lines base incoming os).0 ≡ drop j incoming
unfolding merge_lines
merge_lines_lem base incoming j [] c e = sym c
merge_lines_lem base incoming j (o ∷ os) (at, h, same, rest) e =
    let (here, further) = or_false (is_conflict o.tag) (merge_lines base incoming os).1 e in
    ap (λ z. piece base incoming o.tag o ++ z) (merge_lines_lem base incoming o.j2 os rest further)
    ∙ piece_lem base incoming o.tag o same h here
    ∙ ap (λ z. drop z incoming) at

-- Where the pieces that `difflib` finds describe the incoming text as it documents: a merge that reports no conflict
-- returns the incoming text, whatever the base was.
pub merge_text_lem :
    (get_opcodes : List Text → List Text → List Opcode) (base incoming : Text)
    → Covers
        (split_keeping base)
        (split_keeping incoming)
        0
        (get_opcodes (split_keeping base) (split_keeping incoming))
    → (merge_text get_opcodes base incoming).1 ≡ false
    → (merge_text get_opcodes base incoming).0 ≡ incoming
unfolding merge_text
merge_text_lem get_opcodes base incoming c e =
    ap concat (
      merge_lines_lem (split_keeping base) (split_keeping incoming) 0
        (get_opcodes (split_keeping base) (split_keeping incoming)) c e)
    ∙ concat-split_keeping incoming
