-- ===== src/Store/Lines.antt =====
-- Files of lines, one value in each, as security/ledger.py and store/eventsource.py keep them.
use data_py_os.Base.{
  ℕ, ◌≡◌, refl, sym, ap, ◌∙◌, Bool, true, false, not, ◌&&◌, ◌||◌, Option, none, some, List, [], ◌∷◌,
  ◌++◌, map, leb, nat_beq, if◌then◌else◌, arith, Bool-cases, inl, inr,
}
use data_py_os.Base.Eq.{text_eq, Text}
use data_py_os.Base.Lists.{keep, is_nil}
use data_py_os.Store.Paths.{is_space, onto_first}

abbrev pub newline : ℕ
newline = 10

-- the characters at which `str.splitlines` splits
abbrev pub is_line_end : ℕ → Bool
is_line_end c =
    (leb 10 c && leb c 13)
    || (leb 28 c && leb c 30)
    || nat_beq c 0x85
    || nat_beq c 0x2028
    || nat_beq c 0x2029

unfoldable pub split_lines : Text → List Text
split_lines [] = [] ∷ []
split_lines (c ∷ s) = if is_line_end c then [] ∷ split_lines s else onto_first c (split_lines s)

-- not l.strip()
abbrev pub is_blank : Text → Bool
is_blank [] = true
is_blank (c ∷ s) = is_space c && is_blank s

-- [l for l in chain.splitlines() if l.strip()]
unfoldable pub lines_of : Text → List Text
unfolding split_lines
lines_of t = keep (λ l. not (is_blank l)) (split_lines t)

-- "\n".join(lines)
abbrev pub join : List Text → Text
join [] = []
join (l ∷ []) = l
join (l ∷ m ∷ rest) = l ++ newline ∷ join (m ∷ rest)

abbrev pub text_or_empty : Option Text → Text
text_or_empty none = []
text_or_empty (some t) = t

-- the text of the chain with the new lines
abbrev pub extend : Text → Text → Text
extend existing new_lines =
    existing ++ ((if is_nil existing then [] else newline ∷ []) ++ new_lines)

-- lines[-1], if there is a line
abbrev pub last_of : List Text → Option Text
last_of [] = none
last_of (l ∷ []) = some l
last_of (l ∷ m ∷ ls) = last_of (m ∷ ls)

split_lines_cons : (s : Text) → (x : Text) × (xs : List Text) × (split_lines s ≡ x ∷ xs)
unfolding split_lines
split_lines_cons [] = ([], [], refl)
split_lines_cons (c ∷ s) = elim (Bool-cases (is_line_end c)) [
  | inl e ↦ ([], split_lines s, rw e refl)
  | inr e ↦ let (x, xs, is) = split_lines_cons s in (c ∷ x, xs, rw (e, is) refl)
]

split_lines-append : (a b : Text) → split_lines (a ++ newline ∷ b) ≡ split_lines a ++ split_lines b
unfolding split_lines
split_lines-append [] b = refl
split_lines-append (c ∷ a) b = elim (Bool-cases (is_line_end c)) [
  | inl e ↦ rw e (ap (λ z. [] ∷ z) (split_lines-append a b))
  | inr e ↦
      let (x, xs, is) = split_lines_cons a in
      rw e (ap (onto_first c) (split_lines-append a b) ∙ (rw is refl))
]

-- no character of the text ends a line
abbrev pub is_one_line : Text → Bool
is_one_line [] = true
is_one_line (c ∷ s) = not (is_line_end c) && is_one_line s

split_lines_one : (l : Text) → is_one_line l ≡ true → split_lines l ≡ l ∷ []
unfolding split_lines
split_lines_one [] e = refl
split_lines_one (c ∷ l) e = elim (Bool-cases (is_line_end c)) [
  | inl ends ↦ absurd (cc (rw ends at e))
  | inr on ↦ rw (on, split_lines_one l (rw on at e)) refl
]

keep-append : (p : Text → Bool) (xs ys : List Text) → keep p (xs ++ ys) ≡ keep p xs ++ keep p ys
keep-append p [] ys = refl
keep-append p (x ∷ xs) ys = ground (arith, keep-append p xs ys)

pub lines_of-append : (a b : Text) → lines_of (a ++ newline ∷ b) ≡ lines_of a ++ lines_of b
unfolding lines_of
lines_of-append a b =
    ap (keep (λ l. not (is_blank l))) (split_lines-append a b)
    ∙ keep-append (λ l. not (is_blank l)) (split_lines a) (split_lines b)

pub lines_of_nil : lines_of [] ≡ []
unfolding lines_of
lines_of_nil = refl

-- Values that are printed on one line each, which is not blank.
module _ {Value : Type 0} (print : Value → Text)
    (one_line : (v : Value) → is_one_line (print v) ≡ true)
    (not_blank : (v : Value) → is_blank (print v) ≡ false) where
  pub lines_of_one : (v : Value) → lines_of (print v) ≡ print v ∷ []
  unfolding lines_of
  lines_of_one v = rw (split_lines_one (print v) (one_line v), not_blank v) refl

  pub lines_of-join :
      (v : Value) (vs : List Value) → lines_of (join (map print (v ∷ vs))) ≡ map print (v ∷ vs)
  lines_of-join v [] = lines_of_one v
  lines_of-join v (w ∷ vs) =
      lines_of-append (print v) (join (map print (w ∷ vs)))
      ∙ ap (λ z. z ++ lines_of (join (map print (w ∷ vs)))) (lines_of_one v)
      ∙ ap (λ z. print v ∷ z) (lines_of-join w vs)

  -- The lines of a file after values are added: the old ones and theirs.
  pub lines_of-extend :
      (old : Text) (v : Value) (vs : List Value)
      → lines_of (extend old (join (map print (v ∷ vs)))) ≡ lines_of old ++ map print (v ∷ vs)
  lines_of-extend [] v vs =
      lines_of-join v vs ∙ ap (λ z. z ++ map print (v ∷ vs)) (sym lines_of_nil)
  lines_of-extend (c ∷ old) v vs =
      lines_of-append (c ∷ old) (join (map print (v ∷ vs)))
      ∙ ap (λ z. lines_of (c ∷ old) ++ z) (lines_of-join v vs)
