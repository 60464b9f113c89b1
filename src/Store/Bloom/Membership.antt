-- ===== src/Store/Bloom/Membership.antt =====
-- store/bloom.py: what `in` answers after items were added.
use data_py_os.Base.{
  ℕ, zero, suc, ◌+◌, ◌*◌, ◌/◌, ◌%◌, ◌<◌, ◌≤◌, ◌≡◌, ◌↔◌, refl, sym, ap, ◌∙◌, ◌⊎◌, inl, inr, Bool,
  true, false, ◌||◌, List, [], ◌∷◌, arith, Bool-cases,
}
use native.Mathlib.Nat.{mod-lt}
use data_py_os.Base.Eq.{nat_eq, Text}
use data_py_os.Base.Lists.{length, elem, In, All}
use data_py_os.Store.Bloom.{
  Digests, BloomFilter, init, zeros, all_set, positions, hashes, add, contains,
}
use data_py_os.Store.Bloom.Bits.{marked, Inside, marked-set_all, length-set_all, marked-zeros}

-- There is a byte for every position.
pub record IsValid (f : BloomFilter) : Type 0 where
  pub some_bits : 0 < f.n_bits
  pub room : f.n_bits ≤ 8 * length f.bits

length-zeros : (n : ℕ) → length (zeros n) ≡ n
length-zeros zero = refl
length-zeros (suc n) = ap suc (length-zeros n)

pub init-IsValid :
    (capacity rate n_bits n_hashes : ℕ) → 0 < n_bits → IsValid (init capacity rate n_bits n_hashes)
unfolding init
init-IsValid capacity rate n_bits n_hashes h = record {
  some_bits = h;
  room = omega (arith, length-zeros ((n_bits + 7) / 8));
}

In-elem : (p : ℕ) (qs : List ℕ) → elem p qs ≡ true → In p qs
In-elem p [] h = absurd (cc h)
In-elem p (q ∷ qs) h = elim (Bool-cases (elem p qs)) [
  | inl further ↦ inr (In-elem p qs further)
  | inr not' ↦ inl (ground (arith, h, not'))
]

elem-In : (p : ℕ) (qs : List ℕ) → In p qs → elem p qs ≡ true
elem-In p [] h = elim h [ ]
elem-In p (q ∷ qs) (inl e) = ground (arith, e)
elem-In p (q ∷ qs) (inr further) = ground (arith, elem-In p qs further)

all_set-All : (ps bits : List ℕ) → (all_set ps bits ≡ true) ↔ All (λ p. marked p bits ≡ true) ps
all_set-All [] bits = (λ e. tt, λ p. refl)
all_set-All (p ∷ ps) bits =
    let rest = all_set-All ps bits in
    (
      λ e. (ground (arith, e), rest.0 (ground (arith, e))),
      λ all. (let here = all.0 in rw here (rest.1 all.1)),
    )

map_All : {P Q : ℕ → Type 0} (ps : List ℕ) → ((p : ℕ) → P p → Q p) → All P ps → All Q ps
map_All [] f h = tt
map_All (p ∷ ps) f h = (f p h.0, map_All ps f h.1)

All-In : {P : ℕ → Type 0} (ps : List ℕ) → ((p : ℕ) → In p ps → P p) → All P ps
All-In [] f = tt
All-In (p ∷ ps) f = (f p (inl refl), All-In ps (λ q h. f q (inr h)))

byte_inside : (p n_bits m : ℕ) → p < n_bits → n_bits ≤ 8 * m → p / 8 < m
byte_inside p n_bits m lt room = omega arith

module _ ⦃d : Digests⦄ where
  abbrev pub add_all : List Text → BloomFilter → BloomFilter
  add_all [] f = f
  add_all (x ∷ xs) f = add_all xs (add x f)

  positions-Inside :
      (n_bits i n m : ℕ) (item : Text)
      → 0 < n_bits
      → n_bits ≤ 8 * m
      → Inside (positions n_bits i n item) m
  positions-Inside n_bits i zero m item pos room = tt
  positions-Inside n_bits i (suc n) m item pos room = (
    byte_inside ((d.sha256 item + i * d.md5 item) % n_bits) n_bits m
        (mod-lt (d.sha256 item + i * d.md5 item) pos) room,
    positions-Inside n_bits (suc i) n m item pos room,
  )

  hashes-Inside :
      (item : Text) (f : BloomFilter) → IsValid f → Inside (hashes item f) (length f.bits)
  unfolding hashes
  hashes-Inside item f v =
      positions-Inside f.n_bits 0 f.n_hashes (length f.bits) item v.some_bits v.room

  add-IsValid : (item : Text) (f : BloomFilter) → IsValid f → IsValid (add item f)
  unfolding add
  add-IsValid item f v = record {
    some_bits = v.some_bits;
    room = rw (length-set_all (hashes item f) f.bits) v.room;
  }

  hashes-add : (y x : Text) (f : BloomFilter) → hashes y (add x f) ≡ hashes y f
  unfolding hashes add
  hashes-add y x f = refl

  -- A position that one of the items hashes to.
  abbrev pub Hit : List Text → BloomFilter → ℕ → Type 0
  Hit xs f p = (x : Text) × In x xs × In p (hashes x f)

  marked-add :
      (p : ℕ) (x : Text) (f : BloomFilter)
      → IsValid f
      → marked p (add x f).bits ≡ (marked p f.bits || elem p (hashes x f))
  unfolding add
  marked-add p x f v = marked-set_all p (hashes x f) f.bits (hashes-Inside x f v)

  or_cases : (a b : Bool) → (a || b) ≡ true → (a ≡ true) ⊎ (b ≡ true)
  or_cases true b e = inl refl
  or_cases false b e = inr e

  or_right : (a b : Bool) → b ≡ true → (a || b) ≡ true
  or_right true b e = refl
  or_right false b e = e

  or_left : (a b : Bool) → a ≡ true → (a || b) ≡ true
  or_left a b e = rw e refl

  -- The bits that are set after the items were added.
  marked-add_all :
      (p : ℕ) (xs : List Text) (f : BloomFilter)
      → IsValid f
      → (marked p (add_all xs f).bits ≡ true) ↔ ((marked p f.bits ≡ true) ⊎ Hit xs f p)
  marked-add_all p [] f v = (inl, λ h. elim h [ inl e ↦ e | inr (x, among, _) ↦ elim among [ ] ])
  marked-add_all p (x ∷ xs) f v =
      let rest = marked-add_all p xs (add x f) (add-IsValid x f v) in
      let step = marked-add p x f v in
      (
        λ e. elim (rest.0 e) [
          | inl here ↦ elim (or_cases (marked p f.bits) (elem p (hashes x f)) (sym step ∙ here)) [
            | inl old ↦ inl old
            | inr new ↦ inr (x, inl refl, In-elem p (hashes x f) new)
          ]
          | inr (y, among, at) ↦ inr (y, inr among, rw (hashes-add y x f) at at)
        ],
        λ h. elim h [
          | inl old ↦ rest.1 (inl (step ∙ or_left (marked p f.bits) (elem p (hashes x f)) old))
          | inr (y, inl same, at) ↦ rest.1 (
              inl (
                step
                ∙ or_right (marked p f.bits) (elem p (hashes x f))
                    (elem-In p (hashes x f) (rw same at at))))
          | inr (y, inr among, at) ↦ rest.1 (inr (y, among, rw (hashes-add y x f) at))
        ],
      )

  hashes-add_all :
      (y : Text) (xs : List Text) (f : BloomFilter) → hashes y (add_all xs f) ≡ hashes y f
  hashes-add_all y [] f = refl
  hashes-add_all y (x ∷ xs) f = hashes-add_all y xs (add x f) ∙ hashes-add y x f

  -- In a filter with a byte for every position: an item that was in it or that was added is in it
  -- afterwards, whatever was added besides.
  pub no_false_negative :
      (y : Text) (xs : List Text) (f : BloomFilter)
      → IsValid f
      → (contains y f ≡ true) ⊎ In y xs
      → contains y (add_all xs f) ≡ true
  unfolding contains
  no_false_negative y xs f v h = rw (hashes-add_all y xs f) (
      (all_set-All (hashes y f) (add_all xs f).bits).1 (elim h [
        | inl old ↦
            map_All (hashes y f) (λ p e. (marked-add_all p xs f v).1 (inl e))
              ((all_set-All (hashes y f) f.bits).0 old)
        | inr among ↦ All-In (hashes y f) (λ p at. (marked-add_all p xs f v).1 (inr (y, among, at)))
      ]))

  new_filter_lem :
      (p : ℕ) (xs : List Text) (capacity rate n_bits n_hashes : ℕ)
      → 0 < n_bits
      → (marked p (add_all xs (init capacity rate n_bits n_hashes)).bits ≡ true)
        ↔ Hit xs (init capacity rate n_bits n_hashes) p
  unfolding init
  new_filter_lem p xs capacity rate n_bits n_hashes pos =
      let f =
        marked-add_all p xs (init capacity rate n_bits n_hashes)
          (init-IsValid capacity rate n_bits n_hashes pos) in
      (
        λ e. elim (f.0 e) [
          | inl old ↦ absurd (cc (marked-zeros p ((n_bits + 7) / 8), old))
          | inr hit ↦ hit
        ],
        λ h. f.1 (inr h),
      )

  -- In a filter with at least one bit that the items were added to, an item is found exactly if each of its positions is one
  -- of an item that was added.
  pub contains_iff :
      (y : Text) (xs : List Text) (capacity rate n_bits n_hashes : ℕ)
      → 0 < n_bits
      → let f = init capacity rate n_bits n_hashes in
        (contains y (add_all xs f) ≡ true) ↔ All (Hit xs f) (hashes y f)
  unfolding contains
  contains_iff y xs capacity rate n_bits n_hashes pos =
      let f = init capacity rate n_bits n_hashes in
      let g = all_set-All (hashes y f) (add_all xs f).bits in
      rw (hashes-add_all y xs f) (
        λ e.
            map_All (hashes y f)
              (λ p m. (new_filter_lem p xs capacity rate n_bits n_hashes pos).0 m) (g.0 e),
        λ h. g.1 (
            map_All (hashes y f)
              (λ p m. (new_filter_lem p xs capacity rate n_bits n_hashes pos).1 m) h),
      )
