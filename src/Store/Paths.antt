-- ===== src/Store/Paths.antt =====
-- The text operations that the store and what stands on it apply to paths and tags: `rsplit("/", 1)`,
-- `strip("/")`, `split("/")`, `rstrip("/")`, `startswith`, and `lower` and `strip` on tags
-- (lower-casing covers the ASCII letters).
use data_py_os.Base.{
  ℕ, ◌+◌, Bool, true, false, ◌&&◌, ◌||◌, Option, none, some, List, [], ◌∷◌, leb, if◌then◌else◌,
}
use mathlib.Core.List.{reverse}
use data_py_os.Base.{nat_beq}
use data_py_os.Base.Eq.{◌==◌, nat_eq, Text}

abbrev pub slash : ℕ
slash = b'/'

-- The parts before and after the last slash, if there is one.
pub rsplit : Text → Option (Text × Text)
rsplit [] = none
rsplit (c ∷ s) = elim (rsplit s) [
  | some (a, b) ↦ some (c ∷ a, b)
  | none ↦ if nat_beq c slash then some ([], s) else none
]

-- path.rsplit("/", 1)[0]
unfoldable pub parent_of : Text → Text
unfolding rsplit
parent_of path = elim (rsplit path) [ none ↦ path | some (a, b) ↦ a ]

-- path.rsplit("/", 1)[-1]
unfoldable pub name_of : Text → Text
unfolding rsplit
name_of path = elim (rsplit path) [ none ↦ path | some (a, b) ↦ b ]

abbrev pub drop_while : (ℕ → Bool) → Text → Text
drop_while p [] = []
drop_while p (c ∷ s) = if p c then drop_while p s else c ∷ s

-- s.strip(...) for the characters that pass the test
abbrev pub strip_by : (ℕ → Bool) → Text → Text
strip_by p s = reverse (drop_while p (reverse (drop_while p s)))

abbrev pub onto_first : ℕ → List Text → List Text
onto_first c [] = (c ∷ []) ∷ []
onto_first c (s ∷ rest) = (c ∷ s) ∷ rest

-- path.split("/")
pub split : Text → List Text
split [] = [] ∷ []
split (c ∷ s) = if nat_beq c slash then [] ∷ split s else onto_first c (split s)

-- path.strip("/").split("/")
unfoldable pub parts_of : Text → List Text
unfolding split
parts_of path = split (strip_by (λ c. nat_beq c slash) path)

-- the characters that `str.strip()` takes off
abbrev pub is_space : ℕ → Bool
is_space c =
    (leb 9 c && leb c 13)
    || (leb 28 c && leb c 32)
    || nat_beq c 0x85
    || nat_beq c 0xa0
    || nat_beq c 0x1680
    || (leb 0x2000 c && leb c 0x200a)
    || nat_beq c 0x2028
    || nat_beq c 0x2029
    || nat_beq c 0x202f
    || nat_beq c 0x205f
    || nat_beq c 0x3000

abbrev to_lower : ℕ → ℕ
to_lower c = if leb b'A' c && leb c b'Z' then c + 32 else c

unfoldable pub lower : Text → Text
lower [] = []
lower (c ∷ s) = to_lower c ∷ lower s

unfoldable pub strip : Text → Text
strip s = strip_by is_space s

-- path.rstrip("/")
abbrev pub rstrip : Text → Text
rstrip path = reverse (drop_while (λ c. nat_beq c slash) (reverse path))

unfoldable pub starts_with : Text → Text → Bool
starts_with [] path = true
starts_with (c ∷ cs) [] = false
starts_with (c ∷ cs) (d ∷ path) = c == d && starts_with cs path
