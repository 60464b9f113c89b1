-- ===== src/Base/Order.antt =====
-- Python's order of texts, by code points, and sorting by it.
use Prim.Native.Nat.{compare, Ordering}
use mathlib.Core.Bool.{Bool, true, false}
use mathlib.Core.List.{List, [], ◌∷◌}
use data_py_os.Base.Tests.{if◌then◌else◌}
use data_py_os.Base.Eq.{Text}

-- s < t
unfoldable pub text_ltb : Text → Text → Bool
text_ltb s [] = false
text_ltb [] (b ∷ t) = true
text_ltb (a ∷ s) (b ∷ t) = elim (compare a b) [
  | Ordering.lt ↦ true
  | Ordering.eq ↦ text_ltb s t
  | Ordering.gt ↦ false
]

abbrev pub insert_text : Text → List Text → List Text
insert_text a [] = a ∷ []
insert_text a (x ∷ xs) = if text_ltb x a then x ∷ insert_text a xs else a ∷ x ∷ xs

-- sorted(l)
abbrev pub sort_texts : List Text → List Text
sort_texts [] = []
sort_texts (x ∷ xs) = insert_text x (sort_texts xs)
