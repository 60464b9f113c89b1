-- ===== src/Store/Schema/Logic.antt =====
-- store/schema.py: lists of errors that are empty, and the checks of a limit.
use data_py_os.Base.{
  ℕ, ◌≡◌, ◌↔◌, ◌≤◌, refl, ◌⊎◌, inl, inr, Bool, true, false, not, ◌||◌, Option, none, some, List, [],
  ◌∷◌, ◌++◌, arith,
}
use data_py_os.Base.Eq.{text_eq, Text}
use data_py_os.Store.Schema.Validation.{
  Keyword, Step, ValidationError, error_if, shorter, longer, no_match,
}
use data_py_os.Store.Schema.Meaning.{Says, Within}

pub chain : {A B C : Type 0} → A ↔ B → B ↔ C → A ↔ C
chain f g = (λ a. g.0 (f.0 a), λ c. f.1 (g.1 c))

pub both : {A B C D : Type 0} → A ↔ B → C ↔ D → (A × C) ↔ (B × D)
both f g = (λ p. (f.0 p.0, g.0 p.1), λ p. (f.1 p.0, g.1 p.1))

pub ++-eq-nil : {A : Type 0} (xs ys : List A) → ((xs ++ ys) ≡ []) ↔ ((xs ≡ []) × (ys ≡ []))
++-eq-nil [] ys = (λ e. (refl, e), λ p. p.1)
++-eq-nil (x ∷ xs) ys = (λ e. absurd (cc e), λ p. absurd (cc p.0))

-- The parts of a list of errors, each empty exactly if its check passes.
pub no_errors :
    {P Q : Type 0} (xs ys : List ValidationError)
    → (xs ≡ []) ↔ P
    → (ys ≡ []) ↔ Q
    → ((xs ++ ys) ≡ []) ↔ (P × Q)
no_errors xs ys f g = chain (++-eq-nil xs ys) (both f g)

pub no_error_if :
    {P : Type 0} (b : Bool) (path : List Step) (k : Keyword)
    → (b ≡ false) ↔ P
    → (error_if b path k ≡ []) ↔ P
no_error_if true path k f = (λ e. absurd (cc e), λ p. absurd (cc (f.1 p)))
no_error_if false path k f = (λ e. f.0 refl, λ p. refl)

-- A keyword that is not there, or the check of the limit.
pub says :
    {Limit : Type 0} (P : Limit → Type 0) (check : Option Limit → Bool) (o : Option Limit)
    → check none ≡ false
    → ((m : Limit) → (check (some m) ≡ false) ↔ P m)
    → (check o ≡ false) ↔ Says o P
says P check none absent f = (λ e m is. absurd (cc is), λ p. absent)
says P check (some m) absent f =
    (λ e m' is. (let same : m ≡ m' = cc is in rw (← same) ((f m).0 e)), λ p. (f m).1 (p m refl))

pub not_iff : {P : Type 0} (b : Bool) → (b ≡ true) ↔ P → (not b ≡ false) ↔ P
not_iff true f = (λ e. f.0 refl, λ p. refl)
not_iff false f = (λ e. absurd (cc e), λ p. absurd (cc (f.1 p)))

pub shorter_iff : (n : ℕ) (o : Option ℕ) → (shorter n o ≡ false) ↔ Says o (λ m. m ≤ n)
shorter_iff n o = says (λ m. m ≤ n) (shorter n) o refl (λ m. ground arith)

pub longer_iff : (n : ℕ) (o : Option ℕ) → (longer n o ≡ false) ↔ Says o (λ m. n ≤ m)
longer_iff n o = says (λ m. n ≤ m) (longer n) o refl (λ m. ground arith)

pub no_match_iff :
    (search : Text → Text → Bool) (t : Text) (o : Option Text)
    → (no_match search t o ≡ false) ↔ Says o (λ p. search p t ≡ true)
no_match_iff search t o =
    says (λ p. search p t ≡ true) (no_match search t) o refl
      (λ p. not_iff (search p t) (λ e. e, λ e. e))

pub or_iff :
    {P Q : Type 0} (a b : Bool) → (a ≡ true) ↔ P → (b ≡ true) ↔ Q → ((a || b) ≡ true) ↔ (P ⊎ Q)
or_iff true b f g = (λ e. inl (f.0 refl), λ p. refl)
or_iff false b f g = (λ e. inr (g.0 e), λ p. elim p [ inl x ↦ absurd (cc (f.1 x)) | inr y ↦ g.1 y ])

pub never_iff : {P : Type 0} → (P → ⊥) → (false ≡ true) ↔ P
never_iff f = (λ e. absurd (cc e), λ p. elim (f p) [ ])

pub lengths_iff :
    (n : ℕ) (lower upper : Option ℕ) (path : List Step) (k k' : Keyword)
    → ((error_if (shorter n lower) path k ++ error_if (longer n upper) path k') ≡ [])
      ↔ Within n lower upper
lengths_iff n lower upper path k k' =
    no_errors (error_if (shorter n lower) path k) (error_if (longer n upper) path k')
      (no_error_if (shorter n lower) path k (shorter_iff n lower))
      (no_error_if (longer n upper) path k' (longer_iff n upper))
