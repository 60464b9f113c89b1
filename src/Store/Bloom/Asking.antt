-- ===== src/Store/Bloom/Asking.antt =====
-- store/bloom.py: the patched `exists` answers as the store.
use data_py_os.Base.{
  ℕ, ◌*◌, ◌<◌, ◌≡◌, refl, sym, ap, ◌∙◌, inl, inr, Bool, true, false, Option, none, some, [], ◌∷◌,
  max, is_some, Option-cases, Bool-cases,
}
use data_py_os.Base.Eq.{◌==◌, text_eq, text_beq_iff, Text}
use data_py_os.Base.Dict.{Dict, lookup}
use data_py_os.Base.Lists.{length, In}
use data_py_os.Store.Sos.Types.{Host, Alias, Sos}
use data_py_os.Store.Sos.Aliases.{exists}
use data_py_os.Store.Sos.Coherent.{Coherent, target, oid_in}
use data_py_os.Store.Sos.Writing.{exists-Reads}
use data_py_os.Store.Bloom.{Digests, BloomFilter, init}
use data_py_os.Store.Bloom.Membership.{init-IsValid, no_false_negative}
use data_py_os.Store.Bloom.Index.{BloomIndex, paths, build, answer, might_exist, ask, fast_exists}

In-paths :
    (p : Text) (rows : Dict Text Alias) (a : Alias) → lookup p rows ≡ some a → In p (paths rows)
In-paths p [] a e = absurd (cc e)
In-paths p ((q, b) ∷ rows) a e = elim (Bool-cases (p == q)) [
  | inl same ↦ inl ((text_beq_iff p q).0 same)
  | inr other ↦ inr (In-paths p rows a (rw other at e))
]

module _ ⦃d : Digests⦄ where
  -- Every path of the table is in the filter.
  abbrev pub Covers : Option BloomFilter → Sos → Type 0
  Covers f s = (p : Text) → answer p f ≡ false → target p s ≡ none

  build-Covers :
      (one_percent : ℕ) (sizes : ℕ → ℕ × ℕ) (s : Sos)
      → ((n : ℕ) → 0 < (sizes n).0)
      → Covers (some (build one_percent sizes s)) s
  unfolding build
  build-Covers one_percent sizes s some_bits p out = elim (Option-cases (lookup p s.aliases)) [
    | inl e ↦ ap oid_in e
    | inr (a, e) ↦
        let n = max (length (paths s.aliases) * 2) 50000 in
        absurd (
          cc (
            out,
            no_false_negative p (paths s.aliases) (init n one_percent (sizes n).0 (sizes n).1)
                (init-IsValid n one_percent (sizes n).0 (sizes n).1 (some_bits n))
                (inr (In-paths p s.aliases a e)),
          ))
  ]

module _ ⦃d : Digests⦄ ⦃h : Host⦄ where
  ask_lem :
      (b : Bool) (p : Text) (s : Sos)
      → Coherent s
      → (b ≡ false → target p s ≡ none)
      → (ask b p s).0 ≡ (exists p s).0
  ask_lem true p s k c = refl
  ask_lem false p s k c = ap is_some (sym (c refl)) ∙ sym (exists-Reads p s k).0

  -- In a coherent store, where a filter has at least one bit: an index whose filter was built from
  -- the table of paths answers for every path what `exists` answers.
  pub fast_exists-exists :
      (one_percent : ℕ) (sizes : ℕ → ℕ × ℕ) (p : Text) (index : BloomIndex) (s : Sos)
      → Coherent s
      → ((n : ℕ) → 0 < (sizes n).0)
      → index.filter ≡ some (build one_percent sizes s)
      → (fast_exists p index s).0 ≡ (exists p s).0
  unfolding fast_exists might_exist
  fast_exists-exists one_percent sizes p index s k some_bits built =
      ask_lem (answer p index.filter) p s k
        (λ out. build-Covers one_percent sizes s some_bits p (ap (answer p) (sym built) ∙ out))
