-- ===== src/Store/Bloom/Index.antt =====
-- store/bloom.py: `SOSBloomIndex` in front of `exists`. `sizes` gives the bits and hashes of a capacity
-- and the error rate of one per cent. Saving the filter and loading it at the start are left out.
use data_py_os.Base.{ℕ, ◌+◌, ◌*◌, Bool, true, false, Option, none, some, List, [], ◌∷◌, max}
use data_py_os.Base.Eq.{text_eq, Text}
use data_py_os.Base.Dict.{Dict}
use data_py_os.Base.Lists.{length}
use data_py_os.Store.Sos.Types.{Host, Content, Alias, Sos}
use data_py_os.Store.Sos.Aliases.{exists}
use data_py_os.Store.Sos.Files.{write}
use data_py_os.Store.Bloom.{Digests, BloomFilter, init, add, contains}
use data_py_os.Store.Bloom.Membership.{add_all}

pub record BloomIndex : Type 0 where
  pub filter : Option BloomFilter
  pub saves : ℕ
  pub total : ℕ

-- SELECT path FROM aliases
abbrev pub paths : Dict Text Alias → List Text
paths [] = []
paths ((p, a) ∷ rows) = p ∷ paths rows

module _ ⦃d : Digests⦄ where
  abbrev pub add_to : Text → Option BloomFilter → Option BloomFilter
  add_to path none = none
  add_to path (some f) = some (add path f)

  -- the filter of `rebuild`; the error rate is the default of 0.01
  unfoldable pub build : ℕ → (ℕ → ℕ × ℕ) → Sos → BloomFilter
  build one_percent sizes s =
      let rows = paths s.aliases in
      let capacity = max (length rows * 2) 50000 in
      let (n_bits, n_hashes) = sizes capacity in
      add_all rows (init capacity one_percent n_bits n_hashes)

  unfoldable pub add_path : Text → BloomIndex → BloomIndex
  add_path path index = record index { filter = add_to path index.filter }

  -- `path in f`, or True without a filter
  abbrev pub answer : Text → Option BloomFilter → Bool
  answer path none = true
  answer path (some f) = contains path f

  abbrev pub counted : Bool → BloomIndex → BloomIndex
  counted true index = record index { total = index.total + 1 }
  counted false index = record index { total = index.total + 1; saves = index.saves + 1 }

  unfoldable pub might_exist : Text → BloomIndex → Bool × BloomIndex
  might_exist path index = let b = answer path index.filter in (b, counted b index)

  abbrev pub ask : Bool → Text → Sos → Bool × Sos
  ask false path s = (false, s)
  ask true path s = exists path s

  -- `exists` as patched
  unfoldable pub fast_exists : Text → BloomIndex → Sos → Bool × BloomIndex × Sos
  fast_exists path index s =
      let (b, index') = might_exist path index in
      let (there, s') = ask b path s in (there, index', s')

  -- `write` as patched
  unfoldable pub write_and_index :
      ⦃h : Host⦄
      → ℕ
      → Text
      → Content
      → Text
      → Dict Text Text
      → List Text
      → BloomIndex
      → Sos
      → Text × BloomIndex × Sos
  write_and_index now path content kind meta tags index s =
      let (oid, s') = write now path content kind meta tags s in (oid, add_path path index, s')
