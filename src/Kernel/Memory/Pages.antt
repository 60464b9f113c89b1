-- ===== src/Kernel/Memory/Pages.antt =====
-- kernel/memory.py: what the page table holds.
use data_py_os.Base.{
  ℕ, zero, suc, ◌+◌, ◌*◌, ◌≤◌, ◌<◌, String, ◌≡◌, refl, true, Option, none, some, List, [], ◌∷◌,
  arith,
}
use data_py_os.Base.Eq.{nat_eq}
use data_py_os.Base.Dict.{Dict, lookup, insert, IsDict, insert-IsDict}
use data_py_os.Kernel.Memory.{
  MemoryBlock, MemoryManager, page_bytes, new_page, map_pages, pages_needed, allocate, release,
  free, init,
}

-- Every key lies below a bound.
abbrev pub Below : ℕ → Dict ℕ MemoryBlock → Type 0
Below n [] = Unit
Below n ((a, b) ∷ pages) = (a < n) × Below n pages

-- Every page is filed under its own address.
abbrev pub Filed : Dict ℕ MemoryBlock → Type 0
Filed [] = Unit
Filed ((a, b) ∷ pages) = (b.address ≡ a) × Filed pages

-- No address twice, each page under its own address, and all below the next free address.
pub record IsValid (m : MemoryManager) : Type 0 where
  pub keys : IsDict m.pages
  pub filed : Filed m.pages
  pub below : Below m.next_addr m.pages

pub Below-mono : (m n : ℕ) (pages : Dict ℕ MemoryBlock) → m ≤ n → Below m pages → Below n pages
Below-mono m n [] h hs = tt
Below-mono m n (p ∷ pages) h hs = (omega arith, Below-mono m n pages h hs.1)

pub Below-insert :
    (n a : ℕ) (b : MemoryBlock) (pages : Dict ℕ MemoryBlock)
    → a < n
    → Below n pages
    → Below n (insert a b pages)
Below-insert n a b [] h hs = (h, tt)
Below-insert n a b (p ∷ pages) h hs = ground (arith, Below-insert n a b pages h hs.1)

pub Filed-insert :
    (a : ℕ) (b : MemoryBlock) (pages : Dict ℕ MemoryBlock)
    → b.address ≡ a
    → Filed pages
    → Filed (insert a b pages)
Filed-insert a b [] h hs = (h, tt)
Filed-insert a b (p ∷ pages) h hs = ground (arith, Filed-insert a b pages h hs.1)

pub Filed-lookup :
    (a : ℕ) (pages : Dict ℕ MemoryBlock) {b : MemoryBlock}
    → Filed pages
    → lookup a pages ≡ some b
    → b.address ≡ a
Filed-lookup a [] hs e = ground arith
Filed-lookup a (p ∷ pages) {b} hs e = ground (arith, Filed-lookup a pages {b = b} hs.1)

pub Below-lookup :
    (n a : ℕ) (pages : Dict ℕ MemoryBlock) → n ≤ a → Below n pages → lookup a pages ≡ none
Below-lookup n a [] h hs = refl
Below-lookup n a (p ∷ pages) h hs = ground (arith, Below-lookup n a pages h hs.1)

pub lookup-Below :
    (n a : ℕ) (pages : Dict ℕ MemoryBlock) {b : MemoryBlock}
    → Below n pages
    → lookup a pages ≡ some b
    → a < n
lookup-Below n a [] hs e = ground arith
lookup-Below n a (p ∷ pages) {b} hs e = ground (arith, lookup-Below n a pages {b = b} hs.1)

map_pages-IsDict :
    (owner : String) (addr n : ℕ) (pages : Dict ℕ MemoryBlock)
    → IsDict pages
    → IsDict (map_pages owner addr n pages)
unfolding map_pages
map_pages-IsDict owner addr zero pages h = h
map_pages-IsDict owner addr (suc n) pages h =
    map_pages-IsDict owner (addr + page_bytes) n (insert addr (new_page addr owner) pages)
      (insert-IsDict addr (new_page addr owner) pages h)

map_pages-Filed :
    (owner : String) (addr n : ℕ) (pages : Dict ℕ MemoryBlock)
    → Filed pages
    → Filed (map_pages owner addr n pages)
unfolding map_pages
map_pages-Filed owner addr zero pages h = h
map_pages-Filed owner addr (suc n) pages h =
    map_pages-Filed owner (addr + page_bytes) n (insert addr (new_page addr owner) pages)
      (Filed-insert addr (new_page addr owner) pages refl h)

map_pages-Below :
    (owner : String) (addr n : ℕ) (pages : Dict ℕ MemoryBlock)
    → Below addr pages
    → Below (addr + n * page_bytes) (map_pages owner addr n pages)
unfolding map_pages
map_pages-Below owner addr zero pages h = Below-mono addr _ pages (omega arith) h
map_pages-Below owner addr (suc n) pages h =
    let pages' = insert addr (new_page addr owner) pages in
    Below-mono (addr + page_bytes + n * page_bytes) _ _ (omega arith) (
      map_pages-Below owner (addr + page_bytes) n pages' (
        Below-insert (addr + page_bytes) addr (new_page addr owner) pages (omega arith)
          (Below-mono addr (addr + page_bytes) pages (omega arith) h)))

init-IsValid : (total : ℕ) → IsValid (init total)
unfolding init
init-IsValid total = record { keys = ground arith; filed = ground arith; below = omega arith }

allocate-IsValid :
    (mb : ℕ) (owner : String) (m : MemoryManager) → IsValid m → IsValid (allocate mb owner m).1
unfolding allocate
allocate-IsValid mb owner m v = record {
  keys = map_pages-IsDict owner m.next_addr (pages_needed mb) m.pages v.keys;
  filed = map_pages-Filed owner m.next_addr (pages_needed mb) m.pages v.filed;
  below = map_pages-Below owner m.next_addr (pages_needed mb) m.pages v.below;
}

release-IsValid :
    (addr : ℕ) (m : MemoryManager) (o : Option MemoryBlock)
    → lookup addr m.pages ≡ o
    → IsValid m
    → IsValid (record m { pages = release addr o m.pages })
release-IsValid addr m none e v = record { keys = v.keys; filed = v.filed; below = v.below }
release-IsValid addr m (some b) e v =
    let b' : MemoryBlock = record b { free = true; owner = none } in
    record {
      keys = insert-IsDict addr b' m.pages v.keys;
      filed = Filed-insert addr b' m.pages (Filed-lookup addr m.pages v.filed e) v.filed;
      below =
          Below-insert m.next_addr addr b' m.pages (lookup-Below m.next_addr addr m.pages v.below e)
            v.below;
    }

free-IsValid : (addr : ℕ) (m : MemoryManager) → IsValid m → IsValid (free addr m)
unfolding free
free-IsValid addr m v = release-IsValid addr m (lookup addr m.pages) refl v

-- A call of the memory manager.
pub data Request : Type 0 where
  take : ℕ → String → Request
  give : ℕ → Request

unfoldable pub serve : List Request → MemoryManager → MemoryManager
serve [] m = m
serve (take mb owner ∷ rest) m = serve rest (allocate mb owner m).1
serve (give addr ∷ rest) m = serve rest (free addr m)

serve-IsValid : (rs : List Request) (m : MemoryManager) → IsValid m → IsValid (serve rs m)
unfolding serve
serve-IsValid [] m v = v
serve-IsValid (take mb owner ∷ rest) m v =
    serve-IsValid rest (allocate mb owner m).1 (allocate-IsValid mb owner m v)
serve-IsValid (give addr ∷ rest) m v = serve-IsValid rest (free addr m) (free-IsValid addr m v)

-- After any sequence of allocations and frees from the start, no address is mapped twice, every
-- page is filed under its own address, and all pages lie below the next free address.
pub serve-init-IsValid : (total : ℕ) (rs : List Request) → IsValid (serve rs (init total))
serve-init-IsValid total rs = serve-IsValid rs (init total) (init-IsValid total)
