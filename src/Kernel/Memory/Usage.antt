-- ===== src/Kernel/Memory/Usage.antt =====
-- kernel/memory.py: what allocation and freeing do to the page table and to the memory in use.
use data_py_os.Base.{
  ℕ, zero, suc, ◌+◌, ◌-◌, ◌*◌, ◌≤◌, ◌<◌, String, ◌≡◌, refl, ◌∙◌, ap, true, Option, none, some, [],
  ◌∷◌, arith, Option-cases, inl, inr,
}
use data_py_os.Base.Eq.{nat_eq}
use data_py_os.Base.Int.{negsuc}
use data_py_os.Base.Dict.{Dict, lookup, insert, lookup-insert_ne, lookup-insert_self}
use data_py_os.Kernel.Memory.{
  MemoryBlock, MemoryManager, page_bytes, new_page, map_pages, pages_needed, allocate, free, in_use,
  used_pages, used_mb, free_mb, page_size_mb, release,
}
use data_py_os.Kernel.Memory.Pages.{
  IsValid, Below, Below-mono, Below-lookup, Below-insert, lookup-Below,
}

-- The memory in use at what a lookup finds.
abbrev pub in_use_at : Option MemoryBlock → ℕ
in_use_at none = 0
in_use_at (some b) = in_use b

used_pages-insert :
    (a : ℕ) (b : MemoryBlock) (pages : Dict ℕ MemoryBlock)
    → used_pages (insert a b pages) + in_use_at (lookup a pages) ≡ used_pages pages + in_use b
unfolding used_pages
used_pages-insert a b [] = omega arith
used_pages-insert a b (p ∷ pages) = ground (arith, used_pages-insert a b pages)

used_pages-map_pages :
    (owner : String) (addr n : ℕ) (pages : Dict ℕ MemoryBlock)
    → Below addr pages
    → used_pages (map_pages owner addr n pages) ≡ used_pages pages + n * page_size_mb
unfolding map_pages
used_pages-map_pages owner addr zero pages h = omega arith
used_pages-map_pages owner addr (suc n) pages h =
    let page = new_page addr owner in
    let pages' = insert addr page pages in
    let fresh = Below-lookup addr addr pages (omega arith) h in
    let grown = rw fresh at (used_pages-insert addr page pages) in
    let below' =
      Below-insert (addr + page_bytes) addr page pages (omega arith)
        (Below-mono addr (addr + page_bytes) pages (omega arith) h) in
    omega (arith, used_pages-map_pages owner (addr + page_bytes) n pages' below', grown)

-- From a valid state, `allocate` puts exactly whole pages in use, enough for the request and less
-- than one page more.
pub used_mb-allocate :
    (mb : ℕ) (owner : String) (m : MemoryManager)
    → IsValid m
    → let grown = used_mb (allocate mb owner m).1 in
      (grown ≡ used_mb m + pages_needed mb * page_size_mb)
      × (used_mb m + mb ≤ grown)
      × (grown < used_mb m + mb + page_size_mb)
unfolding used_mb allocate pages_needed
used_mb-allocate mb owner m v =
    let total = used_pages-map_pages owner m.next_addr (pages_needed mb) m.pages v.below in
    (total, omega (arith, total), omega (arith, total))

lookup-map_pages_before :
    (owner : String) (addr n a : ℕ) (pages : Dict ℕ MemoryBlock)
    → a < addr
    → lookup a (map_pages owner addr n pages) ≡ lookup a pages
unfolding map_pages
lookup-map_pages_before owner addr zero a pages h = refl
lookup-map_pages_before owner addr (suc n) a pages h =
    let page = new_page addr owner in
    lookup-map_pages_before owner (addr + page_bytes) n a (insert addr page pages) (omega arith)
    ∙ lookup-insert_ne a addr page pages (omega arith)

lookup-map_pages :
    (owner : String) (addr n i : ℕ) (pages : Dict ℕ MemoryBlock)
    → i < n
    → lookup (addr + i * page_bytes) (map_pages owner addr n pages)
      ≡ some (new_page (addr + i * page_bytes) owner)
unfolding map_pages
lookup-map_pages owner addr zero i pages h = elim h [ ]
lookup-map_pages owner addr (suc n) zero pages h =
    let page = new_page addr owner in
    let base : addr + 0 * page_bytes ≡ addr = omega arith in
    rw base (
      lookup-map_pages_before owner (addr + page_bytes) n addr (insert addr page pages)
        (omega arith)
      ∙ lookup-insert_self addr page pages)
lookup-map_pages owner addr (suc n) (suc i) pages h =
    let next : addr + suc i * page_bytes ≡ addr + page_bytes + i * page_bytes = omega arith in
    rw next (
      lookup-map_pages owner (addr + page_bytes) n i (insert addr (new_page addr owner) pages)
        (omega arith))

-- Every page of an allocation was unmapped before, belongs to the new owner after, and pages that
-- were mapped keep their content: no two allocations share a page.
pub allocate_fresh :
    (mb : ℕ) (owner : String) (m : MemoryManager) (i a : ℕ) {b : MemoryBlock}
    → IsValid m
    → i < pages_needed mb
    → lookup a m.pages ≡ some b
    → let (base, m') = allocate mb owner m in
      (lookup (base + i * page_bytes) m.pages ≡ none)
      × (lookup (base + i * page_bytes) m'.pages ≡ some (new_page (base + i * page_bytes) owner))
      × (lookup a m'.pages ≡ some b)
unfolding allocate
allocate_fresh mb owner m i a {b} v h e = (
  Below-lookup m.next_addr _ m.pages (omega arith) v.below,
  lookup-map_pages owner m.next_addr (pages_needed mb) i m.pages h,
  lookup-map_pages_before owner m.next_addr (pages_needed mb) a m.pages
        (lookup-Below m.next_addr a m.pages v.below e)
      ∙ e,
)

used_pages-release :
    (addr : ℕ) (pages : Dict ℕ MemoryBlock)
    → used_pages (release addr (lookup addr pages) pages) + in_use_at (lookup addr pages)
      ≡ used_pages pages
used_pages-release addr pages = elim (Option-cases (lookup addr pages)) [
  | inl e ↦ rw e (omega arith)
  | inr (b, e) ↦
      let freed : MemoryBlock = record b { free = true; owner = none } in
      rw e (omega (arith, rw e at (used_pages-insert addr freed pages)))
]

in_use_at-release :
    (addr : ℕ) (pages : Dict ℕ MemoryBlock)
    → in_use_at (lookup addr (release addr (lookup addr pages) pages)) ≡ 0
in_use_at-release addr pages = elim (Option-cases (lookup addr pages)) [
  | inl e ↦ rw (e, e)
  | inr (b, e) ↦
      let freed : MemoryBlock = record b { free = true; owner = none } in
      rw e (ap in_use_at (lookup-insert_self addr freed pages))
]

-- `free` releases what is in use at its address and nothing else, and a second `free` of the same
-- address releases nothing.
pub used_mb-free :
    (addr : ℕ) (m : MemoryManager)
    → (used_mb (free addr m) + in_use_at (lookup addr m.pages) ≡ used_mb m)
      × (used_mb (free addr (free addr m)) ≡ used_mb (free addr m))
unfolding used_mb free
used_mb-free addr m =
    let pages' = release addr (lookup addr m.pages) m.pages in
    (
      used_pages-release addr m.pages,
      omega (arith, used_pages-release addr pages', in_use_at-release addr m.pages),
    )

in_use_at-base :
    (mb : ℕ) (owner : String) (m : MemoryManager)
    → 0 < mb
    → in_use_at (lookup m.next_addr (allocate mb owner m).1.pages) ≡ page_size_mb
unfolding allocate pages_needed
in_use_at-base mb owner m h =
    let base : m.next_addr + 0 * page_bytes ≡ m.next_addr = omega arith in
    rw base at
      (ap in_use_at (lookup-map_pages owner m.next_addr (pages_needed mb) 0 m.pages (omega arith)))

-- Freeing an allocation by its base address gives back its first page only: the other pages of a
-- request of more than one page stay in use.
pub free-allocate :
    (mb : ℕ) (owner : String) (m : MemoryManager)
    → IsValid m
    → 0 < mb
    → let (base, m') = allocate mb owner m in
      used_mb (free base m') ≡ used_mb m + (pages_needed mb - 1) * page_size_mb
unfolding allocate pages_needed
free-allocate mb owner m v h = omega (
  arith,
  (used_mb-free m.next_addr (allocate mb owner m).1).0,
  (used_mb-allocate mb owner m v).0,
  in_use_at-base mb owner m h,
)

-- `allocate` never refuses: a request for more than is free drives `free_mb` below zero.
pub allocate_overcommits :
    (mb : ℕ) (owner : String) (m : MemoryManager)
    → IsValid m
    → m.total_mb < used_mb m + mb
    → (n : ℕ) × (free_mb (allocate mb owner m).1 ≡ negsuc n)
unfolding free_mb
allocate_overcommits mb owner m v h =
    let same : (allocate mb owner m).1.total_mb ≡ m.total_mb = unfold allocate in refl in
    (
      used_mb (allocate mb owner m).1 - m.total_mb - 1,
      ground (arith, same, (used_mb-allocate mb owner m v).1),
    )
