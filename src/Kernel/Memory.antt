-- ===== src/Kernel/Memory.antt =====
-- kernel/memory.py: the page table and `allocate`, `free`, `used_mb`, `free_mb` and `stats` of
-- `MemoryManager`. Sizes and addresses are not negative, so they are naturals; `free_mb` may fall
-- below zero and is an integer.
pub mod Pages
pub mod Usage
mod Tests
use data_py_os.Base.{
  ℕ, zero, suc, ◌+◌, ◌-◌, ◌*◌, ◌/◌, String, Bool, true, false, Option, none, some, List, [], ◌∷◌,
  if◌then◌else◌,
}
use data_py_os.Base.Eq.{nat_eq}
use data_py_os.Base.Dict.{Dict, lookup, insert, size}
use data_py_os.Base.Int.{ℤ, sub_ℕ}

pub record MemoryBlock : Type 0 where
  pub address : ℕ
  pub size_mb : ℕ
  pub owner : Option String
  pub free : Bool

abbrev pub page_size_mb : ℕ
page_size_mb = 4

-- PAGE_SIZE_MB * 1024 * 1024
abbrev pub page_bytes : ℕ
page_bytes = 4194304

abbrev pub user_space : ℕ
user_space = 0x10000000

pub record MemoryManager : Type 0 where
  pub total_mb : ℕ
  pub pages : Dict ℕ MemoryBlock
  pub next_addr : ℕ
  pub kernel_used_mb : ℕ

-- the table of `_init_kernel_regions`
abbrev pub kernel_regions : List (ℕ × String)
kernel_regions =
    (16, "kernel_text")
    ∷ (8, "kernel_data")
    ∷ (32, "kernel_heap")
    ∷ (4, "vfs_cache")
    ∷ (4, "proc_table")
    ∷ []

-- the loop of `_init_kernel_regions`, at index `i`
unfoldable pub reserve : ℕ → List (ℕ × String) → Dict ℕ MemoryBlock → Dict ℕ MemoryBlock
reserve i [] pages = pages
reserve i ((size, name) ∷ rest) pages = reserve (i + 1) rest (
    insert (i * 0x1000000)
      (record { address = i * 0x1000000; size_mb = size; owner = some name; free = false }) pages)

-- MemoryManager(total_mb)
unfoldable pub init : ℕ → MemoryManager
unfolding reserve
init total = record {
  total_mb = total;
  pages = reserve 0 kernel_regions [];
  next_addr = user_space;
  kernel_used_mb = 64;
}

-- math.ceil(mb / PAGE_SIZE_MB)
unfoldable pub pages_needed : ℕ → ℕ
pages_needed mb = (mb + (page_size_mb - 1)) / page_size_mb

abbrev pub new_page : ℕ → String → MemoryBlock
new_page addr owner = record {
  address = addr;
  size_mb = page_size_mb;
  owner = some owner;
  free = false;
}

-- the loop of `allocate`, with `n` pages left, the next of them at `addr`
unfoldable pub map_pages : String → ℕ → ℕ → Dict ℕ MemoryBlock → Dict ℕ MemoryBlock
map_pages owner addr zero pages = pages
map_pages owner addr (suc n) pages =
    map_pages owner (addr + page_bytes) n (insert addr (new_page addr owner) pages)

-- The base address, and the new state.
unfoldable pub allocate : ℕ → String → MemoryManager → ℕ × MemoryManager
allocate mb owner m =
    let addr = m.next_addr in
    (
      addr,
      record m {
        pages = map_pages owner addr (pages_needed mb) m.pages;
        next_addr = m.next_addr + pages_needed mb * page_bytes;
      },
    )

-- the page at an address that `free` marks
abbrev pub release : ℕ → Option MemoryBlock → Dict ℕ MemoryBlock → Dict ℕ MemoryBlock
release addr none pages = pages
release addr (some b) pages = insert addr (record b { free = true; owner = none }) pages

unfoldable pub free : ℕ → MemoryManager → MemoryManager
free addr m = record m { pages = release addr (lookup addr m.pages) m.pages }

abbrev pub in_use : MemoryBlock → ℕ
in_use b = if b.free then 0 else b.size_mb

-- sum(b.size_mb for b in pages if not b.free)
unfoldable pub used_pages : Dict ℕ MemoryBlock → ℕ
used_pages [] = 0
used_pages ((a, b) ∷ pages) = in_use b + used_pages pages

unfoldable pub used_mb : MemoryManager → ℕ
unfolding used_pages
used_mb m = used_pages m.pages

unfoldable pub free_mb : MemoryManager → ℤ
free_mb m = sub_ℕ m.total_mb (used_mb m)

pub record Stats : Type 0 where
  pub total_mb : ℕ
  pub used_mb : ℕ
  pub free_mb : ℤ
  pub page_count : ℕ
  pub kernel_mb : ℕ

unfoldable pub stats : MemoryManager → Stats
unfolding used_mb free_mb
stats m = record {
  total_mb = m.total_mb;
  used_mb = used_mb m;
  free_mb = free_mb m;
  page_count = size m.pages;
  kernel_mb = m.kernel_used_mb;
}
