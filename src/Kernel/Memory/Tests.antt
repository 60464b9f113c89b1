-- ===== src/Kernel/Memory/Tests.antt =====
-- kernel/memory.py: runs on small inputs, and the theorems at concrete inputs.
use data_py_os.Base.{◌+◌, ◌-◌, ◌*◌, ◌≡◌, refl, List, [], ◌∷◌, arith}
use data_py_os.Base.Eq.{nat_eq}
use data_py_os.Kernel.Memory.{
  MemoryManager, map_pages, init, allocate, free, used_mb, stats, pages_needed, page_size_mb,
  user_space,
}
use data_py_os.Kernel.Memory.Pages.{IsValid, Request, take, give, serve, serve-init-IsValid}
use data_py_os.Kernel.Memory.Usage.{free-allocate}

abbrev requests : List Request
requests = take 9 "shell" ∷ take 4 "editor" ∷ give user_space ∷ []

-- The kernel's regions add up to the constant that `stats` reports.
boot_usage : (used_mb (init 1024) ≡ 64) × ((stats (init 1024)).page_count ≡ 5)
unfolding used_mb init stats
boot_usage = (refl, refl)

requests_usage : used_mb (serve requests (init 1024)) ≡ 76
unfolding used_mb init serve allocate map_pages pages_needed free
requests_usage = refl

serve-init-IsValid_example : IsValid (serve requests (init 1024))
serve-init-IsValid_example = serve-init-IsValid 1024 requests

abbrev booted : MemoryManager
booted = serve [] (init 64)

free-allocate_example :
    let (base, m') = allocate 9 "shell" booted in
    used_mb (free base m') ≡ used_mb booted + (pages_needed 9 - 1) * page_size_mb
free-allocate_example = free-allocate 9 "shell" booted (serve-init-IsValid 64 []) (omega arith)
