-- ===== src/Kernel.antt =====
-- The kernel: page allocation (kernel/memory.py), processes (kernel/process.py) and namespaces
-- (kernel/namespaces.py), tasks (kernel/scheduler.py) and the watchdog (kernel/watchdog.py).
pub mod Memory
pub mod Process
pub mod Namespaces
pub mod Scheduler
pub mod Watchdog
