-- ===== src/Tests.antt =====
-- The theorems at concrete states.
mod Scheduler
mod Ipc
mod Heap
mod Devices
mod Mouse
mod Display
mod Text
mod Ports
mod Shell
mod Elf
mod Windows
mod Sfs
mod Syscall
mod Disk
mod Serial
