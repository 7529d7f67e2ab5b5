-- ===== src/Lib.antt =====
-- SRos, a small 32-bit kernel in C: a model of its core and the theorems about it.
--
-- The parts, and the files that model them. A file of this library opens with a comment that names
-- the code it is about; a definition has the name of the C function or type it models, and a helper
-- stands directly above the function whose branch or loop it is.
--   * kernel/scheduler.c: Task (the PCB of include/scheduler.h and the intrusive FIFO lists of
--     tasks), Scheduler (the ready queue and `scheduler_tick`), Scheduler/Stacks and
--     Scheduler/Lifecycle (`task_create`, `task_fork`, `task_exit`), Scheduler/Wait (`task_wait`).
--   * kernel/ipc.c: Ipc (what its functions share), Ipc/Sem (semaphores), Ipc/Msg (message queues).
--   * kernel/kmalloc.c: Heap.
--   * kernel/paging.c: Memory (the machine's memory and address translation), Paging (the pool of
--     page frames, the page tables), Paging/Clone (`paging_clone_directory`).
--   * kernel/string.c: Kstring.
--   * fs/sfs.c over fs/ramdisk.c: Sfs (disk and structures), Sfs/Codec (their byte forms),
--     Sfs/Bitmap, Sfs/Inode, Sfs/Dir (directories), Sfs/Format (formatting and mounting),
--     Sfs/File, Sfs/Calls (descriptors).
--   * kernel/gdt.c and kernel/idt.c: Descriptors.
--   * kernel/syscall.c: Syscall (SYS_READ), Syscall/Listing (SYS_FS_LS), Syscall/User (the caller's
--     pointers), Syscall/Handler (`syscall_handler`).
--   * drivers/keyboard.c: Keyboard. drivers/mouse.c: Mouse.
--   * drivers/vga.c: Vga.
--   * drivers/framebuffer.c: Framebuffer, Framebuffer/Console. drivers/cursor.c: Cursor.
--   * drivers/window.c: Window (the list of windows), Window/Draw, Window/Manage (creation, focus,
--     clicks), Window/Buffer (drawing into a window).
--   * drivers/ata.c: Ata, Ata/Blocks (the blocks of fs/ramdisk.c), over the port instructions of
--     Ports; Ata/Drive states how a drive answers.
--   * drivers/rtl8139.c: Rtl8139 (reset, sending, receiving), drivers/serial.c: Serial, over Ports.
--   * drivers/pci.c: Pci, over the port instructions of Ports.
--   * user/shell.c: Shell (texts), Shell/Editor (the line editor and its history).
--   * kernel/elf_loader.c: Elf (headers), Elf/Load (segments, stack, registers).
-- Prelude passes on the names of the libraries and holds the shared helpers: Boolean tests, lists,
-- C `int`, and the window of a ring buffer. Tests applies the theorems at concrete states.
--
-- How the parts interact. The scheduler's state holds the machine's memory, since creating, forking
-- and collecting a task allocates and frees page frames. The state of kernel/ipc.c holds the
-- scheduler's: a semaphore or a message queue threads the tasks that wait for it through the same
-- `next` field as the ready queue, so a task stands in one queue at a time, which the theorems keep
-- as disjointness. A pointer into a table is an index, NULL is `none`, and aliasing is equality of
-- indices.
--
-- The window manager's state holds the heap, from which windows come, and the screen: the frame
-- buffer and the cursor, which moves by the events of the mouse's ring. Pixels are dwords of memory
-- apart from the heap's words; a window's pixels stand with the window.
--
-- The file system's model has a disk of blocks; Ata/Blocks/Refine relates it to the drive behind the
-- ports. The system calls join the components: the scheduler with the machine's memory, the heap, the
-- keyboard, the mouse, the text screen and the file system.
--
-- Interrupts. `int $32` enters `scheduler_tick`. A function that raises it in the middle is modelled
-- up to that point: the result `sleeps` says that its task has blocked there, and a comment says
-- what the resumed task does. The code between `cli` and `sti` runs undivided.
--
-- Numbers. u32 arithmetic that can wrap has `% 2 ^ 32` written out; an `int` is the type ℤ of
-- Prelude/Int, whose increments wrap. A panic, an access outside an array or a name
-- too long for its array is `none`, but for an inode's block numbers (`beyond`, below).
--
-- Loops on fuel. The walk over the heap has room for each of at most heap_size / 16 blocks and
-- the end mark. The loop over a wait queue ends when its fuel exceeds the number of waiters.
-- The loops of a file's read and write make progress by at least one byte a round, and have as
-- many rounds as bytes. The loops over the mouse's events have 64 rounds, one more than the
-- ring holds. The walk over received packets has as many rounds as its caller gives, and so has
-- the wait for the serial line. A string of a caller is read up to 4096 bytes, a page and far
-- more than a path or a name that the file system takes; the model has no result for a longer
-- one.
--
-- Parameters. Which commands the drive serves, what an uninitialised buffer holds (`stale`), and
-- the end of the kernel's data (`bss_end`) are fields or arguments; so are the numbers that lie
-- behind an inode's block array (`beyond`), which the file system's loops read for a count of more
-- than twelve, the addresses of the kernel's own data (`own`), which a caller's pointer must not
-- reach, and what a shell command prints, if it returns (`execute`). What a device answers at its
-- ports is a record of functions, of which a theorem assumes the documented access.
--
-- Not modelled: what the other parts print on the serial line; the boot code, interrupt stubs,
-- the loading of the descriptor tables, and the driver of the sound card, and the start of the
-- network card, which are port access; the commands of the shell but for the numbers that they
-- read and print. The TLB has no model, since the code flushes it where it changes an entry.
pub mod Prelude
pub mod Task
pub mod Memory
pub mod Paging
pub mod Scheduler
pub mod Ipc
pub mod Heap
pub mod Kstring
pub mod Keyboard
pub mod Sfs
pub mod Mouse
pub mod Framebuffer
pub mod Cursor
pub mod Window
pub mod Elf
pub mod Vga
pub mod Descriptors
pub mod Syscall
pub mod Ports
pub mod Ata
pub mod Rtl8139
pub mod Serial
pub mod Pci
pub mod Shell
pub mod Tests
