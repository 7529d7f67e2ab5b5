-- ===== src/Syscall/Handler.antt =====
-- `syscall_handler` of kernel/syscall.c over the kernel's components. `own` tells, of a state, the
-- addresses at which the kernel keeps its own data, the heap's block tags included. The C code
-- checks no pointer: a call that would read or write such an address through a caller's pointer, or
-- load a program over it, is `none`, and so is a release of a pointer that is no block of the heap.
-- The buffers and strings that a caller names have to be mapped, also where the call fails before it
-- would read them; what is printed on the serial line is left out.
use sros.Prelude.{
  ℕ, zero, suc, ◌+◌, ◌-◌, ◌%◌, ◌^◌, ◌++◌, Bool, true, not, ◌&&◌, ◌||◌, ◌*◌, Option, none, some,
  List, [], ◌∷◌, ltb, ◌==◌, if◌then◌else◌, length, get_elem?, is_neg, to_u32, of_u32,
}
use sros.Memory.{Mem}
use sros.Scheduler.{Sched, CallResult, returns, sleeps}
use sros.Scheduler.Lifecycle.{task_fork, task_exit}
use sros.Scheduler.Wait.{task_wait}
use sros.Ipc.{Ipc}
use sros.Ipc.Sem.{sem_create, sem_wait, sem_post, sem_destroy}
use sros.Ipc.Msg.{
  clamp_len, Received, msg_queue_create, msg_queue_send, msg_queue_recv, msg_queue_destroy,
}
use sros.Heap.{Heap, heap_start, walk_fuel, block_size, next_block, kmalloc, kfree, kmalloc_dump}
use sros.Keyboard.{Keyboard, kbd_buffer_get, kbd_buffer_has_data}
use sros.Mouse.{Mouse, MouseEvent, mouse_read, mouse_has_data}
use sros.Vga.{Vga, vga_init}
use sros.Sfs.{Fs}
use sros.Sfs.Codec.{le32}
use sros.Sfs.Dir.{root_ino, sfs_file, sfs_create}
use sros.Sfs.Calls.{sys_open, sys_read, sys_write, sys_close}
use sros.Elf.Load.{Regs, bss_size, pt_load, user_stack_vaddr, elf_load_and_exec}
use sros.Elf.{phdr_of, phdr_size, elf_check_file, read_struct, find_header}
use sros.Syscall.{sys_read_keys}
use sros.Syscall.Listing.{listed}
use sros.Syscall.User.{◌>>=◌, apart, bytes_at, string_at, string_or_null, stored}

-- The components behind the system calls. The scheduler's state holds the machine's memory.
pub record Kernel : Type 0 where
  pub ipc : Ipc
  pub heap : Heap
  pub keyboard : Keyboard
  pub mouse : Mouse
  pub vga : Vga
  pub fs : Fs

-- How the handler ends: it returns to the caller with new registers; or its task has blocked, or the
-- processor halts until a key is pressed; or its task has exited.
pub data Outcome : Type 0 where
  resumes : Regs → Kernel → Outcome
  waits : Kernel → Outcome
  exits : Kernel → Outcome

-- The numbers of include/syscall.h, in their order from 0 on.
pub data Call : Type 0 where
  read : Call
  write : Call
  getchar : Call
  clear : Call
  fs_open : Call
  fs_read : Call
  fs_write : Call
  fs_close : Call
  fs_create : Call
  fs_ls : Call
  malloc : Call
  free : Call
  malloc_dump : Call
  exec : Call
  exit : Call
  fork : Call
  wait : Call
  sem_init : Call
  sem_take : Call
  sem_give : Call
  sem_remove : Call
  msgget : Call
  msgsnd : Call
  msgrcv : Call
  msgctl : Call
  mouse_check : Call
  mouse_take : Call

abbrev pub calls : List Call
calls =
    read ∷ write ∷ getchar ∷ clear ∷ fs_open ∷ fs_read ∷ fs_write ∷ fs_close ∷ fs_create ∷ fs_ls
    ∷ malloc ∷ free ∷ malloc_dump ∷ exec ∷ exit ∷ fork ∷ wait ∷ sem_init ∷ sem_take ∷ sem_give
    ∷ sem_remove ∷ msgget ∷ msgsnd ∷ msgrcv ∷ msgctl ∷ mouse_check ∷ mouse_take ∷ []

abbrev pub memory : Kernel → Mem
memory k = k.ipc.sched.mem

abbrev pub with_sched : Sched → Kernel → Kernel
with_sched s k = record k { ipc = record k.ipc { sched = s } }

abbrev pub with_memory : Mem → Kernel → Kernel
with_memory m k = with_sched (record k.ipc.sched { mem = m }) k

-- `regs->eax = v; break;`
abbrev pub ret : ℕ → Regs → Kernel → Option Outcome
ret v r k = some (resumes (record r { eax = v }) k)

-- A result of -1 as a u32.
abbrev pub minus_1 : ℕ
minus_1 = 2 ^ 32 - 1

abbrev pub or_minus_1 : Option ℕ → ℕ
or_minus_1 none = minus_1
or_minus_1 (some n) = n

-- A call that may block.
abbrev pub call_result : CallResult → Regs → Kernel → Option Outcome
call_result (returns v) r k = ret (to_u32 v) r k
call_result sleeps r k = some (waits k)

-- `n` bytes of a function from an address on.
abbrev pub taken : ℕ → ℕ → (ℕ → ℕ) → List ℕ
taken zero v mem = []
taken (suc n) v mem = mem (v % 2 ^ 32) ∷ taken n (v + 1) mem

-- A mouse event in the caller's memory: the buttons, and two signed bytes.
abbrev pub event_bytes : Option MouseEvent → List ℕ
event_bytes none = 0 ∷ 0 ∷ 0 ∷ []
event_bytes (some ev) = ev.buttons ∷ to_u32 ev.dx % 256 ∷ to_u32 ev.dy % 256 ∷ []

-- The buffer of SYS_FS_LS: the names, and a NUL where it fits.
abbrev pub listing : ℕ → List ℕ → List ℕ
listing buf_size text = if ltb (length text) buf_size then text ++ 0 ∷ [] else text

-- The bytes of a message for a queue; NULL stays NULL.
payload : (ℕ → Bool) → ℕ → ℕ → Mem → Option (Option (List ℕ))
payload own v len m =
    if v == 0 then some none else (do bs ← bytes_at own (clamp_len len) v m; some (some bs))

-- What a receive stores: the bytes at `buf`, and the length at `len_ptr` if that is not NULL.
store_message : (ℕ → Bool) → ℕ → ℕ → Received → Mem → Option Mem
store_message own buf len_ptr none m = some m
store_message own buf len_ptr (some (n, bs)) m = do
  m1 ← stored own buf bs m
  if len_ptr == 0 then some m1 else stored own len_ptr (le32 n) m1

-- NULL, or the pointer of a block that the walk from `cur` on comes to.
is_block : ℕ → ℕ → ℕ → Heap → Bool
is_block zero cur ptr h = ptr == 0
is_block (suc fuel) cur ptr h =
    let rest = is_block fuel (next_block h cur) ptr h in
    if block_size h cur == 0 then ptr == 0 else if (cur + 4) % 2 ^ 32 == ptr then true else rest

-- The segments of a program, from the `i`-th header on, lie apart.
segments_apart : (ℕ → Bool) → ℕ → ℕ → ℕ → ℕ → Fs → Bool
segments_apart own zero i ino phoff f = true
segments_apart own (suc n) i ino phoff f =
    elim (read_struct ino phdr_size ((phoff + i * phdr_size) % 2 ^ 32) f) [
      | none ↦ true
      | some bs ↦
          let p = phdr_of bs in
          (not (p.p_type == pt_load) || apart own (p.p_filesz + bss_size p) p.p_vaddr)
          && segments_apart own n (i + 1) ino phoff f
    ]

-- So does what `elf_load_and_exec` writes, the user stack included.
program_apart : (ℕ → Bool) → List ℕ → Fs → Bool
unfolding segments_apart
program_apart own path f = elim (find_header path f) [
  | none ↦ true
  | some (ino, e) ↦
      not (elf_check_file e)
      || (segments_apart own e.e_phnum 0 ino e.e_phoff f
          && apart own 0x4000 (user_stack_vaddr - 0x4000))
]

-- `bss_end` and the address of the registers serve the fork.
module _ (bss_end regs : ℕ) (own : Kernel → ℕ → Bool) where
  handle : Call → Regs → Kernel → Option Outcome
  unfolding payload store_message is_block program_apart
  handle read r k =
      let (n, mem, keyboard) = sys_read_keys r.ebx r.ecx (λ a. 0) k.keyboard in
      stored (own k) r.ebx (taken n r.ebx mem) (memory k) >>= λ m.
      ret n r (record (with_memory m k) { keyboard = keyboard })
  handle write r k = ret 0 r k
  handle getchar r k =
      let (c, keyboard) = kbd_buffer_get k.keyboard in
      if kbd_buffer_has_data k.keyboard
      then ret c r (record k { keyboard = keyboard })
      else some (waits k)
  handle clear r k = ret 0 r (record k { vga = vga_init k.vga })
  handle fs_open r k = string_or_null (own k) r.ebx (memory k) >>= λ path.
      let (fd, fs) = sys_open path k.fs in ret (or_minus_1 fd) r (record k { fs = fs })
  handle fs_read r k =
      let (got, fs) = sys_read (of_u32 r.ebx) (of_u32 r.edx) k.fs in
      elim got [
        | none ↦ ret minus_1 r (record k { fs = fs })
        | some bs ↦ stored (own k) r.ecx bs (memory k) >>= λ m.
            ret (length bs) r (record (with_memory m k) { fs = fs })
      ]
  handle fs_write r k = bytes_at (own k) r.edx r.ecx (memory k) >>= λ bs.
      let (n, fs) = sys_write (of_u32 r.ebx) bs k.fs in ret (or_minus_1 n) r (record k { fs = fs })
  handle fs_close r k = ret 0 r (record k { fs = sys_close (of_u32 r.ebx) k.fs })
  handle fs_create r k = string_at (own k) r.ebx (memory k) >>= λ name.
      let (ino, fs) = sfs_create root_ino name sfs_file k.fs in
      ret (elim ino [ none ↦ minus_1 | some _ ↦ 0 ]) r (record k { fs = fs })
  handle fs_ls r k =
      if r.ebx == 0 || r.ecx == 0
      then ret minus_1 r k
      else listed r.ecx k.fs >>= λ text.
          stored (own k) r.ebx (listing r.ecx text) (memory k) >>= λ m.
          ret (length text) r (with_memory m k)
  handle malloc r k = kmalloc r.ebx k.heap >>= λ got. ret got.0 r (record k { heap = got.1 })
  handle free r k =
      if is_block walk_fuel heap_start r.ebx k.heap
      then ret 0 r (record k { heap = kfree r.ebx k.heap })
      else none
  handle malloc_dump r k = kmalloc_dump k.heap >>= λ totals. ret 0 r k
  handle exec r k = string_at (own k) r.ebx (memory k) >>= λ path.
      if program_apart (own k) path k.fs
      then (elf_load_and_exec path r k.fs (memory k) >>= λ loaded.
          let ((ok, r'), m) = loaded in
          if ok then some (resumes r' (with_memory m k)) else ret minus_1 r' (with_memory m k))
      else none
  handle exit r k = some (exits (with_sched (task_exit (of_u32 r.ebx) k.ipc.sched) k))
  handle fork r k = task_fork bss_end regs k.ipc.sched >>= λ forked.
      let (pid, s) = forked in ret (if is_neg pid then minus_1 else to_u32 pid) r (with_sched s k)
  handle wait r k = task_wait (of_u32 r.ebx) k.ipc.sched >>= λ waited.
      let (result, s) = waited in call_result result r (with_sched s k)
  handle sem_init r k = string_or_null (own k) r.ebx (memory k) >>= λ name.
      sem_create name (of_u32 r.ecx) k.ipc >>= λ made.
      let (id, ipc) = made in ret (to_u32 id) r (record k { ipc = ipc })
  handle sem_take r k =
      let (result, ipc) = sem_wait (of_u32 r.ebx) k.ipc in
      call_result result r (record k { ipc = ipc })
  handle sem_give r k =
      let (result, ipc) = sem_post (of_u32 r.ebx) k.ipc in
      ret (to_u32 result) r (record k { ipc = ipc })
  handle sem_remove r k = sem_destroy (of_u32 r.ebx) k.ipc >>= λ removed.
      let (result, ipc) = removed in ret (to_u32 result) r (record k { ipc = ipc })
  handle msgget r k =
      let (id, ipc) = msg_queue_create k.ipc in ret (to_u32 id) r (record k { ipc = ipc })
  handle msgsnd r k = payload (own k) r.ecx r.edx (memory k) >>= λ bs.
      let (result, ipc) = msg_queue_send (of_u32 r.ebx) bs r.edx k.ipc in
      call_result result r (record k { ipc = ipc })
  handle msgrcv r k =
      let (result, received, ipc) = msg_queue_recv (of_u32 r.ebx) (not (r.ecx == 0)) k.ipc in
      store_message (own k) r.ecx r.edx received ipc.sched.mem >>= λ m.
      call_result result r (with_memory m (record k { ipc = ipc }))
  handle msgctl r k = msg_queue_destroy (of_u32 r.ebx) k.ipc >>= λ removed.
      let (result, ipc) = removed in ret (to_u32 result) r (record k { ipc = ipc })
  handle mouse_check r k = ret (if mouse_has_data k.mouse then 1 else 0) r k
  handle mouse_take r k =
      let (ev, mouse) = mouse_read k.mouse in
      stored (own k) r.ebx (event_bytes ev) (memory k) >>= λ m.
      ret 0 r (record (with_memory m k) { mouse = mouse })

  -- The number of no call: -1.
  dispatch : Option Call → Regs → Kernel → Option Outcome
  unfolding handle
  dispatch none r k = ret minus_1 r k
  dispatch (some c) r k = handle c r k

  pub syscall_handler : Regs → Kernel → Option Outcome
  unfolding dispatch
  syscall_handler r k = dispatch (get_elem? calls r.eax) r k
