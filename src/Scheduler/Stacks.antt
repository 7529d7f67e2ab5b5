-- ===== src/Scheduler/Stacks.antt =====
-- kernel/scheduler.c: what `task_create` and `task_fork` write to memory for a new task, its kernel
-- stack with the frame that the first switch restores, and its user stack.
use sros.Prelude.{ℕ, zero, suc, ◌+◌, ◌-◌, ◌%◌, ◌^◌, List, [], ◌∷◌}
use sros.Memory.{M, pure, ◌>>=◌, ◌>>◌, load, store}
use sros.Paging.{pfa_alloc, paging_map_user, paging_map_page}

-- `registers_t` is 19 words: gs fs es ds, the eight of `pusha` (esp at 28, eax at 44), int_no at 48,
-- err_code, eip, cs, eflags, user_esp at 68 and user_ss at 72.
abbrev frame_size : ℕ
frame_size = 76

abbrev user_stack_vaddr : ℕ
user_stack_vaddr = 0xE0000000

-- Consecutive words from an address on.
write_words : ℕ → List ℕ → M (Unit {0})
write_words at [] = pure tt
write_words at (w ∷ ws) = store at w >> write_words (at + 4) ws

-- `memcpy` of whole words. The count is of the words left.
copy_words : ℕ → ℕ → ℕ → M (Unit {0})
copy_words zero dst src = pure tt
copy_words (suc n) dst src = do w ← load src; store dst w; copy_words n (dst + 4) (src + 4)

-- The frame as `memset` and the assignments before the user stack is made leave it.
abbrev initial_frame : ℕ → ℕ → List ℕ
initial_frame at entry =
    0x23
    ∷ 0x23
    ∷ 0x23
    ∷ 0x23
    ∷ 0
    ∷ 0
    ∷ 0
    ∷ (at + 48)
    ∷ 0
    ∷ 0
    ∷ 0
    ∷ 0
    ∷ 0
    ∷ 0
    ∷ entry
    ∷ 0x1B
    ∷ 0x200
    ∷ 0
    ∷ 0
    ∷ []

abbrev pub stack_top : ℕ → ℕ
stack_top kstack = (kstack + 0x1000) % 2 ^ 32

abbrev pub frame_at : ℕ → ℕ
frame_at kstack = (stack_top kstack + 2 ^ 32 - frame_size) % 2 ^ 32

-- Steps 1 to 3 of `task_create`; the result is the kernel stack's frame.
unfoldable pub new_stacks : ℕ → M ℕ
unfolding write_words
new_stacks entry = do
  kstack ← pfa_alloc
  write_words (frame_at kstack) (initial_frame (frame_at kstack) entry)
  paging_map_user entry
  user_stack ← pfa_alloc
  paging_map_page (user_stack_vaddr - 0x1000) user_stack 7
  store (frame_at kstack + 68) user_stack_vaddr
  store (frame_at kstack + 72) 0x23
  pure kstack

-- Steps 3 to 5 of `task_fork`: a kernel stack with a copy of the parent's frame, where eax is 0.
unfoldable pub fork_stack : ℕ → M ℕ
unfolding copy_words
fork_stack regs = do
  kstack ← pfa_alloc
  copy_words 19 (frame_at kstack) regs
  store (frame_at kstack + 44) 0
  pure kstack
