-- ===== src/Syscall.antt =====
-- kernel/syscall.c: what SYS_READ does. The buffer is a range of the caller's addresses, which are
-- separate from the keyboard's ring, as Syscall/Handler tests, and no key is pressed during the call.
pub mod Keys
pub mod Listing
pub mod User
pub mod Handler
use sros.Prelude.{ℕ, zero, suc, ◌+◌, ◌%◌, ◌^◌, if◌then◌else◌}
use sros.Framebuffer.{poke}
use sros.Keyboard.{Keyboard, kbd_buffer_get, kbd_buffer_has_data}

-- The loop, from `count` characters on, when `len - count` is left.
unfoldable pub read_keys : ℕ → ℕ → ℕ → (ℕ → ℕ) → Keyboard → ℕ × (ℕ → ℕ) × Keyboard
read_keys zero buf count mem k = (count, mem, k)
read_keys (suc left) buf count mem k =
    let (c, k') = kbd_buffer_get k in
    let rest = read_keys left buf (count + 1) (poke ((buf + count) % 2 ^ 32) c mem) k' in
    if kbd_buffer_has_data k then rest else (count, mem, k)

-- The result in `eax`, the caller's memory, and the ring.
unfoldable pub sys_read_keys : ℕ → ℕ → (ℕ → ℕ) → Keyboard → ℕ × (ℕ → ℕ) × Keyboard
unfolding read_keys
sys_read_keys buf len mem k = read_keys len buf 0 mem k
