-- ===== src/Syscall/User.antt =====
-- How kernel/syscall.c reads its arguments through the caller's pointers: bytes of the address space
-- that is current. A page that is not mapped is `none`, and so is a byte of the kernel's own data,
-- which the model keeps in the components: `own` tells the addresses where they lie.
use sros.Prelude.{
  ℕ, zero, suc, ◌+◌, ◌*◌, ◌/◌, ◌%◌, ◌^◌, Bool, true, not, ◌&&◌, length, Option, none, some, List,
  [], ◌∷◌, ◌==◌, if◌then◌else◌,
}
use sros.Memory.{Mem, translate}
use sros.Elf.Load.{copy_bytes}

infixl 5 ◌>>=◌
abbrev pub ◌>>=◌ : {A B : Type 0} → Option A → (A → Option B) → Option B
none >>= f = none
some a >>= f = f a

-- None of `n` addresses from `v` on is the kernel's own.
pub apart : (ℕ → Bool) → ℕ → ℕ → Bool
apart own zero v = true
apart own (suc n) v = not (own v) && apart own n ((v + 1) % 2 ^ 32)

-- `*(u8 *)v`, in the word around it.
pub load_byte : ℕ → Mem → Option ℕ
unfolding translate
load_byte v m = do a ← translate m (v / 4 * 4); some (m.phys a / 256 ^ (v % 4) % 256)

-- `n` bytes from an address on.
bytes_from : ℕ → ℕ → Mem → Option (List ℕ)
unfolding load_byte
bytes_from zero v m = some []
bytes_from (suc n) v m = do b ← load_byte v m; bs ← bytes_from n ((v + 1) % 2 ^ 32) m; some (b ∷ bs)

pub bytes_at : (ℕ → Bool) → ℕ → ℕ → Mem → Option (List ℕ)
unfolding apart bytes_from
bytes_at own n v m = if apart own n v then bytes_from n v m else none

-- The longest string that the model reads; a longer one is `none`.
abbrev pub max_string : ℕ
max_string = 4096

-- The bytes up to the NUL, with the bytes left to read.
string_from : ℕ → ℕ → Mem → Option (List ℕ)
unfolding load_byte
string_from zero v m = none
string_from (suc n) v m = do
  b ← load_byte v m
  let rest = do bs ← string_from n ((v + 1) % 2 ^ 32) m; some (b ∷ bs)
  if b == 0 then some [] else rest

pub string_at : (ℕ → Bool) → ℕ → Mem → Option (List ℕ)
unfolding string_from apart
string_at own v m = do
  s ← string_from max_string v m
  if apart own (length s + 1) v then some s else none

-- NULL stays NULL.
pub string_or_null : (ℕ → Bool) → ℕ → Mem → Option (Option (List ℕ))
unfolding string_at
string_or_null own v m = if v == 0 then some none else (do s ← string_at own v m; some (some s))

-- The memory after bytes have been stored at a pointer.
pub stored : (ℕ → Bool) → ℕ → List ℕ → Mem → Option Mem
unfolding apart
stored own v bs m =
    if apart own (length bs) v
    then elim (copy_bytes v bs m) [ none ↦ none | some (_, m') ↦ some m' ]
    else none
