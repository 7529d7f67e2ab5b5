-- ===== src/Memory.antt =====
-- The machine that the kernel runs on, as far as its code relies on it: physical memory as 32-bit
-- words at addresses that are multiples of 4, CR3, the paging bit of CR0, and the translation of
-- the x86 manual (no TLB: the code reloads CR3 or issues `invlpg` where it changes an entry). With
-- it stands the pool of free page frames of kernel/paging.c, since the same code works on both.
use sros.Prelude.{
  ℕ, zero, suc, ◌+◌, ◌*◌, ◌/◌, ◌%◌, ◌^◌, Bool, Option, none, some, List, if◌then◌else◌, ◌==◌,
}

pub record Mem : Type 0 where
  pub phys : ℕ → ℕ
  pub cr3 : ℕ
  pub paging_on : Bool
  pub page_frames : List ℕ
  pub page_frame_count : ℕ

-- A run that ends in `none` has panicked: out of memory, a page fault, or a write outside an array.
abbrev pub M : Type 0 → Type 0
M A = Mem → Option (A × Mem)

abbrev pub pure : {A : Type 0} → A → M A
pure a m = some (a, m)

abbrev pub panic : {A : Type 0} → M A
panic m = none

infixl 5 ◌>>=◌ ◌>>◌
abbrev pub ◌>>=◌ : {A B : Type 0} → M A → (A → M B) → M B
◌>>=◌ f k m = elim (f m) [ none ↦ none | some (a, m') ↦ k a m' ]

abbrev pub ◌>>◌ : {B : Type 0} → M (Unit {0}) → M B → M B
f >> k = f >>= λ _. k

-- for (k = i; k < i + n; k++)
unfoldable pub for_range : ℕ → ℕ → (ℕ → M (Unit {0})) → M (Unit {0})
for_range zero i body = pure tt
for_range (suc n) i body = body i >> for_range n (i + 1) body

-- `x & 0xFFFFF000` on a u32
abbrev pub page_base : ℕ → ℕ
page_base x = x / 4096 * 4096

-- `x >> 22` and `(x >> 12) & 0x3FF`
abbrev pub dir_index : ℕ → ℕ
dir_index v = v / 2 ^ 22

abbrev pub table_index : ℕ → ℕ
table_index v = v / 4096 % 1024

-- `x & 1`, the Present bit
abbrev pub is_present : ℕ → Bool
is_present e = e % 2 == 1

-- `x & 4`, the User bit
abbrev pub is_user : ℕ → Bool
is_user e = e / 4 % 2 == 1

-- The physical address behind a virtual one; `none` is a page fault.
abbrev pub frame_offset : ℕ → ℕ → Option ℕ
frame_offset entry v = if is_present entry then some (page_base entry + v % 4096) else none

unfoldable pub walk : (ℕ → ℕ) → ℕ → ℕ → Option ℕ
walk phys dir v =
    let pde = phys (page_base dir + dir_index v * 4) in
    if is_present pde then frame_offset (phys (page_base pde + table_index v * 4)) v else none

unfoldable pub translate : Mem → ℕ → Option ℕ
unfolding walk
translate m v = if m.paging_on then walk m.phys m.cr3 v else some v

abbrev pub write_phys : (ℕ → ℕ) → ℕ → ℕ → ℕ → ℕ
write_phys f a w b = if b == a then w else f b

-- `*(u32 *)v`
unfoldable pub load : ℕ → M ℕ
unfolding translate
load v m = elim (translate m v) [ none ↦ none | some a ↦ some (m.phys a, m) ]

-- `*(u32 *)v = w`
unfoldable pub store : ℕ → ℕ → M (Unit {0})
unfolding translate
store v w m = elim (translate m v) [
  | none ↦ none
  | some a ↦ some (tt, record m { phys = write_phys m.phys a w })
]
