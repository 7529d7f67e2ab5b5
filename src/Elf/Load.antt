-- ===== src/Elf/Load.antt =====
-- The segments, the stack and the registers of a program in kernel/elf_loader.c.
use sros.Prelude.{
  ℕ, zero, suc, ◌+◌, ◌-◌, ◌*◌, ◌/◌, ◌%◌, ◌^◌, ◌++◌, Bool, true, false, Option, none, some, List, [],
  ◌∷◌, ltb, ◌==◌, if◌then◌else◌, replicate, take,
}
use sros.Memory.{
  M, pure, panic, ◌>>=◌, ◌>>◌, for_range, page_base, dir_index, table_index, is_present, load,
  store,
}
use sros.Paging.{paging_alloc_page, self_map}
use sros.Sfs.{Fs}
use sros.Elf.{
  Ehdr, Phdr, phdr_of, phdr_size, elf_check_file, read_file_at, read_struct, find_header,
}

-- `*(u8 *)v = b`, in the word around it.
store_byte : ℕ → ℕ → M (Unit {0})
unfolding load store
store_byte v b = do
  w ← load (v / 4 * 4)
  let p = 256 ^ (v % 4)
  store (v / 4 * 4) (w / (p * 256) * (p * 256) + b * p + w % p)

unfoldable pub copy_bytes : ℕ → List ℕ → M (Unit {0})
unfolding store_byte
copy_bytes v [] = pure tt
copy_bytes v (b ∷ bs) = store_byte v b >> copy_bytes (v + 1) bs

-- The bytes of a page from an address on, at most `left`.
abbrev pub part : ℕ → ℕ → ℕ
part v left = if ltb left (4096 - v % 4096) then left else 4096 - v % 4096

-- The loop over the file's part of a segment; each round takes at least one byte. The result says
-- whether every read succeeded. A page beyond the bytes read holds zeros.
load_file : ℕ → ℕ → ℕ → ℕ → ℕ → Fs → M Bool
unfolding paging_alloc_page copy_bytes read_file_at
load_file zero ino v off left f = if left == 0 then pure true else panic
load_file (suc rounds) ino v off left f =
    let n = part v left in
    if left == 0
    then pure true
    else paging_alloc_page (page_base v) >> elim (read_file_at ino n off f) [
      | none ↦ pure false
      | some bs ↦
          copy_bytes v (take n (bs ++ replicate 4096 0))
          >> load_file rounds ino ((v + n) % 2 ^ 32) ((off + n) % 2 ^ 32) (left - n) f
    ]

-- A page of the .bss that has no frame yet gets one.
provide_page : ℕ → M (Unit {0})
unfolding load paging_alloc_page
provide_page v m =
    (do
      pde ← load (m.cr3 + dir_index v * 4)
      if is_present pde
          then (do
            pte ← load (self_map (dir_index v) + table_index v * 4)
            if is_present pte then pure tt else paging_alloc_page (page_base v))
          else paging_alloc_page (page_base v))
      m

zero_bss : ℕ → ℕ → ℕ → M (Unit {0})
unfolding provide_page copy_bytes
zero_bss zero v left = if left == 0 then pure tt else panic
zero_bss (suc rounds) v left =
    let n = part v left in
    if left == 0
    then pure tt
    else provide_page v
      >> (copy_bytes v (replicate n 0) >> zero_bss rounds ((v + n) % 2 ^ 32) (left - n))

-- `memsz - filesz` wraps.
abbrev pub bss_size : Phdr → ℕ
bss_size p = (p.p_memsz + 2 ^ 32 - p.p_filesz) % 2 ^ 32

unfoldable pub load_segment : ℕ → Phdr → Fs → M Bool
unfolding load_file zero_bss
load_segment ino p f = do
  ok ← load_file p.p_filesz ino p.p_vaddr p.p_offset p.p_filesz f
  if ok
      then zero_bss (bss_size p) ((p.p_vaddr + p.p_filesz) % 2 ^ 32) (bss_size p) >> pure true
      else pure false

abbrev pub user_stack_vaddr : ℕ
user_stack_vaddr = 0xE0000000

unfoldable pub setup_user_stack : M (Unit {0})
unfolding for_range paging_alloc_page
setup_user_stack = for_range 4 0 λ i. paging_alloc_page (user_stack_vaddr - (i + 1) * 0x1000)

-- PT_LOAD
abbrev pub pt_load : ℕ
pt_load = 1

-- The loop over `n` program headers from the `i`-th on; the result says whether all were loaded.
unfoldable pub load_headers : ℕ → ℕ → ℕ → ℕ → Fs → M Bool
unfolding load_segment read_struct
load_headers zero i ino phoff f = pure true
load_headers (suc n) i ino phoff f =
    elim (read_struct ino phdr_size ((phoff + i * phdr_size) % 2 ^ 32) f) [
      | none ↦ pure false
      | some bs ↦
          if (phdr_of bs).p_type == pt_load
          then (do
            ok ← load_segment ino (phdr_of bs) f
            if ok then load_headers n (i + 1) ino phoff f else pure false)
          else load_headers n (i + 1) ino phoff f
    ]

-- The fields of `registers_t` that the loader writes.
pub record Regs : Type 0 where
  pub eax : ℕ
  pub ebx : ℕ
  pub ecx : ℕ
  pub edx : ℕ
  pub esi : ℕ
  pub edi : ℕ
  pub ebp : ℕ
  pub eip : ℕ
  pub eflags : ℕ
  pub user_esp : ℕ

-- `flags | 0x200`
abbrev pub set_if : ℕ → ℕ
set_if flags = if flags / 0x200 % 2 == 1 then flags else flags + 0x200

-- Steps 6 and 7.
abbrev pub entered : Ehdr → Regs → Regs
entered e r = record {
  eax = 0;
  ebx = 0;
  ecx = 0;
  edx = 0;
  esi = 0;
  edi = 0;
  ebp = 0;
  eip = e.e_entry;
  eflags = set_if r.eflags;
  user_esp = user_stack_vaddr;
}

-- Steps 3 to 7. The result is 0 for `true` and -1 for `false`.
unfoldable pub load_from : Option (ℕ × Ehdr) → Regs → Fs → M (Bool × Regs)
unfolding load_headers setup_user_stack elf_check_file
load_from none r f = pure (false, r)
load_from (some (ino, e)) r f =
    if elf_check_file e
    then (do
      ok ← load_headers e.e_phnum 0 ino e.e_phoff f
      if ok then setup_user_stack >> pure (true, entered e r) else pure (false, r))
    else pure (false, r)

unfoldable pub elf_load_and_exec : List ℕ → Regs → Fs → M (Bool × Regs)
unfolding load_from find_header
elf_load_and_exec path r f = load_from (find_header path f) r f
