-- ===== src/Descriptors.antt =====
-- kernel/gdt.c and kernel/idt.c: the tables of segment descriptors and of interrupt gates. The
-- addresses of the TSS and of the assembly entry points are parameters.
pub mod Segments
pub mod Laws
use sros.Prelude.{ℕ, ◌+◌, ◌-◌, ◌*◌, ◌/◌, ◌%◌, ◌^◌, List, [], ◌∷◌, replicate, set}

-- `struct gdt_entry`
pub record GdtEntry : Type 0 where
  pub limit_low : ℕ
  pub base_low : ℕ
  pub base_middle : ℕ
  pub access : ℕ
  pub granularity : ℕ
  pub base_high : ℕ

-- `gdt[idx]` with the fields that `gdt_set_entry` writes: all of them.
unfoldable pub gdt_set_entry : ℕ → ℕ → ℕ → ℕ → ℕ → List GdtEntry → List GdtEntry
gdt_set_entry idx base limit access gran gdt = set gdt idx (record {
  limit_low = limit % 65536;
  base_low = base % 65536;
  base_middle = base / 65536 % 256;
  access = access;
  granularity = limit / 65536 % 16 + gran / 16 % 16 * 16;
  base_high = base / 16777216 % 256;
})

-- `struct tss`
pub record Tss : Type 0 where
  pub prev_tss : ℕ
  pub esp0 : ℕ
  pub ss0 : ℕ
  pub esp1 : ℕ
  pub ss1 : ℕ
  pub esp2 : ℕ
  pub ss2 : ℕ
  pub cr3 : ℕ
  pub eip : ℕ
  pub eflags : ℕ
  pub eax : ℕ
  pub ecx : ℕ
  pub edx : ℕ
  pub ebx : ℕ
  pub esp : ℕ
  pub ebp : ℕ
  pub esi : ℕ
  pub edi : ℕ
  pub es : ℕ
  pub cs : ℕ
  pub ss : ℕ
  pub ds : ℕ
  pub fs : ℕ
  pub gs : ℕ
  pub ldt : ℕ
  pub trap : ℕ
  pub iomap_base : ℕ

-- `sizeof(struct tss)`
abbrev pub tss_size : ℕ
tss_size = 104

unfoldable pub tss_init : Tss → Tss
tss_init tss = record {
  prev_tss = 0;
  esp0 = 0x20000;
  ss0 = 0x10;
  esp1 = 0;
  ss1 = 0;
  esp2 = 0;
  ss2 = 0;
  cr3 = 0;
  eip = 0;
  eflags = 0;
  eax = 0;
  ecx = 0;
  edx = 0;
  ebx = 0;
  esp = 0;
  ebp = 0;
  esi = 0;
  edi = 0;
  es = 0;
  cs = tss.cs;
  ss = tss.ss;
  ds = tss.ds;
  fs = tss.fs;
  gs = tss.gs;
  ldt = tss.ldt;
  trap = tss.trap;
  iomap_base = tss_size;
}

-- The empty descriptor, kernel code and data, user code and data, and the TSS.
unfoldable pub gdt_init : ℕ → List GdtEntry → List GdtEntry
unfolding gdt_set_entry
gdt_init tss_address gdt = gdt_set_entry 5 tss_address (tss_size - 1) 0x89 0x00 (
    gdt_set_entry 4 0 0xFFFFF 0xF2 0xCF (
      gdt_set_entry 3 0 0xFFFFF 0xFA 0xCF (
        gdt_set_entry 2 0 0xFFFFF 0x92 0xCF
          (gdt_set_entry 1 0 0xFFFFF 0x9A 0xCF (gdt_set_entry 0 0 0 0 0 gdt)))))

-- `struct idt_entry`
pub record IdtEntry : Type 0 where
  pub offset_low : ℕ
  pub selector : ℕ
  pub zero_byte : ℕ
  pub type_attr : ℕ
  pub offset_high : ℕ

unfoldable pub idt_set_gate : ℕ → ℕ → ℕ → ℕ → List IdtEntry → List IdtEntry
idt_set_gate vector handler selector type_attr idt = set idt vector (record {
  offset_low = handler % 65536;
  selector = selector;
  zero_byte = 0;
  type_attr = type_attr;
  offset_high = handler / 65536 % 65536;
})

abbrev pub no_gate : IdtEntry
no_gate = record { offset_low = 0; selector = 0; zero_byte = 0; type_attr = 0; offset_high = 0 }

-- The vectors that get an interrupt gate for the kernel.
abbrev pub kernel_vectors : List ℕ
kernel_vectors =
    0 ∷ 1 ∷ 3 ∷ 4 ∷ 6 ∷ 7 ∷ 8 ∷ 10 ∷ 11 ∷ 12 ∷ 13 ∷ 14 ∷ 16 ∷ 17 ∷ 18 ∷ 19 ∷ 32 ∷ 33 ∷ 34 ∷ 35 ∷ 36
    ∷ 37 ∷ 38 ∷ 39 ∷ 40 ∷ 41 ∷ 42 ∷ 43 ∷ 44 ∷ 45 ∷ 46 ∷ 47 ∷ []

-- The gates for `isr` at the vectors of a list, in its order.
unfoldable pub set_gates : (ℕ → ℕ) → List ℕ → List IdtEntry → List IdtEntry
unfolding idt_set_gate
set_gates isr [] idt = idt
set_gates isr (v ∷ vs) idt = set_gates isr vs (idt_set_gate v (isr v) 0x08 0x8E idt)

-- The last gate is the trap gate of the system call, which a user program may enter.
unfoldable pub idt_init : (ℕ → ℕ) → List IdtEntry
unfolding set_gates idt_set_gate
idt_init isr =
    idt_set_gate 128 (isr 128) 0x08 0xEF (set_gates isr kernel_vectors (replicate 256 no_gate))
