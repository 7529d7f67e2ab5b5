-- ===== src/Elf/Outcome.antt =====
-- The results of `elf_load_and_exec` in kernel/elf_loader.c.
use sros.Prelude.{
  ℕ, suc, ◌<◌, ◌-◌, ◌/◌, ◌%◌, ap, [], ◌∷◌, take, get_or, arith, ◌≡◌, refl, Bool, true, false,
  Option, none, some, List, if◌then◌else◌, Bool-cases, inl, inr,
}
use mathlib.Core.Path.{subst, ap₂}
use sros.Memory.{Mem, M, pure, ◌>>=◌, ◌>>◌}
use sros.Sfs.{Fs}
use sros.Elf.{Ehdr, elf_check_file, find_header}
use sros.Elf.Load.{Regs, entered, load_headers, setup_user_stack, load_from, elf_load_and_exec}

-- The header of an executable that the loader accepts.
abbrev pub accepted : Option (ℕ × Ehdr) → Option Ehdr
accepted none = none
accepted (some (ino, e)) = if elf_check_file e then some e else none

-- The header of a 32-bit executable for the 386, least significant byte first, with segments.
pub record IsExecutable (e : Ehdr) : Type 0 where
  pub magic : take 4 e.e_ident ≡ 0x7F ∷ b'E' ∷ b'L' ∷ b'F' ∷ []
  pub class : get_or e.e_ident 4 0 ≡ 1
  pub data_order : get_or e.e_ident 5 0 ≡ 1
  pub type_is : e.e_type ≡ 2
  pub machine_is : e.e_machine ≡ 3
  pub segments : 0 < e.e_phnum

-- The registers of a program that starts at its entry: interrupts are on, the other flags are as they
-- were, and the stack is empty.
pub record Starts (e : Ehdr) (r r' : Regs) : Type 0 where
  pub entry : r'.eip ≡ e.e_entry
  pub stack : r'.user_esp ≡ 0xE0000000
  pub interrupts : r'.eflags / 0x200 % 2 ≡ 1
  pub low_flags : r'.eflags % 0x200 ≡ r.eflags % 0x200
  pub high_flags : r'.eflags / 0x400 ≡ r.eflags / 0x400
  pub clean :
      (r'.eax ≡ 0)
      × (r'.ebx ≡ 0)
      × (r'.ecx ≡ 0)
      × (r'.edx ≡ 0)
      × (r'.esi ≡ 0)
      × (r'.edi ≡ 0)
      × (r'.ebp ≡ 0)

entered-Starts : (e : Ehdr) (r : Regs) → Starts e r (entered e r)
entered-Starts e r = record {
  entry = refl;
  stack = refl;
  interrupts = ground arith;
  low_flags = ground arith;
  high_flags = ground arith;
  clean = (refl, refl, refl, refl, refl, refl, refl);
}

-- The first bytes of a list, by their places.
take-four :
    (xs : List ℕ) (a b c d : ℕ)
    → get_or xs 0 0 ≡ suc a
    → get_or xs 1 0 ≡ suc b
    → get_or xs 2 0 ≡ suc c
    → get_or xs 3 0 ≡ suc d
    → take 4 xs ≡ suc a ∷ suc b ∷ suc c ∷ suc d ∷ []
take-four [] a b c d p q r s = absurd (omega arith)
take-four (x ∷ []) a b c d p q r s = absurd (omega arith)
take-four (x ∷ y ∷ []) a b c d p q r s = absurd (omega arith)
take-four (x ∷ y ∷ z ∷ []) a b c d p q r s = absurd (omega arith)
take-four (x ∷ y ∷ z ∷ w ∷ xs) a b c d p q r s =
    ap₂ ◌∷◌ p (ap₂ ◌∷◌ q (ap₂ ◌∷◌ r (ap (λ t. t ∷ []) s)))

elf_check_file-IsExecutable : (e : Ehdr) → elf_check_file e ≡ true → IsExecutable e
unfolding elf_check_file
elf_check_file-IsExecutable e h = record {
  magic =
      take-four e.e_ident 0x7E (b'E' - 1) (b'L' - 1) (b'F' - 1) (ground arith) (ground arith)
        (ground arith) (ground arith);
  class = ground arith;
  data_order = ground arith;
  type_is = ground arith;
  machine_is = ground arith;
  segments = ground arith;
}

-- -1 leaves the registers alone; 0 means that the file has an executable's header, and that the
-- registers start the program.
abbrev pub Outcome : Option (ℕ × Ehdr) → Regs → Bool → Regs → Type 0
Outcome o r true r' = (ino : ℕ) × (e : Ehdr) × (o ≡ some (ino, e)) × IsExecutable e × Starts e r r'
Outcome o r false r' = r' ≡ r

abbrev Ended : Type 0
Ended = (Bool × Regs) × Mem

some-inj : (p q : Ended) → some p ≡ some q → p ≡ q
some-inj p q e = cc

module _ {A : Type 0} (k : A → M (Bool × Regs)) (q : Ended) where
  bind_by :
      (o : Option (A × Mem))
      → elim o [ none ↦ none | some (a, m') ↦ k a m' ] ≡ some q
      → (a : A) × (m' : Mem) × (o ≡ some (a, m')) × (k a m' ≡ some q)
  bind_by none h = cc
  bind_by (some (a, m')) h = (a, m', refl, h)

  -- A sequence that ends has a first part that ends.
  bind_ends :
      (f : M A) (m : Mem)
      → (f >>= k) m ≡ some q
      → (a : A) × (m' : Mem) × (f m ≡ some (a, m')) × (k a m' ≡ some q)
  bind_ends f m h = bind_by (f m) h

-- A run that has ended with `p`.
Ended-Outcome :
    (o : Option (ℕ × Ehdr)) (r : Regs) (p q : Ended)
    → some p ≡ some q
    → Outcome o r p.0.0 p.0.1
    → Outcome o r q.0.0 q.0.1
Ended-Outcome o r p q e h = subst (λ (k : Ended). Outcome o r k.0.0 k.0.1) (some-inj p q e) h

-- The last steps, by the result of the loop over the program headers.
abbrev finish : Ehdr → Regs → Bool → M (Bool × Regs)
finish e r ok = if ok then setup_user_stack >> pure (true, entered e r) else pure (false, r)

finish-Outcome :
    (ino : ℕ) (e : Ehdr) (r : Regs) (ok : Bool) (m : Mem) (q : Ended)
    → IsExecutable e
    → finish e r ok m ≡ some q
    → Outcome (some (ino, e)) r q.0.0 q.0.1
finish-Outcome ino e r false m q v h = Ended-Outcome (some (ino, e)) r ((false, r), m) q h refl
finish-Outcome ino e r true m q v h =
    let (a, m', given, rest) = bind_ends (λ _. pure (true, entered e r)) q setup_user_stack m h in
    Ended-Outcome (some (ino, e)) r ((true, entered e r), m') q rest
      (ino, e, refl, v, entered-Starts e r)

checked-Outcome :
    (found : Option (ℕ × Ehdr)) (r : Regs) (f : Fs) (m : Mem) (q : Ended)
    → load_from found r f m ≡ some q
    → Outcome found r q.0.0 q.0.1
unfolding load_from
checked-Outcome none r f m q h = Ended-Outcome none r ((false, r), m) q h refl
checked-Outcome (some (ino, e)) r f m q h = elim (Bool-cases (elf_check_file e)) [
  | inl good ↦
      let (ok, m', given, rest) =
        bind_ends (finish e r) q (load_headers e.e_phnum 0 ino e.e_phoff f) m (rw good at h) in
      finish-Outcome ino e r ok m' q (elf_check_file-IsExecutable e good) rest
  | inr bad ↦ Ended-Outcome (some (ino, e)) r ((false, r), m) q (rw bad at h) refl
]

-- Whenever elf_load_and_exec ends, a result of -1 leaves the registers as they were. A result of 0
-- means that the path names a file with the header of a little-endian 32-bit executable for the
-- 386 with segments, and the registers start the program: eip is its entry, the stack pointer is
-- 0xE0000000, the interrupt flag is set and the other flags are as before, and the general
-- registers are 0.
pub elf_load_and_exec-Outcome :
    (path : List ℕ) (r : Regs) (f : Fs) (m : Mem) (b : Bool) (r' : Regs) (m' : Mem)
    → elf_load_and_exec path r f m ≡ some ((b, r'), m')
    → Outcome (find_header path f) r b r'
unfolding elf_load_and_exec
elf_load_and_exec-Outcome path r f m b r' m' h =
    checked-Outcome (find_header path f) r f m ((b, r'), m') h

load_from-rejects :
    (found : Option (ℕ × Ehdr)) (r : Regs) (f : Fs) (m : Mem)
    → accepted found ≡ none
    → load_from found r f m ≡ some ((false, r), m)
unfolding load_from
load_from-rejects none r f m h = refl
load_from-rejects (some (ino, e)) r f m h = elim (Bool-cases (elf_check_file e)) [
  | inl good ↦ cc (rw good at h)
  | inr bad ↦ rw bad refl
]

-- If the path is empty, names no file, or the file is shorter than a header or has one that a
-- check refuses, elf_load_and_exec ends with -1, with registers and memory unchanged.
pub elf_load_and_exec_rejects :
    (path : List ℕ) (r : Regs) (f : Fs) (m : Mem)
    → accepted (find_header path f) ≡ none
    → elf_load_and_exec path r f m ≡ some ((false, r), m)
unfolding elf_load_and_exec
elf_load_and_exec_rejects path r f m h = load_from-rejects (find_header path f) r f m h
