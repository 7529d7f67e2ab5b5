-- ===== src/Elf.antt =====
-- kernel/elf_loader.c with include/elf.h: the headers of an ELF file, the loading of its segments
-- into the address space, and the registers that a program starts with.
pub mod Load
pub mod Outcome
use sros.Prelude.{
  ℕ, ◌+◌, ◌*◌, ◌/◌, ◌%◌, ◌^◌, Bool, true, false, ◌&&◌, not, Option, none, some, List, [], ◌∷◌, leb,
  ◌==◌, if◌then◌else◌, length, get_or, take,
}
use sros.Sfs.{Fs, SfsInode}
use sros.Sfs.Codec.{read32}
use sros.Sfs.Inode.{sfs_read_inode}
use sros.Sfs.Dir.{sfs_lookup, root_ino}
use sros.Sfs.File.{sfs_read_file}
use sros.Sfs.Calls.{path_parse}

-- The fields of `Elf32_Ehdr` that the loader reads.
pub record Ehdr : Type 0 where
  pub e_ident : List ℕ
  pub e_type : ℕ
  pub e_machine : ℕ
  pub e_entry : ℕ
  pub e_phoff : ℕ
  pub e_phnum : ℕ

-- The fields of `Elf32_Phdr` that the loader reads.
pub record Phdr : Type 0 where
  pub p_type : ℕ
  pub p_offset : ℕ
  pub p_vaddr : ℕ
  pub p_filesz : ℕ
  pub p_memsz : ℕ

abbrev pub ehdr_size : ℕ
ehdr_size = 52

abbrev pub phdr_size : ℕ
phdr_size = 32

abbrev pub read16 : ℕ → List ℕ → ℕ
read16 off bs = get_or bs off 0 + get_or bs (off + 1) 0 * 256

unfoldable pub ehdr_of : List ℕ → Ehdr
ehdr_of bs = record {
  e_ident = take 16 bs;
  e_type = read16 16 bs;
  e_machine = read16 18 bs;
  e_entry = read32 24 bs;
  e_phoff = read32 28 bs;
  e_phnum = read16 44 bs;
}

unfoldable pub phdr_of : List ℕ → Phdr
phdr_of bs = record {
  p_type = read32 0 bs;
  p_offset = read32 4 bs;
  p_vaddr = read32 8 bs;
  p_filesz = read32 16 bs;
  p_memsz = read32 20 bs;
}

-- A byte of `e_ident`.
abbrev pub ident : Ehdr → ℕ → ℕ
ident e i = get_or e.e_ident i 0

-- 0x7F "ELF", 32 bits, least significant byte first, an executable for the 386, with segments.
unfoldable pub elf_check_file : Ehdr → Bool
elf_check_file e =
    (ident e 0 == 0x7F)
    && ((ident e 1 == b'E')
        && ((ident e 2 == b'L')
            && ((ident e 3 == b'F')
                && ((ident e 4 == 1)
                    && ((ident e 5 == 1)
                        && ((e.e_type == 2) && ((e.e_machine == 3) && not (e.e_phnum == 0))))))))

read_inode_at : Option SfsInode → ℕ → ℕ → Fs → Option (List ℕ)
read_inode_at none size offset f = none
read_inode_at (some inode) size offset f = some (sfs_read_file inode size offset f)

-- The bytes that reach the buffer; `none` is the result -1.
unfoldable pub read_file_at : ℕ → ℕ → ℕ → Fs → Option (List ℕ)
unfolding read_inode_at
read_file_at ino size offset f = read_inode_at (sfs_read_inode ino f) size offset f

-- The whole of a structure of `size` bytes; a short read is `none`.
unfoldable pub read_struct : ℕ → ℕ → ℕ → Fs → Option (List ℕ)
unfolding read_file_at
read_struct ino size offset f = elim (read_file_at ino size offset f) [
  | none ↦ none
  | some bs ↦ if leb size (length bs) then some bs else none
]

-- Steps 1 and 2: the inode of the file and its header; `none` is the result -1.
abbrev header_at : Option ℕ → Fs → Option (ℕ × Ehdr)
header_at none f = none
header_at (some ino) f = elim (read_struct ino ehdr_size 0 f) [
  | none ↦ none
  | some bs ↦ some (ino, ehdr_of bs)
]

abbrev named : Option (List ℕ) → Fs → Option ℕ
named none f = none
named (some name) f = sfs_lookup root_ino name f

unfoldable pub find_header : List ℕ → Fs → Option (ℕ × Ehdr)
unfolding read_struct
find_header path f = header_at (named (path_parse (some path)) f) f
