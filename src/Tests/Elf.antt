-- ===== src/Tests/Elf.antt =====
-- A disk whose file system has no inode for the root directory.
use sros.Prelude.{ℕ, ◌≡◌, refl, true, false, none, List, [], ◌∷◌, replicate}
use sros.Sfs.{Fs}
use sros.Sfs.Calls.{path_parse}
use sros.Sfs.Dir.{sfs_lookup}
use sros.Sfs.Inode.{sfs_read_inode}
use sros.Elf.{find_header}
use sros.Elf.Load.{Regs}
use sros.Elf.Outcome.{accepted, Outcome, elf_load_and_exec-Outcome, elf_load_and_exec_rejects}
use sros.Tests.Scheduler.{empty_mem}

abbrev no_inodes : Fs
no_inodes = record {
  disk = λ n. replicate 4096 0;
  serves = λ n. true;
  stale = [];
  beyond = λ i. 0;
  sb = record {
    magic = 0x53465321;
    total_blocks = 1024;
    inode_count = 1;
    inode_bitmap_start = 1;
    block_bitmap_start = 2;
    inode_table_start = 3;
    data_block_start = 10;
  };
  mounted = true;
  file_table = [];
}

abbrev pub calling : Regs
calling = record {
  eax = 13;
  ebx = 0x400100;
  ecx = 0;
  edx = 0;
  esi = 0;
  edi = 0;
  ebp = 0;
  eip = 0x400000;
  eflags = 2;
  user_esp = 0xDFFFFF00;
}

-- "/sh"
abbrev path : List ℕ
path = b'/' ∷ b's' ∷ b'h' ∷ []

not_found : accepted (find_header path no_inodes) ≡ none
unfolding find_header path_parse sfs_lookup sfs_read_inode
not_found = refl

elf_load_example : Outcome (find_header path no_inodes) calling false calling
elf_load_example =
    elf_load_and_exec-Outcome path calling no_inodes empty_mem false calling empty_mem
      (elf_load_and_exec_rejects path calling no_inodes empty_mem not_found)
