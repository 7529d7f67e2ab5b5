-- ===== src/Sfs/Calls.antt =====
-- fs/sfs.c: the calls on paths and file descriptors. A descriptor or a count of type `int` is an
-- integer, and a result of -1 is `none`.
use sros.Prelude.{
  ℕ, ◌+◌, ◌%◌, ◌^◌, true, false, not, ◌&&◌, Option, none, some, List, [], ◌∷◌, ltb, ◌==◌,
  if◌then◌else◌, get_or, modify, find_index, length, ℤ, pos, negsuc, to_u32,
}
use sros.Sfs.{Fs, SfsInode, OpenFile}
use sros.Sfs.Inode.{sfs_read_inode, sfs_write_inode}
use sros.Sfs.Dir.{sfs_lookup, max_files, root_ino}
use sros.Sfs.File.{sfs_read_file, sfs_write_file}

-- The path without its leading slashes; `none` for a path with nothing else. NULL is `none`.
pub strip_slashes : List ℕ → List ℕ
strip_slashes [] = []
strip_slashes (c ∷ cs) = let rest = strip_slashes cs in if c == b'/' then rest else c ∷ cs

non_empty : List ℕ → Option (List ℕ)
non_empty [] = none
non_empty (c ∷ cs) = some (c ∷ cs)

-- The parent is the root directory in every case.
unfoldable pub path_parse : Option (List ℕ) → Option (List ℕ)
unfolding strip_slashes non_empty
path_parse none = none
path_parse (some path) = non_empty (strip_slashes path)

abbrev pub no_file : OpenFile
no_file = record { ino = 0; offset = 0; mode = 0; in_use = false }

abbrev pub file_at : Fs → ℕ → OpenFile
file_at f fd = get_or f.file_table fd no_file

-- `file_table[fd].f = …`
abbrev pub update_file : ℕ → (OpenFile → OpenFile) → Fs → Fs
update_file fd g f = record f { file_table = modify f.file_table fd g }

open_slot : ℕ → Option ℕ → Fs → Option ℕ × Fs
open_slot ino none f = (none, f)
open_slot ino (some fd) f =
    (some fd, update_file fd (λ _. record { ino = ino; offset = 0; mode = 2; in_use = true }) f)

open_inode : Option ℕ → Fs → Option ℕ × Fs
unfolding open_slot
open_inode none f = (none, f)
open_inode (some ino) f = open_slot ino (find_index (λ (o : OpenFile). not o.in_use) f.file_table) f

open_name : Option (List ℕ) → Fs → Option ℕ × Fs
unfolding open_inode
open_name none f = (none, f)
open_name (some name) f = open_inode (sfs_lookup root_ino name f) f

pub sys_open : Option (List ℕ) → Fs → Option ℕ × Fs
unfolding open_name path_parse
sys_open path f = if f.mounted then open_name (path_parse path) f else (none, f)

-- The check of a descriptor: its slot, if that is in use.
pub valid_fd : ℤ → Fs → Option ℕ
valid_fd (negsuc n) f = none
valid_fd (pos fd) f = if ltb fd max_files && (file_at f fd).in_use then some fd else none

-- `file_table[fd].offset += n` on a u32.
abbrev pub advance : ℕ → ℕ → Fs → Fs
advance fd n f = update_file fd (λ o. record o { offset = (o.offset + n) % 2 ^ 32 }) f

read_inode : ℕ → ℕ → Option SfsInode → Fs → Option (List ℕ) × Fs
read_inode fd count none f = (none, f)
read_inode fd count (some inode) f =
    let bytes = sfs_read_file inode count (file_at f fd).offset f in
    (some bytes, advance fd (length bytes) f)

read_fd : Option ℕ → ℕ → Fs → Option (List ℕ) × Fs
unfolding read_inode
read_fd none count f = (none, f)
read_fd (some fd) count f = read_inode fd count (sfs_read_inode (file_at f fd).ino f) f

-- The bytes that reach the buffer; their number is the result. A negative count becomes a large u32.
pub sys_read : ℤ → ℤ → Fs → Option (List ℕ) × Fs
unfolding read_fd valid_fd
sys_read fd count f = read_fd (valid_fd fd f) (to_u32 count) f

write_inode : ℕ → List ℕ → Option SfsInode → Fs → Option ℕ × Fs
write_inode fd bs none f = (none, f)
write_inode fd bs (some inode) f =
    let w = sfs_write_file inode bs (file_at f fd).offset f in
    (some w.done, (sfs_write_inode w.inode (advance fd w.done w.fs)).1)

write_fd : Option ℕ → List ℕ → Fs → Option ℕ × Fs
unfolding write_inode
write_fd none bs f = (none, f)
write_fd (some fd) bs f = write_inode fd bs (sfs_read_inode (file_at f fd).ino f) f

-- `bs` is the `count` bytes of the buffer.
pub sys_write : ℤ → List ℕ → Fs → Option ℕ × Fs
unfolding write_fd valid_fd
sys_write fd bs f = write_fd (valid_fd fd f) bs f

pub sys_close : ℤ → Fs → Fs
sys_close (negsuc n) f = f
sys_close (pos fd) f =
    if ltb fd max_files then update_file fd (λ o. record o { in_use = false }) f else f
