-- ===== src/Syscall/Listing.antt =====
-- SYS_FS_LS of kernel/syscall.c: the names in the root directory, one to a line, in the caller's
-- buffer.
pub mod Laws
use sros.Prelude.{
  ℕ, zero, suc, ◌+◌, ◌++◌, Bool, true, false, not, ◌&&◌, Option, none, some, List, [], ◌∷◌, ltb,
  ◌==◌, if◌then◌else◌, length, get_elem?,
}
use sros.Sfs.{Fs, SfsInode, block_read}
use sros.Sfs.Codec.{Dentry}
use sros.Sfs.Inode.{sfs_read_inode}
use sros.Sfs.Dir.{c_string, same_string, dentry_at, dentries_per_block, root_ino}

-- The loop over a name's characters, with the `written` characters of the buffer so far.
write_name : ℕ → List ℕ → List ℕ → List ℕ
write_name buf_size written [] = written
write_name buf_size written (c ∷ cs) =
    let rest = write_name buf_size (written ++ c ∷ []) cs in
    if ltb (length written + 1) buf_size then rest else written

-- An entry that is in use and is neither "." nor "..".
abbrev pub is_listed : Dentry → Bool
is_listed d =
    not (d.ino == 0)
    && not (same_string (c_string d.name) (b'.' ∷ []))
    && not (same_string (c_string d.name) (b'.' ∷ b'.' ∷ []))

-- What is written so far, and `first`.
write_entry : ℕ → List ℕ → List ℕ × Bool → List ℕ × Bool
unfolding write_name
write_entry buf_size name (written, first) =
    let separated =
      if not first && ltb (length written + 1) buf_size then written ++ b'\n' ∷ [] else written in
    (write_name buf_size separated name, false)

-- The inner loop, with the entries left.
list_block : ℕ → ℕ → ℕ → List ℕ → List ℕ × Bool → List ℕ × Bool
unfolding write_entry
list_block zero di buf_size block st = st
list_block (suc n) di buf_size block st =
    let d = dentry_at di block in
    list_block n (di + 1) buf_size block
      (if is_listed d then write_entry buf_size (c_string d.name) st else st)

-- The outer loop, with the blocks left. `none` is a block number that is read outside its array.
list_blocks : ℕ → ℕ → ℕ → SfsInode → Fs → List ℕ × Bool → Option (List ℕ × Bool)
unfolding list_block
list_blocks zero bi buf_size dir f st = some st
list_blocks (suc n) bi buf_size dir f st = elim (get_elem? dir.blocks bi) [
  | none ↦ none
  | some b ↦
      list_blocks n (bi + 1) buf_size dir f
        (list_block dentries_per_block 0 buf_size (block_read b f.stale f) st)
]

-- The characters in the buffer, without the NUL that follows them where it fits. The result of
-- reading the inode is not checked: what stands on the stack then is `none`.
pub listed : ℕ → Fs → Option (List ℕ)
unfolding list_blocks
listed buf_size f = elim (sfs_read_inode root_ino f) [
  | none ↦ none
  | some dir ↦ elim (list_blocks dir.block_count 0 buf_size dir f ([], true)) [
    | none ↦ none
    | some (text, first) ↦ some text
  ]
]
