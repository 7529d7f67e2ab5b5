-- ===== src/Sfs/Dir.antt =====
-- fs/sfs.c: the directories.
use sros.Prelude.{
  ℕ, zero, suc, ◌+◌, ◌-◌, ◌*◌, ◌%◌, ◌^◌, ◌++◌, Bool, true, false, not, ◌&&◌, Option, none, some,
  List, [], ◌∷◌, leb, ◌==◌, if◌then◌else◌, set, take, drop, replicate, length,
}
use sros.Sfs.{block_no, Fs, SfsInode, block_read, block_write, slice, splice, fs_block_size}
use sros.Sfs.Codec.{Dentry, dentry_bytes, dentry_of, dentry_size, max_filename}
use sros.Sfs.Bitmap.{sfs_alloc_block, sfs_alloc_inode, sfs_free_inode}
use sros.Sfs.Inode.{sfs_read_inode, sfs_write_inode}

abbrev pub sfs_file : ℕ
sfs_file = 0

abbrev pub sfs_dir : ℕ
sfs_dir = 1

abbrev pub root_ino : ℕ
root_ino = 1

abbrev pub max_files : ℕ
max_files = 16

abbrev pub direct_blocks : ℕ
direct_blocks = 12

abbrev pub dentries_per_block : ℕ
dentries_per_block = 128

abbrev pub zero_block : List ℕ
zero_block = replicate fs_block_size 0

-- The C string at the start of an array of bytes, up to the NUL or the array's end.
unfoldable pub c_string : List ℕ → List ℕ
c_string [] = []
c_string (c ∷ cs) = let rest = c_string cs in if c == 0 then [] else c ∷ rest

-- `strcmp(…) == 0` on two C strings.
unfoldable pub same_string : List ℕ → List ℕ → Bool
same_string [] [] = true
same_string [] (b ∷ t) = false
same_string (a ∷ s) [] = false
same_string (a ∷ s) (b ∷ t) = (a == b) && same_string s t

-- The entry `di` of a directory block.
abbrev pub dentry_at : ℕ → List ℕ → Dentry
dentry_at di block = dentry_of (slice (di * dentry_size) dentry_size block)

-- The inner loop of `sfs_lookup`: the inode of the entry with the name.
lookup_in_block : ℕ → ℕ → List ℕ → List ℕ → Option ℕ
unfolding c_string same_string
lookup_in_block zero di block name = none
lookup_in_block (suc n) di block name =
    let rest = lookup_in_block n (di + 1) block name in
    let d = dentry_at di block in
    if not (d.ino == 0) && same_string (c_string d.name) name then some d.ino else rest

-- The outer loop, with the blocks left and the buffer.
lookup_in_blocks : ℕ → ℕ → SfsInode → List ℕ → List ℕ → Fs → Option ℕ
unfolding lookup_in_block
lookup_in_blocks zero bi dir buf name f = none
lookup_in_blocks (suc n) bi dir buf name f =
    let block = block_read (block_no dir bi f) buf f in
    let rest = lookup_in_blocks n (bi + 1) dir block name f in
    elim (lookup_in_block dentries_per_block 0 block name) [ none ↦ rest | some ino ↦ some ino ]

lookup_dir : Option SfsInode → List ℕ → Fs → Option ℕ
unfolding lookup_in_blocks
lookup_dir none name f = none
lookup_dir (some dir) name f =
    if dir.kind == sfs_dir then lookup_in_blocks dir.block_count 0 dir f.stale name f else none

unfoldable pub sfs_lookup : ℕ → List ℕ → Fs → Option ℕ
unfolding lookup_dir
sfs_lookup dir_ino name f = lookup_dir (sfs_read_inode dir_ino f) name f

-- The loop that copies at most 27 characters over the old bytes of the name, with no NUL behind
-- them, and the NUL in the last byte.
pub fill_name : List ℕ → List ℕ → List ℕ
fill_name name old =
    let chars = take (max_filename - 1) name in
    set (chars ++ drop (length chars) old) (max_filename - 1) 0

-- The first free entry of a block, with the entries left.
free_dentry : ℕ → ℕ → List ℕ → Option ℕ
free_dentry zero di block = none
free_dentry (suc n) di block =
    let rest = free_dentry n (di + 1) block in
    if (dentry_at di block).ino == 0 then some di else rest

abbrev with_dentry : ℕ → Dentry → List ℕ → List ℕ
with_dentry di d block = splice (di * dentry_size) (dentry_bytes d) block

-- The search for a free entry: the new file system, or the entry that the loops have read last.
pub data Search : Type 0 where
  written : Fs → Search
  full : Dentry → Search

insert_entry : ℕ → List ℕ → SfsInode → ℕ → List ℕ → Fs → Option ℕ → Search → Search
unfolding fill_name
insert_entry bi block dir new_ino name f (some di) rest =
    let d : Dentry = record { ino = new_ino; name = fill_name name (dentry_at di block).name } in
    written (block_write (block_no dir bi f) (with_dentry di d block) f)
insert_entry bi block dir new_ino name f none rest = rest

pub insert_in_blocks : ℕ → ℕ → SfsInode → List ℕ → Dentry → ℕ → List ℕ → Fs → Search
unfolding free_dentry insert_entry
insert_in_blocks zero bi dir buf last new_ino name f = full last
insert_in_blocks (suc n) bi dir buf last new_ino name f =
    let block = block_read (block_no dir bi f) buf f in
    let last' = dentry_at (dentries_per_block - 1) block in
    let rest = insert_in_blocks n (bi + 1) dir block last' new_ino name f in
    insert_entry bi block dir new_ino name f (free_dentry dentries_per_block 0 block) rest

-- The grown and rewritten parent.
abbrev grown : SfsInode → SfsInode
grown dir = record dir { size = (dir.size + dentry_size) % 2 ^ 32 }

-- The new block for the entry; without one the inode is given back.
append_block : SfsInode → Dentry → ℕ → List ℕ → Option ℕ × Fs → Option ℕ × Fs
unfolding fill_name
append_block dir d new_ino name (none, f) = (none, sfs_free_inode new_ino f)
append_block dir d new_ino name (some b, f) =
    let entry : Dentry = record { ino = new_ino; name = fill_name name d.name } in
    let f1 = block_write b (with_dentry 0 entry zero_block) f in
    let dir' = record dir {
      blocks = set dir.blocks dir.block_count b;
      block_count = dir.block_count + 1;
    } in
    (some new_ino, (sfs_write_inode (grown dir') f1).1)

add_entry : SfsInode → ℕ → List ℕ → Fs → Search → Option ℕ × Fs
unfolding append_block
add_entry dir new_ino name f (written f') = (some new_ino, (sfs_write_inode (grown dir) f').1)
add_entry dir new_ino name f (full d) =
    if leb direct_blocks dir.block_count
    then (none, sfs_free_inode new_ino f)
    else append_block dir d new_ino name (sfs_alloc_block f)

-- "." and ".." in the first block of a directory.
abbrev pub dot_block : ℕ → ℕ → List ℕ
dot_block self parent =
    let dot : Dentry = record { ino = self; name = b'.' ∷ replicate 27 0 } in
    let dotdot : Dentry = record { ino = parent; name = b'.' ∷ b'.' ∷ replicate 26 0 } in
    dentry_bytes dot ++ (dentry_bytes dotdot ++ replicate (fs_block_size - 64) 0)

abbrev pub empty_inode : ℕ → ℕ → SfsInode
empty_inode ino kind = record {
  ino = ino;
  size = 0;
  kind = kind;
  block_count = 0;
  blocks = replicate direct_blocks 0;
}

-- A directory's inode with its one block.
abbrev pub dir_inode : ℕ → ℕ → SfsInode
dir_inode ino b = record {
  ino = ino;
  size = 2 * dentry_size;
  kind = sfs_dir;
  block_count = 1;
  blocks = b ∷ replicate (direct_blocks - 1) 0;
}

-- The entry in the parent, once the new inode `i` is written. An indeterminate `struct dentry`, in
-- a directory with no block, is read from `stale`.
finish_create : SfsInode → SfsInode → List ℕ → Fs → Option ℕ × Fs
unfolding insert_in_blocks add_entry
finish_create dir i name f0 =
    let f = (sfs_write_inode i f0).1 in
    add_entry dir i.ino name f
      (insert_in_blocks dir.block_count 0 dir f.stale (dentry_at 0 f.stale) i.ino name f)

create_dir : SfsInode → ℕ → ℕ → List ℕ → Option ℕ × Fs → Option ℕ × Fs
unfolding finish_create
create_dir dir parent_ino new_ino name (none, f) = (none, sfs_free_inode new_ino f)
create_dir dir parent_ino new_ino name (some b, f) =
    finish_create dir (dir_inode new_ino b) name (block_write b (dot_block new_ino parent_ino) f)

create_inode : SfsInode → ℕ → List ℕ → ℕ → Option ℕ × Fs → Option ℕ × Fs
unfolding create_dir
create_inode dir parent_ino name kind (none, f) = (none, f)
create_inode dir parent_ino name kind (some new_ino, f) =
    if kind == sfs_dir
    then create_dir dir parent_ino new_ino name (sfs_alloc_block f)
    else finish_create dir (empty_inode new_ino kind) name f

create_under : Option SfsInode → ℕ → List ℕ → ℕ → Fs → Option ℕ × Fs
unfolding create_inode
create_under none parent_ino name kind f = (none, f)
create_under (some dir) parent_ino name kind f =
    if dir.kind == sfs_dir
    then elim (sfs_lookup parent_ino name f) [
      | some _ ↦ (none, f)
      | none ↦ create_inode dir parent_ino name kind (sfs_alloc_inode f)
    ]
    else (none, f)

-- The result is the new inode's number, or `none` for -1.
pub sfs_create : ℕ → List ℕ → ℕ → Fs → Option ℕ × Fs
unfolding create_under
sfs_create parent_ino name kind f =
    create_under (sfs_read_inode parent_ino f) parent_ino name kind f
