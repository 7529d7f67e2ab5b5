-- ===== src/Sfs/Bitmap.antt =====
-- The bitmaps of fs/sfs.c, and the allocation of inodes and blocks from them.
pub mod Bits
pub mod Laws
use sros.Prelude.{
  ℕ, zero, suc, ◌+◌, ◌-◌, ◌/◌, ◌%◌, ◌^◌, Bool, true, false, ◌||◌, Option, none, some, List, [], ltb,
  leb, ◌==◌, if◌then◌else◌, get_or, modify,
}
use sros.Sfs.{Fs, block_read, block_write}

-- `bitmap[i / 8] & (1 << (i % 8))`
unfoldable pub bit : List ℕ → ℕ → Bool
bit bm i = get_or bm (i / 8) 0 / 2 ^ (i % 8) % 2 == 1

-- The loop, with the bits left and the next bit.
find_zero_from : ℕ → ℕ → List ℕ → Option ℕ
find_zero_from zero i bm = none
find_zero_from (suc n) i bm =
    let rest = find_zero_from n (i + 1) bm in if bit bm i then rest else some i

pub bitmap_find_first_zero : List ℕ → ℕ → Option ℕ
unfolding find_zero_from
bitmap_find_first_zero bm max_bits = find_zero_from max_bits 0 bm

-- `b | (1 << k)` and `b & ~(1 << k)`
abbrev pub set_bit : ℕ → ℕ → ℕ
set_bit k b = if b / 2 ^ k % 2 == 1 then b else b + 2 ^ k

abbrev pub clear_bit : ℕ → ℕ → ℕ
clear_bit k b = if b / 2 ^ k % 2 == 1 then b - 2 ^ k else b

unfoldable pub bitmap_set : List ℕ → ℕ → List ℕ
bitmap_set bm i = modify bm (i / 8) (set_bit (i % 8))

unfoldable pub bitmap_clear : List ℕ → ℕ → List ℕ
bitmap_clear bm i = modify bm (i / 8) (clear_bit (i % 8))

-- The bitmap is written back with the bit that was found.
take_inode : List ℕ → Option ℕ → Fs → Option ℕ × Fs
take_inode bm none f = (none, f)
take_inode bm (some i) f = (some i, block_write f.sb.inode_bitmap_start (bitmap_set bm i) f)

-- `none` is the result -1.
pub sfs_alloc_inode : Fs → Option ℕ × Fs
unfolding take_inode
sfs_alloc_inode f =
    let bm = block_read f.sb.inode_bitmap_start f.stale f in
    take_inode bm (bitmap_find_first_zero bm f.sb.inode_count) f

pub sfs_free_inode : ℕ → Fs → Fs
sfs_free_inode ino f =
    if ino == 0 || leb f.sb.inode_count ino
    then f
    else block_write f.sb.inode_bitmap_start
        (bitmap_clear (block_read f.sb.inode_bitmap_start f.stale f) ino) f

take_block : List ℕ → Option ℕ → Fs → Option ℕ × Fs
take_block bm none f = (none, f)
take_block bm (some i) f =
    if ltb i f.sb.data_block_start
    then (none, f)
    else (some i, block_write f.sb.block_bitmap_start (bitmap_set bm i) f)

pub sfs_alloc_block : Fs → Option ℕ × Fs
unfolding take_block
sfs_alloc_block f =
    let bm = block_read f.sb.block_bitmap_start f.stale f in
    take_block bm (bitmap_find_first_zero bm f.sb.total_blocks) f

pub sfs_free_block : ℕ → Fs → Fs
sfs_free_block n f =
    if ltb n f.sb.data_block_start || leb f.sb.total_blocks n
    then f
    else block_write f.sb.block_bitmap_start
        (bitmap_clear (block_read f.sb.block_bitmap_start f.stale f) n) f
