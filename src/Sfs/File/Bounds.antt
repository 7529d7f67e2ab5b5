-- ===== src/Sfs/File/Bounds.antt =====
-- How many bytes `sfs_read_file` of fs/sfs.c gives.
use sros.Prelude.{
  ℕ, zero, suc, ◌+◌, ◌-◌, ◌/◌, ◌%◌, ◌^◌, ◌≤◌, ◌<◌, ◌≡◌, Bool, true, false, List, [], ◌++◌, arith,
  length, length-take, drop, leb, ◌==◌, if◌then◌else◌,
}
use sros.Sfs.{block_no, Fs, SfsInode, block_read, slice, fs_block_size}
use sros.Sfs.Bytes.{length-append}
use sros.Sfs.File.{to_copy, read_loop, clip_size, sfs_read_file}

length-slice : (off n : ℕ) (bs : List ℕ) → length (slice off n bs) ≤ n
length-slice off n bs = omega (arith, length-take n (drop off bs))

to_copy-le : (off left : ℕ) → to_copy off left ≤ left
to_copy-le off left = ground arith

length-read_loop :
    (fuel : ℕ) (inode : SfsInode) (left at : ℕ) (buf : List ℕ) (f : Fs)
    → length (read_loop fuel inode left at buf f) ≤ left
unfolding read_loop
length-read_loop zero inode left at buf f = omega arith
length-read_loop (suc fuel) inode left at buf f =
    let n = to_copy (at % fs_block_size) left in
    let block = block_read (block_no inode (at / fs_block_size) f) buf f in
    let rest = read_loop fuel inode (left - n) (at + n) block f in
    let few : length (slice (at % fs_block_size) n block ++ rest) ≤ left = omega (
      arith,
      length-append (slice (at % fs_block_size) n block) rest,
      length-slice (at % fs_block_size) n block,
      length-read_loop fuel inode (left - n) (at + n) block f,
      to_copy-le (at % fs_block_size) left,
    ) in
    within (left == 0) (leb inode.block_count (at / fs_block_size)) left _ few
  where
    within :
        (b c : Bool) (n : ℕ) (xs : List ℕ)
        → length xs ≤ n
        → length (if b then [] else if c then [] else xs) ≤ n
    within true c n xs h = omega arith
    within false true n xs h = omega arith
    within false false n xs h = h

-- If offset + size does not wrap at 32 bits, sfs_read_file gives at most size bytes, and no more
-- than the file has from the offset on.
pub sfs_read_file-bounds :
    (inode : SfsInode) (size offset : ℕ) (f : Fs)
    → offset + size < 2 ^ 32
    → let bs = sfs_read_file inode size offset f in
      (length bs ≤ size) × (length bs ≤ inode.size - offset)
unfolding sfs_read_file clip_size
sfs_read_file-bounds inode size offset f fits =
    let whole : (offset + size) % 2 ^ 32 ≡ offset + size = omega arith in
    let n = clip_size inode size offset in
    let few = length-read_loop n inode n offset f.stale f in ground (arith, few)
