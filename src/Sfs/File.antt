-- ===== src/Sfs/File.antt =====
-- fs/sfs.c: reading and writing the bytes of a file.
pub mod Bounds
use sros.Prelude.{
  ℕ, zero, suc, ◌+◌, ◌-◌, ◌/◌, ◌%◌, ◌^◌, ◌++◌, true, false, Option, none, some, List, [], ltb, leb,
  ◌==◌, if◌then◌else◌, get_or, set, length,
}
use sros.Sfs.{block_no, Fs, SfsInode, block_read, block_write, slice, splice, fs_block_size}
use sros.Sfs.Bitmap.{sfs_alloc_block}
use sros.Sfs.Dir.{direct_blocks}

-- What a round copies: up to the end of its block, and no more than is left.
abbrev pub to_copy : ℕ → ℕ → ℕ
to_copy block_off left =
    if ltb left (fs_block_size - block_off) then left else fs_block_size - block_off

-- The loop of `sfs_read_file`: the bytes read from position `at` on. Each round reads at least one
-- byte, so as many rounds as bytes are enough.
pub read_loop : ℕ → SfsInode → ℕ → ℕ → List ℕ → Fs → List ℕ
read_loop zero inode left at buf f = []
read_loop (suc fuel) inode left at buf f =
    let bi = at / fs_block_size in
    let off = at % fs_block_size in
    let n = to_copy off left in
    let block = block_read (block_no inode bi f) buf f in
    let rest = read_loop fuel inode (left - n) (at + n) block f in
    if left == 0 then [] else if leb inode.block_count bi then [] else slice off n block ++ rest

-- The request cut off at the file's size; `offset + size` wraps at 32 bits.
pub clip_size : SfsInode → ℕ → ℕ → ℕ
clip_size inode size offset =
    if ltb inode.size ((offset + size) % 2 ^ 32) then inode.size - offset else size

-- The bytes read; their number is the result.
unfoldable pub sfs_read_file : SfsInode → ℕ → ℕ → Fs → List ℕ
unfolding read_loop clip_size
sfs_read_file inode size offset f =
    if leb inode.size offset
    then []
    else (let n = clip_size inode size offset in read_loop n inode n offset f.stale f)

-- The inode with a block for the index `bi`; `none` if there is none to be had.
provide_block : ℕ → SfsInode → Fs → Option SfsInode × Fs
provide_block bi inode f =
    if ltb bi inode.block_count
    then (some inode, f)
    else if leb direct_blocks bi
    then (none, f)
    else (let (found, f') = sfs_alloc_block f in
        elim found [
          | none ↦ (none, f')
          | some b ↦ (
            some (record inode {
              blocks = set inode.blocks bi b;
              block_count = inode.block_count + 1;
            }),
            f',
          )
        ])

-- The state of the loop of `sfs_write_file`.
pub record Writing : Type 0 where
  pub inode : SfsInode
  pub done : ℕ
  pub fs : Fs

-- The loop, for the `left` bytes of `bs` to be written from position `at` on.
pub write_loop : ℕ → ℕ → List ℕ → List ℕ → Writing → Writing
unfolding provide_block
write_loop zero at bs buf w = w
write_loop (suc fuel) at bs buf w =
    let bi = at / fs_block_size in
    let off = at % fs_block_size in
    let n = to_copy off (length bs) in
    let (provided, f) = provide_block bi w.inode w.fs in
    elim (length bs == 0) [
      | true ↦ w
      | false ↦ elim provided [
        | none ↦ record w { fs = f }
        | some inode ↦
            let b = block_no inode bi f in
            let block = splice off (slice 0 n bs) (block_read b buf f) in
            write_loop fuel (at + n) (slice n (length bs - n) bs) block
              (record { inode = inode; done = w.done + n; fs = block_write b block f })
      ]
    ]

-- The bytes written are counted by `done`; the size grows to their end.
pub sfs_write_file : SfsInode → List ℕ → ℕ → Fs → Writing
unfolding write_loop
sfs_write_file inode bs offset f =
    let w = write_loop (length bs) offset bs f.stale (record { inode = inode; done = 0; fs = f }) in
    if ltb w.inode.size ((offset + w.done) % 2 ^ 32)
    then record w { inode = record w.inode { size = (offset + w.done) % 2 ^ 32 } }
    else w
