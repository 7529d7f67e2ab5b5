-- ===== src/Sfs/Inode/Laws.antt =====
-- The inode table of fs/sfs.c: what `sfs_write_inode` stores, `sfs_read_inode` returns, and no other
-- inode changes.
use sros.Prelude.{
  ℕ, ◌+◌, ◌-◌, ◌/◌, ◌%◌, ◌≤◌, ◌<◌, ◌≡◌, refl, sym, ap, ◌∙◌, ◌≢◌, ◌⊎◌, inl, inr, true, false, some,
  List, arith, length, ◌==◌, Bool-cases,
}
use sros.Sfs.{Fs, SfsInode, block_read, block_write, slice, splice, disk_blocks, fs_block_size}
use sros.Sfs.Bytes.{slice-splice_same, slice-splice_other}
use sros.Sfs.Codec.{inode_bytes, inode_of, inode_size}
use sros.Sfs.Codec.Laws.{FitsInode, inode_of-inode_bytes, length-inode_bytes}
use sros.Sfs.Inode.{
  bad_inode, inode_block, inode_offset, inodes_per_block, sfs_read_inode, sfs_write_inode,
}

-- The block `n` is on the disk and in working order.
pub record Works (f : Fs) (n : ℕ) : Type 0 where
  pub on_disk : n < disk_blocks
  pub served : f.serves n ≡ true
  pub whole : length (f.disk n) ≡ fs_block_size

pub block_read-Works : (n : ℕ) (buf : List ℕ) (f : Fs) → Works f n → block_read n buf f ≡ f.disk n
unfolding block_read
block_read-Works n buf f w = ground (arith, w.on_disk, w.served)

pub block_read-block_write :
    (n : ℕ) (buf bs : List ℕ) (f : Fs) → Works f n → block_read n buf (block_write n bs f) ≡ bs
unfolding block_read block_write
block_read-block_write n buf bs f w = ground (arith, w.on_disk, w.served)

pub block_read-other :
    (m n : ℕ) (buf bs : List ℕ) (f : Fs)
    → m ≢ n
    → block_read m buf (block_write n bs f) ≡ block_read m buf f
unfolding block_read block_write
block_read-other m n buf bs f ne = ground arith

pub block_write-sb : (n : ℕ) (bs : List ℕ) (f : Fs) → (block_write n bs f).sb ≡ f.sb
unfolding block_write
block_write-sb n bs f = ground arith

pub block_write-stale : (n : ℕ) (bs : List ℕ) (f : Fs) → (block_write n bs f).stale ≡ f.stale
unfolding block_write
block_write-stale n bs f = ground arith

offset_in : (ino : ℕ) → inode_offset ino + inode_size ≤ fs_block_size
offset_in ino = omega arith

-- Two inodes of one block do not overlap.
offsets_apart :
    (i j : ℕ)
    → 0 < i
    → 0 < j
    → i ≢ j
    → (i - 1) / inodes_per_block ≡ (j - 1) / inodes_per_block
    → (inode_offset j + inode_size ≤ inode_offset i)
      ⊎ (inode_offset i + inode_size ≤ inode_offset j)
offsets_apart i j p q ne same =
    let apart : (i - 1) % 67 ≢ (j - 1) % 67 = λ e. ne (omega arith) in ground arith

module _ (i : SfsInode) (f : Fs) (fits : FitsInode i) (good : bad_inode i.ino f ≡ false)
    (works : Works f (inode_block i.ino f)) where
  abbrev old : List ℕ
  old = f.disk (inode_block i.ino f)

  abbrev new : List ℕ
  new = splice (inode_offset i.ino) (inode_bytes i) old

  written_size : inode_offset i.ino + length (inode_bytes i) ≤ length old
  written_size = omega (arith, length-inode_bytes i fits.blocks_len, works.whole, offset_in i.ino)

  write_is : sfs_write_inode i f ≡ (true, block_write (inode_block i.ino f) new f)
  unfolding sfs_write_inode
  write_is = rw (good, block_read-Works (inode_block i.ino f) f.stale f works)

  after : Fs
  after = block_write (inode_block i.ino f) new f

  read_same : sfs_read_inode i.ino after ≡ some i
  unfolding sfs_read_inode after block_read
  read_same =
      let exact : inode_size ≡ length (inode_bytes i) =
        sym (length-inode_bytes i fits.blocks_len) in
      rw
        (
          block_write-sb (inode_block i.ino f) new f,
          good,
          block_read-block_write (inode_block i.ino f)
              (block_write (inode_block i.ino f) new f).stale new f works,
        )
        (ap (λ n. some (inode_of (slice (inode_offset i.ino) n new))) exact
          ∙ ap (λ bs. some (inode_of bs))
              (slice-splice_same (inode_offset i.ino) (inode_bytes i) old
                (omega (arith, written_size)))
          ∙ ap some (inode_of-inode_bytes i fits))

  -- The bytes of another inode.
  other_bytes :
      (j : ℕ) (buf : List ℕ)
      → j ≢ i.ino
      → bad_inode j f ≡ false
      → slice (inode_offset j) inode_size (block_read (inode_block j f) buf after)
        ≡ slice (inode_offset j) inode_size (block_read (inode_block j f) buf f)
  unfolding after
  other_bytes j buf ne ok = elim (Bool-cases (inode_block j f == inode_block i.ino f)) [
    | inl same ↦
        let e : inode_block j f ≡ inode_block i.ino f = ground arith in
        let row : (i.ino - 1) / inodes_per_block ≡ (j - 1) / inodes_per_block = omega arith in
        let sound : (0 < j) × (0 < i.ino) = (ground arith, ground arith) in
        let exact = length-inode_bytes i fits.blocks_len in
        let apart = offsets_apart i.ino j sound.1 sound.0 (λ q. ne (sym q)) row in
        ap (λ n. slice (inode_offset j) inode_size (block_read n buf after)) e
        ∙ ap (slice (inode_offset j) inode_size)
            (block_read-block_write (inode_block i.ino f) buf new f works)
        ∙ slice-splice_other (inode_offset i.ino) (inode_offset j) inode_size (inode_bytes i) old
            (elim apart [ inl lo ↦ inl lo | inr hi ↦ inr (omega (arith, exact)) ]) written_size
        ∙ ap (slice (inode_offset j) inode_size)
            (sym (block_read-Works (inode_block i.ino f) buf f works))
        ∙ ap (λ n. slice (inode_offset j) inode_size (block_read n buf f)) (sym e)
    | inr apart ↦
        ap (slice (inode_offset j) inode_size)
          (block_read-other (inode_block j f) (inode_block i.ino f) buf new f (ground arith))
  ]

  read_other : (j : ℕ) → j ≢ i.ino → sfs_read_inode j after ≡ sfs_read_inode j f
  unfolding sfs_read_inode after block_write
  read_other j ne = elim (Bool-cases (bad_inode j f)) [
    | inl bad ↦ rw (block_write-sb (inode_block i.ino f) new f, bad) refl
    | inr ok ↦
        rw
          (
            block_write-sb (inode_block i.ino f) new f,
            block_write-stale (inode_block i.ino f) new f,
            ok,
          )
          (ap (λ bs. some (inode_of bs)) (other_bytes j f.stale ne ok))
  ]

-- If an inode's fields hold their values, its number is in range and its block of the inode table
-- works, then sfs_write_inode succeeds, sfs_read_inode returns the inode as it was written, and
-- every other inode reads as before.
pub sfs_read_inode-sfs_write_inode :
    (i : SfsInode) (f : Fs)
    → FitsInode i
    → bad_inode i.ino f ≡ false
    → Works f (inode_block i.ino f)
    → let (ok, f') = sfs_write_inode i f in
      (ok ≡ true)
      × (sfs_read_inode i.ino f' ≡ some i)
      × ((j : ℕ) → j ≢ i.ino → sfs_read_inode j f' ≡ sfs_read_inode j f)
unfolding after
sfs_read_inode-sfs_write_inode i f fits good works =
    rw (write_is i f fits good works)
      (refl, read_same i f fits good works, read_other i f fits good works)
