-- ===== src/Sfs/Bitmap/Laws.antt =====
-- The allocation of inodes and blocks in fs/sfs.c as operations on sets of numbers in use.
use sros.Prelude.{
  ℕ, zero, suc, ◌+◌, ◌*◌, ◌≤◌, ◌<◌, ◌≡◌, refl, sym, ap, ◌∙◌, Bool, true, false, not, ◌||◌, ◌&&◌,
  Option, none, some, List, arith, length, ltb, leb, ◌==◌, Bool-cases, inl, inr,
}
use sros.Sfs.{Fs, SuperBlock, block_read, block_write, fs_block_size}
use sros.Sfs.Bitmap.{
  bit, find_zero_from, bitmap_find_first_zero, bitmap_set, bitmap_clear, take_inode,
  sfs_alloc_inode, sfs_free_inode, take_block, sfs_alloc_block, sfs_free_block,
}
use sros.Sfs.Bitmap.Bits.{bit-bitmap_set, bit-bitmap_clear}
use sros.Sfs.Inode.Laws.{Works, block_read-Works, block_read-block_write, block_write-sb}

-- What the search of a bitmap promises: the first clear bit, if one is.
abbrev pub FirstClear : ℕ → ℕ → List ℕ → Option ℕ → Type 0
FirstClear i n bm none = (j : ℕ) → i ≤ j → j < i + n → bit bm j ≡ true
FirstClear i n bm (some k) =
    (i ≤ k) × (k < i + n) × (bit bm k ≡ false) × ((j : ℕ) → i ≤ j → j < k → bit bm j ≡ true)

find_zero_from_lem : (n i : ℕ) (bm : List ℕ) → FirstClear i n bm (find_zero_from n i bm)
unfolding find_zero_from
find_zero_from_lem zero i bm = λ j lo hi. absurd (omega arith)
find_zero_from_lem (suc n) i bm = elim (Bool-cases (bit bm i)) [
  | inl taken ↦
      rw taken (widen (find_zero_from n (i + 1) bm) taken (find_zero_from_lem n (i + 1) bm))
  | inr free ↦ rw free (omega arith, omega arith, free, (λ j lo hi. absurd (omega arith)))
]
  where
    from :
        (m : ℕ)
        → ((j : ℕ) → i + 1 ≤ j → j < m → bit bm j ≡ true)
        → bit bm i ≡ true
        → (j : ℕ) → i ≤ j
        → j < m
        → bit bm j ≡ true
    from m rest e j lo hi = elim (Bool-cases (i == j)) [
      | inl same ↦ let q : i ≡ j = ground arith in ap (bit bm) (sym q) ∙ e
      | inr apart ↦ rest j (ground arith) hi
    ]

    widen : (o : Option ℕ) → bit bm i ≡ true → FirstClear (i + 1) n bm o → FirstClear i (suc n) bm o
    widen none e v = λ j lo hi. from (i + 1 + n) v e j lo (omega arith)
    widen (some k) e v = (omega (arith, v.0), omega (arith, v.1), v.2, from k v.3 e)

pub bitmap_find_first_zero_lem :
    (bm : List ℕ) (max_bits : ℕ) → FirstClear 0 max_bits bm (bitmap_find_first_zero bm max_bits)
unfolding bitmap_find_first_zero
bitmap_find_first_zero_lem bm max_bits = find_zero_from_lem max_bits 0 bm

-- The inodes and the blocks in use.
abbrev pub inode_used : Fs → ℕ → Bool
inode_used f j = bit (block_read f.sb.inode_bitmap_start f.stale f) j

abbrev pub block_used : Fs → ℕ → Bool
block_used f j = bit (block_read f.sb.block_bitmap_start f.stale f) j

-- An allocation among the numbers below `count`: the lowest free one comes into use, or all are in
-- use and nothing changes.
abbrev pub Allocates : (Fs → ℕ → Bool) → ℕ → Fs → Option ℕ → Fs → Type 0
Allocates used count f none f' = ((j : ℕ) → j < count → used f j ≡ true) × (f' ≡ f)
Allocates used count f (some i) f' =
    (i < count)
    × (used f i ≡ false)
    × ((j : ℕ) → j < i → used f j ≡ true)
    × ((j : ℕ) → used f' j ≡ (j == i) || used f j)

-- A bitmap block rewritten.
used-write :
    (n : ℕ) (bs : List ℕ) (f : Fs) (j : ℕ)
    → Works f n
    → bit (block_read n (block_write n bs f).stale (block_write n bs f)) j ≡ bit bs j
used-write n bs f j w =
    ap (λ b. bit b j) (block_read-block_write n (block_write n bs f).stale bs f w)

block_read-length : (n : ℕ) (f : Fs) → Works f n → length (block_read n f.stale f) ≡ fs_block_size
block_read-length n f w = ap length (block_read-Works n f.stale f w) ∙ w.whole

module _ (f : Fs) (works : Works f f.sb.inode_bitmap_start)
    (fits : f.sb.inode_count ≤ 8 * fs_block_size) where
  abbrev bitmap : List ℕ
  bitmap = block_read f.sb.inode_bitmap_start f.stale f

  inode_used-write :
      (bs : List ℕ) (j : ℕ) → inode_used (block_write f.sb.inode_bitmap_start bs f) j ≡ bit bs j
  inode_used-write bs j =
      ap
        (λ n.
          bit
            (block_read n (block_write f.sb.inode_bitmap_start bs f).stale
              (block_write f.sb.inode_bitmap_start bs f))
            j)
        (ap (λ (s : SuperBlock). s.inode_bitmap_start)
          (block_write-sb f.sb.inode_bitmap_start bs f))
      ∙ used-write f.sb.inode_bitmap_start bs f j works

  take_inode-Allocates :
      (o : Option ℕ)
      → FirstClear 0 f.sb.inode_count bitmap o
      → let (r, f') = take_inode bitmap o f in Allocates inode_used f.sb.inode_count f r f'
  unfolding take_inode
  take_inode-Allocates none v = ((λ j hi. v j (omega arith) (omega arith)), refl)
  take_inode-Allocates (some i) v = (
    omega (arith, v.1),
    v.2,
    (λ j hi. v.3 j (omega arith) hi),
    (λ j.
        inode_used-write (bitmap_set bitmap i) j
        ∙ bit-bitmap_set bitmap i j
            (omega (arith, v.1, block_read-length f.sb.inode_bitmap_start f works))),
  )

-- With a working bitmap block and at most as many inodes as it has bits, sfs_alloc_inode takes the
-- lowest free inode into use and no other, or fails with nothing changed when all are in use.
pub sfs_alloc_inode-Allocates :
    (f : Fs)
    → Works f f.sb.inode_bitmap_start
    → f.sb.inode_count ≤ 8 * fs_block_size
    → let (r, f') = sfs_alloc_inode f in Allocates inode_used f.sb.inode_count f r f'
unfolding sfs_alloc_inode
sfs_alloc_inode-Allocates f works fits =
    take_inode-Allocates f works fits
      (bitmap_find_first_zero (block_read f.sb.inode_bitmap_start f.stale f) f.sb.inode_count)
      (bitmap_find_first_zero_lem (block_read f.sb.inode_bitmap_start f.stale f) f.sb.inode_count)

-- With a working bitmap block and at most as many inodes as it has bits, sfs_free_inode of a
-- number between 1 and the last takes that inode out of use and no other.
pub sfs_free_inode_lem :
    (ino : ℕ) (f : Fs)
    → Works f f.sb.inode_bitmap_start
    → f.sb.inode_count ≤ 8 * fs_block_size
    → 0 < ino
    → ino < f.sb.inode_count
    → (j : ℕ) → inode_used (sfs_free_inode ino f) j ≡ not (j == ino) && inode_used f j
unfolding sfs_free_inode
sfs_free_inode_lem ino f works fits lo hi j =
    let good : (ino == 0 || leb f.sb.inode_count ino) ≡ false = ground arith in
    ap (λ g. inode_used g j) (rw good refl)
    ∙ inode_used-write f works fits
        (bitmap_clear (block_read f.sb.inode_bitmap_start f.stale f) ino) j
    ∙ bit-bitmap_clear (block_read f.sb.inode_bitmap_start f.stale f) ino j
        (omega (arith, block_read-length f.sb.inode_bitmap_start f works))

module _ (f : Fs) (works : Works f f.sb.block_bitmap_start)
    (fits : f.sb.total_blocks ≤ 8 * fs_block_size) where
  abbrev blocks : List ℕ
  blocks = block_read f.sb.block_bitmap_start f.stale f

  block_used-write :
      (bs : List ℕ) (j : ℕ) → block_used (block_write f.sb.block_bitmap_start bs f) j ≡ bit bs j
  block_used-write bs j =
      ap
        (λ n.
          bit
            (block_read n (block_write f.sb.block_bitmap_start bs f).stale
              (block_write f.sb.block_bitmap_start bs f))
            j)
        (ap (λ (s : SuperBlock). s.block_bitmap_start)
          (block_write-sb f.sb.block_bitmap_start bs f))
      ∙ used-write f.sb.block_bitmap_start bs f j works

  take_block-Allocates :
      (o : Option ℕ)
      → ((j : ℕ) → j < f.sb.data_block_start → block_used f j ≡ true)
      → FirstClear 0 f.sb.total_blocks blocks o
      → let (r, f') = take_block blocks o f in Allocates block_used f.sb.total_blocks f r f'
  unfolding take_block
  take_block-Allocates none reserved v = ((λ j hi. v j (omega arith) (omega arith)), refl)
  take_block-Allocates (some i) reserved v = elim (Bool-cases (ltb i f.sb.data_block_start)) [
    | inl low ↦ let used : block_used f i ≡ true = reserved i (ground arith) in cc (sym used ∙ v.2)
    | inr high ↦ rw high (
      omega (arith, v.1),
      v.2,
      (λ j hi. v.3 j (omega arith) hi),
      (λ j.
          block_used-write (bitmap_set blocks i) j
          ∙ bit-bitmap_set blocks i j
              (omega (arith, v.1, block_read-length f.sb.block_bitmap_start f works))),
    )
  ]

-- With a working bitmap block, at most as many blocks as it has bits, and all blocks below the
-- data in use, sfs_alloc_block takes the lowest free block into use and no other, or fails with
-- nothing changed when all are in use.
pub sfs_alloc_block-Allocates :
    (f : Fs)
    → Works f f.sb.block_bitmap_start
    → f.sb.total_blocks ≤ 8 * fs_block_size
    → ((j : ℕ) → j < f.sb.data_block_start → block_used f j ≡ true)
    → let (r, f') = sfs_alloc_block f in Allocates block_used f.sb.total_blocks f r f'
unfolding sfs_alloc_block
sfs_alloc_block-Allocates f works fits reserved =
    take_block-Allocates f works fits
      (bitmap_find_first_zero (block_read f.sb.block_bitmap_start f.stale f) f.sb.total_blocks)
      reserved
      (bitmap_find_first_zero_lem (block_read f.sb.block_bitmap_start f.stale f) f.sb.total_blocks)

-- With a working bitmap block and at most as many blocks as it has bits, sfs_free_block of a data
-- block takes that block out of use and no other.
pub sfs_free_block_lem :
    (n : ℕ) (f : Fs)
    → Works f f.sb.block_bitmap_start
    → f.sb.total_blocks ≤ 8 * fs_block_size
    → f.sb.data_block_start ≤ n
    → n < f.sb.total_blocks
    → (j : ℕ) → block_used (sfs_free_block n f) j ≡ not (j == n) && block_used f j
unfolding sfs_free_block
sfs_free_block_lem n f works fits lo hi j =
    let good : (ltb n f.sb.data_block_start || leb f.sb.total_blocks n) ≡ false = ground arith in
    ap (λ g. block_used g j) (rw good refl)
    ∙ block_used-write f works fits (bitmap_clear (block_read f.sb.block_bitmap_start f.stale f) n)
        j
    ∙ bit-bitmap_clear (block_read f.sb.block_bitmap_start f.stale f) n j
        (omega (arith, block_read-length f.sb.block_bitmap_start f works))
