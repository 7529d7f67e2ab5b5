-- ===== src/Sfs/Codec/Laws.antt =====
-- The byte forms of fs/sfs.h can be read back.
use sros.Prelude.{
  ℕ, zero, suc, ◌+◌, ◌*◌, ◌%◌, ◌^◌, ◌<◌, ◌≡◌, refl, sym, ap, ◌∙◌, ◌++◌, List, [], ◌∷◌, get_or,
  length, arith,
}
use mathlib.Core.Path.{ap₂}
use sros.Sfs.{SuperBlock, SfsInode}
use sros.Sfs.Codec.{
  le32, read32, le32s, read32s, super_bytes, super_of, inode_bytes, inode_of, inode_size,
}

-- Every number is a u32.
abbrev pub AllU32 : List ℕ → Type 0
AllU32 [] = Unit {0}
AllU32 (x ∷ xs) = (x < 2 ^ 32) × AllU32 xs

-- The fields of the structure hold the values.
pub record FitsInode (i : SfsInode) : Type 0 where
  pub ino_fits : i.ino < 2 ^ 32
  pub size_fits : i.size < 2 ^ 32
  pub kind_fits : i.kind < 256
  pub count_fits : i.block_count < 2 ^ 32
  pub blocks_fit : AllU32 i.blocks
  pub blocks_len : length i.blocks ≡ 12

read32-le32 : (x : ℕ) (rest : List ℕ) → x < 2 ^ 32 → read32 0 (le32 x ++ rest) ≡ x
read32-le32 x rest h = omega arith

get_or-shift : (k off c : ℕ) (bs : List ℕ) → get_or (c ∷ bs) (suc off + k) 0 ≡ get_or bs (off + k) 0
get_or-shift k off c bs =
    let e : suc off + k ≡ suc (off + k) = omega arith in ap (λ j. get_or (c ∷ bs) j 0) e

read32-shift : (off c : ℕ) (bs : List ℕ) → read32 (suc off) (c ∷ bs) ≡ read32 off bs
read32-shift off c bs =
    rw (get_or-shift 1 off c bs, get_or-shift 2 off c bs, get_or-shift 3 off c bs) refl

suc_add : (off : ℕ) → suc off + 4 ≡ suc (off + 4)
suc_add off = omega arith

read32s-shift : (n off c : ℕ) (bs : List ℕ) → read32s n (suc off) (c ∷ bs) ≡ read32s n off bs
read32s-shift zero off c bs = refl
read32s-shift (suc n) off c bs =
    ap₂ ◌∷◌ (read32-shift off c bs)
      (ap (λ k. read32s n k (c ∷ bs)) (suc_add off) ∙ read32s-shift n (off + 4) c bs)

read32s-prefix : (n : ℕ) (pre bs : List ℕ) → read32s n (length pre) (pre ++ bs) ≡ read32s n 0 bs
read32s-prefix n [] bs = refl
read32s-prefix n (c ∷ pre) bs = read32s-shift n (length pre) c (pre ++ bs) ∙ read32s-prefix n pre bs

read32s-le32s : (xs : List ℕ) → AllU32 xs → read32s (length xs) 0 (le32s xs) ≡ xs
read32s-le32s [] v = refl
read32s-le32s (x ∷ xs) v =
    ap₂ ◌∷◌ (read32-le32 x (le32s xs) v.0)
      (read32s-prefix (length xs) (le32 x) (le32s xs) ∙ read32s-le32s xs v.1)

inode_head : SfsInode → List ℕ
inode_head i = le32 i.ino ++ (le32 i.size ++ ((i.kind % 256) ∷ le32 i.block_count))

pub inode_of-inode_bytes : (i : SfsInode) → FitsInode i → inode_of (inode_bytes i) ≡ i
unfolding inode_of inode_bytes inode_head
inode_of-inode_bytes i v =
    let ino_is : read32 0 (inode_bytes i) ≡ i.ino = omega (arith, v.ino_fits) in
    let size_is : read32 4 (inode_bytes i) ≡ i.size = omega (arith, v.size_fits) in
    let kind_is : i.kind % 256 ≡ i.kind = omega (arith, v.kind_fits) in
    let count_is : read32 9 (inode_bytes i) ≡ i.block_count = omega (arith, v.count_fits) in
    let blocks_are : read32s 12 13 (inode_bytes i) ≡ i.blocks =
      read32s-prefix 12 (inode_head i) (le32s i.blocks)
      ∙ ap (λ n. read32s n 0 (le32s i.blocks)) (sym v.blocks_len)
      ∙ read32s-le32s i.blocks v.blocks_fit in
    λ j. record {
      ino = ino_is j;
      size = size_is j;
      kind = kind_is j;
      block_count = count_is j;
      blocks = blocks_are j;
    }

length-le32s : (xs : List ℕ) → length (le32s xs) ≡ 4 * length xs
length-le32s [] = refl
length-le32s (x ∷ xs) = omega (arith, length-le32s xs)

pub length-inode_bytes : (i : SfsInode) → length i.blocks ≡ 12 → length (inode_bytes i) ≡ inode_size
unfolding inode_bytes
length-inode_bytes i e = omega (arith, length-le32s i.blocks)

-- The super block's fields hold the values.
abbrev pub fields : SuperBlock → List ℕ
fields s =
    s.magic ∷ s.total_blocks ∷ s.inode_count ∷ s.inode_bitmap_start ∷ s.block_bitmap_start
    ∷ s.inode_table_start ∷ s.data_block_start ∷ []

-- A super block of u32 fields is read back from its bytes as it was.
pub super_of-super_bytes : (s : SuperBlock) → AllU32 (fields s) → super_of (super_bytes s) ≡ s
unfolding super_of super_bytes
super_of-super_bytes s v = λ j. record {
  magic = read32-le32 s.magic [] v.0 j;
  total_blocks = read32-le32 s.total_blocks [] v.1.0 j;
  inode_count = read32-le32 s.inode_count [] v.1.1.0 j;
  inode_bitmap_start = read32-le32 s.inode_bitmap_start [] v.1.1.1.0 j;
  block_bitmap_start = read32-le32 s.block_bitmap_start [] v.1.1.1.1.0 j;
  inode_table_start = read32-le32 s.inode_table_start [] v.1.1.1.1.1.0 j;
  data_block_start = read32-le32 s.data_block_start [] v.1.1.1.1.1.1.0 j;
}
