-- ===== src/Sfs/Codec.antt =====
-- The byte forms of the packed structures of fs/sfs.h.
pub mod Laws
use sros.Prelude.{ℕ, zero, suc, ◌+◌, ◌*◌, ◌/◌, ◌%◌, ◌^◌, ◌++◌, List, [], ◌∷◌, get_or, drop, take}
use sros.Sfs.{SuperBlock, SfsInode, slice}

-- A u32 in memory, and back.
abbrev pub le32 : ℕ → List ℕ
le32 x = (x % 256) ∷ (x / 256 % 256) ∷ (x / 65536 % 256) ∷ (x / 16777216 % 256) ∷ []

abbrev pub read32 : ℕ → List ℕ → ℕ
read32 off bs =
    get_or bs off 0
    + get_or bs (off + 1) 0 * 256
    + get_or bs (off + 2) 0 * 65536
    + get_or bs (off + 3) 0 * 16777216

abbrev pub le32s : List ℕ → List ℕ
le32s [] = []
le32s (x ∷ xs) = le32 x ++ le32s xs

abbrev pub read32s : ℕ → ℕ → List ℕ → List ℕ
read32s zero off bs = []
read32s (suc n) off bs = read32 off bs ∷ read32s n (off + 4) bs

-- sizeof(struct super_block), sizeof(struct sfs_inode), sizeof(struct dentry), MAX_FILENAME
abbrev pub super_size : ℕ
super_size = 28

abbrev pub inode_size : ℕ
inode_size = 61

abbrev pub dentry_size : ℕ
dentry_size = 32

abbrev pub max_filename : ℕ
max_filename = 28

pub super_bytes : SuperBlock → List ℕ
super_bytes s = le32s (
    s.magic ∷ s.total_blocks ∷ s.inode_count ∷ s.inode_bitmap_start ∷ s.block_bitmap_start
    ∷ s.inode_table_start ∷ s.data_block_start ∷ [])

pub super_of : List ℕ → SuperBlock
super_of bs = record {
  magic = read32 0 bs;
  total_blocks = read32 4 bs;
  inode_count = read32 8 bs;
  inode_bitmap_start = read32 12 bs;
  block_bitmap_start = read32 16 bs;
  inode_table_start = read32 20 bs;
  data_block_start = read32 24 bs;
}

pub inode_bytes : SfsInode → List ℕ
inode_bytes i =
    le32 i.ino ++ (le32 i.size ++ ((i.kind % 256) ∷ (le32 i.block_count ++ le32s i.blocks)))

pub inode_of : List ℕ → SfsInode
inode_of bs = record {
  ino = read32 0 bs;
  size = read32 4 bs;
  kind = get_or bs 8 0;
  block_count = read32 9 bs;
  blocks = read32s 12 13 bs;
}

-- `struct dentry`: its inode number and the 28 bytes of its name.
pub record Dentry : Type 0 where
  pub ino : ℕ
  pub name : List ℕ

pub dentry_bytes : Dentry → List ℕ
dentry_bytes d = le32 d.ino ++ d.name

pub dentry_of : List ℕ → Dentry
dentry_of bs = record { ino = read32 0 bs; name = take max_filename (drop 4 bs) }
