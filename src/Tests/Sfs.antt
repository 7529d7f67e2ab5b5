-- ===== src/Tests/Sfs.antt =====
-- The file system with a fresh super block, on a disk whose bitmaps hold one byte of ones.
use sros.Prelude.{
  not, ◌&&◌, ◌==◌, ℕ, suc, ◌<◌, ◌≡◌, ◌≢◌, refl, ap, true, List, [], ◌∷◌, some, arith, replicate,
  length-replicate, length, ◌≤◌, ◌-◌,
}
use sros.Sfs.File.{sfs_read_file}
use sros.Sfs.File.Bounds.{sfs_read_file-bounds}
use sros.Sfs.{Fs, SfsInode}
use sros.Sfs.Codec.Laws.{FitsInode}
use sros.Sfs.Bitmap.{sfs_alloc_inode, sfs_free_inode}
use sros.Sfs.Bitmap.Laws.{Allocates, inode_used, sfs_alloc_inode-Allocates, sfs_free_inode_lem}
use sros.Sfs.Inode.{sfs_read_inode, sfs_write_inode}
use sros.Sfs.Inode.Laws.{Works, sfs_read_inode-sfs_write_inode}
use sros.Sfs.Format.{fresh_super}

abbrev pub disk_of : ℕ → List ℕ
disk_of n = 31 ∷ replicate 4095 0

abbrev pub fs : Fs
fs = record {
  disk = disk_of;
  serves = λ n. true;
  stale = [];
  beyond = λ i. 0;
  sb = fresh_super;
  mounted = true;
  file_table = [];
}

pub fs-Works : (n : ℕ) → n < 1024 → Works fs n
fs-Works n h = record {
  on_disk = h;
  served = refl;
  whole = ap suc (length-replicate {A = ℕ} 4095 0);
}

abbrev some_file : SfsInode
some_file = record { ino = 5; size = 300; kind = 0; block_count = 1; blocks = 9 ∷ replicate 11 0 }

some_file-FitsInode : FitsInode some_file
some_file-FitsInode = record {
  ino_fits = omega arith;
  size_fits = omega arith;
  kind_fits = omega arith;
  count_fits = omega arith;
  blocks_fit = search (arith);
  blocks_len = refl;
}

sfs_write_inode_example :
    let (ok, f') = sfs_write_inode some_file fs in
    (ok ≡ true)
    × (sfs_read_inode 5 f' ≡ some some_file)
    × ((j : ℕ) → j ≢ 5 → sfs_read_inode j f' ≡ sfs_read_inode j fs)
sfs_write_inode_example =
    sfs_read_inode-sfs_write_inode some_file fs some_file-FitsInode refl (fs-Works 3 (omega arith))

sfs_alloc_inode_example : let (r, f') = sfs_alloc_inode fs in Allocates inode_used 134 fs r f'
sfs_alloc_inode_example = sfs_alloc_inode-Allocates fs (fs-Works 1 (omega arith)) (omega arith)

sfs_free_inode_example : (inode_used (sfs_free_inode 3 fs) 3 ≡ not (3 == 3) && inode_used fs 3)
sfs_free_inode_example =
    sfs_free_inode_lem 3 fs (fs-Works 1 (omega arith)) (omega arith) (omega arith) (omega arith) 3

sfs_read_file_example :
    let bs = sfs_read_file some_file 10 295 fs in (length bs ≤ 10) × (length bs ≤ 300 - 295)
sfs_read_file_example = sfs_read_file-bounds some_file 10 295 fs (omega arith)
