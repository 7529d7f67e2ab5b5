-- ===== src/Tests/Syscall.antt =====
-- A root directory of three entries.
use sros.Prelude.{ℕ, List, [], ◌∷◌, ◌++◌, replicate, take, ◌==◌, if◌then◌else◌}
use sros.Sfs.{Fs, SfsInode}
use sros.Sfs.Inode.{sfs_write_inode}
use sros.Tests.Sfs.{fs, disk_of}

-- An entry with a name of at most 27 characters.
abbrev entry : ℕ → List ℕ → List ℕ
entry ino name = ino ∷ 0 ∷ 0 ∷ 0 ∷ take 28 (name ++ replicate 28 0)

-- ".", "sh" and "a".
abbrev entries : List ℕ
entries = entry 1 (b'.' ∷ []) ++ entry 5 (b's' ∷ b'h' ∷ []) ++ entry 6 (b'a' ∷ [])

abbrev stored_root : Fs
stored_root = record fs { disk = λ n. if n == 6 then entries ++ replicate 4000 0 else disk_of n }

abbrev root_inode : SfsInode
root_inode = record { ino = 1; size = 4096; kind = 1; block_count = 1; blocks = 6 ∷ replicate 11 0 }

abbrev with_root : Fs
with_root = (sfs_write_inode root_inode stored_root).1
