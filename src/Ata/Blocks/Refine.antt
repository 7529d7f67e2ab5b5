-- ===== src/Ata/Blocks/Refine.antt =====
-- A drive that gets ready in time carries out fs/ramdisk.c as the file system's model has it.
use sros.Prelude.{
  ℕ, zero, suc, ◌+◌, ◌*◌, ◌/◌, ◌%◌, ◌<◌, ◌≤◌, ◌≡◌, ◌≢◌, refl, sym, ap, ◌∙◌, Bool, true, false, ◌&&◌,
  Option, none, some, List, [], ◌∷◌, ◌++◌, ltb, ◌==◌, arith, if◌then◌else◌, get_or, length,
  replicate,
}
use mathlib.Core.Path.{subst, ap₂}
use sros.Ports.{Ends, Ports, Io, pure, ◌>>=◌}
use sros.Sfs.{Fs, disk_blocks, fs_block_size, block_read, block_write, write_block}
use sros.Ata.{ata_read_sectors, ata_write_sectors}
use sros.Ata.Drive.{Phase, idle, TaskFile, Disk, Soon, IsDrive}
use sros.Ata.Reading.{word_bytes, sectors, task_file, ata_read_sectors-Ends}
use sros.Ata.Writing.{Written, ata_write_sectors-Stands}
use sros.Ata.Back.{contents, sectors-contents}
use sros.Ata.Blocks.{ata_block_read, ata_block_write}

contents-later :
    (n i : ℕ) (x : ℕ) (xs : List ℕ)
    → contents n (i + 1) (λ j. get_or (x ∷ xs) j 0) ≡ contents n i (λ j. get_or xs j 0)
unfolding contents
contents-later zero i x xs = refl
contents-later (suc n) i x xs =
    let next : i + 1 ≡ suc i = omega arith in
    let here : get_or (x ∷ xs) (i + 1) 0 ≡ get_or xs i 0 = ap (λ j. get_or (x ∷ xs) j 0) next in
    ap₂ ◌∷◌ here (contents-later n (i + 1) x xs)

contents-get_or : (xs : List ℕ) → contents (length xs) 0 (λ j. get_or xs j 0) ≡ xs
unfolding contents
contents-get_or [] = refl
contents-get_or (x ∷ xs) = ap (◌∷◌ x) (contents-later (length xs) 0 x xs ∙ contents-get_or xs)

word_bytes-same :
    (n i : ℕ) (f g : ℕ → ℕ)
    → ((k : ℕ) → k < i + n → f k ≡ g k)
    → word_bytes n i f ≡ word_bytes n i g
unfolding word_bytes
word_bytes-same zero i f g same = refl
word_bytes-same (suc n) i f g same =
    ap₂ (λ w bs. w % 256 ∷ w / 256 % 256 ∷ bs) (same i (omega arith))
      (word_bytes-same n (i + 1) f g (λ k below. same k (omega arith)))

sectors-same :
    (n a : ℕ) (d e : Disk)
    → ((l k : ℕ) → a ≤ l → l < a + n → k < 256 → d l k ≡ e l k)
    → sectors n a d ≡ sectors n a e
unfolding sectors
sectors-same zero a d e same = refl
sectors-same (suc n) a d e same =
    ap₂ ◌++◌
      (word_bytes-same 256 0 (d a) (e a)
        (λ k below. same a k (omega arith) (omega arith) (omega arith)))
      (sectors-same n (a + 1) d e
        (λ l k above below inside. same l k (omega arith) (omega arith) inside))

-- The sectors of another block are not touched.
Written-other :
    (m n : ℕ) (buf : ℕ → ℕ) (before disk : Disk)
    → Written (n * 8) 2048 buf before disk
    → m ≢ n
    → sectors 8 (m * 8) disk ≡ sectors 8 (m * 8) before
Written-other m n buf before disk v other =
    sectors-same 8 (m * 8) disk before
      (λ l k above below inside. let here = v l k inside in grind arith)

-- The sectors of the drive hold the blocks of the file system's disk.
abbrev pub Agrees : Disk → (ℕ → List ℕ) → Type 0
Agrees disk blocks = (n : ℕ) → n < 1024 → sectors 8 (n * 8) disk ≡ blocks n

Written-Agrees :
    (n : ℕ) (bs : List ℕ) (before disk : Disk) (blocks : ℕ → List ℕ)
    → length bs ≡ 4096
    → ((j : ℕ) → get_or bs j 0 < 256)
    → Written (n * 8) 2048 (λ j. get_or bs j 0) before disk
    → Agrees before blocks
    → Agrees disk (write_block n bs blocks)
Written-Agrees n bs before disk blocks whole bytes v agrees m below =
    let buf : ℕ → ℕ = λ j. get_or bs j 0 in
    let Result : Bool → Type 0 = λ c. sectors 8 (m * 8) disk ≡ (if c then bs else blocks m) in
    let by_number : (c : Bool) → (m == n) ≡ c → Result c = λ c e.
      elim c as (λ c'. (m == n) ≡ c' → Result c') [
        | true ↦ λ equal.
            let start : m * 8 ≡ n * 8 + 0 = ground arith in
            ap (λ a. sectors 8 a disk) start
            ∙ sectors-contents 8 0 (n * 8) 8 buf before disk bytes v (omega arith)
            ∙ ap (λ l. contents l 0 buf) (sym whole)
            ∙ contents-get_or bs
        | false ↦ λ different.
            let other : m ≢ n = ground arith in
            Written-other m n buf before disk v other ∙ agrees m below
      ]
        e in
    by_number (m == n) refl

module _ {S : Type 0} (Shows : Phase → ℕ → TaskFile → Disk → S → Type 0) where
  -- The drive is without a command soon, and holds the disk of `f`.
  pub record Backs (f : Fs) (s : S) : Type 0 where
    pub registers : TaskFile
    pub disk : Disk
    pub soon : Soon Shows idle registers disk s
    pub agrees : Agrees disk f.disk

module _ {S : Type 0} (io : Ports S) (Shows : Phase → ℕ → TaskFile → Disk → S → Type 0)
    (drive : IsDrive io Shows) where
  block_read-Ends :
      (n : ℕ) (buf : List ℕ) (f : Fs) (s : S)
      → f.serves n ≡ true
      → Backs Shows f s
      → Ends (block_read n buf f) (Backs Shows f) (ata_block_read io n buf s)
  unfolding ata_block_read block_read
  block_read-Ends n buf f s served b =
      let whole : Option ℕ × List ℕ → List ℕ =
        λ r. elim r.0 [ none ↦ replicate fs_block_size 0 | some m ↦ r.1 ] in
      let transfer : Io S (List ℕ) = ata_read_sectors io (n * 8) 8 >>= λ r. pure (whole r) in
      let on_disk : ℕ → Bool → List ℕ =
        λ m ok. if ok then f.disk m else replicate fs_block_size 0 in
      let Result : Bool → Type 0 = λ c.
        Ends (if c then on_disk n (f.serves n) else buf) (Backs Shows f)
          ((if c then transfer else pure buf) s) in
      let by_range : (c : Bool) → ltb n disk_blocks ≡ c → Result c = λ c e.
        elim c as (λ c'. ltb n disk_blocks ≡ c' → Result c') [
          | true ↦ λ inside.
              let below : n < 1024 = ground arith in
              let (got, soon) =
                ata_read_sectors-Ends io Shows drive (n * 8) 8 b.registers b.disk s (omega arith)
                  (omega arith) (omega arith) b.soon in
              (
                ap whole got ∙ b.agrees n below ∙ ap (on_disk n) (sym served),
                record {
                  registers = task_file (n * 8) 8;
                  disk = b.disk;
                  soon = soon;
                  agrees = b.agrees;
                },
              )
          | false ↦ λ outside. (refl, b)
        ]
          e in
      by_range (ltb n disk_blocks) refl

  block_write-Backs :
      (n : ℕ) (bs : List ℕ) (f : Fs) (s : S)
      → f.serves n ≡ true
      → length bs ≡ 4096
      → ((j : ℕ) → get_or bs j 0 < 256)
      → Backs Shows f s
      → Backs Shows (block_write n bs f) (ata_block_write io n bs s).1
  unfolding ata_block_write block_write
  block_write-Backs n bs f s served whole bytes b =
      let buf : ℕ → ℕ = λ j. get_or bs j 0 in
      let transfer : Io S (Unit {0}) = ata_write_sectors io (n * 8) 8 buf >>= λ r. pure tt in
      let after : Bool → Fs = λ ok. if ok then record f { disk = write_block n bs f.disk } else f in
      let Result : Bool → Type 0 =
        λ c. Backs Shows (after (c && f.serves n)) ((if c then transfer else pure tt) s).1 in
      let by_range : (c : Bool) → ltb n disk_blocks ≡ c → Result c = λ c e.
        elim c as (λ c'. ltb n disk_blocks ≡ c' → Result c') [
          | true ↦ λ inside.
              let below : n < 1024 = ground arith in
              let (done, w) =
                ata_write_sectors-Stands io Shows drive (n * 8) 8 buf b.registers b.disk s
                  (omega arith) (omega arith) (omega arith) b.soon in
              let s' = (ata_write_sectors io (n * 8) 8 buf s).1 in
              subst (λ ok. Backs Shows (after ok) s') (sym served)
                (record {
                  registers = task_file (n * 8) 8;
                  disk = w.disk;
                  soon = w.soon;
                  agrees = Written-Agrees n bs b.disk w.disk f.disk whole bytes w.written b.agrees;
                })
          | false ↦ λ outside. b
        ]
          e in
      by_range (ltb n disk_blocks) refl

  -- On a drive that follows the documented protocol, is never busy for longer than the code waits,
  -- and holds the disk of a file system's model, for a block that the model says is served:
  -- block_read gives the bytes that the model's block_read gives and leaves the drive holding the
  -- same disk, and block_write of 4096 bytes leaves it holding the disk of the model's
  -- block_write. A block number outside the disk is included.
  pub ata_blocks-refine :
      (n : ℕ) (buf bs : List ℕ) (f : Fs) (s : S)
      → f.serves n ≡ true
      → length bs ≡ 4096
      → ((j : ℕ) → get_or bs j 0 < 256)
      → Backs Shows f s
      → Ends (block_read n buf f) (Backs Shows f) (ata_block_read io n buf s)
        × Backs Shows (block_write n bs f) (ata_block_write io n bs s).1
  ata_blocks-refine n buf bs f s served whole bytes b =
      (block_read-Ends n buf f s served b, block_write-Backs n bs f s served whole bytes b)
