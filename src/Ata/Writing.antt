-- ===== src/Ata/Writing.antt =====
-- What `ata_write_sectors` of drivers/ata.c leaves on a drive that gets ready in time.
use sros.Prelude.{
  ℕ, zero, suc, ◌+◌, ◌-◌, ◌*◌, ◌%◌, ◌^◌, ◌<◌, ◌≤◌, ◌≡◌, refl, ap, ◌∙◌, Bool, true, false, ◌&&◌,
  Option, none, some, ltb, leb, ◌==◌, arith, if◌then◌else◌,
}
use mathlib.Core.Path.{subst}
use sros.Ports.{Ends, Ends-if, Ends-bind, Ports, Io, pure, ◌>>=◌, ◌>>◌}
use sros.Ata.{
  word_at, ata_wait_busy, ata_wait_drq, write_words, write_sectors, command, write_count,
  ata_write_sectors,
}
use sros.Ata.Drive.{Phase, idle, takes, taking, TaskFile, address, Disk, put_word, Soon, IsDrive}
use sros.Ata.Waits.{ata_wait_busy-Ends, ata_wait_drq-Ends}
use sros.Ata.Reading.{task_file, address-task_file, drive-task_file, prepared, prepared-Shows}

-- The first `m` words of the buffer stand on the disk from the sector `lba` on, and all else is as
-- before.
abbrev pub Written : ℕ → ℕ → (ℕ → ℕ) → Disk → Disk → Type 0
Written lba m buf before disk =
    (l k : ℕ)
    → k < 256
    → disk l k ≡ (
        if leb lba l && ltb ((l - lba) * 256 + k) m
        then word_at buf ((l - lba) * 256 + k)
        else before l k)

Written-none : (lba : ℕ) (buf : ℕ → ℕ) (disk : Disk) → Written lba 0 buf disk disk
Written-none lba buf disk l k h = ground arith

Written-next :
    (lba q i m : ℕ) (buf : ℕ → ℕ) (before disk : Disk)
    → Written lba m buf before disk
    → m ≡ q * 256 + i
    → i < 256
    → Written lba (m + 1) buf before (put_word (lba + q) i (word_at buf m) disk)
Written-next lba q i m buf before disk h e in_sector l k in_range =
    let old = h l k in_range in grind arith

module _ {S : Type 0} (Shows : Phase → ℕ → TaskFile → Disk → S → Type 0) (lba : ℕ) (buf : ℕ → ℕ)
    (before : Disk) (t : TaskFile) where
  -- The machine after `m` words, with the drive in a phase soon.
  pub record Stands (p : Phase) (m : ℕ) (s : S) : Type 0 where
    pub disk : Disk
    pub written : Written lba m buf before disk
    pub soon : Soon Shows p t disk s

module _ {S : Type 0} (io : Ports S) (Shows : Phase → ℕ → TaskFile → Disk → S → Type 0)
    (drive : IsDrive io Shows) (lba : ℕ) (buf : ℕ → ℕ) (before : Disk) (t : TaskFile) where
  abbrev After : Phase → ℕ → S → Type 0
  After = Stands Shows lba buf before t

  write_words-Stands :
      (n q i m left : ℕ) (disk : Disk) (s : S)
      → Shows (takes (lba + q) left i) 0 t disk s
      → Written lba m buf before disk
      → m ≡ q * 256 + i
      → i + suc n ≡ 256
      → After (taking (lba + (q + 1)) left) ((q + 1) * 256) (write_words io (suc n) m buf s).1
  unfolding write_words
  write_words-Stands zero q i m left disk s h v e full =
      let at_last : i ≡ 255 = omega arith in
      let h' =
        drive.take_last (word_at buf m) (lba + q) left t disk s
          (subst (λ j. Shows (takes (lba + q) left j) 0 t disk s) at_last h) in
      let v' = Written-next lba q 255 m buf before disk v (omega arith) (omega arith) in
      record {
        disk = put_word (lba + q) 255 (word_at buf m) disk;
        written =
            subst (λ x. Written lba x buf before (put_word (lba + q) 255 (word_at buf m) disk))
              (omega arith) v';
        soon =
            subst
              (λ a.
                Soon Shows (taking a left) t (put_word (lba + q) 255 (word_at buf m) disk)
                  (io.outw 0x1F0 (word_at buf m) s))
              (omega arith) h';
      }
  write_words-Stands (suc n) q i m left disk s h v e full =
      write_words-Stands n q (i + 1) (m + 1) left _ (io.outw 0x1F0 (word_at buf m) s)
        (drive.take_in (word_at buf m) (lba + q) left i t disk s h (omega arith))
        (Written-next lba q i m buf before disk v e (omega arith)) (omega arith) (omega arith)

  write_sectors-Stands :
      (n q i : ℕ) (s : S)
      → After (taking (lba + q) n) i s
      → i ≡ q * 256
      → Ends true (After idle ((q + n) * 256)) (write_sectors io n i buf s)
  unfolding write_sectors
  write_sectors-Stands zero q i s h e = (refl, subst (λ x. After idle x s) (omega arith) h)
  write_sectors-Stands (suc n) q i s h e =
      let (waited, h1) =
        ata_wait_drq-Ends io Shows drive (takes (lba + q) n 0) t h.disk s h.soon refl in
      let s1 = (ata_wait_drq io s).1 in
      let h2 = write_words-Stands 255 q 0 i n h.disk s1 h1 h.written (omega arith) refl in
      let s2 = (write_words io 256 i buf s1).1 in
      let go : Io S Bool = write_words io 256 i buf >> write_sectors io n (i + 256) buf in
      let next_start : (q + 1) * 256 ≡ i + 256 = omega arith in
      let h3 = subst (λ x. After (taking (lba + (q + 1)) n) x s2) next_start h2 in
      let (done, h4) = write_sectors-Stands n (q + 1) (i + 256) s2 h3 (omega arith) in
      Ends-bind (λ b. if b then go else pure false) (ata_wait_drq io s) true true
        (After idle ((q + suc n) * 256)) waited
        (done, subst (λ x. After idle x (write_sectors io n (i + 256) buf s2).1) (omega arith) h4)

module _ {S : Type 0} (io : Ports S) (Shows : Phase → ℕ → TaskFile → Disk → S → Type 0)
    (drive : IsDrive io Shows) where
  write_count-Stands :
      (lba count : ℕ) (buf : ℕ → ℕ) (t : TaskFile) (disk : Disk) (s : S)
      → 0 < count
      → count < 256
      → lba + count ≤ 2 ^ 28
      → Soon Shows idle t disk s
      → Ends
          (some (count * 512))
          (Stands Shows lba buf disk (task_file lba count) idle (count * 256))
          (write_count io lba count buf s)
  unfolding write_count command
  write_count-Stands lba count buf t disk s some_left small in_range h =
      let (waited, h1) = ata_wait_busy-Ends io Shows drive idle t disk s h in
      let s1 = (ata_wait_busy io s).1 in
      let tf = task_file lba count in
      let place = address-task_file lba count (omega arith) in
      let h2 = prepared-Shows io Shows drive lba count t disk s1 h1 small in
      let p1 = prepared io Shows drive lba count s1 in
      let h3 =
        drive.write_command tf disk p1 h2 (drive-task_file lba count) some_left
          (rw place in_range) in
      let s2 = io.outb 0x1F7 0x30 p1 in
      let start : address tf ≡ lba + 0 = place ∙ omega arith in
      let h4 : Stands Shows lba buf disk tf (taking (lba + 0) count) 0 s2 = record {
        disk = disk;
        written = Written-none lba buf disk;
        soon = subst (λ a. Soon Shows (taking a count) tf disk s2) start h3;
      } in
      let (sent, h5) = write_sectors-Stands io Shows drive lba buf disk tf count 0 0 s2 h4 refl in
      let s3 = (write_sectors io count 0 buf s2).1 in
      let (flushed, h6) = ata_wait_busy-Ends io Shows drive idle tf h5.disk s3 h5.soon in
      let done : Bool → Option ℕ = λ b. if b then some (count * 512) else none in
      let flush : Io S (Option ℕ) = ata_wait_busy io >>= λ b. pure (done b) in
      let go : Io S (Option ℕ) =
        command io 0x30 lba count
        >> (write_sectors io count 0 buf >>= λ b. if b then flush else pure none) in
      let P = Stands Shows lba buf disk tf idle (count * 256) in
      let transfer : Io S (Option ℕ) = ata_wait_busy io >>= λ b. if b then go else pure none in
      Ends-if (count == 0) false (pure (some 0)) transfer s _ P (ground arith) (
        Ends-bind (λ b. if b then go else pure none) (ata_wait_busy io s) true _ P waited
          (Ends-bind (λ b. if b then flush else pure none) (write_sectors io count 0 buf s2) true _
            P sent
            (
              ap done flushed,
              record {
                disk = h5.disk;
                written =
                    subst (λ n. Written lba (n * 256) buf disk h5.disk) (omega arith) h5.written;
                soon = record { busy = 0; in_time = omega arith; shows = h6 };
              },
            )))

  -- A buffer that is written to a drive with no command.
  pub ata_write_sectors-Stands :
      (lba count : ℕ) (buf : ℕ → ℕ) (t : TaskFile) (disk : Disk) (s : S)
      → 0 < count
      → count < 256
      → lba + count ≤ 2 ^ 28
      → Soon Shows idle t disk s
      → Ends
          (some (count * 512))
          (Stands Shows lba buf disk (task_file lba count) idle (count * 256))
          (ata_write_sectors io lba count buf s)
  unfolding ata_write_sectors
  ata_write_sectors-Stands lba count buf t disk s some_left small in_range h =
      let same : count % 2 ^ 8 ≡ count = omega arith in
      rw same (write_count-Stands lba count buf t disk s some_left small in_range h)
