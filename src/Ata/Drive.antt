-- ===== src/Ata/Drive.antt =====
-- The documented behaviour of the drive behind the ports of drivers/ata.c, as a relation between what
-- it shows and the states of the machine.
use sros.Prelude.{
  ℕ, zero, suc, ◌+◌, ◌*◌, ◌/◌, ◌%◌, ◌^◌, ◌<◌, ◌≤◌, ◌≡◌, Bool, true, false, ◌&&◌, ◌==◌,
  if◌then◌else◌,
}
use sros.Ports.{Ports}
use sros.Ata.{has_bsy, has_drq, has_err, rounds}

-- A drive has no command; or it hands over the sector `lba`, `left` more of them after it, with `i`
-- words of the sector done; or it takes them in.
pub data Phase : Type 0 where
  idle : Phase
  sends : ℕ → ℕ → ℕ → Phase
  takes : ℕ → ℕ → ℕ → Phase

abbrev pub wants : Phase → Bool
wants idle = false
wants (sends lba left i) = true
wants (takes lba left i) = true

-- `n` sectors from `lba` on are still to be handed over, or taken in.
abbrev pub sending : ℕ → ℕ → Phase
sending lba zero = idle
sending lba (suc left) = sends lba left 0

abbrev pub taking : ℕ → ℕ → Phase
taking lba zero = idle
taking lba (suc left) = takes lba left 0

-- The registers of a command.
pub record TaskFile : Type 0 where
  pub sectors : ℕ
  pub lba_lo : ℕ
  pub lba_mid : ℕ
  pub lba_hi : ℕ
  pub drive : ℕ

abbrev pub address : TaskFile → ℕ
address t = t.lba_lo + t.lba_mid * 2 ^ 8 + t.lba_hi * 2 ^ 16 + t.drive % 16 * 2 ^ 24

-- The words of a disk, by the sector and the place in it.
abbrev pub Disk : Type 0
Disk = ℕ → ℕ → ℕ

abbrev pub put_word : ℕ → ℕ → ℕ → Disk → Disk
put_word lba i w disk = λ l j. if l == lba && j == i then w else disk l j

module _ {S : Type 0} (Shows : Phase → ℕ → TaskFile → Disk → S → Type 0) where
  -- The drive gets into a phase after it has been busy for less than the time that the code waits.
  pub record Soon (p : Phase) (t : TaskFile) (disk : Disk) (s : S) : Type 0 where
    pub busy : ℕ
    pub in_time : busy < rounds
    pub shows : Shows p busy t disk s

module _ {S : Type 0} (io : Ports S) (Shows : Phase → ℕ → TaskFile → Disk → S → Type 0) where
  -- A drive that is busy shows that and nothing else; one that is not shows no error, and whether it
  -- wants data. A register takes a byte. A command may set the drive busy, and so may the end of a sector.
  pub record IsDrive : Type 0 where
    pub polled :
        (p : Phase) (n : ℕ) (t : TaskFile) (disk : Disk) (s : S)
        → Shows p (suc n) t disk s
        → let r = io.inb 0x3F6 s in (has_bsy r.0 ≡ true) × Shows p n t disk r.1
    pub ready :
        (p : Phase) (t : TaskFile) (disk : Disk) (s : S)
        → Shows p 0 t disk s
        → let r = io.inb 0x3F6 s in
          (has_bsy r.0 ≡ false)
          × (has_err r.0 ≡ false)
          × (has_drq r.0 ≡ wants p)
          × Shows p 0 t disk r.1
    pub set_sectors :
        (v : ℕ) (t : TaskFile) (disk : Disk) (s : S)
        → Shows idle 0 t disk s
        → v < 256
        → Shows idle 0 (record t { sectors = v }) disk (io.outb 0x1F2 v s)
    pub set_lba_lo :
        (v : ℕ) (t : TaskFile) (disk : Disk) (s : S)
        → Shows idle 0 t disk s
        → v < 256
        → Shows idle 0 (record t { lba_lo = v }) disk (io.outb 0x1F3 v s)
    pub set_lba_mid :
        (v : ℕ) (t : TaskFile) (disk : Disk) (s : S)
        → Shows idle 0 t disk s
        → v < 256
        → Shows idle 0 (record t { lba_mid = v }) disk (io.outb 0x1F4 v s)
    pub set_lba_hi :
        (v : ℕ) (t : TaskFile) (disk : Disk) (s : S)
        → Shows idle 0 t disk s
        → v < 256
        → Shows idle 0 (record t { lba_hi = v }) disk (io.outb 0x1F5 v s)
    pub set_drive :
        (v : ℕ) (t : TaskFile) (disk : Disk) (s : S)
        → Shows idle 0 t disk s
        → v < 256
        → Shows idle 0 (record t { drive = v }) disk (io.outb 0x1F6 v s)
    pub read_command :
        (t : TaskFile) (disk : Disk) (s : S)
        → Shows idle 0 t disk s
        → t.drive / 16 ≡ 14
        → 0 < t.sectors
        → address t + t.sectors ≤ 2 ^ 28
        → Soon Shows (sending (address t) t.sectors) t disk (io.outb 0x1F7 0x20 s)
    pub write_command :
        (t : TaskFile) (disk : Disk) (s : S)
        → Shows idle 0 t disk s
        → t.drive / 16 ≡ 14
        → 0 < t.sectors
        → address t + t.sectors ≤ 2 ^ 28
        → Soon Shows (taking (address t) t.sectors) t disk (io.outb 0x1F7 0x30 s)
    pub send :
        (lba left i : ℕ) (t : TaskFile) (disk : Disk) (s : S)
        → Shows (sends lba left i) 0 t disk s
        → i < 255
        → let r = io.inw 0x1F0 s in (r.0 ≡ disk lba i) × Shows (sends lba left (i + 1)) 0 t disk r.1
    pub send_last :
        (lba left : ℕ) (t : TaskFile) (disk : Disk) (s : S)
        → Shows (sends lba left 255) 0 t disk s
        → let r = io.inw 0x1F0 s in
          (r.0 ≡ disk lba 255) × Soon Shows (sending (lba + 1) left) t disk r.1
    pub take_in :
        (w lba left i : ℕ) (t : TaskFile) (disk : Disk) (s : S)
        → Shows (takes lba left i) 0 t disk s
        → i < 255
        → Shows (takes lba left (i + 1)) 0 t (put_word lba i w disk) (io.outw 0x1F0 w s)
    pub take_last :
        (w lba left : ℕ) (t : TaskFile) (disk : Disk) (s : S)
        → Shows (takes lba left 255) 0 t disk s
        → Soon Shows (taking (lba + 1) left) t (put_word lba 255 w disk) (io.outw 0x1F0 w s)
