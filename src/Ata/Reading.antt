-- ===== src/Ata/Reading.antt =====
-- What `ata_read_sectors` of drivers/ata.c reads of a drive that gets ready in time.
use sros.Prelude.{
  ℕ, zero, suc, ◌+◌, ◌*◌, ◌/◌, ◌%◌, ◌^◌, ◌++◌, ◌<◌, ◌≤◌, ◌≡◌, refl, sym, ap, ◌∙◌, Bool, true, false,
  Option, none, some, List, [], ◌∷◌, ◌==◌, arith, if◌then◌else◌,
}
use mathlib.Core.Path.{subst, ap₂}
use sros.Ports.{Ends, Ends-if, Ends-bind, Ports, Io, pure, ◌>>=◌, ◌>>◌}
use sros.Ata.{
  ata_wait_busy, ata_wait_drq, read_bytes, read_sectors, command, read_count, ata_read_sectors,
}
use sros.Ata.Drive.{Phase, idle, sends, sending, TaskFile, address, Disk, Soon, IsDrive}
use sros.Ata.Waits.{ata_wait_busy-Ends, ata_wait_drq-Ends}

-- The bytes of `n` words from the `i`-th on.
unfoldable pub word_bytes : ℕ → ℕ → (ℕ → ℕ) → List ℕ
word_bytes zero i f = []
word_bytes (suc n) i f = f i % 256 ∷ f i / 256 % 256 ∷ word_bytes n (i + 1) f

-- The bytes of `n` sectors.
unfoldable pub sectors : ℕ → ℕ → Disk → List ℕ
sectors zero lba disk = []
sectors (suc n) lba disk = word_bytes 256 0 (disk lba) ++ sectors n (lba + 1) disk

-- The registers that a transfer sets.
abbrev pub task_file : ℕ → ℕ → TaskFile
task_file lba count = record {
  sectors = count;
  lba_lo = lba % 256;
  lba_mid = lba / 2 ^ 8 % 256;
  lba_hi = lba / 2 ^ 16 % 256;
  drive = 0xE0 + lba / 2 ^ 24 % 16;
}

pub address-task_file : (lba count : ℕ) → lba < 2 ^ 28 → address (task_file lba count) ≡ lba
address-task_file lba count h = omega arith

pub drive-task_file : (lba count : ℕ) → (task_file lba count).drive / 16 ≡ 14
drive-task_file lba count = omega arith

module _ {S : Type 0} (io : Ports S) (Shows : Phase → ℕ → TaskFile → Disk → S → Type 0)
    (drive : IsDrive io Shows) where
  -- The machine when the registers of a command are set.
  abbrev pub prepared : ℕ → ℕ → S → S
  prepared lba count s = io.outb 0x1F6 (0xE0 + lba / 2 ^ 24 % 16) (
      io.outb 0x1F5 (lba / 2 ^ 16 % 256)
        (io.outb 0x1F4 (lba / 2 ^ 8 % 256) (io.outb 0x1F3 (lba % 256) (io.outb 0x1F2 count s))))

  pub prepared-Shows :
      (lba count : ℕ) (t : TaskFile) (disk : Disk) (s : S)
      → Shows idle 0 t disk s
      → count < 256
      → Shows idle 0 (task_file lba count) disk (prepared lba count s)
  prepared-Shows lba count t disk s h small =
      let h1 = drive.set_sectors count t disk s h small in
      let h2 = drive.set_lba_lo (lba % 256) _ disk _ h1 (omega arith) in
      let h3 = drive.set_lba_mid (lba / 2 ^ 8 % 256) _ disk _ h2 (omega arith) in
      let h4 = drive.set_lba_hi (lba / 2 ^ 16 % 256) _ disk _ h3 (omega arith) in
      drive.set_drive (0xE0 + lba / 2 ^ 24 % 16) _ disk _ h4 (omega arith)

  read_bytes-Ends :
      (n i lba left : ℕ) (t : TaskFile) (disk : Disk) (s : S)
      → Shows (sends lba left i) 0 t disk s
      → i + suc n ≡ 256
      → Ends
          (word_bytes (suc n) i (disk lba))
          (Soon Shows (sending (lba + 1) left) t disk)
          (read_bytes io (suc n) s)
  unfolding read_bytes word_bytes
  read_bytes-Ends zero i lba left t disk s h e =
      let at_last : i ≡ 255 = omega arith in
      let (here, h') =
        drive.send_last lba left t disk s
          (subst (λ j. Shows (sends lba left j) 0 t disk s) at_last h) in
      (ap (λ w. w % 256 ∷ w / 256 % 256 ∷ []) (here ∙ ap (disk lba) (sym at_last)), h')
  read_bytes-Ends (suc n) i lba left t disk s h e =
      let (here, h') = drive.send lba left i t disk s h (omega arith) in
      let (rest, h'') =
        read_bytes-Ends n (i + 1) lba left t disk (io.inw 0x1F0 s).1 h' (omega arith) in
      (ap₂ (λ w bs. w % 256 ∷ w / 256 % 256 ∷ bs) here rest, h'')

  read_sectors-Ends :
      (n lba : ℕ) (t : TaskFile) (disk : Disk) (s : S)
      → Soon Shows (sending lba n) t disk s
      → Ends (true, sectors n lba disk) (Soon Shows idle t disk) (read_sectors io n s)
  unfolding read_sectors sectors
  read_sectors-Ends zero lba t disk s h = (refl, h)
  read_sectors-Ends (suc n) lba t disk s h =
      let (waited, h1) = ata_wait_drq-Ends io Shows drive (sends lba n 0) t disk s h refl in
      let s1 = (ata_wait_drq io s).1 in
      let (here, h2) = read_bytes-Ends 255 0 lba n t disk s1 h1 refl in
      let (rest, h3) = read_sectors-Ends n (lba + 1) t disk (read_bytes io 256 s1).1 h2 in
      let go : Io S (Bool × List ℕ) =
        read_bytes io 256 >>= λ bs. read_sectors io n >>= λ r. pure (r.0, bs ++ r.1) in
      Ends-bind (λ b. if b then go else pure (false, [])) (ata_wait_drq io s) true _
        (Soon Shows idle t disk) waited
        (ap₂ (λ bs (r : Bool × List ℕ). (r.0, bs ++ r.1)) here rest, h3)

  read_count-Ends :
      (lba count : ℕ) (t : TaskFile) (disk : Disk) (s : S)
      → 0 < count
      → count < 256
      → lba + count ≤ 2 ^ 28
      → Soon Shows idle t disk s
      → Ends
          (some (count * 512), sectors count lba disk)
          (Soon Shows idle (task_file lba count) disk)
          (read_count io lba count s)
  unfolding read_count command
  read_count-Ends lba count t disk s some_left small in_range h =
      let (waited, h1) = ata_wait_busy-Ends io Shows drive idle t disk s h in
      let s1 = (ata_wait_busy io s).1 in
      let place = address-task_file lba count (omega arith) in
      let h2 = prepared-Shows lba count t disk s1 h1 small in
      let h3 =
        drive.read_command (task_file lba count) disk (prepared lba count s1) h2
          (drive-task_file lba count) some_left (rw place in_range) in
      let s2 = io.outb 0x1F7 0x20 (prepared lba count s1) in
      let (got, h4) =
        read_sectors-Ends count lba (task_file lba count) disk s2
          (subst (λ a. Soon Shows (sending a count) (task_file lba count) disk s2) place h3) in
      let result : Bool × List ℕ → Option ℕ × List ℕ =
        λ r. ((if r.0 then some (count * 512) else none), r.1) in
      let go : Io S (Option ℕ × List ℕ) =
        command io 0x20 lba count >> (read_sectors io count >>= λ r. pure (result r)) in
      let P = Soon Shows idle (task_file lba count) disk in
      let transfer : Io S (Option ℕ × List ℕ) =
        ata_wait_busy io >>= λ b. if b then go else pure (none, []) in
      Ends-if (count == 0) false (pure (some 0, [])) transfer s _ P (ground arith) (
        Ends-bind (λ b. if b then go else pure (none, [])) (ata_wait_busy io s) true _ P waited
          (ap result got, h4))

  -- The bytes of the sectors, from a drive with no command.
  pub ata_read_sectors-Ends :
      (lba count : ℕ) (t : TaskFile) (disk : Disk) (s : S)
      → 0 < count
      → count < 256
      → lba + count ≤ 2 ^ 28
      → Soon Shows idle t disk s
      → Ends
          (some (count * 512), sectors count lba disk)
          (Soon Shows idle (task_file lba count) disk)
          (ata_read_sectors io lba count s)
  unfolding ata_read_sectors
  ata_read_sectors-Ends lba count t disk s some_left small in_range h =
      let same : count % 2 ^ 8 ≡ count = omega arith in
      rw same (read_count-Ends lba count t disk s some_left small in_range h)
