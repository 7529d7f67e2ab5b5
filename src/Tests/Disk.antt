-- ===== src/Tests/Disk.antt =====
-- A drive that is busy for three polls after each command and each sector.
use sros.Prelude.{
  ℕ, zero, suc, ◌+◌, ◌%◌, ◌<◌, ◌≡◌, refl, sym, ap, Bool, true, false, some, [], arith, get_or,
  replicate, length-replicate, ◌==◌, if◌then◌else◌,
}
use mathlib.Core.Path.{subst}
use sros.Ports.{Ends, Ports}
use sros.Sfs.{Fs, block_read, block_write}
use sros.Ata.Reading.{sectors, word_bytes}
use sros.Ata.Blocks.{ata_block_read, ata_block_write}
use sros.Ata.Blocks.Refine.{Backs, ata_blocks-refine}
use sros.Tests.Sfs.{fs}
use sros.Ata.{has_bsy, has_err, has_drq, ata_read_sectors, ata_write_sectors}
use sros.Ata.Drive.{
  Phase, idle, sends, takes, sending, taking, wants, TaskFile, address, Disk, put_word, Soon,
  IsDrive,
}
use sros.Ata.Back.{contents, ata_read_sectors-ata_write_sectors}

record Machine : Type 0 where
  phase : Phase
  busy : ℕ
  registers : TaskFile
  disk : Disk

abbrev poll : ℕ → Machine → ℕ × Machine
poll zero s = (if wants s.phase then 72 else 64, s)
poll (suc n) s = (128, record s { busy = n })

abbrev start : ℕ → Machine → Machine
start cmd s =
    let t = s.registers in
    if cmd == 0x20
    then record s { phase = sending (address t) t.sectors; busy = 3 }
    else record s { phase = taking (address t) t.sectors; busy = 3 }

abbrev set_register : ℕ → ℕ → Machine → Machine
set_register port v s =
    let t = s.registers in
    if port == 0x1F2
    then record s { registers = record t { sectors = v } }
    else if port == 0x1F3
    then record s { registers = record t { lba_lo = v } }
    else if port == 0x1F4
    then record s { registers = record t { lba_mid = v } }
    else if port == 0x1F5
    then record s { registers = record t { lba_hi = v } }
    else if port == 0x1F6
    then record s { registers = record t { drive = v } }
    else start v s

abbrev send_word : Phase → Machine → ℕ × Machine
send_word (sends lba left i) s = (
  s.disk lba i,
  if i == 255
      then record s { phase = sending (lba + 1) left; busy = 3 }
      else record s { phase = sends lba left (i + 1) },
)
send_word _ s = (0xFFFF, s)

abbrev take_word : Phase → ℕ → Machine → Machine
take_word (takes lba left i) w s =
    let s' = record s { disk = put_word lba i w s.disk } in
    if i == 255
    then record s' { phase = taking (lba + 1) left; busy = 3 }
    else record s' { phase = takes lba left (i + 1) }
take_word _ w s = s

abbrev ports : Ports Machine
ports = record {
  inb = λ p s. poll s.busy s;
  inw = λ p s. send_word s.phase s;
  inl = λ p s. (0xFFFFFFFF, s);
  outb = λ p v s. set_register p v s;
  outw = λ p v s. take_word s.phase v s;
  outl = λ p v s. s;
}

abbrev Shows : Phase → ℕ → TaskFile → Disk → Machine → Type 0
Shows p n t disk s = s ≡ record { phase = p; busy = n; registers = t; disk = disk }

-- What holds of the machine that is shown.
at_state :
    (Q : Machine → Type 0) (p : Phase) (n : ℕ) (t : TaskFile) (disk : Disk) (s : Machine)
    → Shows p n t disk s
    → Q (record { phase = p; busy = n; registers = t; disk = disk })
    → Q s
at_state Q p n t disk s e q = subst Q (sym e) q

three_polls-Soon :
    (p : Phase) (t : TaskFile) (disk : Disk) (s : Machine)
    → Shows p 3 t disk s
    → Soon Shows p t disk s
three_polls-Soon p t disk s e = record { busy = 3; in_time = omega arith; shows = e }

not_last : (i : ℕ) → i < 255 → (i == 255) ≡ false
not_last i h = ground arith

-- What a poll of a drive that is not busy shows.
shown :
    (p : Phase)
    → let st : ℕ = if wants p then 72 else 64 in
      (has_bsy st ≡ false) × (has_err st ≡ false) × (has_drq st ≡ wants p)
shown idle = (refl, refl, refl)
shown (sends lba left i) = (refl, refl, refl)
shown (takes lba left i) = (refl, refl, refl)

ports-IsDrive : IsDrive ports Shows
ports-IsDrive = record {
  polled = λ p n t disk s e.
      at_state (λ x. let r = poll x.busy x in (has_bsy r.0 ≡ true) × Shows p n t disk r.1) p (suc n)
        t disk s e (refl, refl);
  ready = λ p t disk s e.
      let (bsy, err, drq) = shown p in
      at_state
        (λ x.
          let r = poll x.busy x in
          (has_bsy r.0 ≡ false)
          × (has_err r.0 ≡ false)
          × (has_drq r.0 ≡ wants p)
          × Shows p 0 t disk r.1)
        p 0 t disk s e (bsy, err, drq, refl);
  set_sectors = λ v t disk s e byte. ap (set_register 0x1F2 v) e;
  set_lba_lo = λ v t disk s e byte. ap (set_register 0x1F3 v) e;
  set_lba_mid = λ v t disk s e byte. ap (set_register 0x1F4 v) e;
  set_lba_hi = λ v t disk s e byte. ap (set_register 0x1F5 v) e;
  set_drive = λ v t disk s e byte. ap (set_register 0x1F6 v) e;
  read_command =
      λ t disk s e master some_left in_range. three_polls-Soon _ t disk _ (ap (start 0x20) e);
  write_command =
      λ t disk s e master some_left in_range. three_polls-Soon _ t disk _ (ap (start 0x30) e);
  send = λ lba left i t disk s e inside.
      at_state
        (λ x.
          let r = send_word x.phase x in
          (r.0 ≡ disk lba i) × Shows (sends lba left (i + 1)) 0 t disk r.1)
        (sends lba left i) 0 t disk s e
        (
          refl,
          ap
              (λ (b : Bool).
                if b
                then record { phase = sending (lba + 1) left; busy = 3; registers = t; disk = disk }
                else record {
                  phase = sends lba left (i + 1);
                  busy = 0;
                  registers = t;
                  disk = disk;
                })
              (not_last i inside),
        );
  send_last = λ lba left t disk s e.
      at_state
        (λ x.
          let r = send_word x.phase x in
          (r.0 ≡ disk lba 255) × Soon Shows (sending (lba + 1) left) t disk r.1)
        (sends lba left 255) 0 t disk s e
        (refl, three_polls-Soon (sending (lba + 1) left) t disk _ refl);
  take_in = λ w lba left i t disk s e inside.
      let disk' = put_word lba i w disk in
      at_state (λ x. Shows (takes lba left (i + 1)) 0 t disk' (take_word x.phase w x))
        (takes lba left i) 0 t disk s e
        (ap
          (λ (b : Bool).
            if b
            then record { phase = taking (lba + 1) left; busy = 3; registers = t; disk = disk' }
            else record { phase = takes lba left (i + 1); busy = 0; registers = t; disk = disk' })
          (not_last i inside));
  take_last = λ w lba left t disk s e.
      let disk' = put_word lba 255 w disk in
      at_state (λ x. Soon Shows (taking (lba + 1) left) t disk' (take_word x.phase w x))
        (takes lba left 255) 0 t disk s e (three_polls-Soon (taking (lba + 1) left) t disk' _ refl);
}

abbrev switched_on : Machine
switched_on = record {
  phase = idle;
  busy = 3;
  registers = record { sectors = 0; lba_lo = 0; lba_mid = 0; lba_hi = 0; drive = 0 };
  disk = λ lba i. 0;
}

-- A block of the file system, of eight sectors.
ata_write_then_read_example :
    let (result, s1) = ata_write_sectors ports 80 8 (λ j. j % 256) switched_on in
    (result ≡ some 4096)
    × ((ata_read_sectors ports 80 8 s1).0 ≡ (some 4096, contents 4096 0 (λ j. j % 256)))
ata_write_then_read_example =
    ata_read_sectors-ata_write_sectors ports Shows ports-IsDrive 80 8 (λ j. j % 256)
      switched_on.registers switched_on.disk switched_on (λ j. omega arith) (omega arith)
      (omega arith) (omega arith)
      (three_polls-Soon idle switched_on.registers switched_on.disk switched_on refl)

abbrev empty_fs : Fs
empty_fs = record fs { disk = λ n. replicate 4096 0 }

switched_on-Backs : Backs Shows empty_fs switched_on
unfolding sectors word_bytes
switched_on-Backs = record {
  registers = switched_on.registers;
  disk = switched_on.disk;
  soon = three_polls-Soon idle switched_on.registers switched_on.disk switched_on refl;
  agrees = λ n below. refl;
}

sevens-bytes : (n j : ℕ) → get_or (replicate n 7) j 0 < 256
sevens-bytes zero j = omega arith
sevens-bytes (suc n) zero = omega arith
sevens-bytes (suc n) (suc j) = sevens-bytes n j

ata_blocks_example :
    Ends (block_read 6 [] empty_fs) (Backs Shows empty_fs) (ata_block_read ports 6 [] switched_on)
    × Backs Shows
        (block_write 6 (replicate 4096 7) empty_fs)
        (ata_block_write ports 6 (replicate 4096 7) switched_on).1
ata_blocks_example =
    ata_blocks-refine ports Shows ports-IsDrive 6 [] (replicate 4096 7) empty_fs switched_on refl
      (ap suc (length-replicate {A = ℕ} 4095 7)) (sevens-bytes 4096) switched_on-Backs
