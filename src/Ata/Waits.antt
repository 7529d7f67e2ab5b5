-- ===== src/Ata/Waits.antt =====
-- The waiting loops of drivers/ata.c on a drive that gets ready in time.
use sros.Prelude.{ℕ, zero, suc, ◌<◌, ◌≡◌, refl, ◌∙◌, Bool, true, false, arith, if◌then◌else◌}
use sros.Ports.{Ends, Ends-if, Ends-bind, Ports, Io, pure}
use sros.Ata.{
  has_bsy, has_drq, has_err, rounds, wait_busy_from, ata_wait_busy, wait_drq_from, ata_wait_drq,
}
use sros.Ata.Drive.{Phase, wants, TaskFile, Disk, Soon, IsDrive}

module _ {S : Type 0} (io : Ports S) (Shows : Phase → ℕ → TaskFile → Disk → S → Type 0)
    (drive : IsDrive io Shows) where
  wait_busy_from-Ends :
      (n busy : ℕ) (p : Phase) (t : TaskFile) (disk : Disk) (s : S)
      → Shows p busy t disk s
      → busy < n
      → Ends true (Shows p 0 t disk) (wait_busy_from io n s)
  unfolding wait_busy_from
  wait_busy_from-Ends zero busy p t disk s h lt = absurd (omega arith)
  wait_busy_from-Ends (suc n) zero p t disk s h lt =
      let (idle_now, _, _, h') = drive.ready p t disk s h in
      let r = io.inb 0x3F6 s in
      Ends-if (has_bsy r.0) false (wait_busy_from io n) (pure true) r.1 true (Shows p 0 t disk)
        idle_now (refl, h')
  wait_busy_from-Ends (suc n) (suc busy) p t disk s h lt =
      let (busy_now, h') = drive.polled p busy t disk s h in
      let r = io.inb 0x3F6 s in
      Ends-if (has_bsy r.0) true (wait_busy_from io n) (pure true) r.1 true (Shows p 0 t disk)
        busy_now (wait_busy_from-Ends n busy p t disk r.1 h' (omega arith))

  pub ata_wait_busy-Ends :
      (p : Phase) (t : TaskFile) (disk : Disk) (s : S)
      → Soon Shows p t disk s
      → Ends true (Shows p 0 t disk) (ata_wait_busy io s)
  unfolding ata_wait_busy
  ata_wait_busy-Ends p t disk s h = wait_busy_from-Ends rounds h.busy p t disk s h.shows h.in_time

  wait_drq_from-Ends :
      (n : ℕ) (p : Phase) (t : TaskFile) (disk : Disk) (s : S)
      → Shows p 0 t disk s
      → wants p ≡ true
      → 0 < n
      → Ends true (Shows p 0 t disk) (wait_drq_from io n s)
  unfolding wait_drq_from
  wait_drq_from-Ends zero p t disk s h data_wanted some_round = absurd (omega arith)
  wait_drq_from-Ends (suc n) p t disk s h data_wanted some_round =
      let (_, no_error, asked, h') = drive.ready p t disk s h in
      let r = io.inb 0x3F6 s in
      let rest : Io S Bool = if has_drq r.0 then pure true else wait_drq_from io n in
      Ends-if (has_err r.0) false (pure false) rest r.1 true (Shows p 0 t disk) no_error (
        Ends-if (has_drq r.0) true (pure true) (wait_drq_from io n) r.1 true (Shows p 0 t disk)
          (asked ∙ data_wanted) (refl, h'))

  pub ata_wait_drq-Ends :
      (p : Phase) (t : TaskFile) (disk : Disk) (s : S)
      → Soon Shows p t disk s
      → wants p ≡ true
      → Ends true (Shows p 0 t disk) (ata_wait_drq io s)
  unfolding ata_wait_drq
  ata_wait_drq-Ends p t disk s h data_wanted =
      let (waited, h') = ata_wait_busy-Ends p t disk s h in
      Ends-bind (λ b. if b then wait_drq_from io rounds else pure false) (ata_wait_busy io s) true
        true (Shows p 0 t disk) waited
        (wait_drq_from-Ends rounds p t disk (ata_wait_busy io s).1 h' data_wanted (omega arith))
