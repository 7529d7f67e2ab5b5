-- ===== src/Ata/Back.antt =====
-- What has been written with `ata_write_sectors` of drivers/ata.c, read with `ata_read_sectors`.
use sros.Prelude.{
  ℕ, zero, suc, ◌+◌, ◌*◌, ◌/◌, ◌%◌, ◌^◌, ◌++◌, ◌<◌, ◌≤◌, ◌≡◌, refl, ap, ◌∙◌, some, List, [], ◌∷◌,
  arith,
}
use mathlib.Core.Path.{ap₂}
use sros.Ports.{Ports}
use sros.Ata.{word_at, ata_read_sectors, ata_write_sectors}
use sros.Ata.Drive.{Phase, idle, TaskFile, Disk, Soon, IsDrive}
use sros.Ata.Reading.{word_bytes, sectors, ata_read_sectors-Ends}
use sros.Ata.Writing.{Written, ata_write_sectors-Stands}

-- `n` bytes of a buffer from the `i`-th on.
unfoldable pub contents : ℕ → ℕ → (ℕ → ℕ) → List ℕ
contents zero i buf = []
contents (suc n) i buf = buf i ∷ contents n (i + 1) buf

contents-append :
    (a b i : ℕ) (buf : ℕ → ℕ) → contents a i buf ++ contents b (i + a) buf ≡ contents (a + b) i buf
unfolding contents
contents-append zero b i buf = ap₂ (λ c j. contents c j buf) (omega arith) (omega arith)
contents-append (suc a) b i buf =
    let later : i + suc a ≡ i + 1 + a = omega arith in
    let more : suc (a + b) ≡ suc a + b = omega arith in
    ap (◌∷◌ (buf i))
      (ap (λ j. contents a (i + 1) buf ++ contents b j buf) later ∙ contents-append a b (i + 1) buf)
    ∙ ap (λ c. contents c i buf) more

-- The bytes of words that a buffer holds.
word_bytes-contents :
    (n i m : ℕ) (buf f : ℕ → ℕ)
    → ((j : ℕ) → buf j < 256)
    → ((k : ℕ) → i ≤ k → k < i + n → f k ≡ word_at buf (m + k))
    → word_bytes n i f ≡ contents (n * 2) ((m + i) * 2) buf
unfolding word_bytes contents
word_bytes-contents zero i m buf f bytes same = refl
word_bytes-contents (suc n) i m buf f bytes same =
    let here : f i ≡ word_at buf (m + i) = same i (omega arith) (omega arith) in
    let low = bytes ((m + i) * 2) in
    let high = bytes ((m + i) * 2 + 1) in
    let rest =
      word_bytes-contents n (i + 1) m buf f bytes
        (λ k above below. same k (omega arith) (omega arith)) in
    let first : f i % 256 ≡ buf ((m + i) * 2) = omega arith in
    let second : f i / 256 % 256 ≡ buf ((m + i) * 2 + 1) = omega arith in
    let later : (m + (i + 1)) * 2 ≡ (m + i) * 2 + 1 + 1 = omega arith in
    let more : suc (suc (n * 2)) ≡ suc n * 2 = omega arith in
    ap₂ ◌∷◌ first (ap₂ ◌∷◌ second (rest ∙ ap (λ j. contents (n * 2) j buf) later))
    ∙ ap (λ c. contents c ((m + i) * 2) buf) more

pub sectors-contents :
    (n q lba count : ℕ) (buf : ℕ → ℕ) (before disk : Disk)
    → ((j : ℕ) → buf j < 256)
    → Written lba (count * 256) buf before disk
    → q + n ≤ count
    → sectors n (lba + q) disk ≡ contents (n * 512) (q * 512) buf
unfolding sectors contents
sectors-contents zero q lba count buf before disk bytes v h = refl
sectors-contents (suc n) q lba count buf before disk bytes v h =
    let here =
      word_bytes-contents 256 0 (q * 256) buf (disk (lba + q)) bytes
        (λ k above below. let at_k = v (lba + q) k (omega arith) in grind arith) in
    let rest = sectors-contents n (q + 1) lba count buf before disk bytes v (omega arith) in
    let start : (q * 256 + 0) * 2 ≡ q * 512 = omega arith in
    let next_sector : lba + q + 1 ≡ lba + (q + 1) = omega arith in
    let next_start : (q + 1) * 512 ≡ q * 512 + 512 = omega arith in
    let more : 512 + n * 512 ≡ suc n * 512 = omega arith in
    ap₂ ◌++◌ (here ∙ ap (λ j. contents 512 j buf) start) (
      ap (λ a. sectors n a disk) next_sector ∙ rest ∙ ap (λ j. contents (n * 512) j buf) next_start)
    ∙ contents-append 512 (n * 512) (q * 512) buf
    ∙ ap (λ c. contents c (q * 512) buf) more

module _ {S : Type 0} (io : Ports S) (Shows : Phase → ℕ → TaskFile → Disk → S → Type 0)
    (drive : IsDrive io Shows) where
  -- On a drive that follows the documented protocol, is never busy for longer than the code waits
  -- and has no command, ata_write_sectors of 1 to 255 sectors that lie below 2^28 reports count *
  -- 512, and ata_read_sectors of the same sectors then reports the same and gives the bytes of the
  -- buffer.
  pub ata_read_sectors-ata_write_sectors :
      (lba count : ℕ) (buf : ℕ → ℕ) (t : TaskFile) (disk : Disk) (s : S)
      → ((j : ℕ) → buf j < 256)
      → 0 < count
      → count < 256
      → lba + count ≤ 2 ^ 28
      → Soon Shows idle t disk s
      → let (result, s1) = ata_write_sectors io lba count buf s in
        (result ≡ some (count * 512))
        × ((ata_read_sectors io lba count s1).0
            ≡ (some (count * 512), contents (count * 512) 0 buf))
  ata_read_sectors-ata_write_sectors lba count buf t disk s bytes some_left small in_range h =
      let (written, w) =
        ata_write_sectors-Stands io Shows drive lba count buf t disk s some_left small in_range h in
      let (got, _) =
        ata_read_sectors-Ends io Shows drive lba count _ w.disk _ some_left small in_range w.soon in
      let same = sectors-contents count 0 lba count buf disk w.disk bytes w.written (omega arith) in
      (
        written,
        got
            ∙ ap (λ bs. (some (count * 512), bs))
                (ap (λ a. sectors count a w.disk) (omega arith) ∙ same),
      )
