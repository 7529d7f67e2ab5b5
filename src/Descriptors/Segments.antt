-- ===== src/Descriptors/Segments.antt =====
-- What the processor reads in the segment descriptors of kernel/gdt.c.
use sros.Prelude.{
  ℕ, ◌+◌, ◌*◌, ◌/◌, ◌%◌, ◌^◌, ◌<◌, ◌≡◌, ap, ◌∙◌, ◌≢◌, List, arith, length, get_or, get_or-set_self,
  get_or-set_ne,
}
use sros.Descriptors.{GdtEntry, gdt_set_entry}

-- How the processor puts the parts of a descriptor together.
abbrev pub base_of : GdtEntry → ℕ
base_of e = e.base_low + e.base_middle * 65536 + e.base_high * 16777216

abbrev pub limit_of : GdtEntry → ℕ
limit_of e = e.limit_low + e.granularity % 16 * 65536

abbrev pub flags_of : GdtEntry → ℕ
flags_of e = e.granularity / 16

abbrev pub no_entry : GdtEntry
no_entry = record {
  limit_low = 0;
  base_low = 0;
  base_middle = 0;
  access = 0;
  granularity = 0;
  base_high = 0;
}

-- The descriptor at `i` of the table.
abbrev pub descriptor : List GdtEntry → ℕ → GdtEntry
descriptor gdt i = get_or gdt i no_entry

-- A descriptor that is set is read back by the processor's rules as its base, limit, access byte and
-- flags, and no other changes.
pub gdt_set_entry_lem :
    (i base limit access gran : ℕ) (gdt : List GdtEntry)
    → i < length gdt
    → base < 2 ^ 32
    → limit < 2 ^ 20
    → gran < 256
    → let gdt' = gdt_set_entry i base limit access gran gdt in
      (base_of (descriptor gdt' i) ≡ base)
      × (limit_of (descriptor gdt' i) ≡ limit)
      × ((descriptor gdt' i).access ≡ access)
      × (flags_of (descriptor gdt' i) ≡ gran / 16)
      × ((j : ℕ) → i ≢ j → descriptor gdt' j ≡ descriptor gdt j)
unfolding gdt_set_entry
gdt_set_entry_lem i base limit access gran gdt hi hb hl hg =
    let entry : GdtEntry = record {
      limit_low = limit % 65536;
      base_low = base % 65536;
      base_middle = base / 65536 % 256;
      access = access;
      granularity = limit / 65536 % 16 + gran / 16 % 16 * 16;
      base_high = base / 16777216 % 256;
    } in
    let there = get_or-set_self gdt i entry no_entry hi in
    (
      ap base_of there ∙ omega arith,
      ap limit_of there ∙ omega arith,
      ap (λ (e : GdtEntry). e.access) there,
      ap flags_of there ∙ omega arith,
      (λ j ne. get_or-set_ne gdt i j entry no_entry ne),
    )
