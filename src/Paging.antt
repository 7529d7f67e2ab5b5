-- ===== src/Paging.antt =====
-- kernel/paging.c: the pool of free page frames, and the page tables.
pub mod Clone
use sros.Prelude.{
  ℕ, ◌+◌, ◌-◌, ◌*◌, ◌/◌, ◌%◌, ◌^◌, Bool, true, false, not, Option, none, some, ltb, ◌==◌,
  if◌then◌else◌, get_or, set,
}
use sros.Memory.{
  Mem, M, pure, panic, ◌>>=◌, ◌>>◌, for_range, page_base, dir_index, table_index, is_present, load,
  store,
}

abbrev pub max_pages : ℕ
max_pages = 1024

-- `pfa_push` and `pfa_free` have the same body. The array has no bound check: a push beyond it is a
-- write outside `page_frames`.
unfoldable pub pfa_push : ℕ → M (Unit {0})
pfa_push addr m =
    if ltb m.page_frame_count max_pages
    then some (
      tt,
      record m {
        page_frames = set m.page_frames m.page_frame_count addr;
        page_frame_count = m.page_frame_count + 1;
      },
    )
    else none

unfoldable pub pfa_free : ℕ → M (Unit {0})
pfa_free addr m =
    if ltb m.page_frame_count max_pages
    then some (
      tt,
      record m {
        page_frames = set m.page_frames m.page_frame_count addr;
        page_frame_count = m.page_frame_count + 1;
      },
    )
    else none

-- `panic("Out of memory!")` on an empty pool.
unfoldable pub pfa_alloc : M ℕ
pfa_alloc m =
    if m.page_frame_count == 0
    then none
    else some (
      get_or m.page_frames (m.page_frame_count - 1) 0,
      record m { page_frame_count = m.page_frame_count - 1 },
    )

-- The virtual address of page table `i` through the self-map, and of an entry of a table.
abbrev pub self_map : ℕ → ℕ
self_map i = 0xFFC00000 + i * 4096

-- `memset(p, 0, 4096)` and the loops that clear a table, word by word.
abbrev pub clear_page : ℕ → M (Unit {0})
clear_page p = for_range 1024 0 λ i. store (p + i * 4) 0

-- `e | 4`
abbrev pub set_user : ℕ → ℕ
set_user e = if e / 4 % 2 == 1 then e else e + 4

-- `(frame & 0xFFFFF000) | (flags & 7) | 1`
abbrev pub entry : ℕ → ℕ → ℕ
entry frame flags = page_base frame + (flags % 8 / 2 * 2 + 1)

get_cr3 : M ℕ
get_cr3 m = some (m.cr3, m)

set_cr3 : ℕ → M (Unit {0})
set_cr3 dir m = some (tt, record m { cr3 = dir })

enable_paging : M (Unit {0})
enable_paging m = some (tt, record m { paging_on = true })

-- `page_table[i] = phys | 0x03` over the first 4 MB, whose table is the only one that the outer loop
-- makes.
identity_entries : ℕ → M (Unit {0})
identity_entries table = for_range 1024 0 λ i. store (table + i * 4) (i * 4096 + 3)

unfoldable pub paging_init : M (Unit {0})
unfolding pfa_alloc identity_entries set_cr3 enable_paging
paging_init = do
  page_dir ← pfa_alloc
  clear_page page_dir
  page_table ← pfa_alloc
  clear_page page_table
  identity_entries page_table
  store page_dir (page_table / 4 * 4 + 3)
  pde ← load page_dir
  store (page_base pde + 0x380 * 4) (0xB8000 + 3)
  set_cr3 page_dir
  enable_paging
  store (page_dir + 1023 * 4) (page_dir / 4 * 4 + 3)

unfoldable pub paging_map_user : ℕ → M (Unit {0})
unfolding get_cr3
paging_map_user virt = do
  page_dir ← get_cr3
  pde ← load (page_dir + dir_index virt * 4)
  let pte_at = page_base pde + table_index virt * 4
  pte ← load pte_at
  store pte_at (set_user pte)
  pde' ← load (page_dir + dir_index virt * 4)
  store (page_dir + dir_index virt * 4) (set_user pde')

-- The page table of a directory slot that has none.
make_table : ℕ → ℕ → ℕ → M (Unit {0})
unfolding pfa_alloc
make_table page_dir pd_idx flags = do
  pt_phys ← pfa_alloc
  store (page_dir + pd_idx * 4) (page_base pt_phys + 1)
  clear_page (self_map pd_idx)
  store (page_dir + pd_idx * 4) (entry pt_phys flags)

unfoldable pub paging_map_page : ℕ → ℕ → ℕ → M (Unit {0})
unfolding get_cr3 make_table
paging_map_page virt phys flags = do
  page_dir ← get_cr3
  pde ← load (page_dir + dir_index virt * 4)
  if is_present pde then pure tt else make_table page_dir (dir_index virt) flags
  store (self_map (dir_index virt) + table_index virt * 4) (entry phys flags)

-- 0x07: Present, Writable and User.
unfoldable pub paging_alloc_page : ℕ → M (Unit {0})
unfolding pfa_alloc paging_map_page
paging_alloc_page virt = do phys ← pfa_alloc; paging_map_page virt phys 7
