-- ===== src/Paging/Clone.antt =====
-- `paging_clone_directory` of kernel/paging.c: the address space of a forked task. `bss_end` is the
-- address of the linker's symbol `_bss_end`.
use sros.Prelude.{
  ℕ, zero, suc, ◌+◌, ◌*◌, ◌%◌, ◌^◌, Bool, true, false, not, ◌&&◌, leb, ltb, if◌then◌else◌,
}
use sros.Memory.{M, pure, ◌>>=◌, ◌>>◌, for_range, page_base, is_present, is_user, load, store}
use sros.Paging.{pfa_alloc, self_map, clear_page, get_cr3}

-- `(u32)&_bss_end + 0xFFF) & 0xFFFFF000`
abbrev kernel_end_page : ℕ → ℕ
kernel_end_page bss_end = page_base ((bss_end + 0xFFF) % 2 ^ 32)

abbrev in_kernel : ℕ → ℕ → Bool
in_kernel bss_end vaddr = leb 0x100000 vaddr && ltb vaddr (kernel_end_page bss_end)

-- `(pd_idx << 22) | (pti << 12)`
abbrev page_vaddr : ℕ → ℕ → ℕ
page_vaddr pd_idx pti = pd_idx * 2 ^ 22 + pti * 4096

-- `memcpy(dst, src, 4096)` between two pages, word by word.
copy_page : ℕ → ℕ → M (Unit {0})
copy_page dst src = for_range 1024 0 λ k. do w ← load (src + k * 4); store (dst + k * 4) w

-- A private copy of a user page; the new entry keeps the flags.
copy_entry : ℕ → ℕ → M (Unit {0})
unfolding pfa_alloc copy_page
copy_entry slot old_pte = do
  new_page ← pfa_alloc
  copy_page new_page (page_base old_pte)
  store slot (page_base new_page + old_pte % 4096)

-- The scan for a present user page outside the kernel's binary. The count is of the entries left.
has_user_pages : ℕ → ℕ → ℕ → ℕ → M Bool
has_user_pages bss_end pd_idx zero pti = pure false
has_user_pages bss_end pd_idx (suc n) pti = do
  pte ← load (self_map pd_idx + pti * 4)
  if is_present pte && is_user pte && not (in_kernel bss_end (page_vaddr pd_idx pti))
      then pure true
      else has_user_pages bss_end pd_idx n (pti + 1)

-- One entry of a page table of the first 8 MB.
clone_low_entry : ℕ → ℕ → ℕ → ℕ → M (Unit {0})
unfolding copy_entry
clone_low_entry bss_end pd_idx new_pt pti = do
  old_pte ← load (self_map pd_idx + pti * 4)
  if not (is_present old_pte)
      then pure tt
      else if in_kernel bss_end (page_vaddr pd_idx pti)
      then store (new_pt + pti * 4) old_pte
      else if is_user old_pte
      then copy_entry (new_pt + pti * 4) old_pte
      else store (new_pt + pti * 4) old_pte

-- One entry of a user page table.
clone_entry : ℕ → ℕ → ℕ → M (Unit {0})
unfolding copy_entry
clone_entry pd_idx new_pt pti = do
  old_pte ← load (self_map pd_idx + pti * 4)
  if not (is_present old_pte)
      then pure tt
      else if ltb (page_vaddr pd_idx pti) 0x800000
      then store (new_pt + pti * 4) old_pte
      else if is_user old_pte
      then copy_entry (new_pt + pti * 4) old_pte
      else store (new_pt + pti * 4) old_pte

-- A new table filled entry by entry, and its directory entry with the old flags.
clone_table : ℕ → ℕ → (ℕ → ℕ → M (Unit {0})) → M (Unit {0})
unfolding pfa_alloc
clone_table slot old_pde each = do
  new_pt ← pfa_alloc
  clear_page new_pt
  for_range 1024 0 (each new_pt)
  store slot (page_base new_pt + old_pde % 4096)

-- One round of the loop over the directory.
clone_slot : ℕ → ℕ → ℕ → ℕ → M (Unit {0})
unfolding has_user_pages clone_low_entry clone_entry clone_table
clone_slot bss_end old_pd new_pd pd_idx = do
  old_pde ← load (old_pd + pd_idx * 4)
  if not (is_present old_pde)
      then store (new_pd + pd_idx * 4) 0
      else if leb pd_idx 1
      then (do
        private ← has_user_pages bss_end pd_idx 1024 0
        if private
            then clone_table (new_pd + pd_idx * 4) old_pde (clone_low_entry bss_end pd_idx)
            else store (new_pd + pd_idx * 4) old_pde)
      else if is_user old_pde
      then clone_table (new_pd + pd_idx * 4) old_pde (clone_entry pd_idx)
      else store (new_pd + pd_idx * 4) old_pde

unfoldable pub paging_clone_directory : ℕ → M ℕ
unfolding pfa_alloc get_cr3 clone_slot
paging_clone_directory bss_end = do
  old_pd ← get_cr3
  new_pd ← pfa_alloc
  for_range 1023 0 (clone_slot bss_end old_pd new_pd)
  store (new_pd + 1023 * 4) (page_base new_pd + 3)
  pure new_pd
