-- ===== src/Window/Failure.antt =====
-- `wm_create_window` of drivers/window.c where it fails: all windows stay as they were.
use sros.Prelude.{
  ℕ, ◌*◌, ◌%◌, ◌^◌, ◌≡◌, refl, Option, none, some, List, ℤ, lt_int, leb, ◌==◌, Bool-cases, inl, inr,
}
use mathlib.Core.Path.{subst}
use sros.Heap.{Heap, kmalloc, kfree}
use sros.Window.{Wm}
use sros.Window.Manage.{
  create_with_buffer, create_with, wm_create_window, wm_max_windows, window_size,
}

-- Only the heap differs.
abbrev pub HeapOnly : Wm → Wm → Type 0
HeapOnly wm wm' = wm' ≡ record wm { heap = wm'.heap }

module _ (x y : ℤ) (w h : ℕ) (title : List ℕ) (wm wm' : Wm) where
  buffer_fails :
      (addr : ℕ) (r : Option (ℕ × Heap))
      → create_with_buffer addr x y w h title r wm ≡ some (none, wm')
      → HeapOnly wm wm'
  unfolding create_with_buffer
  buffer_fails addr none e = cc
  buffer_fails addr (some (buffer, heap)) e = elim (Bool-cases (buffer == 0)) [
    | inl null ↦
        let is_wm : record wm { heap = kfree addr heap } ≡ wm' = cc (rw null at e) in
        subst (HeapOnly wm) is_wm refl
    | inr given ↦ elim (Bool-cases (leb (2 ^ 30) (w * h % 2 ^ 32))) [
      | inl large ↦ cc (rw (given, large) at e)
      | inr fits ↦ cc (rw (given, fits) at e)
    ]
  ]

  window_fails :
      (r : Option (ℕ × Heap)) → create_with x y w h title r wm ≡ some (none, wm') → HeapOnly wm wm'
  unfolding create_with
  window_fails none e = cc
  window_fails (some (addr, heap)) e = elim (Bool-cases (addr == 0)) [
    | inl null ↦
        let is_wm : record wm { heap = heap } ≡ wm' = cc (rw null at e) in
        subst (HeapOnly wm) is_wm refl
    | inr given ↦ buffer_fails addr (kmalloc (w * h * 4 % 2 ^ 32) heap) (rw given at e)
  ]

  -- Whenever wm_create_window returns NULL, because there are 16 windows or an allocation fails,
  -- the windows, their order, the focus, the count and the screen are as before; only the heap may
  -- differ.
  pub wm_create_window-HeapOnly :
      wm_create_window x y w h title wm ≡ some (none, wm') → HeapOnly wm wm'
  unfolding wm_create_window
  wm_create_window-HeapOnly e = elim (Bool-cases (lt_int wm.count wm_max_windows)) [
    | inl room ↦ window_fails (kmalloc window_size wm.heap) (rw room at e)
    | inr full ↦ let is_wm : wm ≡ wm' = cc (rw full at e) in subst (HeapOnly wm) is_wm refl
  ]
