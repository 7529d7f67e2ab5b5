-- ===== src/Window/Create.antt =====
-- `wm_create_window` of drivers/window.c where it succeeds: the new window is on top and has the
-- focus.
use sros.Prelude.{
  ℕ, ◌-◌, ◌*◌, ◌%◌, ◌^◌, ◌<◌, ◌≡◌, refl, sym, ap, ◌∙◌, ◌≢◌, true, false, Option, none, some, List,
  [], ◌∷◌, ◌++◌, arith, ℤ, lt_int, inc_int, leb, ◌==◌, Bool-cases, inl, inr,
}
use mathlib.Core.Path.{subst}
use sros.Heap.{Heap, kmalloc}
use sros.Window.{
  Window, Wm, compute_window_size, insert_sorted, remove_from_list, get_next_z_order, with_window,
  find_window,
}
use sros.Window.Manage.{
  unfocus, is_focus, set_focused, focus_on, new_window, add_window, create_with_buffer, create_with,
  wm_create_window, wm_max_windows, window_size,
}
use sros.Window.Order.{AllBelow, AllBelow-mono, insert_top, next_z_above, next_z_lt}
use sros.Window.Focus.{OnTop, raised-OnTop, focus_on-raised, raised, find-unfocus}

find-snoc :
    (a : ℕ) (ws : List Window) (w : Window)
    → find_window a ws ≡ none
    → w.addr ≡ a
    → find_window a (ws ++ w ∷ []) ≡ some w
find-snoc a [] w out e = let here : (w.addr == a) ≡ true = ground arith in rw here refl
find-snoc a (v ∷ ws) w out e = elim (Bool-cases (v.addr == a)) [
  | inl same ↦ cc (rw same at out)
  | inr other ↦ rw other (find-snoc a ws w (rw other at out) e)
]

remove-snoc :
    (a : ℕ) (ws : List Window) (w : Window)
    → find_window a ws ≡ none
    → w.addr ≡ a
    → remove_from_list a (ws ++ w ∷ []) ≡ ws
unfolding remove_from_list
remove-snoc a [] w out e = let here : (w.addr == a) ≡ true = ground arith in rw here refl
remove-snoc a (v ∷ ws) w out e = elim (Bool-cases (v.addr == a)) [
  | inl same ↦ cc (rw same at out)
  | inr other ↦ rw other (ap (λ us. v ∷ us) (remove-snoc a ws w (rw other at out) e))
]

with-snoc :
    (a : ℕ) (f : Window → Window) (ws : List Window) (w : Window)
    → w.addr ≢ a
    → with_window a f (ws ++ w ∷ []) ≡ with_window a f ws ++ w ∷ []
with-snoc a f [] w ne = let away : (w.addr == a) ≡ false = ground arith in rw away refl
with-snoc a f (v ∷ ws) w ne = elim (Bool-cases (v.addr == a)) [
  | inl same ↦ rw same refl
  | inr other ↦ rw other (ap (λ us. v ∷ us) (with-snoc a f ws w ne))
]

unfocus-snoc :
    (o : Option ℕ) (ws : List Window) (w : Window)
    → is_focus o w.addr ≡ false
    → unfocus o (ws ++ w ∷ []) ≡ unfocus o ws ++ w ∷ []
unfocus-snoc none ws w h = refl
unfocus-snoc (some f) ws w h = with-snoc f (set_focused false) ws w (ground arith)

AllBelow-snoc :
    (z : ℕ) (ws : List Window) (w : Window)
    → AllBelow z ws
    → w.z_order < z
    → AllBelow z (ws ++ w ∷ [])
AllBelow-snoc z [] w h k = (k, tt)
AllBelow-snoc z (v ∷ ws) w (h, hs) k = (h, AllBelow-snoc z ws w hs k)

-- The window `make z` has been put on top of those of `wm` and has the focus.
pub record Created (make : ℕ → Window) (a : ℕ) (wm wm' : Wm) : Type 0 where
  pub first_z : ℕ
  pub z : ℕ
  pub order :
      wm'.windows
      ≡ unfocus wm.focus wm.windows
        ++ record (make first_z) { focused = true; z_order = z; dirty = true } ∷ []
  pub highest : AllBelow z (unfocus wm.focus wm.windows)
  pub has_focus : wm'.focus ≡ some a
  pub counted : wm'.count ≡ inc_int wm.count
  pub to_draw : wm'.needs_composite ≡ true
  pub heap_same : wm'.heap ≡ wm.heap

module _ (make : ℕ → Window) (a : ℕ) (wm : Wm)
    (made : (z : ℕ) → ((make z).addr ≡ a) × ((make z).z_order ≡ z))
    (fresh : find_window a wm.windows ≡ none) (unfocused : is_focus wm.focus a ≡ false)
    (below : AllBelow (2 ^ 32 - 2) wm.windows) where
  abbrev first : Window
  first = make (get_next_z_order wm.windows)

  -- The list before the window gets the focus.
  abbrev inserted : Wm
  inserted = record wm { windows = wm.windows ++ first ∷ []; count = inc_int wm.count }

  inserted_lem : insert_sorted first wm.windows ≡ wm.windows ++ first ∷ []
  inserted_lem = insert_top first wm.windows (
      subst (λ z. AllBelow z wm.windows) (sym (made (get_next_z_order wm.windows)).1)
        (next_z_above wm.windows
          (AllBelow-mono (2 ^ 32 - 2) (2 ^ 32 - 1) wm.windows (omega arith) below)))

  inserted-OnTop : OnTop a first inserted (raised a first inserted)
  inserted-OnTop =
      let (is_a, is_z) = made (get_next_z_order wm.windows) in
      raised-OnTop a first inserted (find-snoc a wm.windows first fresh is_a) unfocused (
        AllBelow-snoc (2 ^ 32 - 1) wm.windows first
          (AllBelow-mono (2 ^ 32 - 2) (2 ^ 32 - 1) wm.windows (omega arith) below)
          (omega
            (arith, next_z_lt wm.windows (2 ^ 32 - 2) (omega arith) (omega arith) below, is_z)))

  others_same : remove_from_list a (unfocus wm.focus inserted.windows) ≡ unfocus wm.focus wm.windows
  others_same =
      let (is_a, is_z) = made (get_next_z_order wm.windows) in
      ap (remove_from_list a)
        (unfocus-snoc wm.focus wm.windows first (ap (is_focus wm.focus) is_a ∙ unfocused))
      ∙ remove-snoc a (unfocus wm.focus wm.windows) first
          (find-unfocus wm.focus a wm.windows unfocused ∙ fresh) is_a

  add_window-Created : Created make a wm (add_window make a wm)
  unfolding add_window
  add_window-Created =
      let v = inserted-OnTop in
      let there =
        ap (λ us. focus_on a (record wm { windows = us; count = inc_int wm.count })) inserted_lem
        ∙ focus_on-raised a first inserted unfocused in
      subst (λ (k : Wm). Created make a wm (record k { needs_composite = true })) (sym there)
        (record {
          first_z = get_next_z_order wm.windows;
          z = v.z;
          order =
              v.order
              ∙ ap (λ us. us ++ record first { focused = true; z_order = v.z; dirty = true } ∷ [])
                  others_same;
          highest = subst (AllBelow v.z) others_same v.highest;
          has_focus = refl;
          counted = refl;
          to_draw = refl;
          heap_same = refl;
        })

leb-false : (n : ℕ) → n < 2 ^ 30 → leb (2 ^ 30) (n % 2 ^ 32) ≡ false
leb-false n h = ground arith

module _ (x y : ℤ) (w h : ℕ) (title : List ℕ) (wm : Wm) (a b : ℕ) (heap1 heap2 : Heap)
    (room : lt_int wm.count wm_max_windows ≡ true)
    (struct_given : kmalloc window_size wm.heap ≡ some (a, heap1)) (struct_there : 0 < a)
    (buffer_given : kmalloc (w * h * 4 % 2 ^ 32) heap1 ≡ some (b, heap2)) (buffer_there : 0 < b)
    (small : w * h < 2 ^ 30) where
  create_buffer_is :
      create_with_buffer a x y w h title (some (b, heap2)) wm
      ≡ some (some a, add_window (new_window a b x y w h title) a (record wm { heap = heap2 }))
  unfolding create_with_buffer
  create_buffer_is =
      let there : (b == 0) ≡ false = ground arith in
      let fits : leb (2 ^ 30) (w * h % 2 ^ 32) ≡ false = leb-false (w * h) small in
      rw (there, fits) refl

  create_is :
      wm_create_window x y w h title wm
      ≡ some (some a, add_window (new_window a b x y w h title) a (record wm { heap = heap2 }))
  unfolding wm_create_window create_with
  create_is =
      let there : (a == 0) ≡ false = ground arith in
      rw (room, struct_given, there, buffer_given) create_buffer_is

  -- If there are fewer than 16 windows, both allocations of wm_create_window succeed at an address
  -- that no window has and the focus does not point to, the content has fewer than 2^30 pixels and
  -- the z orders are below 2^32 - 2, then it returns the address; the new window is the highest
  -- and has the focus, the others keep their order, the last focused one without its mark, and the
  -- count is one more.
  pub wm_create_window-Created :
      find_window a wm.windows ≡ none
      → is_focus wm.focus a ≡ false
      → AllBelow (2 ^ 32 - 2) wm.windows
      → (wm' : Wm) × (wm_create_window x y w h title wm ≡ some (some a, wm'))
        × Created (new_window a b x y w h title) a (record wm { heap = heap2 }) wm'
  unfolding new_window compute_window_size
  wm_create_window-Created fresh unfocused below = (
    add_window (new_window a b x y w h title) a (record wm { heap = heap2 }),
    create_is,
    add_window-Created (new_window a b x y w h title) a (record wm { heap = heap2 })
        (λ z. (refl, refl)) fresh unfocused below,
  )
