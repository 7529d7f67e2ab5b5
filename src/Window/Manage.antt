-- ===== src/Window/Manage.antt =====
-- Creating, destroying, moving and focusing windows in drivers/window.c, and what clicks and the
-- mouse do. A pointer that is passed in is NULL or the address of a window in the list; for any
-- other the code would read freed memory, and here nothing happens.
use sros.Prelude.{
  ℕ, zero, suc, ◌*◌, ◌%◌, ◌^◌, Bool, true, false, ◌&&◌, not, Option, none, some, List, ℤ, pos,
  inc_int, dec_int, lt_int, leb, ◌==◌, if◌then◌else◌, take,
}
use sros.Framebuffer.{color_to_pixel}
use sros.Heap.{Heap, kmalloc, kfree}
use sros.Mouse.{Mouse, MouseEvent, mouse_read}
use sros.Cursor.{neg_int, cursor_move}
use sros.Window.{
  Window, Wm, insert_sorted, remove_from_list, get_next_z_order, compute_window_size, with_window,
  find_window, wm_get_window_at, wm_is_in_close_btn,
}
use sros.Window.Draw.{wm_composite}

abbrev pub set_focused : Bool → Window → Window
set_focused b w = record w { focused = b }

-- The windows after the old focus has lost its mark.
abbrev pub unfocus : Option ℕ → List Window → List Window
unfocus none ws = ws
unfocus (some f) ws = with_window f (set_focused false) ws

-- The window `w` at the address `a` taken out and put on top.
abbrev pub raise : ℕ → Option Window → List Window → List Window
raise a none ws = ws
raise a (some w) ws =
    insert_sorted (record w { z_order = get_next_z_order ws; dirty = true }) (remove_from_list a ws)

abbrev pub is_focus : Option ℕ → ℕ → Bool
is_focus none a = false
is_focus (some f) a = f == a

unfoldable pub focus_on : ℕ → Wm → Wm
focus_on a wm =
    let ws = with_window a (set_focused true) (unfocus wm.focus wm.windows) in
    if is_focus wm.focus a
    then record wm { windows = with_window a (set_focused true) wm.windows }
    else record wm {
      windows = raise a (find_window a ws) ws;
      focus = some a;
      needs_composite = true;
    }

unfoldable pub wm_focus_window : Option ℕ → Wm → Wm
unfolding focus_on
wm_focus_window none wm = wm
wm_focus_window (some a) wm = focus_on a wm

abbrev pub wm_max_windows : ℤ
wm_max_windows = pos 16

-- `sizeof(window_t)`
abbrev pub window_size : ℕ
window_size = 80

-- The window that `wm_create_window` makes, with its pixels in the background colour.
unfoldable pub new_window : ℕ → ℕ → ℤ → ℤ → ℕ → ℕ → List ℕ → ℕ → Window
unfolding compute_window_size
new_window addr buffer x y content_w content_h title z = compute_window_size (record {
  addr = addr;
  x = x;
  y = y;
  width = 0;
  height = 0;
  content_w = content_w;
  content_h = content_h;
  title = take 31 title;
  z_order = z;
  visible = true;
  focused = false;
  buffer = buffer;
  pixels = λ i. color_to_pixel (record { r = 245; g = 245; b = 245; a = 0 });
  dirty = true;
})

-- The window put into the list and focused.
unfoldable pub add_window : (ℕ → Window) → ℕ → Wm → Wm
unfolding focus_on
add_window make addr wm =
    record (focus_on addr (record wm {
      windows = insert_sorted (make (get_next_z_order wm.windows)) wm.windows;
      count = inc_int wm.count;
    })) { needs_composite = true }

-- The number of pixels, and the size asked for, wrap at 32 bits each. `none` is a heap walk without
-- end, or a loop that writes more pixels than were asked for.
unfoldable pub create_with_buffer :
    ℕ → ℤ → ℤ → ℕ → ℕ → List ℕ → Option (ℕ × Heap) → Wm → Option (Option ℕ × Wm)
unfolding add_window
create_with_buffer addr x y w h title none wm = none
create_with_buffer addr x y w h title (some (buffer, heap)) wm =
    if buffer == 0
    then some (none, record wm { heap = kfree addr heap })
    else if leb (2 ^ 30) (w * h % 2 ^ 32)
    then none
    else some (
      some addr,
      add_window (new_window addr buffer x y w h title) addr (record wm { heap = heap }),
    )

unfoldable pub create_with :
    ℤ → ℤ → ℕ → ℕ → List ℕ → Option (ℕ × Heap) → Wm → Option (Option ℕ × Wm)
unfolding create_with_buffer
create_with x y w h title none wm = none
create_with x y w h title (some (addr, heap)) wm =
    if addr == 0
    then some (none, record wm { heap = heap })
    else create_with_buffer addr x y w h title (kmalloc (w * h * 4 % 2 ^ 32) heap) wm

-- `some none` is the result NULL.
unfoldable pub wm_create_window : ℤ → ℤ → ℕ → ℕ → List ℕ → Wm → Option (Option ℕ × Wm)
unfolding create_with
wm_create_window x y w h title wm =
    if lt_int wm.count wm_max_windows
    then create_with x y w h title (kmalloc window_size wm.heap) wm
    else some (none, wm)

destroy_found : ℕ → Option Window → Wm → Wm
unfolding remove_from_list
destroy_found a none wm = wm
destroy_found a (some win) wm =
    let heap = if win.buffer == 0 then wm.heap else kfree win.buffer wm.heap in
    record wm {
      windows = remove_from_list a wm.windows;
      focus = if is_focus wm.focus a then none else wm.focus;
      count = dec_int wm.count;
      needs_composite = true;
      heap = kfree a heap;
    }

unfoldable pub wm_destroy_window : Option ℕ → Wm → Wm
unfolding destroy_found
wm_destroy_window none wm = wm
wm_destroy_window (some a) wm = destroy_found a (find_window a wm.windows) wm

pub wm_move_window : Option ℕ → ℤ → ℤ → Wm → Wm
wm_move_window none x y wm = wm
wm_move_window (some a) x y wm = record wm {
  windows = with_window a (λ w. record w { x = x; y = y; dirty = true }) wm.windows;
  needs_composite = true;
}

-- `wm_is_in_close_btn` of a pointer.
close_hit : Option Window → ℤ → ℤ → Bool
unfolding wm_is_in_close_btn
close_hit none x y = false
close_hit (some win) x y = wm_is_in_close_btn win x y

click_on : Option ℕ → ℤ → ℤ → Wm → Bool × Wm
unfolding close_hit wm_destroy_window wm_focus_window wm_composite
click_on none x y wm = (false, wm)
click_on (some a) x y wm =
    if close_hit (find_window a wm.windows) x y
    then (true, wm_composite (wm_destroy_window (some a) wm))
    else (true, wm_composite (wm_focus_window (some a) wm))

-- The result says whether the click was consumed. Bit 0 of the buttons is the left one.
unfoldable pub wm_handle_click : ℤ → ℤ → ℕ → Wm → Bool × Wm
unfolding click_on wm_get_window_at
wm_handle_click x y buttons wm =
    if buttons % 2 == 0 then (false, wm) else click_on (wm_get_window_at wm.windows x y) x y wm

-- One event: the move, a click if the left button has just gone down and none has been handled.
unfoldable pub update_event : MouseEvent → Bool → Wm → Bool × Wm
unfolding cursor_move wm_handle_click
update_event ev handled wm =
    let moved = record wm { screen = cursor_move ev.dx (neg_int ev.dy) wm.screen } in
    let pressed = not (ev.buttons % 2 == 0) && (wm.buttons_last % 2 == 0 && not handled) in
    let (used, clicked) =
      wm_handle_click moved.screen.cursor.x moved.screen.cursor.y ev.buttons moved in
    if pressed
    then (true, record clicked { buttons_last = ev.buttons })
    else (handled, record moved { buttons_last = ev.buttons })

-- The loop for at most so many events, and the composition behind it. `none` is a loop that has
-- used its rounds up.
unfoldable pub wm_update : ℕ → Bool → Mouse → Wm → Option (Mouse × Wm)
unfolding mouse_read update_event wm_composite
wm_update zero handled m wm = none
wm_update (suc rounds) handled m wm =
    let (r, m') = mouse_read m in
    elim r [
      | none ↦ some (m', if handled then wm else if wm.needs_composite then wm_composite wm else wm)
      | some ev ↦
          let (handled', wm') = update_event ev handled wm in wm_update rounds handled' m' wm'
    ]
