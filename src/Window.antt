-- ===== src/Window.antt =====
-- drivers/window.c: the window manager. A window is known by its address on the heap; the linked
-- list of windows is a list in its order, and a pointer to a window is its address.
pub mod Draw
pub mod Manage
pub mod Buffer
pub mod Order
pub mod Focus
pub mod Hit
pub mod Create
pub mod Failure
use sros.Prelude.{
  ℕ, zero, suc, ◌+◌, ◌-◌, ◌*◌, ◌%◌, ◌^◌, Bool, true, false, ◌&&◌, not, Option, none, some, List, [],
  ◌∷◌, map, ℤ, pos, lt_int, to_u32, of_u32, ltb, leb, ◌==◌, if◌then◌else◌,
}
use sros.Framebuffer.{Color}
use sros.Heap.{Heap}
use sros.Cursor.{Screen, add_int}

-- `window_t`. `addr` is the window's own address, and `pixels` is what `buffer` points to.
pub record Window : Type 0 where
  pub addr : ℕ
  pub x : ℤ
  pub y : ℤ
  pub width : ℕ
  pub height : ℕ
  pub content_w : ℕ
  pub content_h : ℕ
  pub title : List ℕ
  pub z_order : ℕ
  pub visible : Bool
  pub focused : Bool
  pub buffer : ℕ
  pub pixels : ℕ → ℕ
  pub dirty : Bool

-- `g_wm` with `wm_buttons_last`, the heap, and the screen with the cursor.
pub record Wm : Type 0 where
  pub windows : List Window
  pub focus : Option ℕ
  pub count : ℤ
  pub needs_composite : Bool
  pub desktop_color : Color
  pub buttons_last : ℕ
  pub heap : Heap
  pub screen : Screen

abbrev pub wm_title_height : ℕ
wm_title_height = 20

abbrev pub wm_border_width : ℕ
wm_border_width = 2

abbrev pub wm_close_btn_w : ℕ
wm_close_btn_w = 14

abbrev pub wm_close_btn_h : ℕ
wm_close_btn_h = 14

abbrev pub wm_close_btn_marg : ℕ
wm_close_btn_marg = 3

abbrev pub wm_desktop_color : Color
wm_desktop_color = record { r = 40; g = 40; b = 80; a = 0 }

-- The loop stops before the first window with a higher z order; the front is the same case.
unfoldable pub insert_sorted : Window → List Window → List Window
insert_sorted win [] = win ∷ []
insert_sorted win (w ∷ ws) =
    let rest = insert_sorted win ws in if ltb win.z_order w.z_order then win ∷ w ∷ ws else w ∷ rest

unfoldable pub remove_from_list : ℕ → List Window → List Window
remove_from_list a [] = []
remove_from_list a (w ∷ ws) =
    let rest = remove_from_list a ws in if w.addr == a then ws else w ∷ rest

-- The loop of `get_next_z_order` from a maximum.
unfoldable pub max_z_from : ℕ → List Window → ℕ
max_z_from m [] = m
max_z_from m (w ∷ ws) = max_z_from (if ltb m w.z_order then w.z_order else m) ws

unfoldable pub get_next_z_order : List Window → ℕ
unfolding max_z_from
get_next_z_order ws = (max_z_from 0 ws + 1) % 2 ^ 32

unfoldable pub compute_window_size : Window → Window
compute_window_size win = record win {
  width = (win.content_w + wm_border_width * 2) % 2 ^ 32;
  height = (win.content_h + wm_title_height + wm_border_width) % 2 ^ 32;
}

-- An assignment to fields of the window at an address, which no two windows share.
abbrev pub with_window : ℕ → (Window → Window) → List Window → List Window
with_window a f [] = []
with_window a f (w ∷ ws) =
    let rest = with_window a f ws in if w.addr == a then f w ∷ ws else w ∷ rest

-- What a pointer to a window in the list points to.
abbrev pub find_window : ℕ → List Window → Option Window
find_window a [] = none
find_window a (w ∷ ws) = if w.addr == a then some w else find_window a ws

-- `z >= from && z < from + size`
abbrev pub in_range : ℤ → ℕ → ℤ → Bool
in_range from size z = not (lt_int z from) && lt_int z (add_int from (of_u32 size))

unfoldable pub window_contains : Window → ℤ → ℤ → Bool
window_contains win px py = in_range win.x win.width px && in_range win.y win.height py

-- The loop of `wm_get_window_at` from a result so far.
unfoldable pub window_at_from : Option ℕ → List Window → ℤ → ℤ → Option ℕ
unfolding window_contains
window_at_from r [] x y = r
window_at_from r (w ∷ ws) x y =
    window_at_from (if w.visible && window_contains w x y then some w.addr else r) ws x y

unfoldable pub wm_get_window_at : List Window → ℤ → ℤ → Option ℕ
unfolding window_at_from
wm_get_window_at ws x y = window_at_from none ws x y

-- The left upper corner of the close button.
abbrev pub close_btn_x : Window → ℤ
close_btn_x win = of_u32 (
    (to_u32 win.x + win.width + 2 ^ 32 - wm_border_width - wm_close_btn_marg - wm_close_btn_w)
    % 2 ^ 32)

abbrev pub close_btn_y : Window → ℤ
close_btn_y win = add_int win.y (pos 5)

pub wm_is_in_close_btn : Window → ℤ → ℤ → Bool
wm_is_in_close_btn win x y =
    in_range (close_btn_x win) wm_close_btn_w x && in_range (close_btn_y win) wm_close_btn_h y

-- The corner, the width and the height.
pub wm_get_titlebar_rect : Window → ℤ × ℤ × ℕ × ℕ
wm_get_titlebar_rect win = (
  add_int win.x (pos 2),
  add_int win.y (pos 2),
  (win.width + 2 ^ 32 - wm_border_width * 2) % 2 ^ 32,
  wm_title_height,
)

pub wm_init : Wm → Wm
wm_init wm = record wm {
  windows = [];
  focus = none;
  count = pos 0;
  needs_composite = true;
  desktop_color = wm_desktop_color;
}
