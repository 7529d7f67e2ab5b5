-- ===== src/Window/Draw.antt =====
-- Drawing a window of drivers/window.c on the screen: its frame, its content, and the composition
-- of all windows. Every pixel is tested against the screen's size.
use sros.Prelude.{
  ℕ, ◌+◌, ◌-◌, ◌*◌, ◌/◌, ◌%◌, ◌^◌, Bool, false, ◌&&◌, not, Option, none, some, List, [], ◌∷◌, ℤ,
  pos, eq_int, to_u32, ltb, ◌==◌, if◌then◌else◌, length, get_or, min,
}
use sros.Framebuffer.{Fb, color_to_pixel, dword, poke, loop, font_index, font_bit}
use sros.Cursor.{Screen, offset, cursor_remove, cursor_restore}
use sros.Window.{
  Window, Wm, wm_title_height, wm_border_width, wm_close_btn_w, wm_close_btn_h, close_btn_x,
  close_btn_y,
}

-- The test and the write of one pixel at the screen coordinates (sx, sy).
abbrev plot : Fb → ℕ → ℕ → ℕ → ℕ → (ℕ → ℕ) → ℕ → ℕ
plot fb base sx sy pixel mem =
    if ltb sx fb.width && ltb sy fb.height
    then poke (dword base (sy * (fb.pitch / 4) + sx)) pixel mem
    else mem

-- `(u32)(z + n)` for a coordinate and the distance of the far side's `b`-th line.
abbrev far_side : ℤ → ℕ → ℕ → ℕ
far_side z size b = (to_u32 z + size + 2 ^ 32 - 1 - b) % 2 ^ 32

-- One round of the border's loop: the upper, the lower, the left and the right line.
border_round : Fb → ℕ → Window → ℕ → ℕ → (ℕ → ℕ) → ℕ → ℕ
unfolding loop
border_round fb base win pixel b mem =
    let upper = loop win.width (λ cx. plot fb base (offset win.x cx) (offset win.y b) pixel) mem in
    let lower =
      loop win.width (λ cx. plot fb base (offset win.x cx) (far_side win.y win.height b) pixel)
        upper in
    let left =
      loop win.height (λ cy. plot fb base (offset win.x b) (offset win.y cy) pixel) lower in
    loop win.height (λ cy. plot fb base (far_side win.x win.width b) (offset win.y cy) pixel) left

-- A block of pixels with its corner at an offset from the window's.
block : Fb → ℕ → ℤ → ℤ → ℕ → ℕ → ℕ → ℕ → (ℕ → ℕ → ℕ) → (ℕ → ℕ) → ℕ → ℕ
unfolding loop
block fb base x y dx dy w h pixel mem =
    loop h
      (λ row.
        loop w (λ col. plot fb base (offset x (dx + col)) (offset y (dy + row)) (pixel row col)))
      mem

-- The columns of the title bar: from 2 below `ww - 2`.
abbrev bar_columns : Window → ℕ
bar_columns win = (win.width + 2 ^ 32 - wm_border_width) % 2 ^ 32 - wm_border_width

abbrev max_title_chars : Window → ℕ
max_title_chars win = (win.width + 2 ^ 32 - 28) % 2 ^ 32 / 8

-- The characters of the title, four pixels in from the border and two down from the bar's top.
title_text : Fb → ℕ → Window → ℕ → ℕ → (ℕ → ℕ) → ℕ → ℕ
unfolding loop block
title_text fb base win fg bg mem =
    loop (min (length win.title) (max_title_chars win))
      (λ ci. block fb base win.x win.y (6 + ci * 8) 4 8 16 (λ row col.
        if font_bit (fb.font (font_index (get_or win.title ci 0)) row) col then fg else bg))
      mem

-- The two diagonals of the close button.
close_cross : Fb → ℕ → Window → ℕ → (ℕ → ℕ) → ℕ → ℕ
unfolding loop
close_cross fb base win pixel mem =
    let x = close_btn_x win in
    let y = close_btn_y win in
    loop wm_close_btn_w
      (λ i m.
        plot fb base (offset x i) (offset y (wm_close_btn_h - 1 - i)) pixel
          (plot fb base (offset x i) (offset y i) pixel m))
      mem

abbrev fg_border : Window → ℕ
fg_border win =
    if win.focused
    then color_to_pixel (record { r = 80; g = 110; b = 230; a = 0 })
    else color_to_pixel (record { r = 130; g = 130; b = 140; a = 0 })

abbrev fg_title : Window → ℕ
fg_title win =
    if win.focused
    then color_to_pixel (record { r = 50; g = 80; b = 200; a = 0 })
    else color_to_pixel (record { r = 100; g = 100; b = 120; a = 0 })

abbrev close_pixel : ℕ
close_pixel = color_to_pixel (record { r = 200; g = 50; b = 50; a = 0 })

unfoldable pub draw_window_frame : Fb → ℕ → Window → (ℕ → ℕ) → ℕ → ℕ
unfolding loop block border_round title_text close_cross
draw_window_frame fb base win mem =
    let border = loop wm_border_width (border_round fb base win (fg_border win)) mem in
    let bar =
      block fb base win.x win.y 2 2 (bar_columns win) wm_title_height (λ row col. fg_title win)
        border in
    let titled = title_text fb base win 0xFFFFFF (fg_title win) bar in
    let button =
      block fb base (close_btn_x win) (close_btn_y win) 0 0 wm_close_btn_w wm_close_btn_h
        (λ row col. close_pixel) titled in
    close_cross fb base win 0xFFFFFF button

unfoldable pub draw_window_content : Fb → ℕ → Window → (ℕ → ℕ) → ℕ → ℕ
unfolding block
draw_window_content fb base win mem =
    if win.buffer == 0
    then mem
    else block fb base win.x win.y 2 22 win.content_w win.content_h
        (λ ry rx. win.pixels ((ry * win.content_w + rx) % 2 ^ 32)) mem

-- The loop over the windows, lowest first.
draw_windows : Fb → ℕ → List Window → (ℕ → ℕ) → ℕ → ℕ
unfolding draw_window_frame draw_window_content
draw_windows fb base [] mem = mem
draw_windows fb base (w ∷ ws) mem =
    draw_windows fb base ws
      (if w.visible then draw_window_content fb base w (draw_window_frame fb base w mem) else mem)

cleaned : List Window → List Window
cleaned [] = []
cleaned (w ∷ ws) = (if w.visible then record w { dirty = false } else w) ∷ cleaned ws

abbrev with_video : (ℕ → ℕ) → Screen → Screen
with_video mem s = record s { fb = record s.fb { video = mem } }

-- The `rep stosl` over `height * pitch / 4` dwords moves the pointer that it is given, which is
-- `fb.addr` itself, past the last dword.
fill_desktop : ℕ → ℕ → Screen → Screen
unfolding loop
fill_desktop base pixel s =
    let n = s.fb.height * (s.fb.pitch / 4) % 2 ^ 32 in
    record s {
      fb = record s.fb {
        video = loop n (λ i. poke (dword base i) pixel) s.fb.video;
        addr = if dword base n == 0 then none else some (dword base n);
      };
    }

-- `if (cursor_was_visible)`
abbrev when : Bool → (Screen → Screen) → Screen → Screen
when b f s = if b then f s else s

composite_at : Option ℕ → Wm → Wm
unfolding draw_windows cleaned fill_desktop
composite_at none wm = wm
composite_at (some base) wm =
    let seen = wm.screen.cursor.visible in
    let bare = when seen cursor_remove wm.screen in
    let desk = fill_desktop base (color_to_pixel wm.desktop_color) bare in
    let drawn = with_video (draw_windows bare.fb base wm.windows bare.fb.video) bare in
    if eq_int wm.count (pos 0) && not wm.needs_composite
    then wm
    else if eq_int wm.count (pos 0)
    then record wm { screen = when seen cursor_restore desk; needs_composite = false }
    else record wm {
      screen = when seen cursor_restore drawn;
      windows = cleaned wm.windows;
      needs_composite = false;
    }

unfoldable pub wm_composite : Wm → Wm
unfolding composite_at
wm_composite wm = composite_at wm.screen.fb.addr wm
