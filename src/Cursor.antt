-- ===== src/Cursor.antt =====
-- drivers/cursor.c: the mouse pointer on the frame buffer, and the background under it.
pub mod Laws
pub mod Poll
use sros.Prelude.{
  ℕ, zero, suc, ◌+◌, ◌-◌, ◌*◌, ◌/◌, ◌%◌, ◌^◌, Bool, true, false, ◌&&◌, ◌||◌, not, Option, none,
  some, List, [], ◌∷◌, ℤ, pos, negsuc, is_neg, eq_int, lt_int, to_u32, of_u32, ltb, ◌==◌,
  if◌then◌else◌, get_or,
}
use sros.Framebuffer.{Fb, dword, paint_if}
use sros.Mouse.{Mouse, MouseEvent, mouse_read}

-- `g_cursor`
pub record Cursor : Type 0 where
  pub x : ℤ
  pub y : ℤ
  pub old_x : ℤ
  pub old_y : ℤ
  pub visible : Bool
  pub saved_bg : ℕ → ℕ → ℕ

-- The cursor and the frame buffer that it is drawn in.
pub record Screen : Type 0 where
  pub cursor : Cursor
  pub fb : Fb

abbrev pub cursor_width : ℕ
cursor_width = 16

abbrev pub cursor_height : ℕ
cursor_height = 16

abbrev s_cursor_sprite : List (List ℕ)
s_cursor_sprite =
    (1 ∷ 0 ∷ 0 ∷ 0 ∷ 0 ∷ 0 ∷ 0 ∷ 0 ∷ 0 ∷ 0 ∷ 0 ∷ 0 ∷ 0 ∷ 0 ∷ 0 ∷ 0 ∷ [])
    ∷ (1 ∷ 1 ∷ 0 ∷ 0 ∷ 0 ∷ 0 ∷ 0 ∷ 0 ∷ 0 ∷ 0 ∷ 0 ∷ 0 ∷ 0 ∷ 0 ∷ 0 ∷ 0 ∷ [])
    ∷ (1 ∷ 2 ∷ 1 ∷ 0 ∷ 0 ∷ 0 ∷ 0 ∷ 0 ∷ 0 ∷ 0 ∷ 0 ∷ 0 ∷ 0 ∷ 0 ∷ 0 ∷ 0 ∷ [])
    ∷ (1 ∷ 2 ∷ 2 ∷ 1 ∷ 0 ∷ 0 ∷ 0 ∷ 0 ∷ 0 ∷ 0 ∷ 0 ∷ 0 ∷ 0 ∷ 0 ∷ 0 ∷ 0 ∷ [])
    ∷ (1 ∷ 2 ∷ 2 ∷ 2 ∷ 1 ∷ 0 ∷ 0 ∷ 0 ∷ 0 ∷ 0 ∷ 0 ∷ 0 ∷ 0 ∷ 0 ∷ 0 ∷ 0 ∷ [])
    ∷ (1 ∷ 2 ∷ 2 ∷ 2 ∷ 2 ∷ 1 ∷ 0 ∷ 0 ∷ 0 ∷ 0 ∷ 0 ∷ 0 ∷ 0 ∷ 0 ∷ 0 ∷ 0 ∷ [])
    ∷ (1 ∷ 2 ∷ 2 ∷ 2 ∷ 2 ∷ 2 ∷ 1 ∷ 0 ∷ 0 ∷ 0 ∷ 0 ∷ 0 ∷ 0 ∷ 0 ∷ 0 ∷ 0 ∷ [])
    ∷ (1 ∷ 2 ∷ 2 ∷ 2 ∷ 2 ∷ 2 ∷ 2 ∷ 1 ∷ 0 ∷ 0 ∷ 0 ∷ 0 ∷ 0 ∷ 0 ∷ 0 ∷ 0 ∷ [])
    ∷ (1 ∷ 2 ∷ 2 ∷ 2 ∷ 2 ∷ 2 ∷ 2 ∷ 2 ∷ 1 ∷ 0 ∷ 0 ∷ 0 ∷ 0 ∷ 0 ∷ 0 ∷ 0 ∷ [])
    ∷ (1 ∷ 2 ∷ 2 ∷ 2 ∷ 2 ∷ 2 ∷ 2 ∷ 2 ∷ 2 ∷ 1 ∷ 0 ∷ 0 ∷ 0 ∷ 0 ∷ 0 ∷ 0 ∷ [])
    ∷ (1 ∷ 2 ∷ 2 ∷ 2 ∷ 2 ∷ 2 ∷ 2 ∷ 2 ∷ 2 ∷ 2 ∷ 1 ∷ 0 ∷ 0 ∷ 0 ∷ 0 ∷ 0 ∷ [])
    ∷ (1 ∷ 2 ∷ 2 ∷ 2 ∷ 2 ∷ 2 ∷ 2 ∷ 2 ∷ 2 ∷ 2 ∷ 2 ∷ 1 ∷ 0 ∷ 0 ∷ 0 ∷ 0 ∷ [])
    ∷ (1 ∷ 1 ∷ 1 ∷ 1 ∷ 1 ∷ 1 ∷ 1 ∷ 1 ∷ 1 ∷ 1 ∷ 1 ∷ 1 ∷ 1 ∷ 0 ∷ 0 ∷ 0 ∷ [])
    ∷ (0 ∷ 0 ∷ 0 ∷ 0 ∷ 0 ∷ 0 ∷ 0 ∷ 0 ∷ 0 ∷ 0 ∷ 0 ∷ 0 ∷ 0 ∷ 0 ∷ 0 ∷ 0 ∷ [])
    ∷ (0 ∷ 0 ∷ 0 ∷ 0 ∷ 0 ∷ 0 ∷ 0 ∷ 0 ∷ 0 ∷ 0 ∷ 0 ∷ 0 ∷ 0 ∷ 0 ∷ 0 ∷ 0 ∷ [])
    ∷ (0 ∷ 0 ∷ 0 ∷ 0 ∷ 0 ∷ 0 ∷ 0 ∷ 0 ∷ 0 ∷ 0 ∷ 0 ∷ 0 ∷ 0 ∷ 0 ∷ 0 ∷ 0 ∷ [])
    ∷ []

-- `a + b` of type `int`.
abbrev pub add_int : ℤ → ℤ → ℤ
add_int a b = of_u32 ((to_u32 a + to_u32 b) % 2 ^ 32)

-- `-a` for the range of an `i8`.
abbrev pub neg_int : ℤ → ℤ
neg_int (pos zero) = pos 0
neg_int (pos (suc n)) = negsuc n
neg_int (negsuc n) = pos (n + 1)

-- One coordinate of `clamp_position`, for a screen of `size` pixels and a cursor of 16.
abbrev pub clamp : ℤ → ℕ → ℤ
clamp z size =
    let z' = if is_neg z then pos 0 else z in
    if lt_int (of_u32 size) (add_int z' (pos 16))
    then of_u32 ((size + 2 ^ 32 - 16) % 2 ^ 32)
    else z'

pub clamp_position : Screen → Screen
clamp_position s = record s {
  cursor = record s.cursor { x = clamp s.cursor.x s.fb.width; y = clamp s.cursor.y s.fb.height };
}

-- The screen coordinate of a column or a row of the cursor at `z`.
abbrev pub offset : ℤ → ℕ → ℕ
offset z i = (to_u32 z + i) % 2 ^ 32

-- The pixel of a row and a column of the cursor at (x, y): whether the screen has it, and where.
abbrev pub on_screen : Fb → ℤ → ℤ → ℕ → ℕ → Bool
on_screen fb x y row col = ltb (offset x col) fb.width && ltb (offset y row) fb.height

abbrev pub under : Fb → ℕ → ℤ → ℤ → ℕ → ℕ → ℕ
under fb base x y row col = dword base (offset y row * (fb.pitch / 4) + offset x col)

-- The two loops fill every entry of `saved_bg` whose pixel is on the screen.
unfoldable pub save_at : Option ℕ → Screen → Screen
save_at none s = s
save_at (some base) s = record s {
  cursor = record s.cursor {
    saved_bg = λ row col.
        if ltb row cursor_height
          && (ltb col cursor_width && on_screen s.fb s.cursor.x s.cursor.y row col)
        then s.fb.video (under s.fb base s.cursor.x s.cursor.y row col)
        else s.cursor.saved_bg row col;
  };
}

unfoldable pub save_background : Screen → Screen
unfolding save_at
save_background s = save_at s.fb.addr s

-- The saved pixels put at (x, y).
unfoldable pub put_back : Option ℕ → ℤ → ℤ → Screen → Screen
unfolding paint_if
put_back none x y s = s
put_back (some base) x y s = record s {
  fb = record s.fb {
    video =
        paint_if cursor_height cursor_width (on_screen s.fb x y) (under s.fb base x y)
          s.cursor.saved_bg s.fb.video;
  };
}

pub restore_background : Screen → Screen
unfolding put_back
restore_background s = put_back s.fb.addr s.cursor.old_x s.cursor.old_y s

-- The sprite's value for a row and a column: 0 is transparent, 1 black, 2 white.
abbrev pub sprite : ℕ → ℕ → ℕ
sprite row col = get_or (get_or s_cursor_sprite row []) col 0

unfoldable pub draw_at : Option ℕ → Screen → Screen
unfolding paint_if
draw_at none s = s
draw_at (some base) s = record s {
  fb = record s.fb {
    video =
        paint_if cursor_height cursor_width
          (λ row col. not (sprite row col == 0) && on_screen s.fb s.cursor.x s.cursor.y row col)
          (under s.fb base s.cursor.x s.cursor.y)
          (λ row col. if sprite row col == 1 then 0 else 0xFFFFFF) s.fb.video;
  };
}

unfoldable pub draw_cursor : Screen → Screen
unfolding draw_at
draw_cursor s = draw_at s.fb.addr s

-- `old_x = x; old_y = y`
abbrev pub keep_position : Screen → Screen
keep_position s = record s { cursor = record s.cursor { old_x = s.cursor.x; old_y = s.cursor.y } }

abbrev set_visible : Bool → Screen → Screen
set_visible b s = record s { cursor = record s.cursor { visible = b } }

-- `save_background` and `draw_cursor` test `fb.addr` themselves.
pub cursor_init : Screen → Screen
unfolding save_background draw_cursor clamp_position
cursor_init s = draw_cursor (
    save_background (
      keep_position (
        clamp_position (record s {
          cursor = record s.cursor {
            x = of_u32 (s.fb.width / 2);
            y = of_u32 (s.fb.height / 2);
            visible = true;
          };
        }))))

pub cursor_show : Screen → Screen
unfolding save_background draw_cursor
cursor_show s = if s.cursor.visible then s else draw_cursor (save_background (set_visible true s))

pub cursor_hide : Screen → Screen
unfolding restore_background
cursor_hide s = if s.cursor.visible then restore_background (set_visible false s) else s

abbrev is_some : Option ℕ → Bool
is_some none = false
is_some (some base) = true

-- `!g_cursor.visible || !fb.addr`
abbrev pub is_drawn : Screen → Bool
is_drawn s = s.cursor.visible && is_some s.fb.addr

-- The new position, clamped; the old one is kept in `old_x` and `old_y`.
unfoldable pub moved_by : ℤ → ℤ → Screen → Screen
unfolding clamp_position
moved_by dx dy s =
    let s' = keep_position s in
    clamp_position (record s' {
      cursor = record s'.cursor { x = add_int s.cursor.x dx; y = add_int s.cursor.y dy };
    })

unfoldable pub cursor_move : ℤ → ℤ → Screen → Screen
unfolding moved_by restore_background save_background draw_cursor
cursor_move dx dy s =
    let s' = moved_by dx dy s in
    if is_drawn s
    then (if eq_int s'.cursor.x s'.cursor.old_x && eq_int s'.cursor.y s'.cursor.old_y
        then s'
        else draw_cursor (save_background (restore_background s')))
    else s

-- The loop of `cursor_poll_mouse` for at most so many rounds; the y axis is turned round. `none` is
-- a loop that has used them up.
unfoldable pub cursor_poll_mouse : ℕ → Mouse → Screen → Option (Mouse × Screen)
unfolding cursor_move mouse_read
cursor_poll_mouse zero m s = none
cursor_poll_mouse (suc rounds) m s =
    let (r, m') = mouse_read m in
    elim r [
      | none ↦ some (m', s)
      | some ev ↦ cursor_poll_mouse rounds m' (cursor_move ev.dx (neg_int ev.dy) s)
    ]

pub cursor_redraw : Screen → Screen
unfolding save_background draw_cursor
cursor_redraw s = if is_drawn s then draw_cursor (save_background s) else s

unfoldable pub cursor_remove : Screen → Screen
unfolding put_back
cursor_remove s = if is_drawn s then put_back s.fb.addr s.cursor.x s.cursor.y s else s

unfoldable pub cursor_restore : Screen → Screen
unfolding save_background draw_cursor
cursor_restore s = if is_drawn s then draw_cursor (save_background (keep_position s)) else s
