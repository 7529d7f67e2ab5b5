-- ===== src/Tests/Display.antt =====
-- A frame buffer of 32 by 24 pixels at 0xF0000000, with a margin at the end of its lines.
use sros.Prelude.{◌+◌, refl, some, arith, pos, true, leb, ◌&&◌, if◌then◌else◌}
use sros.Framebuffer.{Fb, Color, fb_fill_rect, fb_putchar}
use sros.Framebuffer.Paint.{IsFb}
use sros.Framebuffer.Picture.{Drawn, picture}
use sros.Framebuffer.Laws.{filled, lettered, fb_fill_rect-Draws, fb_putchar-Draws}
use sros.Cursor.{Screen, cursor_remove, cursor_restore}
use sros.Cursor.Laws.{cursor_remove-cursor_restore}

abbrev white : Color
white = record { r = 255; g = 255; b = 255; a = 0 }

abbrev black : Color
black = record { r = 0; g = 0; b = 0; a = 0 }

abbrev small : Fb
small = record {
  width = 32;
  height = 24;
  pitch = 144;
  bpp = 32;
  addr = some 0xF0000000;
  phys_addr = 0xFD000000;
  font = λ c row. c + row;
  video = λ p. p;
  console_row = 0;
  console_col = 0;
  console_fg = white;
  console_bg = black;
}

small-IsFb : IsFb small 0xF0000000
small-IsFb = record {
  mapped = refl;
  lines = omega arith;
  width_in = omega arith;
  height_in = omega arith;
  fits = omega arith;
}

fb_fill_rect-Draws_example :
    Drawn small 0xF0000000
      (fb_fill_rect 30 5 10 4 white small)
      (filled 30 5 10 4 white (picture small 0xF0000000))
fb_fill_rect-Draws_example =
    fb_fill_rect-Draws small 0xF0000000 30 5 10 4 white small-IsFb (omega arith) (omega arith)

fb_putchar-Draws_example : Drawn small 0xF0000000 (fb_putchar 65 3 4 white black small) (
    if leb (3 + 8) small.width && leb (4 + 16) small.height
    then lettered small 65 3 4 white black (picture small 0xF0000000)
    else picture small 0xF0000000)
fb_putchar-Draws_example =
    fb_putchar-Draws small 0xF0000000 65 3 4 white black small-IsFb (omega arith) (omega arith)

-- The cursor stands over the right edge.
abbrev pub shown : Screen
shown = record {
  cursor = record {
    x = pos 25;
    y = pos 2;
    old_x = pos 0;
    old_y = pos 0;
    visible = true;
    saved_bg = λ r c. 0;
  };
  fb = small;
}

cursor_restore_example :
    Drawn small 0xF0000000 (cursor_remove (cursor_restore shown)).fb (picture small 0xF0000000)
cursor_restore_example = cursor_remove-cursor_restore shown 0xF0000000 small-IsFb refl
