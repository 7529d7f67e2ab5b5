-- ===== src/Window/Buffer.antt =====
-- Drawing into a window's buffer in drivers/window.c: rectangles, pixels, characters and text.
use sros.Prelude.{
  ℕ, ◌+◌, ◌*◌, ◌%◌, ◌^◌, true, ◌||◌, Option, none, some, List, [], ◌∷◌, ◌++◌, ltb, leb, ◌==◌,
  if◌then◌else◌, map,
}
use sros.Framebuffer.{Color, color_to_pixel, poke, loop, clip, font_index, font_bit}
use sros.Framebuffer.Console.{PrintArg, string_arg, number_arg, digits, convert, format}
use sros.Window.{Window, Wm, with_window, find_window}

-- A block of pixels in the buffer: `buffer[(y + row) * content_w + (x + col)]`.
unfoldable pub buffer_block : ℕ → ℕ → ℕ → ℕ → ℕ → (ℕ → ℕ → ℕ) → (ℕ → ℕ) → ℕ → ℕ
unfolding loop
buffer_block content_w x y w h pixel buf =
    loop h
      (λ row. loop w (λ col. poke (((y + row) * content_w + (x + col)) % 2 ^ 32) (pixel row col)))
      buf

-- The buffer after a drawing, with `dirty` and `needs_composite` set.
abbrev pub drawn_on : ℕ → ((ℕ → ℕ) → ℕ → ℕ) → Wm → Wm
drawn_on a f wm = record wm {
  windows = with_window a (λ w. record w { pixels = f w.pixels; dirty = true }) wm.windows;
  needs_composite = true;
}

fill_window : ℕ → Option Window → ℕ → ℕ → ℕ → ℕ → Color → Wm → Wm
unfolding buffer_block
fill_window a none rx ry rw rh c wm = wm
fill_window a (some win) rx ry rw rh c wm =
    if win.buffer == 0 || (leb win.content_w rx || leb win.content_h ry)
    then wm
    else drawn_on a
        (buffer_block win.content_w rx ry (clip rx rw win.content_w) (clip ry rh win.content_h)
          (λ row col. color_to_pixel c))
        wm

unfoldable pub wm_fill_rect : Option ℕ → ℕ → ℕ → ℕ → ℕ → Color → Wm → Wm
unfolding fill_window
wm_fill_rect none rx ry rw rh c wm = wm
wm_fill_rect (some a) rx ry rw rh c wm = fill_window a (find_window a wm.windows) rx ry rw rh c wm

putpixel_window : ℕ → Option Window → ℕ → ℕ → Color → Wm → Wm
putpixel_window a none px py c wm = wm
putpixel_window a (some win) px py c wm =
    if win.buffer == 0 || (leb win.content_w px || leb win.content_h py)
    then wm
    else drawn_on a (poke ((py * win.content_w + px) % 2 ^ 32) (color_to_pixel c)) wm

unfoldable pub wm_putpixel : Option ℕ → ℕ → ℕ → Color → Wm → Wm
unfolding putpixel_window
wm_putpixel none px py c wm = wm
wm_putpixel (some a) px py c wm = putpixel_window a (find_window a wm.windows) px py c wm

putchar_window : ℕ → Option Window → ℕ → ℕ → ℕ → Color → Color → Wm → Wm
unfolding buffer_block
putchar_window a none ch px py fg bg wm = wm
putchar_window a (some win) ch px py fg bg wm =
    if win.buffer == 0
      || (ltb win.content_w ((px + 8) % 2 ^ 32) || ltb win.content_h ((py + 16) % 2 ^ 32))
    then wm
    else drawn_on a
        (buffer_block win.content_w px py 8 16 (λ row col.
          if font_bit (wm.screen.fb.font (font_index ch) row) col
          then color_to_pixel fg
          else color_to_pixel bg))
        wm

unfoldable pub wm_putchar : Option ℕ → ℕ → ℕ → ℕ → Color → Color → Wm → Wm
unfolding putchar_window
wm_putchar none ch px py fg bg wm = wm
wm_putchar (some a) ch px py fg bg wm =
    putchar_window a (find_window a wm.windows) ch px py fg bg wm

-- The loop over the text for a window whose content is `width` wide; a line starts at `px`.
puts_loop : ℕ → ℕ → List ℕ → ℕ → ℕ → ℕ → Color → Color → Wm → Wm
unfolding wm_putchar
puts_loop a width [] px cx cy fg bg wm = wm
puts_loop a width (c ∷ cs) px cx cy fg bg wm =
    let next = (cx + 8) % 2 ^ 32 in
    let below = (cy + 16) % 2 ^ 32 in
    let shown = wm_putchar (some a) c cx cy fg bg wm in
    let ends = ltb width ((next + 8) % 2 ^ 32) in
    let newline = c == 10 in
    puts_loop a width cs px (if newline || ends then px else next)
      (if newline || ends then below else cy) fg bg (if newline then wm else shown)

puts_window : ℕ → Option Window → List ℕ → ℕ → ℕ → Color → Color → Wm → Wm
unfolding puts_loop
puts_window a none s px py fg bg wm = wm
puts_window a (some win) s px py fg bg wm = puts_loop a win.content_w s px px py fg bg wm

unfoldable pub wm_puts : Option ℕ → List ℕ → ℕ → ℕ → Color → Color → Wm → Wm
unfolding puts_window
wm_puts none s px py fg bg wm = wm
wm_puts (some a) s px py fg bg wm = puts_window a (find_window a wm.windows) s px py fg bg wm

-- "0123456789abcdef" in place of the capitals.
abbrev lower : ℕ → ℕ
lower d = if ltb d 65 then d else d + 32

-- The conversions of `wm_printf`: `%u` is `%d`, and `%x` has small letters.
abbrev wm_hex : List PrintArg → List ℕ → Option (List PrintArg × List ℕ)
wm_hex [] buf = none
wm_hex (string_arg str ∷ vals) buf = none
wm_hex (number_arg n ∷ vals) buf = some (vals, buf ++ map lower (digits 16 n))

abbrev wm_convert : ℕ → List PrintArg → List ℕ → Option (List PrintArg × List ℕ)
wm_convert c vals buf =
    if c == b'u'
    then convert b'd' vals buf
    else if c == b'x'
    then wm_hex vals buf
    else convert c vals buf

-- `none` is a write past the buffer, or a read past the format or the arguments.
pub wm_printf : Option ℕ → ℕ → ℕ → Color → Color → List ℕ → List PrintArg → Wm → Option Wm
unfolding format wm_puts
wm_printf none px py fg bg fmt vals wm = some wm
wm_printf (some a) px py fg bg fmt vals wm = elim (format wm_convert fmt vals) [
  | none ↦ none
  | some buf ↦ some (wm_puts (some a) buf px py fg bg wm)
]
