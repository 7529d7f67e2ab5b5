-- ===== src/Framebuffer.antt =====
-- drivers/framebuffer.c: pixels, rectangles and characters in the linear frame buffer, and the
-- console on it. The mode setting at the top of the file is port access.
pub mod Console
pub mod Paint
pub mod Picture
pub mod Laws
use sros.Memory.{M, pure, ◌>>◌, for_range}
use sros.Paging.{paging_map_page}
use sros.Prelude.{
  ℕ, zero, suc, ◌+◌, ◌-◌, ◌*◌, ◌/◌, ◌%◌, ◌^◌, Bool, true, false, Option, none, some, List, [], ◌∷◌,
  ltb, leb, ◌==◌, ◌||◌, if◌then◌else◌,
}

-- `color_t`
pub record Color : Type 0 where
  pub r : ℕ
  pub g : ℕ
  pub b : ℕ
  pub a : ℕ

-- `fb`, the dwords of memory by their byte address, and the state of the console. `console_row` and
-- `console_col` are the `u32` of an `int`. `font` is the table `font_vga8x16` of
-- include/vgafont.h: the bits of a row of a character's picture.
pub record Fb : Type 0 where
  pub width : ℕ
  pub height : ℕ
  pub pitch : ℕ
  pub bpp : ℕ
  pub addr : Option ℕ
  pub phys_addr : ℕ
  pub font : ℕ → ℕ → ℕ
  pub video : ℕ → ℕ
  pub console_row : ℕ
  pub console_col : ℕ
  pub console_fg : Color
  pub console_bg : Color

pub framebuffer_init : ℕ → ℕ → ℕ → ℕ → ℕ → Fb → Fb
framebuffer_init phys_addr width height pitch bpp fb = record fb {
  phys_addr = phys_addr;
  width = width;
  height = height;
  pitch = pitch;
  bpp = bpp;
  addr = none;
}

-- The number of pages of the frame buffer.
abbrev pub fb_pages : Fb → ℕ
fb_pages fb = (fb.pitch * fb.height % 2 ^ 32 + 0xFFF) % 2 ^ 32 / 0x1000

-- `none` is a page fault or an empty pool of page frames.
map_unless : Option ℕ → Fb → M Fb
unfolding for_range paging_map_page
map_unless (some base) fb = pure fb
map_unless none fb =
    for_range (fb_pages fb) 0 (λ i.
      paging_map_page ((0xF0000000 + i * 0x1000) % 2 ^ 32) ((fb.phys_addr + i * 0x1000) % 2 ^ 32) 7)
    >> pure (record fb { addr = some 0xF0000000 })

pub framebuffer_map : Fb → M Fb
unfolding map_unless
framebuffer_map fb = map_unless fb.addr fb

abbrev pub color_to_pixel : Color → ℕ
color_to_pixel c = c.r * 65536 + c.g * 256 + c.b

-- The address of `fb.addr[i]` for `fb.addr` at `base`.
abbrev pub dword : ℕ → ℕ → ℕ
dword base i = (base + 4 * i) % 2 ^ 32

abbrev pub poke : ℕ → ℕ → (ℕ → ℕ) → ℕ → ℕ
poke p v mem a = if a == p then v else mem a

-- `for (i = 0; i < n; i++)`
unfoldable pub loop {ℓ} : {S : Type ℓ} → ℕ → (ℕ → S → S) → S → S
loop zero body s = s
loop (suc n) body s = body n (loop n body s)

-- The two nested loops that write a pixel at a time.
unfoldable pub paint : ℕ → ℕ → (ℕ → ℕ → ℕ) → (ℕ → ℕ → ℕ) → (ℕ → ℕ) → ℕ → ℕ
unfolding loop
paint rows cols at pixel mem =
    loop rows (λ row. loop cols (λ col. poke (at row col) (pixel row col))) mem

-- The loops that write only some of the pixels.
unfoldable pub paint_if : ℕ → ℕ → (ℕ → ℕ → Bool) → (ℕ → ℕ → ℕ) → (ℕ → ℕ → ℕ) → (ℕ → ℕ) → ℕ → ℕ
unfolding loop
paint_if rows cols seen at pixel mem =
    loop rows
      (λ row. loop cols (λ col m. if seen row col then poke (at row col) (pixel row col) m else m))
      mem

-- The address of the pixel (x, y).
abbrev pub place : Fb → ℕ → ℕ → ℕ → ℕ
place fb base x y = dword base (y * (fb.pitch / 4) + x)

unfoldable pub fb_putpixel : ℕ → ℕ → Color → Fb → Fb
fb_putpixel x y c fb = if leb fb.width x || leb fb.height y then fb else elim fb.addr [
  | none ↦ fb
  | some base ↦ record fb { video = poke (place fb base x y) (color_to_pixel c) fb.video }
]

-- `if (x + w > fb.width) w = fb.width - x;`
abbrev pub clip : ℕ → ℕ → ℕ → ℕ
clip x w width = if ltb width ((x + w) % 2 ^ 32) then width - x else w

unfoldable pub fill_at : Option ℕ → ℕ → ℕ → ℕ → ℕ → Color → Fb → Fb
unfolding paint
fill_at none x y w h c fb = fb
fill_at (some base) x y w h c fb = if leb fb.width x || leb fb.height y then fb else record fb {
  video =
      paint (clip y h fb.height) (clip x w fb.width)
        (λ row col. dword base ((y + row) * (fb.pitch / 4) + x + col)) (λ row col. color_to_pixel c)
        fb.video;
}

unfoldable pub fb_fill_rect : ℕ → ℕ → ℕ → ℕ → Color → Fb → Fb
unfolding fill_at
fb_fill_rect x y w h c fb = fill_at fb.addr x y w h c fb

pub fb_clear : Color → Fb → Fb
unfolding fb_fill_rect
fb_clear c fb = fb_fill_rect 0 0 fb.width fb.height c fb

abbrev pub font_char_width : ℕ
font_char_width = 8

abbrev pub font_char_height : ℕ
font_char_height = 16

-- The row of the font table for a character.
abbrev pub font_index : ℕ → ℕ
font_index c = if ltb c 0x20 || leb 0x80 c then 0 else c - 0x20

-- `bits & (0x80 >> col)`
abbrev pub font_bit : ℕ → ℕ → Bool
font_bit bits col = bits / 2 ^ (7 - col) % 2 == 1

unfoldable pub putchar_at : Option ℕ → ℕ → ℕ → ℕ → Color → Color → Fb → Fb
unfolding paint
putchar_at none c x y fg bg fb = fb
putchar_at (some base) c x y fg bg fb =
    if ltb fb.width ((x + font_char_width) % 2 ^ 32)
      || ltb fb.height ((y + font_char_height) % 2 ^ 32)
    then fb
    else record fb {
      video =
          paint font_char_height font_char_width
            (λ row col. dword base ((y + row) * (fb.pitch / 4) + (x + col)))
            (λ row col.
              if font_bit (fb.font (font_index c) row) col
              then color_to_pixel fg
              else color_to_pixel bg)
            fb.video;
    }

-- The character `c` as an `unsigned` number: an `int` below 0 is far above the table's end.
unfoldable pub fb_putchar : ℕ → ℕ → ℕ → Color → Color → Fb → Fb
unfolding putchar_at
fb_putchar c x y fg bg fb = putchar_at fb.addr c x y fg bg fb

-- On the bytes of the string before its NUL.
pub fb_puts : List ℕ → ℕ → ℕ → Color → Color → Fb → Fb
unfolding fb_putchar
fb_puts [] x y fg bg fb = fb
fb_puts (c ∷ cs) x y fg bg fb =
    let next = (x + font_char_width) % 2 ^ 32 in
    let shown = fb_putchar c x y fg bg fb in
    let rest = fb_puts cs next y fg bg shown in
    if ltb fb.width ((next + font_char_width) % 2 ^ 32) then shown else rest
