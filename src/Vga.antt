-- ===== src/Vga.antt =====
-- drivers/vga.c: the text screen of 80 by 25 cells at 0xB8000. A write outside the 2000 cells would
-- go to other memory: the model has `none` for it. The hardware cursor is port output.
pub mod Outside
pub mod Laws
use sros.Prelude.{
  ℕ, zero, suc, ◌+◌, ◌-◌, ◌*◌, ◌/◌, ◌%◌, ◌^◌, ◌++◌, Bool, true, false, Option, none, some, List, [],
  ◌∷◌, ℤ, pos, negsuc, inc_int, dec_int, is_pos, lt_int, eq_int, ◌||◌, ltb, ◌==◌, if◌then◌else◌,
}
use sros.Framebuffer.{loop, poke}
use sros.Framebuffer.Console.{PrintArg, string_arg, number_arg, hex_digit}

-- `vga_buffer` by its index, with `cursor_row` and `cursor_col`.
pub record Vga : Type 0 where
  pub cells : ℕ → ℕ
  pub cursor_row : ℤ
  pub cursor_col : ℤ

abbrev pub vga_width : ℕ
vga_width = 80

abbrev pub vga_height : ℕ
vga_height = 25

abbrev pub white_on_black : ℕ
white_on_black = 0x0F

-- The cell at `row * VGA_WIDTH + col`, if it is one of the screen's.
abbrev pub on_vga : ℕ → Option ℕ
on_vga i = if ltb i 2000 then some i else none

abbrev pub cell_index : ℤ → ℤ → Option ℕ
cell_index (pos r) (pos c) = on_vga (r * vga_width + c)
cell_index (pos r) (negsuc k) =
    if ltb k (r * vga_width) then on_vga (r * vga_width - (k + 1)) else none
cell_index (negsuc k) c = none

-- `(color << 8) | c` as an unsigned short: a `char` from 128 on is negative, and its sign bits cover
-- the colour.
abbrev pub cell : ℕ → ℕ → ℕ
cell color c = if ltb c 128 then color * 256 + c else 0xFF00 + c

unfoldable pub vga_putchar_at : ℕ → ℕ → ℤ → ℤ → Vga → Option Vga
vga_putchar_at c color row col v = elim (cell_index row col) [
  | none ↦ none
  | some i ↦ some (record v { cells = poke i (cell color c) v.cells })
]

unfoldable pub vga_init : Vga → Vga
unfolding loop
vga_init v = record v {
  cells =
      loop vga_height
        (λ row. loop vga_width (λ col. poke (row * vga_width + col) (cell white_on_black 0x20)))
        v.cells;
  cursor_row = pos 0;
  cursor_col = pos 0;
}

unfoldable pub vga_scroll : Vga → Vga
unfolding loop
vga_scroll v =
    let moved =
      loop (vga_height - 1)
        (λ i.
          loop vga_width (λ col m. poke (i * vga_width + col) (m ((i + 1) * vga_width + col)) m))
        v.cells in
    record v {
      cells =
          loop vga_width
            (λ col. poke ((vga_height - 1) * vga_width + col) (cell white_on_black 0x20)) moved;
    }

-- A character at the cursor.
abbrev pub put_here : ℕ → Vga → Option Vga
put_here c v = vga_putchar_at c white_on_black v.cursor_row v.cursor_col v

-- `cursor_col = 0; cursor_row++`
abbrev pub next_line : Vga → Vga
next_line v = record v { cursor_col = pos 0; cursor_row = inc_int v.cursor_row }

-- After `\n`, with the screen scrolled when the cursor has left it.
abbrev pub line_feed : Vga → Vga
line_feed v =
    if lt_int v.cursor_row (pos vga_height)
    then v
    else record (vga_scroll v) { cursor_row = pos (vga_height - 1) }

-- Behind a character that has been drawn.
abbrev pub step_right : Vga → Vga
step_right v =
    let v' = record v { cursor_col = inc_int v.cursor_col } in
    if eq_int v'.cursor_col (pos vga_width) then next_line v' else v'

-- A character that is drawn.
unfoldable pub put_glyph : ℕ → Vga → Option Vga
unfolding vga_putchar_at vga_scroll
put_glyph c v =
    let v' = if eq_int v.cursor_col (pos vga_width) then vga_scroll (next_line v) else v in
    elim (put_here c v') [ none ↦ none | some v'' ↦ some (step_right v'') ]

-- What a character does. 1 and 2 are CURSOR_LEFT and CURSOR_RIGHT.
pub data Key : Type 0 where
  backspace : Key
  newline : Key
  left : Key
  right : Key
  glyph : Key

abbrev pub key_of : ℕ → Key
key_of c =
    if c == 8
    then backspace
    else if c == 10
    then newline
    else if c == 1
    then left
    else if c == 2
    then right
    else glyph

unfoldable pub putc_key : Key → ℕ → Vga → Option Vga
unfolding put_glyph vga_putchar_at vga_scroll
putc_key backspace c v = put_here 0x20 (record v { cursor_col = dec_int v.cursor_col })
putc_key newline c v = some (line_feed (next_line v))
putc_key left c v =
    some (if is_pos v.cursor_col then record v { cursor_col = dec_int v.cursor_col } else v)
putc_key right c v = some (
    if lt_int v.cursor_col (pos (vga_width - 1))
    then record v { cursor_col = inc_int v.cursor_col }
    else v)
putc_key glyph c v = put_glyph c v

unfoldable pub vga_putc : ℕ → Vga → Option Vga
unfolding putc_key
vga_putc c v = putc_key (key_of c) c v

-- The bytes of a string before its NUL.
unfoldable pub vga_puts : List ℕ → Vga → Option Vga
unfolding vga_putc
vga_puts [] v = some v
vga_puts (c ∷ cs) v = elim (vga_putc c v) [ none ↦ none | some v' ↦ vga_puts cs v' ]

-- "0x" and the eight digits.
abbrev pub hex_text : ℕ → List ℕ
hex_text n =
    let digit : ℕ → ℕ = λ k. hex_digit (n / 16 ^ k % 16) in
    b'0' ∷ b'x' ∷ digit 7 ∷ digit 6 ∷ digit 5 ∷ digit 4 ∷ digit 3 ∷ digit 2 ∷ digit 1 ∷ digit 0 ∷ []

pub vga_puthex : ℕ → Vga → Option Vga
unfolding vga_puts
vga_puthex n v = vga_puts (hex_text n) v

-- The text of a conversion, and the arguments left; `none` is a read past the arguments, or of one
-- with another type.
abbrev converted : ℕ → List PrintArg → Option (List PrintArg × List ℕ)
converted c (string_arg str ∷ vals) =
    if c == b's'
    then some (vals, str)
    else if c == b'%'
    then some (string_arg str ∷ vals, b'%' ∷ [])
    else if c == b'd' || c == b'x' || c == b'c'
    then none
    else some (string_arg str ∷ vals, b'%' ∷ c ∷ [])
converted c (number_arg n ∷ vals) =
    if c == b's'
    then none
    else if c == b'd' || c == b'x'
    then some (vals, hex_text n)
    else if c == b'c'
    then some (vals, (n % 256) ∷ [])
    else if c == b'%'
    then some (number_arg n ∷ vals, b'%' ∷ [])
    else some (number_arg n ∷ vals, b'%' ∷ c ∷ [])
converted c [] =
    if c == b'%'
    then some ([], b'%' ∷ [])
    else if c == b's' || c == b'd' || c == b'x' || c == b'c'
    then none
    else some ([], b'%' ∷ c ∷ [])

-- The loop over the format; the flag says that the character before was the `%` of a conversion.
-- `none` is a write outside the screen, or a read past the arguments or the format.
print_loop : Bool → List ℕ → List PrintArg → Vga → Option Vga
unfolding vga_puts vga_putc
print_loop true [] vals v = none
print_loop false [] vals v = some v
print_loop true (c ∷ fmt) vals v = elim (converted c vals) [
  | none ↦ none
  | some (vals', text) ↦ elim (vga_puts text v) [
    | none ↦ none
    | some v' ↦ print_loop false fmt vals' v'
  ]
]
print_loop false (c ∷ fmt) vals v =
    let conversion = print_loop true fmt vals v in
    let plain : Option Vga = elim (vga_putc c v) [
      | none ↦ none
      | some v' ↦ print_loop false fmt vals v'
    ] in
    if c == b'%' then conversion else plain

pub vga_printf : List ℕ → List PrintArg → Vga → Option Vga
unfolding print_loop
vga_printf fmt vals v = print_loop false fmt vals v
