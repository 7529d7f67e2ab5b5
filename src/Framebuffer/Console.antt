-- ===== src/Framebuffer/Console.antt =====
-- The console of drivers/framebuffer.c: scrolling, `fb_console_putc` and the formatting of
-- `fb_printf`.
use sros.Prelude.{
  ℕ, zero, suc, ◌+◌, ◌-◌, ◌*◌, ◌/◌, ◌%◌, ◌^◌, Bool, true, false, Option, none, some, List, [], ◌∷◌,
  ◌++◌, ltb, leb, ◌==◌, ◌||◌, if◌then◌else◌, length, take,
}
use sros.Framebuffer.{
  Fb, color_to_pixel, dword, poke, loop, paint, fb_clear, fb_putchar, font_char_width,
  font_char_height,
}

-- The base for an access that does not test the pointer: NULL is address 0.
abbrev unchecked : Option ℕ → ℕ
unchecked none = 0
unchecked (some base) = base

-- `memcpy` of 4 * n bytes between addresses of dwords.
copy_dwords : ℕ → ℕ → ℕ → (ℕ → ℕ) → ℕ → ℕ
unfolding loop
copy_dwords dst src n mem =
    loop n (λ i m. poke ((dst + 4 * i) % 2 ^ 32) (m ((src + 4 * i) % 2 ^ 32)) m) mem

-- The rows of characters below the first move up by one, and the last row is cleared. A row of the
-- screen has 4 * pitch dwords.
unfoldable pub fb_console_scroll : Fb → Fb
unfolding copy_dwords paint loop
fb_console_scroll fb =
    let base = unchecked fb.addr in
    let step = font_char_height * (fb.pitch / 4) in
    let total_rows = fb.height / font_char_height in
    let last_row = dword base ((total_rows + 2 ^ 32 - 1) * step) in
    let moved =
      loop (total_rows - 1)
        (λ i. copy_dwords (dword base (i * step)) (dword base ((i + 1) * step)) (4 * fb.pitch))
        fb.video in
    record fb {
      video =
          paint font_char_height (fb.width / font_char_width * font_char_width)
            (λ row col. dword last_row (row * (fb.pitch / 4) + col))
            (λ row col. color_to_pixel fb.console_bg) moved;
    }

pub fb_console_init : Fb → Fb
unfolding fb_clear
fb_console_init fb = record (fb_clear fb.console_bg fb) { console_row = 0; console_col = 0 }

-- A character at the console's position.
abbrev put_here : ℕ → Fb → Fb
put_here c fb =
    fb_putchar c (fb.console_col * font_char_width % 2 ^ 32)
      (fb.console_row * font_char_height % 2 ^ 32) fb.console_fg fb.console_bg fb

-- The effect of the character itself: `\b`, `\n`, `\r`, `\t` or one that is drawn.
unfoldable pub putc_char : ℕ → Fb → Fb
putc_char c fb =
    if c == 8
    then put_here 0x20 (record fb { console_col = fb.console_col - 1 })
    else if c == 10
    then record fb { console_col = 0; console_row = (fb.console_row + 1) % 2 ^ 32 }
    else if c == 13
    then record fb { console_col = 0 }
    else if c == 9
    then record fb { console_col = (fb.console_col + 4) / 4 * 4 }
    else record (put_here c fb) { console_col = fb.console_col + 1 }

abbrev pub wrap_line : Fb → Fb
wrap_line fb =
    if leb (fb.width / font_char_width) fb.console_col
    then record fb { console_col = 0; console_row = (fb.console_row + 1) % 2 ^ 32 }
    else fb

abbrev pub wrap_screen : Fb → Fb
wrap_screen fb =
    if leb (fb.height / font_char_height) fb.console_row
    then record (fb_console_scroll fb) {
      console_row = (fb.height / font_char_height + 2 ^ 32 - 1) % 2 ^ 32;
    }
    else fb

unfoldable pub fb_console_putc : ℕ → Fb → Fb
unfolding putc_char
fb_console_putc c fb = wrap_screen (wrap_line (putc_char c fb))

pub fb_console_puts : List ℕ → Fb → Fb
unfolding fb_console_putc
fb_console_puts [] fb = fb
fb_console_puts (c ∷ cs) fb = fb_console_puts cs (fb_console_putc c fb)

-- An argument of `fb_printf`, as the conversion that takes it reads it.
pub data PrintArg : Type 0 where
  string_arg : List ℕ → PrintArg
  number_arg : ℕ → PrintArg

-- "0123456789ABCDEF"
abbrev pub hex_digit : ℕ → ℕ
hex_digit d = if ltb d 10 then 48 + d else 55 + d

-- The loop that fills `tmp`, lowest digit first, with as many rounds as the number has bits.
digits_loop : ℕ → ℕ → ℕ → List ℕ
digits_loop zero b n = []
digits_loop (suc rounds) b n =
    let rest = digits_loop rounds b (n / b) in if n == 0 then [] else hex_digit (n % b) ∷ rest

unfoldable pub reverse_onto : List ℕ → List ℕ → List ℕ
reverse_onto [] ys = ys
reverse_onto (x ∷ xs) ys = reverse_onto xs (x ∷ ys)

-- The digits of a `u32` to base 10 or 16, highest first.
unfoldable pub digits : ℕ → ℕ → List ℕ
unfolding digits_loop
digits b n = if n == 0 then 48 ∷ [] else reverse_onto (digits_loop 32 b n) []

-- What a conversion puts behind `buf`, and the arguments that are left. `none` is a read past the
-- arguments, or of one with another type. Only `%s` looks at the room in the buffer.
abbrev pub convert : ℕ → List PrintArg → List ℕ → Option (List PrintArg × List ℕ)
convert c (string_arg str ∷ vals) buf =
    if c == b's'
    then some (vals, buf ++ take (255 - length buf) str)
    else if c == b'%'
    then some (string_arg str ∷ vals, buf ++ b'%' ∷ [])
    else if c == b'd' || c == b'x' || c == b'c'
    then none
    else some (string_arg str ∷ vals, buf ++ b'%' ∷ c ∷ [])
convert c (number_arg n ∷ vals) buf =
    if c == b'd'
    then some (vals, buf ++ digits 10 n)
    else if c == b'x'
    then some (vals, buf ++ digits 16 n)
    else if c == b'c'
    then some (vals, buf ++ n % 256 ∷ [])
    else if c == b's'
    then none
    else if c == b'%'
    then some (number_arg n ∷ vals, buf ++ b'%' ∷ [])
    else some (number_arg n ∷ vals, buf ++ b'%' ∷ c ∷ [])
convert c [] buf =
    if c == b's' || c == b'd' || c == b'x' || c == b'c'
    then none
    else if c == b'%'
    then some ([], buf ++ b'%' ∷ [])
    else some ([], buf ++ b'%' ∷ c ∷ [])

-- What a conversion puts behind a buffer.
abbrev pub Conversion : Type 0
Conversion = ℕ → List PrintArg → List ℕ → Option (List PrintArg × List ℕ)

-- The loop over the format; the flag says that the character before was the `%` of a conversion.
-- `none` is a read past the format's end too.
format_loop : Conversion → Bool → List ℕ → List PrintArg → List ℕ → Option (List ℕ)
format_loop conv true [] vals buf = none
format_loop conv false [] vals buf = some buf
format_loop conv true (c ∷ fmt) vals buf = elim (conv c vals buf) [
  | none ↦ none
  | some (vals', buf') ↦ format_loop conv false fmt vals' buf'
]
format_loop conv false (c ∷ fmt) vals buf =
    let conversion = format_loop conv true fmt vals buf in
    let plain = format_loop conv false fmt vals (buf ++ c ∷ []) in
    if leb 255 (length buf) then some buf else if c == b'%' then conversion else plain

-- The text in `buf`; `none` is a write past its 256 bytes, the NUL at its end included.
unfoldable pub format : Conversion → List ℕ → List PrintArg → Option (List ℕ)
unfolding format_loop
format conv fmt vals = elim (format_loop conv false fmt vals []) [
  | none ↦ none
  | some buf ↦ if leb (length buf) 255 then some buf else none
]

pub fb_printf : List ℕ → List PrintArg → Fb → Option Fb
unfolding format fb_console_puts
fb_printf fmt vals fb = elim (format convert fmt vals) [
  | none ↦ none
  | some buf ↦ some (fb_console_puts buf fb)
]
