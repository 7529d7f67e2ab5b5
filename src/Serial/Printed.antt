-- ===== src/Serial/Printed.antt =====
-- The text that `serial_printf` of drivers/serial.c sends on a line that gets ready in time.
use sros.Prelude.{
  ℕ, ◌%◌, ◌≡◌, refl, sym, Bool, true, false, ◌||◌, Option, none, some, List, [], ◌∷◌, ◌++◌, ◌==◌,
  if◌then◌else◌,
}
use mathlib.Core.Path.{subst}
use sros.Ports.{Ports, Io, pure}
use sros.Serial.{
  Arg, text, number, char, and_then, serial_putc, put_text, put_number, put_char, convert,
  serial_printf,
}
use sros.Serial.Sent.{
  line_bytes, digit_bytes, IsLine, Sends, nothing-Sends, and_then-Sends, serial_putc-Sends,
  serial_puts-Sends, serial_puthex-Sends,
}

-- The bytes of a conversion, and the arguments that are left.
abbrev pub Converted : Type 0
Converted = Option (List ℕ × List Arg)

abbrev pub text_bytes : List Arg → Converted
text_bytes (text s ∷ args) = some (line_bytes s, args)
text_bytes args = none

abbrev pub number_bytes : List Arg → Converted
number_bytes (number n ∷ args) = some (b'0' ∷ b'x' ∷ digit_bytes 8 n, args)
number_bytes args = none

abbrev pub char_bytes : List Arg → Converted
char_bytes (char c ∷ args) = some (c % 256 ∷ [], args)
char_bytes args = none

abbrev pub converted : ℕ → List Arg → Converted
converted c args =
    if c == b's'
    then text_bytes args
    else if c == b'd' || c == b'x'
    then number_bytes args
    else if c == b'c'
    then char_bytes args
    else if c == b'%'
    then some (b'%' ∷ [], args)
    else some (b'%' ∷ c % 256 ∷ [], args)

-- Bytes, and those that follow them.
abbrev pub joined : List ℕ → Option (List ℕ) → Option (List ℕ)
joined bs none = none
joined bs (some rest) = some (bs ++ rest)

abbrev pub with_rest : Converted → (List Arg → Option (List ℕ)) → Option (List ℕ)
with_rest none rest = none
with_rest (some (bs, args)) rest = joined bs (rest args)

-- The bytes of a format with its arguments, where the arguments are those that it asks for.
abbrev pub printed : List ℕ → List Arg → Option (List ℕ)
printed [] args = some []
printed (c ∷ []) args = if c == b'%' then none else some (c % 256 ∷ [])
printed (c ∷ d ∷ fmt) args =
    let literal = joined (c % 256 ∷ []) (printed (d ∷ fmt) args) in
    let directive = with_rest (converted d args) (printed fmt) in
    if c == b'%' then directive else literal

module _ {S : Type 0} (io : Ports S) (polls port : ℕ) (Shows : ℕ → List ℕ → S → Type 0)
    (line : IsLine io polls port Shows) where
  -- The step sends the bytes, where there are any that it should send.
  abbrev pub Yields : Option (List ℕ) → Io S Bool → Type 0
  Yields none m = Unit {0}
  Yields (some bs) m = Sends io polls port Shows line bs m

  abbrev pub Converts : Converted → Io S Bool × List Arg → Type 0
  Converts none r = Unit {0}
  Converts (some (bs, args)) r = (r.1 ≡ args) × Sends io polls port Shows line bs r.0

  Converts-if :
      (b : Bool) (o o' : Converted) (r r' : Io S Bool × List Arg)
      → Converts o r
      → Converts o' r'
      → Converts (if b then o else o') (if b then r else r')
  Converts-if true o o' r r' h h' = h
  Converts-if false o o' r r' h h' = h'

  Yields-if :
      (b : Bool) (o o' : Option (List ℕ)) (m m' : Io S Bool)
      → Yields o m
      → Yields o' m'
      → Yields (if b then o else o') (if b then m else m')
  Yields-if true o o' m m' h h' = h
  Yields-if false o o' m m' h h' = h'

  Yields-joined :
      (bs : List ℕ) (o : Option (List ℕ)) (m next : Io S Bool)
      → Sends io polls port Shows line bs m
      → Yields o next
      → Yields (joined bs o) (and_then io polls port m next)
  Yields-joined bs none m next h h' = tt
  Yields-joined bs (some rest) m next h h' =
      and_then-Sends io polls port Shows line bs rest m next h h'

  Yields-with_rest :
      (o : Converted) (rest : List Arg → Option (List ℕ)) (r : Io S Bool × List Arg)
      (next : List Arg → Io S Bool)
      → Converts o r
      → ((args : List Arg) → Yields (rest args) (next args))
      → Yields (with_rest o rest) (and_then io polls port r.0 (next r.1))
  Yields-with_rest none rest r next h h' = tt
  Yields-with_rest (some (bs, args)) rest r next (e, h) h' =
      subst (λ a. Yields (joined bs (rest args)) (and_then io polls port r.0 (next a))) (sym e)
        (Yields-joined bs (rest args) r.0 (next args) h (h' args))

  put_text-Converts : (args : List Arg) → Converts (text_bytes args) (put_text io polls port args)
  unfolding put_text
  put_text-Converts [] = tt
  put_text-Converts (text s ∷ args) = (refl, serial_puts-Sends io polls port Shows line s)
  put_text-Converts (number n ∷ args) = tt
  put_text-Converts (char c ∷ args) = tt

  put_number-Converts :
      (args : List Arg) → Converts (number_bytes args) (put_number io polls port args)
  unfolding put_number
  put_number-Converts [] = tt
  put_number-Converts (text s ∷ args) = tt
  put_number-Converts (number n ∷ args) = (refl, serial_puthex-Sends io polls port Shows line n)
  put_number-Converts (char c ∷ args) = tt

  put_char-Converts : (args : List Arg) → Converts (char_bytes args) (put_char io polls port args)
  unfolding put_char
  put_char-Converts [] = tt
  put_char-Converts (text s ∷ args) = tt
  put_char-Converts (number n ∷ args) = tt
  put_char-Converts (char c ∷ args) = (refl, serial_putc-Sends io polls port Shows line c)

  convert-Converts :
      (c : ℕ) (args : List Arg) → Converts (converted c args) (convert io polls port c args)
  unfolding convert
  convert-Converts c args =
      let putc = serial_putc-Sends io polls port Shows line in
      let both =
        and_then-Sends io polls port Shows line (b'%' ∷ []) (c % 256 ∷ []) _ _ (putc b'%')
          (putc c) in
      Converts-if (c == b's') (text_bytes args) _ (put_text io polls port args) _
        (put_text-Converts args)
        (Converts-if (c == b'd' || c == b'x') (number_bytes args) _ (put_number io polls port args)
          _ (put_number-Converts args)
          (Converts-if (c == b'c') (char_bytes args) _ (put_char io polls port args) _
            (put_char-Converts args)
            (Converts-if (c == b'%') (some (b'%' ∷ [], args)) (some (b'%' ∷ c % 256 ∷ [], args))
              (serial_putc io polls port b'%', args)
              (
                and_then io polls port (serial_putc io polls port b'%')
                    (serial_putc io polls port c),
                args,
              )
              (refl, putc b'%') (refl, both))))

  -- On a documented serial line that is ready after fewer polls than the code makes, serial_printf
  -- of a format whose arguments are those that it asks for ends, and sends exactly the text of the
  -- format: %s is the string with a carriage return before each newline, %d and %x are 0x and
  -- eight hexadecimal digits, %c is the character, %% is %, and any other conversion stands for
  -- itself.
  pub serial_printf-Yields :
      (fmt : List ℕ) (args : List Arg)
      → Yields (printed fmt args) (serial_printf io polls port fmt args)
  unfolding serial_printf
  serial_printf-Yields [] args = nothing-Sends io polls port Shows line
  serial_printf-Yields (c ∷ []) args =
      Yields-if (c == b'%') none (some (c % 256 ∷ [])) (pure false) (serial_putc io polls port c) tt
        (serial_putc-Sends io polls port Shows line c)
  serial_printf-Yields (c ∷ d ∷ fmt) args =
      let next : List Arg → Io S Bool = serial_printf io polls port fmt in
      let r = convert io polls port d args in
      Yields-if (c == b'%') (with_rest (converted d args) (printed fmt))
        (joined (c % 256 ∷ []) (printed (d ∷ fmt) args)) (and_then io polls port r.0 (next r.1)) _
        (Yields-with_rest (converted d args) (printed fmt) r next (convert-Converts d args)
          (serial_printf-Yields fmt))
        (Yields-joined (c % 256 ∷ []) (printed (d ∷ fmt) args) (serial_putc io polls port c) _
          (serial_putc-Sends io polls port Shows line c) (serial_printf-Yields (d ∷ fmt) args))
