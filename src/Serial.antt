-- ===== src/Serial.antt =====
-- drivers/serial.c: the start of the serial line, and the texts that are sent on it.
pub mod Sent
pub mod Printed
use sros.Prelude.{
  ℕ, zero, suc, ◌+◌, ◌*◌, ◌/◌, ◌%◌, ◌^◌, Bool, true, false, ◌||◌, ◌-◌, List, [], ◌∷◌, ltb, ◌==◌,
  if◌then◌else◌,
}
use sros.Ports.{Ports, Io, pure, ◌>>=◌, ◌>>◌, act}

-- What `va_arg` takes: a string, a u32 or a character.
pub data Arg : Type 0 where
  text : List ℕ → Arg
  number : ℕ → Arg
  char : ℕ → Arg

-- A digit of `hex`.
abbrev pub hex : ℕ → ℕ
hex digit = if ltb digit 10 then b'0' + digit else b'A' + (digit - 10)

module _ {S : Type 0} (io : Ports S) where
  serial_init : ℕ → ℕ → Io S (Unit {0})
  serial_init port baud_divisor = do
    act (io.outb (port + 1) 0x00)
    act (io.outb (port + 3) 0x80)
    act (io.outb (port + 0) (baud_divisor % 256))
    act (io.outb (port + 1) (baud_divisor / 256 % 256))
    act (io.outb (port + 3) 0x03)
    act (io.outb (port + 2) 0xC7)
    act (io.outb (port + 4) 0x0B)

-- The loop of `serial_putc` has `polls` rounds. The steps give `false` where they are not enough.
module _ {S : Type 0} (io : Ports S) (polls port : ℕ) where
  unfoldable pub wait_ready : ℕ → Io S Bool
  wait_ready zero = pure false
  wait_ready (suc n) = do
    st ← io.inb (port + 5)
    let rest = wait_ready n
    if st / 32 % 2 == 1 then pure true else rest

  -- The next step where the one before it has ended.
  abbrev pub and_then : Io S Bool → Io S Bool → Io S Bool
  and_then m next = do ok ← m; if ok then next else pure false

  unfoldable pub serial_putc : ℕ → Io S Bool
  unfolding wait_ready
  serial_putc c = and_then (wait_ready polls) (act (io.outb port (c % 256)) >> pure true)

  unfoldable pub serial_puts : List ℕ → Io S Bool
  unfolding serial_putc
  serial_puts [] = pure true
  serial_puts (c ∷ s) =
      let rest = and_then (serial_putc c) (serial_puts s) in
      if c == b'\n' then and_then (serial_putc b'\r') rest else rest

  -- `n` digits, from the highest on.
  unfoldable pub put_digits : ℕ → ℕ → Io S Bool
  unfolding serial_putc
  put_digits zero val = pure true
  put_digits (suc n) val = and_then (serial_putc (hex (val / 16 ^ n % 16))) (put_digits n val)

  unfoldable pub serial_puthex : ℕ → Io S Bool
  unfolding serial_puts put_digits
  serial_puthex val = and_then (serial_puts (b'0' ∷ b'x' ∷ [])) (put_digits 8 val)

  -- What a conversion does with the arguments that are left. An argument of another kind, or one that
  -- is not there, makes the code read something else: `false`.
  unfoldable pub put_text : List Arg → Io S Bool × List Arg
  unfolding serial_puts
  put_text (text s ∷ args) = (serial_puts s, args)
  put_text args = (pure false, args)

  unfoldable pub put_number : List Arg → Io S Bool × List Arg
  unfolding serial_puthex
  put_number (number n ∷ args) = (serial_puthex n, args)
  put_number args = (pure false, args)

  unfoldable pub put_char : List Arg → Io S Bool × List Arg
  unfolding serial_putc
  put_char (char c ∷ args) = (serial_putc c, args)
  put_char args = (pure false, args)

  unfoldable pub convert : ℕ → List Arg → Io S Bool × List Arg
  unfolding put_text put_number put_char
  convert c args =
      if c == b's'
      then put_text args
      else if c == b'd' || c == b'x'
      then put_number args
      else if c == b'c'
      then put_char args
      else if c == b'%'
      then (serial_putc b'%', args)
      else (and_then (serial_putc b'%') (serial_putc c), args)

  -- A format that ends in `%` makes the code read on behind it: `false` too.
  unfoldable pub serial_printf : List ℕ → List Arg → Io S Bool
  unfolding convert
  serial_printf [] args = pure true
  serial_printf (c ∷ []) args = if c == b'%' then pure false else serial_putc c
  serial_printf (c ∷ d ∷ fmt) args =
      let literal = and_then (serial_putc c) (serial_printf (d ∷ fmt) args) in
      let (converted, args') = convert d args in
      let directive = and_then converted (serial_printf fmt args') in
      if c == b'%' then directive else literal
