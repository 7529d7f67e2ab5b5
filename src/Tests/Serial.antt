-- ===== src/Tests/Serial.antt =====
-- A serial line that is busy for three polls after each byte, with the bytes that it has sent.
use sros.Prelude.{
  ℕ, zero, suc, ◌≡◌, refl, sym, ap, true, false, List, [], ◌∷◌, ◌++◌, arith, ◌==◌, ◌/◌, ◌%◌,
}
use mathlib.Core.Path.{subst}
use sros.Ports.{Ports}
use sros.Serial.{Arg, text, number, serial_printf}
use sros.Serial.Sent.{IsLine}
use sros.Serial.Printed.{printed, Yields, serial_printf-Yields}

abbrev poll : ℕ → List ℕ → ℕ × (ℕ × List ℕ)
poll zero out = (32, (0, out))
poll (suc n) out = (0, (n, out))

abbrev wire : Ports (ℕ × List ℕ)
wire = record {
  inb = λ p s. poll s.0 s.1;
  inw = λ p s. (0, s);
  inl = λ p s. (0, s);
  outb = λ p v s. (3, s.1 ++ v ∷ []);
  outw = λ p v s. s;
  outl = λ p v s. s;
}

abbrev Shows : ℕ → List ℕ → ℕ × List ℕ → Type 0
Shows n out s = s ≡ (n, out)

wire-IsLine : IsLine wire 10 0x3F8 Shows
wire-IsLine = record {
  polled = λ n out s e.
      subst (λ x. let r = poll x.0 x.1 in ((r.0 / 32 % 2 == 1) ≡ false) × Shows n out r.1) (sym e)
        (refl, refl);
  ready = λ out s e.
      subst (λ x. let r = poll x.0 x.1 in ((r.0 / 32 % 2 == 1) ≡ true) × Shows 0 out r.1) (sym e)
        (refl, refl);
  sends = λ c out s e. record {
    busy = 3;
    in_time = omega arith;
    shows = ap (λ x. (3, x.1 ++ c ∷ [])) e;
  };
}

-- "%s=%x", a name and a number.
abbrev format : List ℕ
format = b'%' ∷ b's' ∷ b'=' ∷ b'%' ∷ b'x' ∷ b'\n' ∷ []

abbrev values : List Arg
values = text (b'p' ∷ b'i' ∷ b'd' ∷ []) ∷ number 26 ∷ []

serial_printf_example :
    Yields wire 10 0x3F8 Shows wire-IsLine
      (printed format values)
      (serial_printf wire 10 0x3F8 format values)
serial_printf_example = serial_printf-Yields wire 10 0x3F8 Shows wire-IsLine format values
