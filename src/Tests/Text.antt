-- ===== src/Tests/Text.antt =====
-- A character at the end of a line of the text screen, what follows the last cell, and the gate of
-- the keyboard.
use sros.Prelude.{get_or, ℕ, ◌+◌, ◌*◌, ◌≡◌, refl, none, inl, arith}
use sros.Vga.{vga_putc}
use sros.Descriptors.{no_gate, idt_init}
use sros.Descriptors.Laws.{Expected, idt_init-Expected}
use sros.Vga.Laws.{at, Handled, vga_putc-Handled}

vga_putc_example : Handled (λ i. 0) 3 79 (vga_putc 65 (at (λ i. 0) 3 79))
vga_putc_example = vga_putc-Handled (λ i. 0) 3 79 (omega arith) (omega arith) 65 (inl (omega arith))

-- The cursor behind the last cell: the next character lies outside the screen.
behind_last : vga_putc 65 (at (λ i. 0) 25 0) ≡ none
unfolding vga_putc
behind_last = refl

-- The entry points, 16 bytes apart.
abbrev isr : ℕ → ℕ
isr v = 0x100000 + v * 16

idt_init_example : Expected isr 33 (get_or (idt_init isr) 33 no_gate)
idt_init_example = idt_init-Expected isr 33 (omega arith) (omega arith)
