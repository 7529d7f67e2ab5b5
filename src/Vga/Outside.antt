-- ===== src/Vga/Outside.antt =====
-- The memory outside the text screen of drivers/vga.c.
use sros.Prelude.{ℕ, zero, suc, ◌+◌, ◌*◌, ◌<◌, ◌≤◌, ◌≡◌, arith}
use sros.Framebuffer.{poke, loop}
use sros.Vga.{Vga, vga_scroll, cell, white_on_black}

-- The memory behind the 2000 cells is as it was.
abbrev pub SameOutside : (ℕ → ℕ) → (ℕ → ℕ) → Type 0
SameOutside old new = (i : ℕ) → 2000 ≤ i → new i ≡ old i

pub poke-SameOutside :
    (old new : ℕ → ℕ) (j v : ℕ) → j < 2000 → SameOutside old new → SameOutside old (poke j v new)
poke-SameOutside old new j v inside same i h = let e = same i h in ground arith

loop-SameOutside :
    (old : ℕ → ℕ) (n : ℕ) (f : ℕ → (ℕ → ℕ) → ℕ → ℕ) (m : ℕ → ℕ)
    → ((k : ℕ) (m' : ℕ → ℕ) → k < n → SameOutside old m' → SameOutside old (f k m'))
    → SameOutside old m
    → SameOutside old (loop n f m)
unfolding loop
loop-SameOutside old zero f m keeps same = same
loop-SameOutside old (suc n) f m keeps same =
    keeps n (loop n f m) (omega arith)
      (loop-SameOutside old n f m (λ k m' h. keeps k m' (omega arith)) same)

pub scroll-SameOutside :
    (old : ℕ → ℕ) (v : Vga) → SameOutside old v.cells → SameOutside old (vga_scroll v).cells
unfolding vga_scroll
scroll-SameOutside old v same =
    let move : ℕ → ℕ → (ℕ → ℕ) → ℕ → ℕ =
      λ i col m. poke (i * 80 + col) (m ((i + 1) * 80 + col)) m in
    let blank : ℕ → (ℕ → ℕ) → ℕ → ℕ = λ col. poke (24 * 80 + col) (cell white_on_black 0x20) in
    loop-SameOutside old 80 blank (loop 24 (λ i. loop 80 (move i)) v.cells)
      (λ col m hc h. poke-SameOutside old m (24 * 80 + col) _ (omega arith) h)
      (loop-SameOutside old 24 (λ i. loop 80 (move i)) v.cells
        (λ i m hi h.
          loop-SameOutside old 80 (move i) m
            (λ col m' hc h'. poke-SameOutside old m' (i * 80 + col) _ (omega arith) h') h)
        same)
