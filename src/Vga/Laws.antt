-- ===== src/Vga/Laws.antt =====
-- Where `vga_putc` of drivers/vga.c writes, and where it leaves the cursor.
use sros.Prelude.{
  ℕ, zero, suc, ◌+◌, ◌-◌, ◌*◌, ◌<◌, ◌≡◌, refl, sym, ap, ◌∙◌, ◌≢◌, ◌⊎◌, false, Option, none, some,
  arith, ℤ, pos, inc_int, dec_int, eq_int, ltb, ◌==◌, if◌then◌else◌, Bool-cases, inl, inr,
}
use mathlib.Core.Path.{subst, ap₂}
use sros.Framebuffer.{poke}
use sros.Vga.Outside.{SameOutside, poke-SameOutside, scroll-SameOutside}
use sros.Vga.{
  Vga, Key, backspace, newline, left, right, glyph, key_of, putc_key, vga_putc, put_glyph,
  vga_putchar_at, vga_scroll, step_right, on_vga, cell, put_here, next_line, line_feed,
  white_on_black,
}

-- The screen with the cursor at a row and a column.
abbrev pub at : (ℕ → ℕ) → ℕ → ℕ → Vga
at cells r c = record { cells = cells; cursor_row = pos r; cursor_col = pos c }

-- The character has been handled within the screen: no cell outside it has changed. The cursor
-- then stands in a column of the screen, and in a row of it unless it has passed the last cell.
pub record Handled (old : ℕ → ℕ) (r c : ℕ) (o : Option Vga) : Type 0 where
  pub cells : ℕ → ℕ
  pub row : ℕ
  pub col : ℕ
  pub result : o ≡ some (at cells row col)
  pub outside : SameOutside old cells
  pub col_in : col < 80
  pub row_in : (row < 25) ⊎ ((r ≡ 24) × (c ≡ 79))

handled :
    (old : ℕ → ℕ) (r c : ℕ) (o : Option Vga) (cells : ℕ → ℕ) (row col : ℕ)
    → o ≡ some (at cells row col)
    → SameOutside old cells
    → col < 80
    → (row < 25) ⊎ ((r ≡ 24) × (c ≡ 79))
    → Handled old r c o
handled old r c o cells row col e same h k = record {
  cells = cells;
  row = row;
  col = col;
  result = e;
  outside = same;
  col_in = h;
  row_in = k;
}

inc_small : (n : ℕ) → n < 100 → inc_int (pos n) ≡ pos (n + 1)
inc_small n h = ground arith

dec_small : (n : ℕ) → 0 < n → dec_int (pos n) ≡ pos (n - 1)
dec_small zero h = absurd (omega arith)
dec_small (suc n) h = ap pos (omega arith)

scroll_at :
    (cells : ℕ → ℕ) (r : ℕ)
    → record (vga_scroll (at cells r 0)) { cursor_row = pos 24 }
      ≡ at (vga_scroll (at cells r 0)).cells 24 0
unfolding vga_scroll
scroll_at cells r = refl

key_backspace : (ch : ℕ) → key_of ch ≡ backspace → ch ≡ 8
key_backspace ch e = ground arith

not_first : (ch c : ℕ) → key_of ch ≡ backspace → (ch ≢ 8) ⊎ (0 < c) → 0 < c
not_first ch c e (inl other) = absurd (other (key_backspace ch e))
not_first ch c e (inr h) = h

on_vga_in : (r c : ℕ) → r < 25 → c < 80 → on_vga (r * 80 + c) ≡ some (r * 80 + c)
on_vga_in r c hr hc = ground arith

vga_putchar_at_in :
    (ch color r c : ℕ) (v : Vga)
    → r < 25
    → c < 80
    → vga_putchar_at ch color (pos r) (pos c) v
      ≡ some (record v { cells = poke (r * 80 + c) (cell color ch) v.cells })
unfolding vga_putchar_at
vga_putchar_at_in ch color r c v hr hc = rw (vga_putchar_at, on_vga_in r c hr hc) refl

module _ (cells : ℕ → ℕ) (r c : ℕ) (hr : r < 25) (hc : c < 80) where
  unchanged : SameOutside cells cells
  unchanged i h = refl

  -- `step_right` by the incremented column and row.
  abbrev stepped : (ℕ → ℕ) → ℤ → ℤ → Vga
  stepped cells' col row =
      if eq_int col (pos 80)
      then record { cells = cells'; cursor_row = row; cursor_col = pos 0 }
      else record { cells = cells'; cursor_row = pos r; cursor_col = col }

  step_right_is :
      (cells' : ℕ → ℕ) → step_right (at cells' r c) ≡ stepped cells' (pos (c + 1)) (pos (r + 1))
  step_right_is cells' =
      ap₂ (stepped cells') (inc_small c (omega arith)) (inc_small r (omega arith))

  step_right-Handled :
      (cells' : ℕ → ℕ)
      → SameOutside cells cells'
      → Handled cells r c (some (step_right (at cells' r c)))
  step_right-Handled cells' same = elim (Bool-cases (c + 1 == 80)) [
    | inl last ↦
        handled cells r c _ cells' (r + 1) 0
          (ap some (
            step_right_is cells'
            ∙ ap (λ b. if b then at cells' (r + 1) 0 else at cells' r (c + 1)) last))
          same (omega arith) (last_row (ground arith))
    | inr inner ↦
        handled cells r c _ cells' r (c + 1)
          (ap some (
            step_right_is cells'
            ∙ ap (λ b. if b then at cells' (r + 1) 0 else at cells' r (c + 1)) inner))
          same (ground arith) (inl hr)
  ]
    where
      last_row : c ≡ 79 → (r + 1 < 25) ⊎ ((r ≡ 24) × (c ≡ 79))
      last_row e = elim (Bool-cases (ltb r 24)) [
        | inl above ↦ inl (ground arith)
        | inr lowest ↦ inr (ground arith, e)
      ]

  glyph_is :
      (ch : ℕ)
      → put_glyph ch (at cells r c)
        ≡ some (step_right (at (poke (r * 80 + c) (cell white_on_black ch) cells) r c))
  unfolding put_glyph
  glyph_is ch =
      let inside : (c == 80) ≡ false = ground arith in
      ap
        (λ b.
          elim (put_here ch (if b then vga_scroll (next_line (at cells r c)) else at cells r c)) [
            | none ↦ none
            | some v'' ↦ some (step_right v'')
          ])
        inside
      ∙ ap (λ o. elim o [ none ↦ none | some v'' ↦ some (step_right v'') ])
          (vga_putchar_at_in ch white_on_black r c (at cells r c) hr hc)

  glyph-Handled : (ch : ℕ) → Handled cells r c (put_glyph ch (at cells r c))
  glyph-Handled ch = subst (Handled cells r c) (sym (glyph_is ch)) (
      step_right-Handled (poke (r * 80 + c) (cell white_on_black ch) cells) (
        poke-SameOutside cells cells (r * 80 + c) (cell white_on_black ch) (omega arith) unchanged))

  -- The screen scrolled by a line feed in its last row.
  abbrev scrolled : Vga
  scrolled = record (vga_scroll (at cells (r + 1) 0)) { cursor_row = pos 24 }

  feeds :
      some (line_feed (next_line (at cells r c)))
      ≡ some (if ltb (r + 1) 25 then at cells (r + 1) 0 else scrolled)
  feeds =
      ap (λ z. some (line_feed (record { cells = cells; cursor_row = z; cursor_col = pos 0 })))
        (inc_small r (omega arith))

  key-Handled :
      (ch : ℕ) (k : Key)
      → key_of ch ≡ k
      → (ch ≢ 8) ⊎ (0 < c)
      → Handled cells r c (putc_key k ch (at cells r c))
  unfolding putc_key
  key-Handled ch backspace e ok =
      let inside : 0 < c = not_first ch c e ok in
      let before : dec_int (pos c) ≡ pos (c - 1) = dec_small c inside in
      handled cells r c _ (poke (r * 80 + (c - 1)) (cell white_on_black 0x20) cells) r (c - 1)
        (ap
            (λ z.
              vga_putchar_at 0x20 white_on_black (pos r) z
                (record { cells = cells; cursor_row = pos r; cursor_col = z }))
            before
          ∙ vga_putchar_at_in 0x20 white_on_black r (c - 1) (at cells r (c - 1)) hr (omega arith))
        (poke-SameOutside cells cells (r * 80 + (c - 1)) (cell white_on_black 0x20) (omega arith)
          unchanged)
        (omega arith) (inl hr)
  key-Handled ch newline e ok = elim (Bool-cases (ltb (r + 1) 25)) [
    | inl above ↦
        handled cells r c _ cells (r + 1) 0
          (feeds ∙ ap (λ b. some (if b then at cells (r + 1) 0 else scrolled)) above) unchanged
          (omega arith) (inl (ground arith))
    | inr lowest ↦
        handled cells r c _ (vga_scroll (at cells (r + 1) 0)).cells 24 0
          (feeds
            ∙ ap (λ b. some (if b then at cells (r + 1) 0 else scrolled)) lowest
            ∙ ap some (scroll_at cells (r + 1)))
          (scroll-SameOutside cells (at cells (r + 1) 0) unchanged) (omega arith)
          (inl (omega arith))
  ]
  key-Handled ch left e ok = elim (Bool-cases (ltb 0 c)) [
    | inl inner ↦
        handled cells r c _ cells r (c - 1)
          (ap
              (λ b. some (
                if b then record (at cells r c) { cursor_col = dec_int (pos c) } else at cells r c))
              inner
            ∙ ap (λ z. some (record (at cells r c) { cursor_col = z }))
                (dec_small c (ground arith)))
          unchanged (omega arith) (inl hr)
    | inr edge ↦
        handled cells r c _ cells r c
          (ap
            (λ b.
              some (
                if b then record (at cells r c) { cursor_col = dec_int (pos c) } else at cells r c))
            edge)
          unchanged hc (inl hr)
  ]
  key-Handled ch right e ok = elim (Bool-cases (ltb c 79)) [
    | inl inner ↦
        handled cells r c _ cells r (c + 1)
          (ap
              (λ b. some (
                if b then record (at cells r c) { cursor_col = inc_int (pos c) } else at cells r c))
              inner
            ∙ ap (λ z. some (record (at cells r c) { cursor_col = z })) (inc_small c (omega arith)))
          unchanged (ground arith) (inl hr)
    | inr edge ↦
        handled cells r c _ cells r c
          (ap
            (λ b.
              some (
                if b then record (at cells r c) { cursor_col = inc_int (pos c) } else at cells r c))
            edge)
          unchanged hc (inl hr)
  ]
  key-Handled ch glyph e ok = glyph-Handled ch

  -- With the cursor in a row and a column of the text screen, vga_putc of any character, but a
  -- backspace in column 0, ends with all memory outside the screen's 2000 cells as it was,
  -- scrolling included, and leaves the cursor in a column of the screen, and in a row of it unless
  -- it stood in the last cell.
  pub vga_putc-Handled :
      (ch : ℕ) → (ch ≢ 8) ⊎ (0 < c) → Handled cells r c (vga_putc ch (at cells r c))
  unfolding vga_putc
  vga_putc-Handled ch ok = key-Handled ch (key_of ch) refl ok
