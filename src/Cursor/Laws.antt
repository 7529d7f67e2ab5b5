-- ===== src/Cursor/Laws.antt =====
-- The cursor of drivers/cursor.c leaves no trace: taking it off puts back what was under it.
use sros.Prelude.{
  ℕ, ◌+◌, ◌-◌, ◌%◌, ◌^◌, ◌<◌, ◌≡◌, refl, sym, ap, ◌∙◌, ◌≢◌, Bool, true, false, some, ◌&&◌, not,
  arith, ℤ, to_u32, ltb, ◌==◌, lt→ltb, if◌then◌else◌, Bool-cases, inl, inr,
}
use sros.Framebuffer.{Fb, place, paint_if}
use sros.Framebuffer.Paint.{IsFb, place-inj, paint_if-hit, paint_if-miss}
use sros.Framebuffer.Picture.{Draws, Drawn, Drawn-as, picture}
use sros.Cursor.{
  Screen, offset, on_screen, under, sprite, cursor_remove, cursor_restore, save_background,
  draw_cursor, put_back, save_at, draw_at, is_drawn, keep_position,
}

-- The row or column of the cursor at `z` that lies at a coordinate of the screen, if below 16.
abbrev within : ℤ → ℕ → ℕ
within z p = (p + 2 ^ 32 - to_u32 z % 2 ^ 32) % 2 ^ 32

offset-within : (z : ℤ) (p : ℕ) → p < 2 ^ 32 → offset z (within z p) ≡ p
offset-within z p h = omega arith

within-offset : (z : ℤ) (i : ℕ) → i < 16 → within z (offset z i) ≡ i
within-offset z i h = omega arith

module _ (fb : Fb) (base : ℕ) (x y : ℤ) (v : IsFb fb base) where
  -- Distinct pixels of the cursor lie on distinct pixels of the screen.
  under-once :
      (r c r' c' : ℕ)
      → r < 16
      → c < 16
      → r' < 16
      → c' < 16
      → on_screen fb x y r c ≡ true
      → on_screen fb x y r' c' ≡ true
      → under fb base x y r' c' ≡ under fb base x y r c
      → (r' ≡ r) × (c' ≡ c)
  under-once r c r' c' hr hc hr' hc' on on' e =
      let (same_x, same_y) =
        place-inj fb base (offset x c') (offset y r') (offset x c) (offset y r) v (ground arith)
          (ground arith) (ground arith) (ground arith) e in
      (
        sym (within-offset y r' hr') ∙ ap (within y) same_y ∙ within-offset y r hr,
        sym (within-offset x c' hc') ∙ ap (within x) same_x ∙ within-offset x c hc,
      )

  -- A pixel of the screen that a pixel of the cursor lies on has its row and column.
  under-place :
      (px py r c : ℕ)
      → px < fb.width
      → py < fb.height
      → r < 16
      → c < 16
      → on_screen fb x y r c ≡ true
      → place fb base px py ≡ under fb base x y r c
      → (within y py ≡ r) × (within x px ≡ c)
  under-place px py r c hx hy hr hc on e =
      let (same_x, same_y) =
        place-inj fb base px py (offset x c) (offset y r) v hx hy (ground arith) (ground arith) e in
      (ap (within y) same_y ∙ within-offset y r hr, ap (within x) same_x ∙ within-offset x c hc)

  -- Pixels drawn over a picture, at the cursor's place, and put back from what was saved of it.
  module _ (seen : ℕ → ℕ → Bool)
      (seen_on : (r c : ℕ) → seen r c ≡ true → on_screen fb x y r c ≡ true)
      (pixel saved : ℕ → ℕ → ℕ)
      (saves : (r c : ℕ)
        → r < 16
        → c < 16
        → on_screen fb x y r c ≡ true
        → saved r c ≡ fb.video (under fb base x y r c)) where
    abbrev drawn : ℕ → ℕ
    drawn = paint_if 16 16 seen (under fb base x y) pixel fb.video

    abbrev back : ℕ → ℕ
    back = paint_if 16 16 (on_screen fb x y) (under fb base x y) saved drawn

    untouched :
        (a : ℕ)
        → ((r c : ℕ) → r < 16 → c < 16 → on_screen fb x y r c ≡ true → a ≢ under fb base x y r c)
        → back a ≡ fb.video a
    untouched a out =
        paint_if-miss 16 (on_screen fb x y) (under fb base x y) saved 16 drawn a out
        ∙ paint_if-miss 16 seen (under fb base x y) pixel 16 fb.video a
            (λ r c hr hc s. out r c hr hc (seen_on r c s))

    shown :
        (px py : ℕ)
        → px < fb.width
        → py < fb.height
        → back (place fb base px py) ≡ fb.video (place fb base px py)
    shown px py hx hy = elim (Bool-cases (ltb (within y py) 16 && ltb (within x px) 16)) [
      | inl hit ↦
          let r = within y py in
          let c = within x px in
          let at_x = offset-within x px (omega (arith, v.width_in)) in
          let at_y = offset-within y py (omega (arith, v.height_in)) in
          let there : under fb base x y r c ≡ place fb base px py =
            ap (λ j. place fb base (offset x c) j) at_y ∙ ap (λ i. place fb base i py) at_x in
          let on : on_screen fb x y r c ≡ true = ground (arith, at_x, at_y) in
          let hr : r < 16 = ground arith in
          let hc : c < 16 = ground arith in
          ap back (sym there)
          ∙ paint_if-hit 16 (on_screen fb x y) (under fb base x y) saved 16 drawn r c hr hc on
              (λ r' c' a b on'. under-once r c r' c' hr hc a b on on')
          ∙ saves r c hr hc on
          ∙ ap fb.video there
      | inr miss ↦ untouched (place fb base px py) (λ r c hr hc on e.
          let (same_r, same_c) = under-place px py r c hx hy hr hc on e in ground arith)
    ]

    back-Draws : Draws fb base fb.video back (picture fb base)
    back-Draws = record {
      shows = shown;
      keeps = λ a out.
          untouched a (λ r c hr hc on. out (offset x c) (offset y r) (ground arith) (ground arith));
    }

module _ (s : Screen) (base : ℕ) (mapped : s.fb.addr ≡ some base)
    (shown : s.cursor.visible ≡ true) where
  is_drawn-true : is_drawn s ≡ true
  is_drawn-true = rw (mapped, shown)

  -- The cursor that `cursor_restore` draws.
  abbrev restored : Screen
  restored = draw_at (some base) (save_at (some base) (keep_position s))

  cursor_restore_is : cursor_restore s ≡ restored
  unfolding cursor_restore save_background draw_cursor save_at
  cursor_restore_is =
      ap (λ b. if b then draw_cursor (save_background (keep_position s)) else s) is_drawn-true
      ∙ ap (λ o. draw_cursor (save_at o (keep_position s))) mapped
      ∙ ap (λ o. draw_at o (save_at (some base) (keep_position s))) mapped

cursor_remove_is :
    (s : Screen) (base : ℕ)
    → s.fb.addr ≡ some base
    → s.cursor.visible ≡ true
    → cursor_remove s ≡ put_back (some base) s.cursor.x s.cursor.y s
unfolding cursor_remove
cursor_remove_is s base mapped shown =
    ap (λ b. if b then put_back s.fb.addr s.cursor.x s.cursor.y s else s)
      (is_drawn-true s base mapped shown)
    ∙ ap (λ o. put_back o s.cursor.x s.cursor.y s) mapped

and_right : (a b : Bool) → (a && b) ≡ true → b ≡ true
and_right true b h = h
and_right false b h = cc

chosen :
    (a b c : Bool) (p q : ℕ) → a ≡ true → b ≡ true → c ≡ true → (if a && (b && c) then p else q) ≡ p
chosen a b c p q ha hb hc = rw (ha, hb, hc)

-- In a frame buffer whose lines and pixels have addresses, with a visible cursor at any position,
-- cursor_restore followed by cursor_remove leaves every pixel of the screen as it was, and changes
-- no dword that is not a pixel.
pub cursor_remove-cursor_restore :
    (s : Screen) (base : ℕ)
    → IsFb s.fb base
    → s.cursor.visible ≡ true
    → Drawn s.fb base (cursor_remove (cursor_restore s)).fb (picture s.fb base)
unfolding draw_at save_at put_back
cursor_remove-cursor_restore s base v visible =
    let k = restored s base v.mapped visible in
    let there = cursor_restore_is s base v.mapped visible in
    let off = cursor_remove_is k base v.mapped visible in
    Drawn-as s.fb base _ _ (picture s.fb base)
      (ap (λ (t : Screen). t.fb) (ap cursor_remove there ∙ off))
      (
        refl,
        back-Draws s.fb base s.cursor.x s.cursor.y v
            (λ row col. not (sprite row col == 0) && on_screen s.fb s.cursor.x s.cursor.y row col)
            (λ r c h.
              and_right (not (sprite r c == 0)) (on_screen s.fb s.cursor.x s.cursor.y r c) h)
            (λ row col. if sprite row col == 1 then 0 else 0xFFFFFF)
            (save_at (some base) (keep_position s)).cursor.saved_bg
            (λ r c hr hc on.
              chosen _ _ _ _ (s.cursor.saved_bg r c) (lt→ltb r 16 hr) (lt→ltb c 16 hc) on),
      )
