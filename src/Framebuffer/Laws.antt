-- ===== src/Framebuffer/Laws.antt =====
-- The rectangles and characters of drivers/framebuffer.c against pictures.
use sros.Prelude.{
  ℕ, ◌+◌, ◌*◌, ◌/◌, ◌%◌, ◌^◌, ◌<◌, ◌≡◌, refl, sym, ap, ◌∙◌, Bool, true, false, ◌&&◌, ◌||◌, arith,
  ltb, leb, if◌then◌else◌, Bool-cases, inl, inr,
}
use sros.Framebuffer.{
  Fb, fill_at, putchar_at, Color, color_to_pixel, dword, paint, clip, fb_fill_rect, fb_putchar,
  font_bit, font_index,
}
use sros.Framebuffer.Paint.{IsFb}
use sros.Framebuffer.Picture.{
  Picture, in_block, overlaid, Draws, picture, paint-Draws, clip_le, clip_same, Draws-same, Drawn,
  Drawn-as, Draws-none,
}

-- The picture with a rectangle of one colour.
abbrev pub filled : ℕ → ℕ → ℕ → ℕ → Color → Picture → Picture
filled x y w h c old = overlaid x y w h (λ r i. color_to_pixel c) old

module _ (fb : Fb) (base x y w h : ℕ) (c : Color) (v : IsFb fb base) where
  abbrev fill_video : Fb
  fill_video = record fb {
    video =
        paint (clip y h fb.height) (clip x w fb.width)
          (λ row col. dword base ((y + row) * (fb.pitch / 4) + x + col))
          (λ row col. color_to_pixel c) fb.video;
  }

  filled_is :
      fb_fill_rect x y w h c fb ≡ (if leb fb.width x || leb fb.height y then fb else fill_video)
  unfolding fb_fill_rect fill_at
  filled_is = ap (λ o. fill_at o x y w h c fb) v.mapped

  fill-off :
      (leb fb.width x || leb fb.height y) ≡ true
      → Draws fb base fb.video fb.video (filled x y w h c (picture fb base))
  fill-off off =
      Draws-same fb base fb.video fb.video (picture fb base) (filled x y w h c (picture fb base))
        (λ px py hx hy.
          let miss : in_block x y w h px py ≡ false = ground arith in
          ap (λ b. if b then color_to_pixel c else picture fb base px py) (sym miss))
        (Draws-none fb base)

  fill-on :
      x + w < 2 ^ 32
      → y + h < 2 ^ 32
      → (leb fb.width x || leb fb.height y) ≡ false
      → Draws fb base fb.video
          (paint
            (clip y h fb.height)
            (clip x w fb.width)
            (λ row col. dword base ((y + row) * (fb.pitch / 4) + x + col))
            (λ row col. color_to_pixel c)
            fb.video)
          (filled x y w h c (picture fb base))
  fill-on hw hh on =
      let hx : x < fb.width = ground arith in
      let hy : y < fb.height = ground arith in
      let w' = clip x w fb.width in
      let h' = clip y h fb.height in
      Draws-same fb base fb.video _ (filled x y w' h' c (picture fb base))
        (filled x y w h c (picture fb base))
        (λ px py hpx hpy.
          ap
            (λ b.
              if leb x px && (b && (leb y py && ltb py (y + h')))
              then color_to_pixel c
              else picture fb base px py)
            (clip_same x w fb.width px hx hw hpx)
          ∙ ap
              (λ b.
                if leb x px && (ltb px (x + w) && (leb y py && b))
                then color_to_pixel c
                else picture fb base px py)
              (clip_same y h fb.height py hy hh hpy))
        (paint-Draws fb base x y w' h' v (clip_le x w fb.width hx hw) (clip_le y h fb.height hy hh)
          (λ row col. dword base ((y + row) * (fb.pitch / 4) + x + col))
          (λ row col. color_to_pixel c) (λ r i. ap (dword base) (omega arith)))

  -- In a frame buffer whose lines and pixels have addresses, for a rectangle whose right and lower
  -- ends do not wrap at 32 bits, fb_fill_rect makes the screen show the old picture with the part
  -- of the rectangle that is on the screen in the colour, and changes no dword that is not a pixel
  -- and no other state.
  pub fb_fill_rect-Draws :
      x + w < 2 ^ 32
      → y + h < 2 ^ 32
      → let fb' = fb_fill_rect x y w h c fb in
        (fb' ≡ record fb { video = fb'.video })
        × Draws fb base fb.video fb'.video (filled x y w h c (picture fb base))
  unfolding fb_fill_rect
  fb_fill_rect-Draws hw hh = elim (Bool-cases (leb fb.width x || leb fb.height y)) [
    | inl off ↦
        Drawn-as fb base _ _ _ (filled_is ∙ ap (λ b. if b then fb else fill_video) off)
          (refl, fill-off off)
    | inr on ↦
        Drawn-as fb base _ _ _ (filled_is ∙ ap (λ b. if b then fb else fill_video) on)
          (refl, fill-on hw hh on)
  ]

-- The picture with a character in the foreground on the background.
abbrev pub lettered : Fb → ℕ → ℕ → ℕ → Color → Color → Picture → Picture
lettered fb c x y fg bg old =
    overlaid x y 8 16
      (λ r i.
        if font_bit (fb.font (font_index c) r) i then color_to_pixel fg else color_to_pixel bg)
      old

module _ (fb : Fb) (base c x y : ℕ) (fg bg : Color) (v : IsFb fb base) where
  abbrev putchar_video : Fb
  putchar_video = record fb {
    video =
        paint 16 8 (λ row col. dword base ((y + row) * (fb.pitch / 4) + (x + col)))
          (λ r i.
            if font_bit (fb.font (font_index c) r) i then color_to_pixel fg else color_to_pixel bg)
          fb.video;
  }

  abbrev cut_off : Bool
  cut_off = ltb fb.width ((x + 8) % 2 ^ 32) || ltb fb.height ((y + 16) % 2 ^ 32)

  putchar_is : fb_putchar c x y fg bg fb ≡ (if cut_off then fb else putchar_video)
  unfolding fb_putchar putchar_at
  putchar_is = ap (λ o. putchar_at o c x y fg bg fb) v.mapped

  -- In a frame buffer whose lines and pixels have addresses, at a place that does not wrap at 32
  -- bits, fb_putchar makes the screen show the old picture with the character's bits in the two
  -- colours where the whole cell is on the screen, and leaves it as it was where it is not; no
  -- dword that is not a pixel changes.
  pub fb_putchar-Draws :
      x + 8 < 2 ^ 32
      → y + 16 < 2 ^ 32
      → Drawn fb base (fb_putchar c x y fg bg fb) (
          if leb (x + 8) fb.width && leb (y + 16) fb.height
          then lettered fb c x y fg bg (picture fb base)
          else picture fb base)
  fb_putchar-Draws hx hy = elim (Bool-cases (leb (x + 8) fb.width && leb (y + 16) fb.height)) [
    | inl fits ↦
        let drawn : cut_off ≡ false = ground arith in
        rw fits (
          Drawn-as fb base _ _ _ (putchar_is ∙ ap (λ b. if b then fb else putchar_video) drawn)
            (refl, paint-Draws fb base x y 8 16 v (ground arith) (ground arith) _ _ (λ r i. refl)))
    | inr cut ↦
        let skipped : cut_off ≡ true = ground arith in
        rw cut (
          Drawn-as fb base _ _ _ (putchar_is ∙ ap (λ b. if b then fb else putchar_video) skipped)
            (refl, Draws-none fb base))
  ]
