-- ===== src/Framebuffer/Picture.antt =====
-- Pictures, functions from a pixel's place to its dword, and the double loop of
-- drivers/framebuffer.c that paints a block of one.
use sros.Prelude.{
  ℕ, ◌+◌, ◌-◌, ◌^◌, ◌≤◌, ◌<◌, ◌≡◌, refl, sym, ap, ◌∙◌, ◌≢◌, Bool, true, false, ◌&&◌, arith, ltb,
  leb, if◌then◌else◌, Bool-cases, inl, inr,
}
use mathlib.Core.Path.{subst}
use sros.Framebuffer.{Fb, place, paint, clip}
use sros.Framebuffer.Paint.{IsFb, place-inj, paint-hit, paint-miss}

abbrev pub Picture : Type 0
Picture = ℕ → ℕ → ℕ

-- The rows from y and the columns from x on.
abbrev pub in_block : ℕ → ℕ → ℕ → ℕ → ℕ → ℕ → Bool
in_block x y w h px py = leb x px && (ltb px (x + w) && (leb y py && ltb py (y + h)))

-- A picture with a block of other pixels laid over it.
abbrev pub overlaid : ℕ → ℕ → ℕ → ℕ → Picture → Picture → Picture
overlaid x y w h new old px py = if in_block x y w h px py then new (py - y) (px - x) else old px py

-- The memory `mem'` shows the picture where the frame buffer has its pixels, and is `mem` elsewhere.
pub record Draws (fb : Fb) (base : ℕ) (mem mem' : ℕ → ℕ) (p : Picture) : Type 0 where
  pub shows : (px py : ℕ) → px < fb.width → py < fb.height → mem' (place fb base px py) ≡ p px py
  pub keeps :
      (a : ℕ)
      → ((px py : ℕ) → px < fb.width → py < fb.height → a ≢ place fb base px py)
      → mem' a ≡ mem a

-- The picture that the screen shows.
abbrev pub picture : Fb → ℕ → Picture
picture fb base px py = fb.video (place fb base px py)

module _ (fb : Fb) (base x y w h : ℕ) (v : IsFb fb base) (x_in : x + w ≤ fb.width)
    (y_in : y + h ≤ fb.height) (at pixel : ℕ → ℕ → ℕ)
    (placed : (r c : ℕ) → at r c ≡ place fb base (x + c) (y + r)) where
  once : (r c r' c' : ℕ) → r < h → c < w → r' < h → c' < w → at r' c' ≡ at r c → (r' ≡ r) × (c' ≡ c)
  once r c r' c' hr hc hr' hc' e =
      let (same_x, same_y) =
        place-inj fb base (x + c') (y + r') (x + c) (y + r) v (omega arith) (omega arith)
          (omega arith) (omega arith) (sym (placed r' c') ∙ e ∙ placed r c) in
      (omega arith, omega arith)

  inside :
      (px py : ℕ)
      → in_block x y w h px py ≡ true
      → paint h w at pixel fb.video (place fb base px py) ≡ pixel (py - y) (px - x)
  inside px py hit =
      let hx : x ≤ px = ground arith in
      let hx' : px < x + w = ground arith in
      let hy : y ≤ py = ground arith in
      let hy' : py < y + h = ground arith in
      let same_x : x + (px - x) ≡ px = omega arith in
      let same_y : y + (py - y) ≡ py = omega arith in
      let there : at (py - y) (px - x) ≡ place fb base px py =
        placed (py - y) (px - x)
        ∙ ap (λ i. place fb base i (y + (py - y))) same_x
        ∙ ap (place fb base px) same_y in
      ap (paint h w at pixel fb.video) (sym there)
      ∙ paint-hit w at pixel h fb.video (py - y) (px - x) (omega arith) (omega arith)
          (λ r' c' a b. once (py - y) (px - x) r' c' (omega arith) (omega arith) a b)

  outside :
      (px py : ℕ)
      → px < fb.width
      → py < fb.height
      → in_block x y w h px py ≡ false
      → paint h w at pixel fb.video (place fb base px py) ≡ fb.video (place fb base px py)
  outside px py hx hy miss = paint-miss w at pixel h fb.video (place fb base px py) (λ r c a b e.
      let (same_x, same_y) =
        place-inj fb base px py (x + c) (y + r) v hx hy (omega arith) (omega arith)
          (e ∙ placed r c) in
      ground arith)

  pub paint-Draws :
      Draws fb base fb.video
        (paint h w at pixel fb.video)
        (overlaid x y w h pixel (picture fb base))
  paint-Draws = record {
    shows = λ px py hx hy. elim (Bool-cases (in_block x y w h px py)) [
      | inl hit ↦
          inside px py hit
          ∙ ap (λ b. if b then pixel (py - y) (px - x) else picture fb base px py) (sym hit)
      | inr miss ↦
          outside px py hx hy miss
          ∙ ap (λ b. if b then pixel (py - y) (px - x) else picture fb base px py) (sym miss)
    ];
    keeps = λ a out.
        paint-miss w at pixel h fb.video a
          (λ r c hr hc e. out (x + c) (y + r) (omega arith) (omega arith) (e ∙ placed r c));
  }

-- The loops' bounds lie on the screen, and cut nothing off that the screen would show.
pub clip_le : (x w width : ℕ) → x < width → x + w < 2 ^ 32 → x + clip x w width ≤ width
clip_le x w width h k = ground arith

pub clip_same :
    (x w width px : ℕ)
    → x < width
    → x + w < 2 ^ 32
    → px < width
    → ltb px (x + clip x w width) ≡ ltb px (x + w)
clip_same x w width px h k hp = ground arith

pub Draws-same :
    (fb : Fb) (base : ℕ) (mem mem' : ℕ → ℕ) (p q : Picture)
    → ((px py : ℕ) → px < fb.width → py < fb.height → p px py ≡ q px py)
    → Draws fb base mem mem' p
    → Draws fb base mem mem' q
Draws-same fb base mem mem' p q same d = record {
  shows = λ px py hx hy. d.shows px py hx hy ∙ same px py hx hy;
  keeps = d.keeps;
}

-- Only pixels change, and the screen shows the picture.
abbrev pub Drawn : Fb → ℕ → Fb → Picture → Type 0
Drawn fb base fb' p = (fb' ≡ record fb { video = fb'.video }) × Draws fb base fb.video fb'.video p

pub Drawn-as :
    (fb : Fb) (base : ℕ) (fb' fb'' : Fb) (p : Picture)
    → fb' ≡ fb''
    → Drawn fb base fb'' p
    → Drawn fb base fb' p
Drawn-as fb base fb' fb'' p e d = subst (λ k. Drawn fb base k p) (sym e) d

-- Nothing is drawn.
pub Draws-none : (fb : Fb) (base : ℕ) → Draws fb base fb.video fb.video (picture fb base)
Draws-none fb base = record { shows = λ px py hx hy. refl; keeps = λ a out. refl }
