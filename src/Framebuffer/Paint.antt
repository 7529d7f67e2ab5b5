-- ===== src/Framebuffer/Paint.antt =====
-- What the nested loops of drivers/framebuffer.c leave in memory: a dword that the loops reach has
-- the last value written, any other stays; and distinct pixels have distinct addresses.
use sros.Prelude.{
  ℕ, zero, suc, ◌+◌, ◌*◌, ◌/◌, ◌^◌, ◌≤◌, ◌<◌, ◌≡◌, refl, sym, ap, ◌∙◌, ◌≢◌, true, false, some,
  arith, if◌then◌else◌, ◌⊎◌, ltb, ◌==◌, Bool-cases, inl, inr, Bool,
}
use native.Mathlib.Nat.{mul-le-mul_right}
use sros.Framebuffer.{Fb, loop, poke, paint, paint_if, place}

poke-other : (p v : ℕ) (mem : ℕ → ℕ) (a : ℕ) → a ≢ p → poke p v mem a ≡ mem a
poke-other p v mem a ne = ground arith

poke_self : (p v : ℕ) (mem : ℕ → ℕ) → poke p v mem p ≡ v
poke_self p v mem = ground arith

-- One round of a loop that may write a dword.
abbrev pub maybe_poke : Bool → ℕ → ℕ → (ℕ → ℕ) → ℕ → ℕ
maybe_poke b p v mem = if b then poke p v mem else mem

maybe-other :
    (b : Bool) (p v : ℕ) (mem : ℕ → ℕ) (a : ℕ) → (b ≡ true → a ≢ p) → maybe_poke b p v mem a ≡ mem a
maybe-other true p v mem a ne = poke-other p v mem a (ne refl)
maybe-other false p v mem a ne = refl

module _ (seen : ℕ → Bool) (at v : ℕ → ℕ) (mem : ℕ → ℕ) where
  abbrev writes : ℕ → ℕ → ℕ
  unfolding loop
  writes n = loop n (λ j m. maybe_poke (seen j) (at j) (v j) m) mem

  loop-miss : (n a : ℕ) → ((j : ℕ) → j < n → seen j ≡ true → a ≢ at j) → writes n a ≡ mem a
  unfolding loop
  loop-miss zero a out = refl
  loop-miss (suc n) a out =
      maybe-other (seen n) (at n) (v n) (writes n) a (out n (omega arith))
      ∙ loop-miss n a (λ j h. out j (omega arith))

  loop-hit :
      (n k : ℕ)
      → k < n
      → seen k ≡ true
      → ((j : ℕ) → j < n → seen j ≡ true → at j ≡ at k → j ≡ k)
      → writes n (at k) ≡ v k
  unfolding loop
  loop-hit zero k h s once = absurd (omega arith)
  loop-hit (suc n) k h s once = elim (Bool-cases (n == k)) [
    | inl last ↦
        let e : k ≡ n = ground arith in
        ap (λ j. maybe_poke (seen n) (at n) (v n) (writes n) (at j)) e
        ∙ ap (λ b. maybe_poke b (at n) (v n) (writes n) (at n)) (ap seen (sym e) ∙ s)
        ∙ poke_self (at n) (v n) (writes n)
        ∙ ap v (sym e)
    | inr earlier ↦
        let ne : n ≢ k = ground arith in
        maybe-other (seen n) (at n) (v n) (writes n) (at k)
          (λ b e. ne (once n (omega arith) b (sym e)))
        ∙ loop-hit n k (omega arith) s (λ j b. once j (omega arith))
  ]

module _ (cols : ℕ) (seen : ℕ → ℕ → Bool) (at pixel : ℕ → ℕ → ℕ) where
  -- A dword that is the address of no pixel that is written stays.
  pub paint_if-miss :
      (rows : ℕ) (mem : ℕ → ℕ) (a : ℕ)
      → ((r c : ℕ) → r < rows → c < cols → seen r c ≡ true → a ≢ at r c)
      → paint_if rows cols seen at pixel mem a ≡ mem a
  unfolding paint_if loop
  paint_if-miss zero mem a out = refl
  paint_if-miss (suc rows) mem a out =
      loop-miss (seen rows) (at rows) (pixel rows) (paint_if rows cols seen at pixel mem) cols a
        (λ j h. out rows j (omega arith) h)
      ∙ paint_if-miss rows mem a (λ r c h k. out r c (omega arith) k)

  -- A pixel that is written, and whose address no other pixel has, is what the loops wrote there.
  pub paint_if-hit :
      (rows : ℕ) (mem : ℕ → ℕ) (r c : ℕ)
      → r < rows
      → c < cols
      → seen r c ≡ true
      → ((r' c' : ℕ)
          → r' < rows
          → c' < cols
          → seen r' c' ≡ true
          → at r' c' ≡ at r c
          → (r' ≡ r) × (c' ≡ c))
      → paint_if rows cols seen at pixel mem (at r c) ≡ pixel r c
  unfolding paint_if loop
  paint_if-hit zero mem r c h k s once = absurd (omega arith)
  paint_if-hit (suc rows) mem r c h k s once = elim (Bool-cases (rows == r)) [
    | inl last ↦
        let e : r ≡ rows = ground arith in
        let below = paint_if rows cols seen at pixel mem in
        ap (λ r. paint_if (suc rows) cols seen at pixel mem (at r c)) e
        ∙ loop-hit (seen rows) (at rows) (pixel rows) below cols c k
            (ap (λ r. seen r c) (sym e) ∙ s)
            (λ j b t q. (once rows j (omega arith) b t (q ∙ ap (λ r. at r c) (sym e))).1)
        ∙ ap (λ r. pixel r c) (sym e)
    | inr earlier ↦
        let ne : rows ≢ r = ground arith in
        loop-miss (seen rows) (at rows) (pixel rows) (paint_if rows cols seen at pixel mem) cols
          (at r c) (λ j b t q. ne (once rows j (omega arith) b t (sym q)).0)
        ∙ paint_if-hit rows mem r c (omega arith) k s (λ r' c' b. once r' c' (omega arith))
  ]

module _ (cols : ℕ) (at pixel : ℕ → ℕ → ℕ) where
  pub paint-miss :
      (rows : ℕ) (mem : ℕ → ℕ) (a : ℕ)
      → ((r c : ℕ) → r < rows → c < cols → a ≢ at r c)
      → paint rows cols at pixel mem a ≡ mem a
  unfolding paint paint_if
  paint-miss rows mem a out =
      paint_if-miss cols (λ r c. true) at pixel rows mem a (λ r c h k s. out r c h k)

  pub paint-hit :
      (rows : ℕ) (mem : ℕ → ℕ) (r c : ℕ)
      → r < rows
      → c < cols
      → ((r' c' : ℕ) → r' < rows → c' < cols → at r' c' ≡ at r c → (r' ≡ r) × (c' ≡ c))
      → paint rows cols at pixel mem (at r c) ≡ pixel r c
  unfolding paint paint_if
  paint-hit rows mem r c h k once =
      paint_if-hit cols (λ r c. true) at pixel rows mem r c h k refl (λ r' c' a b s. once r' c' a b)

-- A frame buffer in memory: its lines do not overlap and its last byte has an address.
pub record IsFb (fb : Fb) (base : ℕ) : Type 0 where
  pub mapped : fb.addr ≡ some base
  pub lines : fb.width ≤ fb.pitch / 4
  pub width_in : fb.width < 2 ^ 32
  pub height_in : fb.height < 2 ^ 32
  pub fits : base + 4 * (fb.height * (fb.pitch / 4)) ≤ 2 ^ 32

-- A pixel's dword lies before the next line.
line_le : (m n p : ℕ) → m < n → m * p + p ≤ n * p
line_le m n p h =
    let whole : suc m * p ≤ n * p = mul-le-mul_right p (omega arith) in omega (arith, whole)

order-cases : (m n : ℕ) → (m < n) ⊎ ((m ≡ n) ⊎ (n < m))
order-cases m n = elim (Bool-cases (ltb m n)) [
  | inl below ↦ inl (ground arith)
  | inr above ↦ elim (Bool-cases (m == n)) [
    | inl same ↦ inr (inl (ground arith))
    | inr apart ↦ inr (inr (ground arith))
  ]
]

same_line : (y y' x x' p : ℕ) → x < p → x' < p → y * p + x ≡ y' * p + x' → (y ≡ y') × (x ≡ x')
same_line y y' x x' p hx hx' e = elim (order-cases y y') [
  | inl below ↦ absurd (omega (arith, line_le y y' p below))
  | inr (inl same) ↦ (same, omega (arith, ap (λ n. n * p) same))
  | inr (inr above) ↦ absurd (omega (arith, line_le y' y p above))
]

-- Distinct pixels of the screen have distinct addresses.
pub place-inj :
    (fb : Fb) (base x y x' y' : ℕ)
    → IsFb fb base
    → x < fb.width
    → y < fb.height
    → x' < fb.width
    → y' < fb.height
    → place fb base x y ≡ place fb base x' y'
    → (x ≡ x') × (y ≡ y')
place-inj fb base x y x' y' v hx hy hx' hy' e =
    let p = fb.pitch / 4 in
    let one = line_le y fb.height p hy in
    let other = line_le y' fb.height p hy' in
    let (same_y, same_x) =
      same_line y y' x x' p (omega (arith, v.lines)) (omega (arith, v.lines))
        (omega (arith, e, v.fits, v.lines, one, other)) in
    (same_x, same_y)
