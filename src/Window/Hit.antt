-- ===== src/Window/Hit.antt =====
-- The window under a point in drivers/window.c is the highest that covers it.
use sros.Prelude.{
  ℕ, ◌+◌, ◌-◌, ◌%◌, ◌^◌, Bool-cases, ◌≤◌, ◌<◌, ◌≡◌, ◌≢◌, ◌⊎◌, inl, inr, refl, sym, ap, ◌∙◌, Bool,
  true, false, ◌&&◌, Option, none, some, List, [], ◌∷◌, ℤ, pos, negsuc, ltb, leb, arith,
  if◌then◌else◌, lt_int, of_u32, not,
}
use mathlib.Core.Path.{subst, ap₂}
use sros.Cursor.{add_int}
use sros.Window.{Window, in_range, window_contains, window_at_from, wm_get_window_at}

-- The second, if there is no first.
abbrev or_else : Option ℕ → Option ℕ → Option ℕ
or_else none r = r
or_else (some a) r = some a

-- A window that a click at (x, y) can hit.
abbrev hit : Window → ℤ → ℤ → Bool
hit w x y = w.visible && window_contains w x y

-- The address of the last window of the list that is hit.
abbrev last_hit : List Window → ℤ → ℤ → Option ℕ
last_hit [] x y = none
last_hit (w ∷ ws) x y = or_else (last_hit ws x y) (if hit w x y then some w.addr else none)

or_else-if :
    (o r : Option ℕ) (b : Bool) (c : ℕ)
    → or_else o (if b then some c else r) ≡ or_else (or_else o (if b then some c else none)) r
or_else-if none r true c = refl
or_else-if none r false c = refl
or_else-if (some a) r b c = refl

or_else-none : (o : Option ℕ) → or_else o none ≡ o
or_else-none none = refl
or_else-none (some a) = refl

window_at_from_lem :
    (r : Option ℕ) (ws : List Window) (x y : ℤ)
    → window_at_from r ws x y ≡ or_else (last_hit ws x y) r
unfolding window_at_from
window_at_from_lem r [] x y = refl
window_at_from_lem r (w ∷ ws) x y =
    window_at_from_lem (if hit w x y then some w.addr else r) ws x y
    ∙ or_else-if (last_hit ws x y) r (hit w x y) w.addr

last_hit_is : (ws : List Window) (x y : ℤ) → wm_get_window_at ws x y ≡ last_hit ws x y
unfolding wm_get_window_at
last_hit_is ws x y = window_at_from_lem none ws x y ∙ or_else-none (last_hit ws x y)

-- The pixels from `from` on, `size` of them, have `z` among them.
abbrev pub spans : ℤ → ℕ → ℕ → Bool
spans (pos a) size z = leb a z && ltb z (a + size)
spans (negsuc k) size z = ltb (z + (k + 1)) size

-- No coordinate of a side wraps.
abbrev pub Fits : ℤ → ℕ → Type 0
Fits (pos a) size = a + size < 2 ^ 31
Fits (negsuc k) size = (k < 2 ^ 31) × (size < 2 ^ 31)

of_u32_small : (w : ℕ) → w < 2 ^ 31 → of_u32 w ≡ pos w
of_u32_small w h = ground arith

of_u32_at : (w n : ℕ) → w ≡ n → n < 2 ^ 31 → of_u32 w ≡ pos n
of_u32_at w n e h = ap of_u32 e ∙ of_u32_small n h

of_u32_high : (w : ℕ) → 2 ^ 31 ≤ w → of_u32 w ≡ negsuc (2 ^ 32 - 1 - w)
of_u32_high w h = ground arith

in_range-spans :
    (from : ℤ) (size z : ℕ)
    → Fits from size
    → z < 2 ^ 31
    → in_range from size (pos z) ≡ spans from size z
in_range-spans (pos a) size z fits small =
    let size_is : of_u32 size ≡ pos size = of_u32_small size (omega arith) in
    let edge : add_int (pos a) (of_u32 size) ≡ pos (a + size) =
      ap (add_int (pos a)) size_is
      ∙ of_u32_at ((a + size) % 2 ^ 32) (a + size) (omega arith) fits in
    ap (λ e. not (ltb z a) && lt_int (pos z) e) edge ∙ ground arith
in_range-spans (negsuc k) size z (low, fits) small =
    let size_is : of_u32 size ≡ pos size = of_u32_small size fits in
    let sum = (2 ^ 32 - 1 - k + size) % 2 ^ 32 in
    ap (λ e. lt_int (pos z) (add_int (negsuc k) e)) size_is ∙ elim (Bool-cases (ltb k size)) [
      | inl visible_part ↦
          let right : of_u32 sum ≡ pos (size - (k + 1)) =
            of_u32_at sum (size - (k + 1)) (ground arith) (omega arith) in
          ap (lt_int (pos z)) right ∙ ground arith
      | inr hidden ↦
          let right : of_u32 sum ≡ negsuc (2 ^ 32 - 1 - sum) = of_u32_high sum (ground arith) in
          ap (lt_int (pos z)) right ∙ ground arith
    ]

-- A visible window with the point among its pixels.
abbrev pub covers : ℕ → ℕ → Window → Bool
covers x y w = w.visible && (spans w.x w.width x && spans w.y w.height y)

abbrev pub Every : (Window → Type 0) → List Window → Type 0
Every P [] = Unit {0}
Every P (w ∷ ws) = P w × Every P ws

-- Of those behind it in the list, none has a lower z order.
abbrev pub Ascending : List Window → Type 0
Ascending [] = Unit {0}
Ascending (w ∷ ws) = Every (λ v. w.z_order ≤ v.z_order) ws × Ascending ws

-- One of the windows.
abbrev pub OneOf : Window → List Window → Type 0
OneOf v [] = v ≢ v
OneOf v (w ∷ ws) = (v ≡ w) ⊎ OneOf v ws

-- The address is that of a window that passes the test, above all others that do; NULL says that none
-- does.
abbrev pub IsTop : (Window → Bool) → List Window → Option ℕ → Type 0
IsTop test ws none = Every (λ w. test w ≡ false) ws
IsTop test ws (some a) =
    (w : Window) × OneOf w ws
    × (w.addr ≡ a)
    × (test w ≡ true)
    × Every (λ v. test v ≡ true → v.z_order ≤ w.z_order) ws

Every-map :
    (P Q : Window → Type 0) (ws : List Window)
    → ((w : Window) → P w → Q w)
    → Every P ws
    → Every Q ws
Every-map P Q [] f h = tt
Every-map P Q (w ∷ ws) f (h, hs) = (f w h, Every-map P Q ws f hs)

Every-OneOf : (P : Window → Type 0) (v : Window) (ws : List Window) → OneOf v ws → Every P ws → P v
Every-OneOf P v [] m hs = absurd (m refl)
Every-OneOf P v (w ∷ ws) (inl e) (h, hs) = subst P (sym e) h
Every-OneOf P v (w ∷ ws) (inr m) (h, hs) = Every-OneOf P v ws m hs

IsTop-cons :
    (test : Window → Bool) (w : Window) (ws : List Window) (o : Option ℕ) (b : Bool)
    → test w ≡ b
    → Every (λ v. w.z_order ≤ v.z_order) ws
    → IsTop test ws o
    → IsTop test (w ∷ ws) (or_else o (if b then some w.addr else none))
IsTop-cons test w ws none true e below h =
    (w, inl refl, refl, e, ((λ _. omega arith), Every-map _ _ ws (λ v f t. cc (sym f ∙ t)) h))
IsTop-cons test w ws none false e below h = (e, h)
IsTop-cons test w ws (some a) b e below (v, m, at, passes, top) =
    (v, inr m, at, passes, ((λ _. Every-OneOf _ v ws m below), top))

last_hit-IsTop :
    (test : Window → Bool) (x y : ℤ) (ws : List Window)
    → Every (λ w. hit w x y ≡ test w) ws
    → Ascending ws
    → IsTop test ws (last_hit ws x y)
last_hit-IsTop test x y [] same up = tt
last_hit-IsTop test x y (w ∷ ws) (e, same) (below, up) =
    IsTop-cons test w ws (last_hit ws x y) (hit w x y) (sym e) below
      (last_hit-IsTop test x y ws same up)

-- A window without wrapped sides.
abbrev pub Placed : Window → Type 0
Placed w = Fits w.x w.width × Fits w.y w.height

-- For a list of windows in ascending z order whose sides do not wrap, and a point with coordinates
-- from 0 to 2^31 - 1, wm_get_window_at gives a visible window of the list that covers the point,
-- such that no visible window of the list that covers it has a greater z order; it gives NULL if
-- no visible window covers the point.
pub wm_get_window_at-IsTop :
    (ws : List Window) (x y : ℕ)
    → Ascending ws
    → Every Placed ws
    → x < 2 ^ 31
    → y < 2 ^ 31
    → IsTop (covers x y) ws (wm_get_window_at ws (pos x) (pos y))
unfolding window_contains
wm_get_window_at-IsTop ws x y up placed small_x small_y =
    subst (IsTop (covers x y) ws) (sym (last_hit_is ws (pos x) (pos y))) (
      last_hit-IsTop (covers x y) (pos x) (pos y) ws
        (Every-map Placed _ ws
          (λ w (h, k).
            ap₂ (λ a b. w.visible && (a && b)) (in_range-spans w.x w.width x h small_x)
              (in_range-spans w.y w.height y k small_y))
          placed)
        up)
