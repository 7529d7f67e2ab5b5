-- ===== src/Prelude/Window.antt =====
-- What a ring buffer holds: the `n` elements from an index on, going round at the capacity. The
-- index is not reduced, so that the window from `h + 1` is the tail of the window from `h`.
use Prim.Native.Nat.{ℕ, zero, suc, ◌+◌, ◌%◌, ◌≤◌, ◌<◌}
use mathlib.Core.Path.{◌≡◌, refl, sym, ap, ap₂, ◌∙◌}
use mathlib.Core.Logic.{◌≢◌}
use mathlib.Core.List.{List, [], ◌∷◌, ◌++◌}
use native.Mathlib.Omega.{arith}
use sros.Prelude.Lists.{length, get_or, modify, get_or-modify_self, get_or-modify_ne}

module _ {ℓ} {A : Type ℓ} (d : A) (cap : ℕ) where
  abbrev pub window : List A → ℕ → ℕ → List A
  window xs h zero = []
  window xs h (suc n) = get_or xs (h % cap) d ∷ window xs (h + 1) n

  pub length-window : (xs : List A) (h n : ℕ) → length (window xs h n) ≡ n
  length-window xs h zero = refl
  length-window xs h (suc n) = ap suc (length-window xs (h + 1) n)

  -- The window grows at its end by the next element.
  pub window-snoc :
      (xs : List A) (h n k : ℕ)
      → k ≡ h + n
      → window xs h (suc n) ≡ window xs h n ++ get_or xs (k % cap) d ∷ []
  window-snoc xs h zero k e =
      let e' : h ≡ k = omega arith in ap (λ j. get_or xs (j % cap) d ∷ []) e'
  window-snoc xs h (suc n) k e =
      ap (λ ys. get_or xs (h % cap) d ∷ ys) (window-snoc xs (h + 1) n k (omega arith))

  -- A write at an index that the window does not reach leaves it alone.
  pub window-modify_out :
      (xs : List A) (h n i : ℕ) (f : A → A)
      → ((j : ℕ) → h ≤ j → j < h + n → i ≢ j % cap)
      → window (modify xs i f) h n ≡ window xs h n
  window-modify_out xs h zero i f out = refl
  window-modify_out xs h (suc n) i f out =
      ap₂ ◌∷◌ (get_or-modify_ne xs i (h % cap) f d (out h (omega arith) (omega arith)))
        (window-modify_out xs (h + 1) n i f (λ j lo hi. out j (omega arith) (omega arith)))

  -- The window depends on its index only up to the capacity.
  pub window-cong :
      ((a b : ℕ) → a % cap ≡ b % cap → (a + 1) % cap ≡ (b + 1) % cap)
      → (xs : List A) (h h' n : ℕ) → h % cap ≡ h' % cap
      → window xs h n ≡ window xs h' n
  window-cong next xs h h' zero e = refl
  window-cong next xs h h' (suc n) e =
      ap₂ ◌∷◌ (ap (λ j. get_or xs j d) e) (window-cong next xs (h + 1) (h' + 1) n (next h h' e))

  -- A write just behind a window that is not full extends it.
  pub window-push :
      ((a b : ℕ) → a < b → b < a + cap → b % cap ≢ a % cap)
      → (xs : List A) (h n t : ℕ) (f : A → A) → n < cap
      → t ≡ (h + n) % cap
      → t < length xs
      → window (modify xs t f) h (suc n) ≡ window xs h n ++ f (get_or xs t d) ∷ []
  window-push apart xs h n t f room e inside =
      window-snoc (modify xs t f) h n (h + n) refl
      ∙ ap₂ (λ ys (y : A). ys ++ y ∷ [])
          (window-modify_out xs h n t f (λ j lo hi q. apart j (h + n) hi (omega arith) (sym e ∙ q)))
          (ap (λ j. get_or (modify xs t f) j d) (sym e) ∙ get_or-modify_self xs t f d inside)

  -- The front of a window, and what stays when an index is moved past it.
  pub window-pop :
      ((a b : ℕ) → a % cap ≡ b % cap → (a + 1) % cap ≡ (b + 1) % cap)
      → (xs : List A) (h h' n m : ℕ) → n ≡ suc m
      → h % cap ≡ h
      → (h + 1) % cap ≡ h' % cap
      → window xs h n ≡ get_or xs h d ∷ window xs h' m
  window-pop next xs h h' n m e inside step =
      ap (window xs h) e
      ∙ ap₂ ◌∷◌ (ap (λ j. get_or xs j d) inside) (window-cong next xs (h + 1) h' m step)
