-- ===== src/Sfs/Bitmap/Bits.antt =====
-- The bit arithmetic of the bitmaps of fs/sfs.c: setting or clearing a bit changes that bit alone.
use sros.Prelude.{
  ℕ, zero, suc, ◌+◌, ◌*◌, ◌/◌, ◌%◌, ◌^◌, ◌≤◌, ◌<◌, ◌≡◌, refl, sym, ap, ◌∙◌, ◌≢◌, Bool, true, false,
  not, ◌||◌, ◌&&◌, List, arith, length, get_or, modify, get_or-modify_self, get_or-modify_ne, leb,
  ◌==◌, Bool-cases, inl, inr,
}
use native.Mathlib.Nat.{div-div-eq-div-mul, div-eq_of_lt, pow-succ'}
use mathlib.Core.Path.{ap₂}
use sros.Sfs.Bitmap.{bit, set_bit, clear_bit, bitmap_set, bitmap_clear}

-- Bit `m` of a number.
abbrev digit : ℕ → ℕ → Bool
digit m b = b / 2 ^ m % 2 == 1

half : (m b : ℕ) → b / 2 ^ suc m ≡ b / 2 / 2 ^ m
half m b = ap (λ d. b / d) (pow-succ' 2 m) ∙ sym (div-div-eq-div-mul b 2 (2 ^ m))

digit-suc : (m b : ℕ) → digit (suc m) b ≡ digit m (b / 2)
digit-suc m b = ap (λ n. n % 2 == 1) (half m b)

set_bit-suc : (k b : ℕ) → set_bit (suc k) b ≡ 2 * set_bit k (b / 2) + b % 2
set_bit-suc k b = rw (half k b, pow-succ' 2 k) (ground arith)

-- A bit that is set is part of the number.
pow_le : (c k : ℕ) → (c / 2 ^ k % 2 == 1) ≡ true → 2 ^ k ≤ c
pow_le c k e = elim (Bool-cases (leb (2 ^ k) c)) [
  | inl enough ↦ ground arith
  | inr less ↦
      let below : c < 2 ^ k = ground arith in
      let none_left : c / 2 ^ k ≡ 0 = div-eq_of_lt below in ground arith
]

eq_suc : (m k : ℕ) → (suc m == suc k) ≡ (m == k)
eq_suc m k = ground arith

suc_eq : (m : ℕ) → (suc m == 0) ≡ false
suc_eq m = ground arith

clear_bit-suc : (k b : ℕ) → clear_bit (suc k) b ≡ 2 * clear_bit k (b / 2) + b % 2
clear_bit-suc k b =
    let enough : (b / 2 / 2 ^ k % 2 == 1) ≡ true → 2 ^ k ≤ b / 2 = λ e. pow_le (b / 2) k e in
    rw (half k b, pow-succ' 2 k) (ground (arith, enough))

half_of : (n b : ℕ) → (2 * n + b % 2) / 2 ≡ n
half_of n b = omega arith

pub digit-set_bit : (k m b : ℕ) → digit m (set_bit k b) ≡ (m == k) || digit m b
digit-set_bit zero zero b = ground arith
digit-set_bit zero (suc m) b =
    let same : set_bit 0 b / 2 ≡ b / 2 = ground arith in
    rw (suc_eq m) (digit-suc m (set_bit 0 b) ∙ ap (digit m) same ∙ sym (digit-suc m b))
digit-set_bit (suc k) zero b = rw (set_bit-suc k b) (ground arith)
digit-set_bit (suc k) (suc m) b =
    digit-suc m (set_bit (suc k) b)
    ∙ ap (digit m) (ap (λ n. n / 2) (set_bit-suc k b) ∙ half_of (set_bit k (b / 2)) b)
    ∙ digit-set_bit k m (b / 2)
    ∙ rw (eq_suc m k, digit-suc m b) refl

pub digit-clear_bit : (k m b : ℕ) → digit m (clear_bit k b) ≡ not (m == k) && digit m b
digit-clear_bit zero zero b = ground arith
digit-clear_bit zero (suc m) b =
    let same : clear_bit 0 b / 2 ≡ b / 2 = ground arith in
    rw (suc_eq m) (digit-suc m (clear_bit 0 b) ∙ ap (digit m) same ∙ sym (digit-suc m b))
digit-clear_bit (suc k) zero b = rw (clear_bit-suc k b) (ground arith)
digit-clear_bit (suc k) (suc m) b =
    digit-suc m (clear_bit (suc k) b)
    ∙ ap (digit m) (ap (λ n. n / 2) (clear_bit-suc k b) ∙ half_of (clear_bit k (b / 2)) b)
    ∙ digit-clear_bit k m (b / 2)
    ∙ rw (eq_suc m k, digit-suc m b) refl

-- The position of a bit: its byte, and its place in the byte.
place-eq : (i j : ℕ) → i / 8 ≡ j / 8 → (j % 8 == i % 8) ≡ (j == i)
place-eq i j e = ground arith

place-ne : (i j : ℕ) → i / 8 ≢ j / 8 → (j == i) ≡ false
place-ne i j ne = ground arith

-- A write to the byte of the bit `i` that acts on its digits as `g` does.
bit-modify :
    (g : Bool → Bool → Bool) (f : ℕ → ℕ) (bm : List ℕ) (i j : ℕ)
    → i / 8 < length bm
    → ((m b : ℕ) → digit m (f b) ≡ g (m == i % 8) (digit m b))
    → ((x : Bool) → g false x ≡ x)
    → bit (modify bm (i / 8) f) j ≡ g (j == i) (bit bm j)
unfolding bit
bit-modify g f bm i j h acts spares = elim (Bool-cases (i / 8 == j / 8)) [
  | inl same ↦
      let e : i / 8 ≡ j / 8 = ground arith in
      ap (λ k. digit (j % 8) (get_or (modify bm (i / 8) f) k 0)) (sym e)
      ∙ ap (digit (j % 8)) (get_or-modify_self bm (i / 8) f 0 h)
      ∙ acts (j % 8) (get_or bm (i / 8) 0)
      ∙ ap₂ g (place-eq i j e) (ap (λ k. digit (j % 8) (get_or bm k 0)) e)
  | inr apart ↦
      let ne : i / 8 ≢ j / 8 = ground arith in
      ap (digit (j % 8)) (get_or-modify_ne bm (i / 8) (j / 8) f 0 ne)
      ∙ sym (spares (digit (j % 8) (get_or bm (j / 8) 0)))
      ∙ ap (λ c. g c (digit (j % 8) (get_or bm (j / 8) 0))) (sym (place-ne i j ne))
]

-- In a bitmap that reaches to the bit `i`.
pub bit-bitmap_set :
    (bm : List ℕ) (i j : ℕ) → i / 8 < length bm → bit (bitmap_set bm i) j ≡ (j == i) || bit bm j
unfolding bitmap_set
bit-bitmap_set bm i j h =
    bit-modify ◌||◌ (set_bit (i % 8)) bm i j h (digit-set_bit (i % 8)) (λ x. refl)

pub bit-bitmap_clear :
    (bm : List ℕ) (i j : ℕ)
    → i / 8 < length bm
    → bit (bitmap_clear bm i) j ≡ not (j == i) && bit bm j
unfolding bitmap_clear
bit-bitmap_clear bm i j h =
    bit-modify (λ c x. not c && x) (clear_bit (i % 8)) bm i j h (digit-clear_bit (i % 8))
      (λ x. refl)
