-- ===== src/Shell/Spans.antt =====
-- The words of a line, and the spaces and words that user/shell.c passes on it.
use sros.Prelude.{
  ℕ, zero, suc, ◌+◌, ◌≡◌, refl, ap, Bool, true, false, List, [], ◌∷◌, ◌++◌, ◌==◌, if◌then◌else◌,
  arith, length, take, drop, replicate, Bool-cases, inl, inr,
}
use mathlib.Core.Path.{ap₂}
use sros.Kstring.Laws.{IsText}
use sros.Sfs.Dir.{c_string}
use sros.Shell.{skip_spaces, skip_word, is_empty, tail}

-- The line goes on with a word.
abbrev pub begins : List ℕ → Bool
begins [] = false
begins (c ∷ s) = if c == b' ' then false else true

-- A character before the words of the rest: it starts a word of its own, or is the first of theirs.
abbrev pub glue : Bool → ℕ → List (List ℕ) → List (List ℕ)
glue false c ws = (c ∷ []) ∷ ws
glue true c [] = (c ∷ []) ∷ []
glue true c (w ∷ ws) = (c ∷ w) ∷ ws

-- The words of a line: its longest parts without a space.
pub words : List ℕ → List (List ℕ)
words [] = []
words (c ∷ s) = let ws = words s in if c == b' ' then ws else glue (begins s) c ws

pub words-skip_spaces :
    (s : List ℕ)
    → let (n, rest) = skip_spaces s in
      (s ≡ replicate n b' ' ++ rest)
      × (words s ≡ words rest)
      × (is_empty rest ≡ (if begins rest then false else true))
unfolding words skip_spaces
words-skip_spaces [] = (refl, refl, refl)
words-skip_spaces (c ∷ s) = elim (Bool-cases (c == b' ')) [
  | inl space ↦
      let (same, ws, stops) = words-skip_spaces s in
      rw space (
        let count : (skip_spaces s).0 + 1 ≡ suc (skip_spaces s).0 = omega arith in
            rw count (ap₂ ◌∷◌ (let e : c ≡ b' ' = ground arith in e) same),
        ws,
        stops,
      )
  | inr other ↦ rw other (refl, rw other, rw other)
]

no_word : (s : List ℕ) → begins s ≡ false → (skip_word s ≡ ([], s)) × (words s ≡ words (tail s))
unfolding words skip_word
no_word [] e = (refl, refl)
no_word (c ∷ s) e = elim (Bool-cases (c == b' ')) [
  | inl space ↦ (rw space, rw space)
  | inr other ↦ let on : true ≡ false = rw other at e in cc
]

pub words-skip_word :
    (s : List ℕ)
    → let (w, rest) = skip_word s in
      (s ≡ w ++ rest) × (begins rest ≡ false) × (begins s ≡ true → words s ≡ w ∷ words (tail rest))
unfolding words skip_word
words-skip_word [] = (refl, refl, λ e. cc)
words-skip_word (c ∷ s) = elim (Bool-cases (c == b' ')) [
  | inl space ↦ rw space (refl, rw space, λ e. cc)
  | inr other ↦
      let (same, stops, ws) = words-skip_word s in
      rw other (
        ap (λ t. c ∷ t) same,
        stops,
        λ e. elim (Bool-cases (begins s)) [
          | inl more ↦ rw more (ap (glue true c) (ws more))
          | inr stop ↦
              let (none_left, after) = no_word s stop in
              rw (stop, none_left) (ap (λ l. (c ∷ []) ∷ l) after)
        ],
      )
]

pub drop-append :
    {A : Type 0} (xs ys : List A) (k : ℕ) → drop (length xs + k) (xs ++ ys) ≡ drop k ys
drop-append [] ys k = ap (λ n. drop n ys) (omega arith)
drop-append (x ∷ xs) ys k =
    let e : suc (length xs) + k ≡ suc (length xs + k) = omega arith in rw e (drop-append xs ys k)

pub take-nil : (n : ℕ) → take {A = List ℕ} n [] ≡ []
take-nil zero = refl
take-nil (suc n) = refl

pub IsText-append : (xs ys : List ℕ) → IsText (xs ++ ys) → IsText xs × IsText ys
IsText-append [] ys v = (tt, v)
IsText-append (x ∷ xs) ys v = let (vx, vy) = IsText-append xs ys v.1 in ((v.0, vx), vy)

pub c_string-word : (w rest : List ℕ) → IsText w → c_string (w ++ 0 ∷ rest) ≡ w
unfolding c_string
c_string-word [] rest v = refl
c_string-word (c ∷ w) rest v =
    let on : (c == 0) ≡ false = ground (arith, v.0) in
    rw on (ap (λ t. c ∷ t) (c_string-word w rest v.1))

pub c_string-end : (w : List ℕ) → IsText w → c_string w ≡ w
unfolding c_string
c_string-end [] v = refl
c_string-end (c ∷ w) v =
    let on : (c == 0) ≡ false = ground (arith, v.0) in rw on (ap (λ t. c ∷ t) (c_string-end w v.1))

pub words-none : (s : List ℕ) → is_empty s ≡ true → words s ≡ []
unfolding words
words-none [] e = refl
words-none (c ∷ s) e = cc

pub is_empty-nil : (s : List ℕ) → is_empty s ≡ true → s ≡ []
is_empty-nil [] e = refl
is_empty-nil (c ∷ s) e = cc

pub length-tail : (s : List ℕ) → is_empty s ≡ false → length s ≡ suc (length (tail s))
length-tail [] e = cc
length-tail (c ∷ s) e = refl

pub IsText-tail : (s : List ℕ) → IsText s → IsText (tail s)
IsText-tail [] v = tt
IsText-tail (c ∷ s) v = v.1
