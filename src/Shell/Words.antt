-- ===== src/Shell/Words.antt =====
-- `parse_command` of user/shell.c against the words of a line.
use sros.Prelude.{
  ℕ, zero, suc, ◌+◌, ◌-◌, ◌<◌, ◌≡◌, sym, ap, ◌∙◌, true, false, List, [], ◌∷◌, ◌++◌, append_assoc,
  append-nil, ◌==◌, if◌then◌else◌, arith, length, length-append, length-replicate, map, take, drop,
  replicate, Bool-cases, inl, inr,
}
use mathlib.Core.Path.{ap₂, subst}
use sros.Kstring.Laws.{IsText}
use sros.Sfs.Dir.{c_string}
use sros.Shell.{skip_spaces, skip_word, is_empty, tail, parse_from, parse_command}
use sros.Shell.Spans.{
  IsText-tail, c_string-end, IsText-append, begins, words, words-skip_spaces, words-skip_word,
  drop-append, take-nil, c_string-word, words-none, is_empty-nil, length-tail,
}

-- The strings that `argv` points to in the line.
abbrev pub arguments : List ℕ × List ℕ → List (List ℕ)
arguments (offs, line) = map (λ off. c_string (drop off line)) offs

-- With `xs` before the bytes.
abbrev after_prefix : List ℕ → List ℕ × List ℕ → List (List ℕ)
after_prefix xs (offs, s) = arguments (offs, xs ++ s)

-- The first argument starts behind the prefix and the spaces.
argument-at :
    (xs w rest : List ℕ) (n : ℕ)
    → drop (length xs + n) (xs ++ (replicate n b' ' ++ (w ++ rest))) ≡ w ++ rest
argument-at xs w rest n =
    drop-append xs (replicate n b' ' ++ (w ++ rest)) n
    ∙ ap (λ k. drop k (replicate n b' ' ++ (w ++ rest)))
        (omega (arith, length-replicate {A = ℕ} n b' '))
    ∙ drop-append (replicate n b' ') (w ++ rest) 0

begins-more :
    (s : List ℕ)
    → is_empty s ≡ false
    → is_empty s ≡ (if begins s then false else true)
    → begins s ≡ true
begins-more [] more starts = cc
begins-more (c ∷ s) more starts = ground arith

-- The last word of a line ends with it.
last-argument :
    (xs w s : List ℕ) (n : ℕ)
    → s ≡ replicate n b' ' ++ (w ++ [])
    → IsText w
    → c_string (drop (length xs + n) (xs ++ s)) ≡ w
last-argument xs w s n whole v =
    ap (λ t. c_string (drop (length xs + n) (xs ++ t))) whole
    ∙ ap c_string (argument-at xs w [] n ∙ append-nil w)
    ∙ c_string-end w v

-- Any other word ends with the NUL that is written behind it.
inner-argument :
    (xs w rest : List ℕ) (n : ℕ)
    → IsText w
    → c_string (drop (length xs + n) (xs ++ ((replicate n b' ' ++ w) ++ 0 ∷ rest))) ≡ w
inner-argument xs w rest n v =
    ap (λ t. c_string (drop (length xs + n) (xs ++ t)))
      (append_assoc (replicate n b' ') w (0 ∷ rest))
    ∙ ap c_string (argument-at xs w (0 ∷ rest) n)
    ∙ c_string-word w rest v

regroup : (xs ys zs : List ℕ) → xs ++ (ys ++ 0 ∷ zs) ≡ (xs ++ (ys ++ 0 ∷ [])) ++ zs
regroup xs ys zs =
    ap (λ t. xs ++ t) (sym (append_assoc ys (0 ∷ []) zs)) ∙ sym (append_assoc xs (ys ++ 0 ∷ []) zs)

length-round :
    (xs w : List ℕ) (n : ℕ)
    → length xs + n + length w + 1 ≡ length (xs ++ ((replicate n b' ' ++ w) ++ 0 ∷ []))
length-round xs w n = omega (
  arith,
  length-append xs ((replicate n b' ' ++ w) ++ 0 ∷ []),
  length-append (replicate n b' ' ++ w) (0 ∷ []),
  length-append (replicate n b' ') w,
  length-replicate {A = ℕ} n b' ',
)

-- What follows a word and its space is shorter than the whole.
length-rest :
    (s w s2 : List ℕ) (n : ℕ)
    → s ≡ replicate n b' ' ++ (w ++ s2)
    → is_empty s2 ≡ false
    → length (tail s2) < length s
length-rest s w s2 n whole behind = omega (
  arith,
  ap length whole,
  length-append (replicate n b' ') (w ++ s2),
  length-append w s2,
  length-tail s2 behind,
)

parse_from-words :
    (fuel free : ℕ) (xs s : List ℕ)
    → length s < fuel
    → IsText s
    → after_prefix xs (parse_from fuel free (length xs) s) ≡ take free (words s)
unfolding parse_from
parse_from-words zero free xs s enough v = absurd (omega arith)
parse_from-words (suc fuel) zero xs s enough v = elim (Bool-cases (is_empty (skip_spaces s).1)) [
  | inl over ↦ rw over
  | inr more ↦ rw more
]
parse_from-words (suc fuel) (suc k) xs s enough v =
    let places : (suc k == 0) ≡ false = ground arith in
    let (same, same_words, starts) = words-skip_spaces s in
    elim (Bool-cases (is_empty (skip_spaces s).1)) [
      | inl over ↦ rw over (rw (same_words, words-none (skip_spaces s).1 over))
      | inr more ↦
          let n = (skip_spaces s).0 in
          let w = (skip_word (skip_spaces s).1).0 in
          let s2 = (skip_word (skip_spaces s).1).1 in
          let (same', stops, with_word) = words-skip_word (skip_spaces s).1 in
          let whole : s ≡ replicate n b' ' ++ (w ++ s2) =
            same ∙ ap (λ t. replicate n b' ' ++ t) same' in
          let goes_on : begins (skip_spaces s).1 ≡ true =
            begins-more (skip_spaces s).1 more starts in
          let first = same_words ∙ with_word goes_on in
          let texts =
            IsText-append w s2
              (IsText-append (replicate n b' ') (w ++ s2) (subst IsText whole v)).1 in
          elim (Bool-cases (is_empty s2)) [
            | inl last ↦
                rw (more, places, last)
                  (let nil = is_empty-nil s2 last in
                    let none_left = words-none (tail s2) (ap (λ t. is_empty (tail t)) nil) in
                    ap (λ t. t ∷ [])
                      (last-argument xs w s n (whole ∙ ap (λ r. replicate n b' ' ++ (w ++ r)) nil)
                        texts.0)
                    ∙ ap (λ t. w ∷ t) (sym (take-nil k) ∙ ap (take k) (sym none_left))
                    ∙ ap (take (suc k)) (sym first))
            | inr behind ↦
                let xs' = xs ++ ((replicate n b' ' ++ w) ++ 0 ∷ []) in
                let r = parse_from fuel (suc k - 1) (length xs + n + length w + 1) (tail s2) in
                let place : length xs + n + length w + 1 ≡ length xs' = length-round xs w n in
                let fewer : suc k - 1 ≡ k = omega arith in
                let ih =
                  parse_from-words fuel k xs' (tail s2)
                    (omega (arith, length-rest s w s2 n whole behind)) (IsText-tail s2 texts.1) in
                let ih' : after_prefix xs' r ≡ take k (words (tail s2)) =
                  ap₂ (λ a b. after_prefix xs' (parse_from fuel a b (tail s2))) fewer place ∙ ih in
                rw (more, places, behind)
                  (ap₂ ◌∷◌ (inner-argument xs w r.1 n texts.0)
                      (ap (λ l. arguments (r.0, l)) (regroup xs (replicate n b' ' ++ w) r.1) ∙ ih')
                    ∙ ap (take (suc k)) (sym first))
          ]
    ]

-- On a line without NUL, parse_command leaves argv pointing, in the rewritten line, to the first
-- max_args words of the line, in order, each ended by a NUL.
pub parse_command-words :
    (line : List ℕ) (max_args : ℕ)
    → IsText line
    → arguments (parse_command line max_args) ≡ take max_args (words line)
unfolding parse_command
parse_command-words line max_args v =
    parse_from-words (length line + 1) max_args [] line (omega arith) v
