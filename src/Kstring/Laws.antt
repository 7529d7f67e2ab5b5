-- ===== src/Kstring/Laws.antt =====
-- What the string functions of kernel/string.c compute, on NUL-terminated strings.
use sros.Prelude.{
  ℕ, suc, ◌+◌, ◌<◌, ◌≡◌, refl, ap, ◌∙◌, false, some, List, [], ◌∷◌, ◌++◌, ℤ, pos, minus_one, ltb,
  ◌==◌, if◌then◌else◌, length, arith,
}
use sros.Kstring.{strlen, strlen_from, strcmp}

-- No byte is NUL.
abbrev pub IsText : List ℕ → Type 0
IsText [] = Unit {0}
IsText (c ∷ s) = (0 < c) × IsText s

-- The bytes of a string, its NUL, and what follows it in memory.
abbrev pub stored : List ℕ → List ℕ → List ℕ
stored s rest = s ++ 0 ∷ rest

strlen_from_lem :
    (n : ℕ) (s rest : List ℕ) → IsText s → strlen_from n (stored s rest) ≡ some (n + length s)
unfolding strlen_from
strlen_from_lem n [] rest v = ap some (omega arith)
strlen_from_lem n (c ∷ s) rest v =
    let on : (c == 0) ≡ false = ground (arith, v.0) in
    let count : n + 1 + length s ≡ n + suc (length s) = omega arith in
    rw on (strlen_from_lem (n + 1) s rest v.1 ∙ ap some count)

pub strlen_lem : (s rest : List ℕ) → IsText s → strlen (stored s rest) ≡ some (length s)
unfolding strlen
strlen_lem s rest v = strlen_from_lem 0 s rest v ∙ ap some (omega arith)

-- What `strcmp` decides: the order of the strings, byte by byte, a proper prefix first.
abbrev pub compare_text : List ℕ → List ℕ → ℤ
compare_text [] [] = pos 0
compare_text [] (b ∷ t) = minus_one
compare_text (a ∷ s) [] = pos 1
compare_text (a ∷ s) (b ∷ t) =
    let rest = compare_text s t in if a == b then rest else if ltb a b then minus_one else pos 1

-- On two NUL-terminated strings, whatever follows them in memory, strcmp is the lexicographic
-- comparison: 0, 1 or -1.
pub strcmp_lem :
    (s t x y : List ℕ)
    → IsText s
    → IsText t
    → strcmp (stored s x) (stored t y) ≡ some (compare_text s t)
unfolding strcmp
strcmp_lem [] [] x y v w = refl
strcmp_lem [] (b ∷ t) x y v w = ground (arith, w.0)
strcmp_lem (a ∷ s) [] x y v w = ground (arith, v.0)
strcmp_lem (a ∷ s) (b ∷ t) x y v w = ground (arith, v.0, w.0, strcmp_lem s t x y v.1 w.1)

-- It is 0 on equal strings only.
pub compare_text-zero : (s t : List ℕ) → compare_text s t ≡ pos 0 → s ≡ t
compare_text-zero [] [] e = refl
compare_text-zero [] (b ∷ t) e = ground arith
compare_text-zero (a ∷ s) [] e = ground arith
compare_text-zero (a ∷ s) (b ∷ t) e = ground (arith, compare_text-zero s t)
