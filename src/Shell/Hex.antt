-- ===== src/Shell/Hex.antt =====
-- Numbers that the commands of user/shell.c print are read back by them.
use sros.Prelude.{
  ℕ, ◌+◌, ◌*◌, ◌/◌, ◌%◌, ◌^◌, ◌<◌, ◌≡◌, ap, ◌∙◌, Option, none, some, List, [], ◌∷◌, arith,
}
use sros.Shell.{puthex_digit, puthex_text, hex_value, hextoi_from, hextoi}

hex_value-puthex_digit : (d : ℕ) → d < 16 → hex_value (puthex_digit d) ≡ some d
unfolding hex_value puthex_digit
hex_value-puthex_digit d h = ground arith

-- One round of `hextoi` on the next digit of a number, of which `u` has been read.
hextoi_from-next :
    (v u : ℕ) (s : List ℕ)
    → u ≡ v / 16
    → v < 2 ^ 32
    → hextoi_from (puthex_digit (v % 16) ∷ s) u ≡ hextoi_from s v
unfolding hextoi_from
hextoi_from-next v u s e h =
    let shifted = u * 16 % 2 ^ 32 in
    let go : Option ℕ → ℕ = λ o. elim o [ none ↦ shifted | some d ↦ hextoi_from s (shifted + d) ] in
    ap go (hex_value-puthex_digit (v % 16) (omega arith)) ∙ ap (hextoi_from s) (omega arith)

-- The text that puthex prints of a u32 is read back by hextoi as that number.
pub hextoi-puthex_text : (val : ℕ) → val < 2 ^ 32 → hextoi (puthex_text val) ≡ val
unfolding hextoi puthex_text
hextoi-puthex_text val h =
    let d : ℕ → ℕ = λ k. puthex_digit (val / 2 ^ k % 16) in
    let s4 = d 0 ∷ [] in
    let s8 = d 4 ∷ s4 in
    let s12 = d 8 ∷ s8 in
    let s16 = d 12 ∷ s12 in
    let s20 = d 16 ∷ s16 in
    let s24 = d 20 ∷ s20 in
    let s28 = d 24 ∷ s24 in
    hextoi_from-next (val / 2 ^ 28) 0 s28 (omega arith) (omega arith)
    ∙ hextoi_from-next (val / 2 ^ 24) (val / 2 ^ 28) s24 (omega arith) (omega arith)
    ∙ hextoi_from-next (val / 2 ^ 20) (val / 2 ^ 24) s20 (omega arith) (omega arith)
    ∙ hextoi_from-next (val / 2 ^ 16) (val / 2 ^ 20) s16 (omega arith) (omega arith)
    ∙ hextoi_from-next (val / 2 ^ 12) (val / 2 ^ 16) s12 (omega arith) (omega arith)
    ∙ hextoi_from-next (val / 2 ^ 8) (val / 2 ^ 12) s8 (omega arith) (omega arith)
    ∙ hextoi_from-next (val / 2 ^ 4) (val / 2 ^ 8) s4 (omega arith) (omega arith)
    ∙ hextoi_from-next (val / 2 ^ 0) (val / 2 ^ 4) [] (omega arith) (omega arith)
    ∙ omega arith
