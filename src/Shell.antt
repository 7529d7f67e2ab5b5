-- ===== src/Shell.antt =====
-- user/shell.c: the texts that its commands make and read. A C string is its bytes before the NUL,
-- and `strcmp(…) == 0` is `same_string`.
pub mod Hex
pub mod Spans
pub mod Words
pub mod Editor
use sros.Prelude.{
  ℕ, zero, suc, ◌+◌, ◌-◌, ◌*◌, ◌/◌, ◌%◌, ◌^◌, ◌++◌, Bool, true, false, ◌&&◌, ◌||◌, Option, none,
  some, List, [], ◌∷◌, ltb, leb, ◌==◌, if◌then◌else◌, length, map, replicate,
}

pub puthex_digit : ℕ → ℕ
puthex_digit digit = if ltb digit 10 then b'0' + digit else b'a' + digit - 10

-- The buffer that `puthex` prints, without its NUL.
pub puthex_text : ℕ → List ℕ
puthex_text val =
    let digit : ℕ → ℕ = λ i. puthex_digit (val / 2 ^ (28 - i * 4) % 16) in
    b'0' ∷ b'x' ∷ map digit (0 ∷ 1 ∷ 2 ∷ 3 ∷ 4 ∷ 5 ∷ 6 ∷ 7 ∷ [])

pub hex_value : ℕ → Option ℕ
hex_value c =
    if leb b'0' c && leb c b'9'
    then some (c - b'0')
    else if leb b'a' c && leb c b'f'
    then some (c - b'a' + 10)
    else if leb b'A' c && leb c b'F'
    then some (c - b'A' + 10)
    else none

-- The loop of `hextoi`. The low four bits are 0 after the shift, so `|=` adds the digit; a character
-- that is no digit ends the loop after the shift.
hextoi_from : List ℕ → ℕ → ℕ
hextoi_from [] val = val
hextoi_from (c ∷ s) val =
    let shifted = val * 16 % 2 ^ 32 in
    elim (hex_value c) [ none ↦ shifted | some d ↦ hextoi_from s (shifted + d) ]

abbrev pub skip_prefix : List ℕ → List ℕ
skip_prefix (a ∷ b ∷ s) = if a == b'0' && (b == b'x' || b == b'X') then s else a ∷ b ∷ s
skip_prefix s = s

pub hextoi : List ℕ → ℕ
unfolding hextoi_from
hextoi s = hextoi_from (skip_prefix s) 0

-- The loop of `cmd_kmalloc` over the digits of its argument, with the size so far; `none` where it
-- prints "Invalid size".
unfoldable pub size_from : List ℕ → ℕ → Option ℕ
size_from [] size = some size
size_from (c ∷ s) size =
    let rest = size_from s ((size * 10 + (c - b'0')) % 2 ^ 32) in
    if ltb c b'0' || ltb b'9' c then none else rest

-- `while (*p == ' ') p++`: the spaces that are passed, and the bytes from `p` on.
unfoldable pub skip_spaces : List ℕ → ℕ × List ℕ
skip_spaces [] = (0, [])
skip_spaces (c ∷ s) =
    let (n, rest) = skip_spaces s in if c == b' ' then (n + 1, rest) else (0, c ∷ s)

-- `while (*p && *p != ' ') p++`: the characters that are passed, and the bytes from `p` on.
unfoldable pub skip_word : List ℕ → List ℕ × List ℕ
skip_word [] = ([], [])
skip_word (c ∷ s) = let (w, rest) = skip_word s in if c == b' ' then ([], c ∷ s) else (c ∷ w, rest)

abbrev pub is_empty : List ℕ → Bool
is_empty [] = true
is_empty (c ∷ s) = false

abbrev pub tail : List ℕ → List ℕ
tail [] = []
tail (c ∷ s) = s

-- The loop of `parse_command` with `free` places left in `argv`, from the offset `p` of the line on,
-- where the bytes `s` stand: the offsets that `argv` gets, and what becomes of the bytes. A round
-- passes a character or ends the loop, so the rounds of the fuel are enough when they are as many as
-- the bytes.
parse_from : ℕ → ℕ → ℕ → List ℕ → List ℕ × List ℕ
parse_from zero free p s = ([], s)
parse_from (suc fuel) free p s =
    let (n, s1) = skip_spaces s in
    let (w, s2) = skip_word s1 in
    let start = p + n in
    let stop = start + length w in
    let (offs, after) = parse_from fuel (free - 1) (stop + 1) (tail s2) in
    let before = replicate n b' ' ++ w in
    if is_empty s1 || free == 0
    then ([], s)
    else if is_empty s2
    then (start ∷ [], s)
    else (start ∷ offs, before ++ 0 ∷ after)

pub parse_command : List ℕ → ℕ → List ℕ × List ℕ
unfolding parse_from
parse_command line max_args = parse_from (length line + 1) max_args 0 line
