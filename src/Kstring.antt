-- ===== src/Kstring.antt =====
-- kernel/string.c over memory as a list of bytes: a string is the bytes from its address on, up to
-- the NUL; reading past the end of the list is a fault, `none`.
pub mod Laws
use sros.Prelude.{
  ℕ, zero, suc, ◌+◌, ◌-◌, ◌%◌, Bool, true, false, Option, none, some, List, [], ◌∷◌, ℤ, pos, negsuc,
  minus_one, ltb, ◌==◌, if◌then◌else◌, length, get_or, set,
}

-- The loop of `strlen`, with the count so far.
strlen_from : ℕ → List ℕ → Option ℕ
strlen_from len [] = none
strlen_from len (c ∷ s) = if c == 0 then some len else strlen_from (len + 1) s

pub strlen : List ℕ → Option ℕ
unfolding strlen_from
strlen s = strlen_from 0 s

-- The comparison behind the loop of `strcmp`.
abbrev pub cmp_byte : ℕ → ℕ → ℤ
cmp_byte a b = if ltb b a then pos 1 else if ltb a b then minus_one else pos 0

pub strcmp : List ℕ → List ℕ → Option ℤ
strcmp [] t = none
strcmp (a ∷ s) [] = none
strcmp (a ∷ s) (b ∷ t) =
    let rest = strcmp s t in
    if a == 0 then some (cmp_byte a b) else if a == b then rest else some (cmp_byte a b)

-- `(int)(c1 - c2)` of two bytes.
abbrev pub diff_byte : ℕ → ℕ → ℤ
diff_byte a b = if ltb a b then negsuc (b - a - 1) else pos (a - b)

pub strncmp : ℕ → List ℕ → List ℕ → Option ℤ
strncmp zero s t = some (pos 0)
strncmp (suc n) [] t = none
strncmp (suc n) (a ∷ s) [] = none
strncmp (suc n) (a ∷ s) (b ∷ t) =
    let rest = strncmp n s t in
    if a == b then (if a == 0 then some (pos 0) else rest) else some (diff_byte a b)

-- `strcpy`: the destination's bytes after the copy. Writing past its end is a fault.
pub strcpy : List ℕ → List ℕ → Option (List ℕ)
strcpy [] s = none
strcpy (d ∷ dest) [] = none
strcpy (d ∷ dest) (c ∷ s) =
    let rest = strcpy dest s in
    if c == 0 then some (c ∷ dest) else elim rest [ none ↦ none | some r ↦ some (c ∷ r) ]

-- `memset` writes from the last byte down. The count is of the bytes left.
pub memset : List ℕ → ℕ → ℕ → List ℕ
memset s c zero = s
memset s c (suc n) = memset (set s n (c % 256)) c n

-- `memcpy` between buffers that do not overlap.
pub memcpy : List ℕ → List ℕ → ℕ → Option (List ℕ)
memcpy d s zero = some d
memcpy [] s (suc n) = none
memcpy (x ∷ d) [] (suc n) = none
memcpy (x ∷ d) (y ∷ s) (suc n) = elim (memcpy d s n) [ none ↦ none | some r ↦ some (y ∷ r) ]
