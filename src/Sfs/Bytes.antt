-- ===== src/Sfs/Bytes.antt =====
-- The copy loops of fs/sfs.c on a block: the bytes that `splice` writes are those that `slice` reads
-- at the same place, and a place that does not overlap keeps its bytes.
use sros.Prelude.{
  ℕ, zero, suc, ◌+◌, ◌≤◌, ◌≡◌, refl, ap, ◌∙◌, ◌⊎◌, inl, inr, List, [], ◌∷◌, ◌++◌, arith, length,
  take, drop, length-take, length-drop,
}
use sros.Sfs.{slice, splice}

take-append_le : (n : ℕ) (xs ys : List ℕ) → n ≤ length xs → take n (xs ++ ys) ≡ take n xs
take-append_le zero xs ys h = refl
take-append_le (suc n) [] ys h = elim h [ ]
take-append_le (suc n) (x ∷ xs) ys h = ap (λ zs. x ∷ zs) (take-append_le n xs ys (omega arith))

take-all : (xs : List ℕ) → take (length xs) xs ≡ xs
take-all [] = refl
take-all (x ∷ xs) = ap (λ zs. x ∷ zs) (take-all xs)

-- Behind the first `off` bytes.
drop-take_append :
    (off : ℕ) (buf ys : List ℕ) → off ≤ length buf → drop off (take off buf ++ ys) ≡ ys
drop-take_append zero buf ys h = refl
drop-take_append (suc off) [] ys h = elim h [ ]
drop-take_append (suc off) (x ∷ buf) ys h = drop-take_append off buf ys (omega arith)

pub slice-splice_same :
    (off : ℕ) (bs buf : List ℕ) → off ≤ length buf → slice off (length bs) (splice off bs buf) ≡ bs
slice-splice_same off bs buf h =
    ap (take (length bs)) (drop-take_append off buf (bs ++ drop (off + length bs) buf) h)
    ∙ take-append_le (length bs) bs _ (omega arith)
    ∙ take-all bs

take-take_append :
    (n m : ℕ) (buf ys : List ℕ) → n ≤ m → m ≤ length buf → take n (take m buf ++ ys) ≡ take n buf
take-take_append zero m buf ys h k = refl
take-take_append (suc n) zero buf ys h k = elim h [ ]
take-take_append (suc n) (suc m) [] ys h k = elim k [ ]
take-take_append (suc n) (suc m) (x ∷ buf) ys h k =
    ap (λ zs. x ∷ zs) (take-take_append n m buf ys (omega arith) (omega arith))

slice-take_append :
    (o n m : ℕ) (buf ys : List ℕ)
    → o + n ≤ m
    → m ≤ length buf
    → slice o n (take m buf ++ ys) ≡ slice o n buf
slice-take_append zero n m buf ys h k = take-take_append n m buf ys (omega arith) k
slice-take_append (suc o) n zero buf ys h k = absurd (omega arith)
slice-take_append (suc o) n (suc m) [] ys h k = elim k [ ]
slice-take_append (suc o) n (suc m) (x ∷ buf) ys h k =
    slice-take_append o n m buf ys (omega arith) (omega arith)

drop-overwritten :
    (o : ℕ) (bs buf : List ℕ)
    → length bs ≤ o
    → length bs ≤ length buf
    → drop o (bs ++ drop (length bs) buf) ≡ drop o buf
drop-overwritten o [] buf h k = refl
drop-overwritten zero (b ∷ bs) buf h k = elim h [ ]
drop-overwritten (suc o) (b ∷ bs) [] h k = elim k [ ]
drop-overwritten (suc o) (b ∷ bs) (x ∷ buf) h k =
    drop-overwritten o bs buf (omega arith) (omega arith)

drop-splice :
    (off o : ℕ) (bs buf : List ℕ)
    → off + length bs ≤ o
    → off + length bs ≤ length buf
    → drop o (splice off bs buf) ≡ drop o buf
drop-splice zero o bs buf h k =
    ap (λ n. drop o (bs ++ drop n buf)) (omega arith)
    ∙ drop-overwritten o bs buf (omega arith) (omega arith)
drop-splice (suc off) zero bs buf h k = absurd (omega arith)
drop-splice (suc off) (suc o) bs [] h k = absurd (omega arith)
drop-splice (suc off) (suc o) bs (x ∷ buf) h k =
    let behind : suc off + length bs ≡ suc (off + length bs) = omega arith in
    ap (λ n. drop o (take off buf ++ (bs ++ drop n (x ∷ buf)))) behind
    ∙ drop-splice off o bs buf (omega arith) (omega arith)

pub slice-splice_other :
    (off o n : ℕ) (bs buf : List ℕ)
    → (o + n ≤ off) ⊎ (off + length bs ≤ o)
    → off + length bs ≤ length buf
    → slice o n (splice off bs buf) ≡ slice o n buf
slice-splice_other off o n bs buf (inl before) h =
    slice-take_append o n off buf _ before (omega arith)
slice-splice_other off o n bs buf (inr behind) h = ap (take n) (drop-splice off o bs buf behind h)

pub length-append : (xs ys : List ℕ) → length (xs ++ ys) ≡ length xs + length ys
length-append [] ys = omega arith
length-append (x ∷ xs) ys = omega (arith, length-append xs ys)

pub length-splice :
    (off : ℕ) (bs buf : List ℕ)
    → off + length bs ≤ length buf
    → length (splice off bs buf) ≡ length buf
length-splice off bs buf h = omega (
  arith,
  length-append (take off buf) (bs ++ drop (off + length bs) buf),
  length-append bs (drop (off + length bs) buf),
  length-take off buf,
  length-drop (off + length bs) buf,
)
