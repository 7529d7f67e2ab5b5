-- ===== src/Heap/Place.antt =====
-- The step of `kmalloc` in kernel/kmalloc.c that gives out a block: the abstract first fit over the
-- list of blocks, and the words that `place` writes.
use sros.Prelude.{
  ℕ, ◌+◌, ◌-◌, ◌%◌, ◌^◌, ◌≤◌, ◌<◌, ◌≡◌, refl, ◌⊎◌, true, false, ◌&&◌, not, Option, none, some, List,
  [], ◌∷◌, ◌++◌, arith, leb, ◌==◌, if◌then◌else◌, Bool-cases, inl, inr,
}
use sros.Heap.{Heap, min_block, block_size, mark_used, mark_free, place}
use sros.Heap.Blocks.{Block, Blocks, mark_used_lem, mark_free_lem}

abbrev pub used_block : ℕ → Block
used_block n = record { size = n; used = true }

abbrev pub free_block : ℕ → Block
free_block n = record { size = n; used = false }

-- A free block of `n` bytes with `need` of them given out: what remains is split off if it makes a
-- block.
abbrev pub carve : ℕ → ℕ → List Block
carve need n =
    if leb min_block (n - need)
    then used_block need ∷ free_block (n - need) ∷ []
    else used_block n ∷ []

-- The address of the first free block that is large enough, and the blocks once it is given out.
unfoldable pub first_fit : ℕ → ℕ → List Block → Option ℕ × List Block
first_fit need a [] = (none, [])
first_fit need a (k ∷ bs) =
    let (found, rest) = first_fit need (a + k.size) bs in
    if not k.used && leb need k.size then (some a, carve need k.size ++ bs) else (found, k ∷ rest)

-- What the caller gets: the address behind the header, or NULL.
abbrev pub pointer : Option ℕ → ℕ
pointer none = 0
pointer (some a) = a + 4

module _ (h : Heap) (a need n : ℕ) (big : min_block ≤ need) (even : need % 8 ≡ 0) (large : need ≤ n)
    (whole : n % 8 ≡ 0) (fits : a + n < 2 ^ 32) (head_is : h a ≡ n) where
  pub place_is : place a need h ≡ (
      if leb min_block (n - need)
      then mark_free (a + need) (n - need) (mark_used a need h)
      else mark_used a n h)
  unfolding place
  place_is =
      let size_is : block_size h a ≡ n = omega arith in
      let sum_is : (a + need) % 2 ^ 32 ≡ a + need = omega arith in rw (size_is, sum_is)

  -- The split block word by word.
  pub split_at :
      (x : ℕ)
      → min_block ≤ n - need
      → mark_free (a + need) (n - need) (mark_used a need h) x ≡ (
          if x == a + n - 4
          then n - need
          else if x == a + need
          then n - need
          else if x == a + need - 4
          then need + 1
          else if x == a
          then need + 1
          else h x)
  split_at x room =
      let end_is : a + need + (n - need) - 4 ≡ a + n - 4 = omega arith in
      rw (
        mark_free_lem (a + need) (n - need) (mark_used a need h) x room (omega arith) (omega arith),
        mark_used_lem a need h x big even (omega arith),
        end_is,
      )

  -- The words of the block that is given out.
  pub place-Blocks : Blocks (place a need h) a (carve need n) (a + n)
  place-Blocks = elim (Bool-cases (leb min_block (n - need))) [
    | inl room ↦
        let fits' : min_block ≤ n - need = ground arith in
        let middle : a + need + (n - need) ≡ a + n = omega arith in
        rw (place_is, room)
          (
            big,
            even,
            ground (arith, split_at a fits'),
            ground (arith, split_at (a + need - 4) fits'),
            (
              fits',
              omega arith,
              ground (arith, split_at (a + need) fits'),
              ground (arith, split_at (a + need + (n - need) - 4) fits'),
              middle,
            ),
          )
    | inr tight ↦
        rw (place_is, tight)
          (
            omega arith,
            whole,
            ground (arith, mark_used_lem a n h a),
            ground (arith, mark_used_lem a n h (a + n - 4)),
            refl,
          )
  ]

  pub place-outside : (x : ℕ) → (x < a) ⊎ (a + n ≤ x) → place a need h x ≡ h x
  place-outside x out = elim (Bool-cases (leb min_block (n - need))) [
    | inl room ↦
        let fits' : min_block ≤ n - need = ground arith in
        rw (place_is, room) (ground (arith, split_at x fits'))
    | inr tight ↦ rw (place_is, tight) (ground (arith, mark_used_lem a n h x))
  ]
