-- ===== src/Heap/Joins.antt =====
-- The steps of `kfree` in kernel/kmalloc.c that free a block and join it with the block behind it.
use sros.Prelude.{
  ℕ, ◌+◌, ◌-◌, ◌*◌, ◌/◌, ◌%◌, ◌^◌, ◌≤◌, ◌<◌, ◌≡◌, ap, ◌∙◌, Bool, true, false, ◌&&◌, not, List, [],
  ◌∷◌, arith, ltb, ◌==◌, if◌then◌else◌, Bool-cases, inl, inr,
}
use sros.Heap.{
  Heap, heap_start, heap_size, min_block, block_size, is_alloc, set_free, footer, next_block,
  prev_block, mark_free, merge_next, merge_prev, kfree,
}
use sros.Heap.Blocks.{Block, Blocks, heap_end, Blocks-le, Blocks-agree, mark_free_lem}
use sros.Heap.Alloc.{tag-size, tag-used}
use sros.Heap.Place.{free_block}
use sros.Heap as H
use mathlib.Core.Path.{ap₂}

-- The words of `g` are those of `h` with a header and a footer of a free block of `n` bytes at `a`.
abbrev pub Frees : ℕ → ℕ → Heap → Heap → Type 0
Frees a n h g = (x : ℕ) → g x ≡ (if x == a + n - 4 then n else if x == a then n else h x)

pub Frees-mark_free :
    (a n : ℕ) (h : Heap)
    → min_block ≤ n
    → n % 8 ≡ 0
    → a + n < 2 ^ 32
    → Frees a n h (mark_free a n h)
Frees-mark_free a n h big even fits x = mark_free_lem a n h x big even fits

pub Frees-free_block :
    (a n : ℕ) (h : Heap)
    → min_block ≤ n
    → n % 8 ≡ 0
    → a + n < 2 ^ 32
    → h a ≡ n + 1
    → Frees a n h (H.free_block a h)
unfolding H.free_block
Frees-free_block a n h big even fits head x =
    let even_head : h a / 2 * 2 ≡ n = omega arith in ground arith

-- The size of the freed block once the block behind it has joined, and what stands behind then.
abbrev pub joined_size : ℕ → List Block → ℕ
joined_size n [] = n
joined_size n (p ∷ ps) = if p.used then n else n + p.size

abbrev pub joined_rest : List Block → List Block
joined_rest [] = []
joined_rest (p ∷ ps) = if p.used then p ∷ ps else ps

-- The freed block of `n` bytes joined to the last block before it, if that is free.
abbrev pub join_prev : List Block → ℕ → List Block → List Block
join_prev [] n rest = free_block n ∷ rest
join_prev (p ∷ []) n rest =
    if p.used then p ∷ free_block n ∷ rest else free_block (p.size + n) ∷ rest
join_prev (p ∷ q ∷ ps) n rest = p ∷ join_prev (q ∷ ps) n rest

-- A free block of `n` bytes at `a`, between the blocks `pre` and `rest` of the heap.
pub record Freed (h : Heap) (a : ℕ) (pre : List Block) (n : ℕ) (rest : List Block) : Type 0 where
  pub before : Blocks h heap_start pre a
  pub block : Blocks h a (free_block n ∷ rest) heap_end
  pub end_mark : h heap_end ≡ 1

pub Frees-Freed :
    (a n : ℕ) (h g : Heap) (pre rest : List Block)
    → Frees a n h g
    → min_block ≤ n
    → n % 8 ≡ 0
    → Blocks h heap_start pre a
    → Blocks h (a + n) rest heap_end
    → h heap_end ≡ 1
    → Freed g a pre n rest
Frees-Freed a n h g pre rest w big even before behind end =
    let below = Blocks-le h (a + n) rest heap_end behind in
    record {
      before = Blocks-agree h g heap_start pre a (λ x lo hi. ground (arith, w x)) before;
      block = (
        big,
        even,
        ground (arith, w a),
        ground (arith, w (a + n - 4)),
        Blocks-agree h g (a + n) rest heap_end (λ x lo hi. ground (arith, w x)) behind,
      );
      end_mark = ground (arith, w heap_end, below);
    }

module _ (h : Heap) (a : ℕ) (pre : List Block) (n : ℕ) (rest : List Block)
    (v : Freed h a pre n rest) where
  pub low : a + n < 2 ^ 32
  low = omega (arith, Blocks-le h (a + n) rest heap_end v.block.4)

  pub size_is : block_size h a ≡ n
  size_is = rw v.block.2 (tag-size n false v.block.1)

  pub next_is : next_block h a ≡ a + n
  next_is = omega (arith, size_is, low)

-- Whether the block behind `a` is joined.
abbrev pub next_joins : Heap → ℕ → Bool
next_joins h next = ltb 0 (block_size h next) && not (is_alloc h next)

pub merge_next-keep :
    (h : Heap) (a : ℕ) → next_joins h (next_block h a) ≡ false → merge_next a h ≡ h
unfolding merge_next
merge_next-keep h a e = rw e

pub merge_next-join :
    (h : Heap) (a : ℕ)
    → next_joins h (next_block h a) ≡ true
    → merge_next a h ≡ mark_free a ((block_size h a + block_size h (next_block h a)) % 2 ^ 32) h
unfolding merge_next
merge_next-join h a e = rw e

pub joins_free : (size : ℕ) (used : Bool) → min_block ≤ size → (ltb 0 size && not used) ≡ not used
joins_free size true big = ground arith
joins_free size false big = ground arith

pub merge_next-Freed :
    (h : Heap) (a : ℕ) (pre : List Block) (n : ℕ) (rest : List Block)
    → Freed h a pre n rest
    → Freed (merge_next a h) a pre (joined_size n rest) (joined_rest rest)
merge_next-Freed h a pre n [] v =
    let end_is : h (a + n) ≡ 1 = ap h v.block.4 ∙ v.end_mark in
    let keep : next_joins h (next_block h a) ≡ false =
      ap (next_joins h) (next_is h a pre n [] v)
      ∙ ap (λ w. ltb 0 (w / 8 * 8) && not (w % 2 == 1)) end_is in
    rw (merge_next-keep h a keep) v
merge_next-Freed h a pre n (p ∷ ps) v =
    let at = v.block.4 in
    let p_size : block_size h (a + n) ≡ p.size = rw at.2 (tag-size p.size p.used at.1) in
    let p_used : is_alloc h (a + n) ≡ p.used = rw at.2 (tag-used p.size p.used at.1) in
    let joins : next_joins h (next_block h a) ≡ not p.used =
      ap (next_joins h) (next_is h a pre n (p ∷ ps) v)
      ∙ ap₂ (λ size used. ltb 0 size && not used) p_size p_used
      ∙ joins_free p.size p.used at.0 in
    elim (Bool-cases p.used) [
      | inl taken ↦ rw (merge_next-keep h a (joins ∙ ap not taken)) (simp taken v)
      | inr free ↦
          let end = Blocks-le h (a + n + p.size) ps heap_end at.4 in
          let sum_is : (block_size h a + block_size h (next_block h a)) % 2 ^ 32 ≡ n + p.size =
            rw (next_is h a pre n (p ∷ ps) v, size_is h a pre n (p ∷ ps) v, p_size)
              (omega (arith, end)) in
          let behind : a + n + p.size ≡ a + (n + p.size) = omega arith in
          rw (merge_next-join h a (joins ∙ ap not free), sum_is)
            (simp free (
              Frees-Freed a (n + p.size) h (mark_free a (n + p.size) h) pre ps
                (Frees-mark_free a (n + p.size) h (omega arith) (omega (arith, at.1, v.block.1))
                  (omega (arith, end)))
                (omega (arith, at.0)) (omega (arith, at.1, v.block.1)) v.before (rw behind at at.4)
                v.end_mark))
    ]
