-- ===== src/Heap/Free.antt =====
-- `kfree` of kernel/kmalloc.c: a block is freed and joined with the free blocks beside it.
use sros.Prelude.{
  ℕ, ◌+◌, ◌-◌, ◌*◌, ◌/◌, ◌%◌, ◌^◌, ◌≤◌, ◌<◌, ◌≡◌, refl, sym, ap, ◌∙◌, Bool, true, false, ◌&&◌, not,
  List, [], ◌∷◌, ◌++◌, arith, ltb, ◌==◌, if◌then◌else◌, Bool-cases, inl, inr,
}
use sros.Heap.{
  Heap, heap_start, heap_size, min_block, block_size, is_alloc, set_free, footer, next_block,
  prev_block, mark_free, merge_next, merge_prev, kfree,
}
use sros.Heap.Blocks.{Block, Blocks, IsHeap, heap_end, Blocks-le, Blocks-append}
use sros.Heap.Alloc.{tag-size, tag-used}
use sros.Heap.Place.{used_block, free_block}
use sros.Heap as H
use mathlib.Core.Path.{ap₂}
use sros.Heap.Joins.{
  Frees-mark_free, Frees-free_block, joined_size, joined_rest, join_prev, Freed, Frees-Freed, low,
  size_is, merge_next-Freed,
}

-- The blocks before `a` with the last of them apart.
record Last (h : Heap) (s a : ℕ) (pre : List Block) : Type 0 where
  pub front : List Block
  pub last : Block
  pub at : ℕ
  pub front_blocks : Blocks h s front at
  pub last_block : Blocks h at (last ∷ []) a
  pub joined :
      (n : ℕ) (rest : List Block)
      → join_prev pre n rest
        ≡ front
          ++ (if last.used then last ∷ free_block n ∷ rest else free_block (last.size + n) ∷ rest)

Blocks-Last :
    (h : Heap) (s a : ℕ) (p : Block) (ps : List Block) → Blocks h s (p ∷ ps) a → Last h s a (p ∷ ps)
Blocks-Last h s a p [] v = record {
  front = [];
  last = p;
  at = s;
  front_blocks = refl;
  last_block = v;
  joined = λ n rest. refl;
}
Blocks-Last h s a p (q ∷ qs) v =
    let l = Blocks-Last h (s + p.size) a q qs v.4 in
    record {
      front = p ∷ l.front;
      last = l.last;
      at = l.at;
      front_blocks = (v.0, v.1, v.2, v.3, l.front_blocks);
      last_block = l.last_block;
      joined = λ n rest. ap (λ bs. p ∷ bs) (l.joined n rest);
    }

abbrev prev_joins : Heap → ℕ → ℕ → Bool
prev_joins h a prev = ltb heap_start a && not (is_alloc h prev)

merge_prev-keep : (h : Heap) (a : ℕ) → prev_joins h a (prev_block h a) ≡ false → merge_prev a h ≡ h
unfolding merge_prev
merge_prev-keep h a e = rw e

merge_prev-join :
    (h : Heap) (a : ℕ)
    → prev_joins h a (prev_block h a) ≡ true
    → merge_prev a h
      ≡ mark_free (prev_block h a) ((block_size h (prev_block h a) + block_size h a) % 2 ^ 32) h
unfolding merge_prev
merge_prev-join h a e = rw e

Freed-IsHeap :
    (h : Heap) (a : ℕ) (pre : List Block) (n : ℕ) (rest : List Block)
    → Freed h a pre n rest
    → IsHeap h (pre ++ free_block n ∷ rest)
Freed-IsHeap h a pre n rest v = record {
  blocks = Blocks-append h heap_start pre a (free_block n ∷ rest) heap_end v.before v.block;
  end_mark = v.end_mark;
}

-- The block before `a`, found by its footer.
module _ (h : Heap) (a b : ℕ) (p : Block) (one : Blocks h b (p ∷ []) a) (start : heap_start ≤ b)
    (low_a : a < 2 ^ 32) where
  prev_size : block_size h ((a + 2 ^ 32 - 4) % 2 ^ 32) ≡ p.size
  prev_size =
      let foot : (a + 2 ^ 32 - 4) % 2 ^ 32 ≡ b + p.size - 4 = omega (arith, one.0, one.4) in
      ap (block_size h) foot ∙ ap (λ w. w / 8 * 8) one.3 ∙ tag-size p.size p.used one.1

  prev_is : prev_block h a ≡ b
  prev_is = omega (arith, prev_size, one.0, one.4)

  prev_joins_is : prev_joins h a (prev_block h a) ≡ not p.used
  prev_joins_is =
      let above : ltb heap_start a ≡ true = ground (arith, one.0, one.4) in
      let used_is : is_alloc h b ≡ p.used =
        ap (λ w. w % 2 == 1) one.2 ∙ tag-used p.size p.used one.1 in
      ap (prev_joins h a) prev_is ∙ ap₂ (λ c u. c && not u) above used_is

  join_is :
      (n : ℕ)
      → block_size h a ≡ n
      → a + n < 2 ^ 32
      → p.used ≡ false
      → merge_prev a h ≡ mark_free b (p.size + n) h
  join_is n e fits free =
      let own : block_size h b ≡ p.size =
        ap (λ w. w / 8 * 8) one.2 ∙ tag-size p.size p.used one.1 in
      let sum_is : (block_size h (prev_block h a) + block_size h a) % 2 ^ 32 ≡ p.size + n =
        ap₂ (λ x y. (x + y) % 2 ^ 32) (ap (block_size h) prev_is ∙ own) e ∙ omega (arith, one.4) in
      merge_prev-join h a (prev_joins_is ∙ ap not free)
      ∙ ap₂ (λ x y. mark_free x y h) prev_is sum_is

merge_prev-IsHeap :
    (h : Heap) (a : ℕ) (pre : List Block) (n : ℕ) (rest : List Block)
    → Freed h a pre n rest
    → IsHeap (merge_prev a h) (join_prev pre n rest)
merge_prev-IsHeap h a [] n rest v =
    let first : ltb heap_start a ≡ false = ground (arith, v.before) in
    let keep : prev_joins h a (prev_block h a) ≡ false =
      ap (λ b. b && not (is_alloc h (prev_block h a))) first in
    let start : a ≡ heap_start = sym v.before in
    rw (merge_prev-keep h a keep) record { blocks = rw start at v.block; end_mark = v.end_mark }
merge_prev-IsHeap h a (p ∷ ps) n rest v =
    let l = Blocks-Last h heap_start a p ps v.before in
    let start = Blocks-le h heap_start l.front l.at l.front_blocks in
    let fits = low h a (p ∷ ps) n rest v in
    let joins = prev_joins_is h a l.at l.last l.last_block start (omega arith) in
    elim (Bool-cases l.last.used) [
      | inl taken ↦
          rw (merge_prev-keep h a (joins ∙ ap not taken), l.joined n rest)
            (simp taken record {
              blocks =
                  Blocks-append h heap_start l.front l.at (l.last ∷ free_block n ∷ rest) heap_end
                    l.front_blocks
                    (
                      l.last_block.0,
                      l.last_block.1,
                      l.last_block.2,
                      l.last_block.3,
                      rw (sym l.last_block.4) at v.block,
                    );
              end_mark = v.end_mark;
            })
      | inr free ↦
          let join =
            join_is h a l.at l.last l.last_block start (omega arith) n
              (size_is h a (p ∷ ps) n rest v) fits free in
          let even : (l.last.size + n) % 8 ≡ 0 = omega (arith, l.last_block.1, v.block.1) in
          let big : min_block ≤ l.last.size + n = omega (arith, v.block.0) in
          let up : a + n ≡ l.at + (l.last.size + n) = omega (arith, l.last_block.4) in
          rw (join, l.joined n rest)
            (simp free (
              Freed-IsHeap (mark_free l.at (l.last.size + n) h) l.at l.front (l.last.size + n) rest
                (Frees-Freed l.at (l.last.size + n) h (mark_free l.at (l.last.size + n) h) l.front
                  rest (Frees-mark_free l.at (l.last.size + n) h big even (omega arith)) big even
                  l.front_blocks (rw up at v.block.4) v.end_mark)))
    ]

-- On a heap that is the blocks pre up to the address a, then a block of n bytes given out, then
-- the blocks post, and has its end mark, kfree of the block's pointer leaves a well-formed heap:
-- the block is free, joined with the first block of post and with the last block of pre where they
-- are free, and all other blocks stay.
pub kfree-joins :
    (h : Heap) (a n : ℕ) (pre post : List Block)
    → Blocks h heap_start pre a
    → Blocks h a (used_block n ∷ post) heap_end
    → h heap_end ≡ 1
    → IsHeap (kfree (a + 4) h) (join_prev pre (joined_size n post) (joined_rest post))
unfolding kfree
kfree-joins h a n pre post before block end =
    let below = Blocks-le h (a + n) post heap_end block.4 in
    let header : (a + 4 + 2 ^ 32 - 4) % 2 ^ 32 ≡ a = omega (arith, below) in
    let given : (a + 4 == 0) ≡ false = ground arith in
    let fits : a + n < 2 ^ 32 = omega (arith, below) in
    rw (given, header)
      (merge_prev-IsHeap (merge_next a (H.free_block a h)) a pre (joined_size n post)
        (joined_rest post)
        (merge_next-Freed (H.free_block a h) a pre n post (
          Frees-Freed a n h (H.free_block a h) pre post
            (Frees-free_block a n h block.0 block.1 fits block.2) block.0 block.1 before block.4
            end)))
