-- ===== src/Heap/Alloc.antt =====
-- `kmalloc` of kernel/kmalloc.c refines first fit over the list of blocks.
use sros.Prelude.{
  ℕ, zero, suc, ◌+◌, ◌-◌, ◌*◌, ◌/◌, ◌%◌, ◌^◌, ◌≤◌, ◌<◌, ◌≡◌, refl, ◌∙◌, ◌≢◌, ◌⊎◌, Bool, true, false,
  ◌&&◌, not, Option, some, List, [], ◌∷◌, arith, leb, ◌==◌, if◌then◌else◌, length, Bool-cases, inl,
  inr,
}
use mathlib.Core.Path.{subst}
use sros.Heap.{
  Heap, heap_start, heap_size, min_block, block_size, is_alloc, place, next_block, scan, walk_fuel,
  need_size, kmalloc, kmalloc_init,
}
use sros.Heap.Blocks.{Block, tag, Blocks, IsHeap, heap_end, Blocks-le, Blocks-agree, Blocks-append}
use sros.Heap.Place.{free_block, carve, first_fit, pointer, place-Blocks, place-outside}

pub tag-size : (n : ℕ) (u : Bool) → n % 8 ≡ 0 → tag n u / 8 * 8 ≡ n
tag-size n true e = omega arith
tag-size n false e = omega arith

pub tag-used : (n : ℕ) (u : Bool) → n % 8 ≡ 0 → (tag n u % 2 == 1) ≡ u
tag-used n true e = ground arith
tag-used n false e = ground arith

-- The words of every allocated block are what they were.
abbrev pub Keeps : Heap → Heap → ℕ → List Block → Type 0
Keeps h g a [] = Unit {0}
Keeps h g a (k ∷ bs) =
    (k.used ≡ true → (x : ℕ) → a ≤ x → x < a + k.size → g x ≡ h x) × Keeps h g (a + k.size) bs

Keeps-agree :
    (h g : Heap) (a : ℕ) (bs : List Block) → ((x : ℕ) → a ≤ x → g x ≡ h x) → Keeps h g a bs
Keeps-agree h g a [] same = tt
Keeps-agree h g a (k ∷ bs) same =
    ((λ u x lo hi. same x lo), Keeps-agree h g (a + k.size) bs (λ x lo. same x (omega arith)))

-- What a walk from `a` returns: the pointer, the new blocks, and what it leaves alone.
pub record Allocated (h : Heap) (a : ℕ) (bs : List Block) (found : Option ℕ) (bs' : List Block)
    (r : Option (ℕ × Heap)) : Type 0 where
  pub heap : Heap
  pub result : r ≡ some (pointer found, heap)
  pub blocks : Blocks heap a bs' heap_end
  pub outside : (x : ℕ) → (x < a) ⊎ (heap_end ≤ x) → heap x ≡ h x
  pub keeps : Keeps h heap a bs

scan-end : (fuel a need : ℕ) (h : Heap) → h a ≡ 1 → scan (suc fuel) a need h ≡ some (0, h)
unfolding scan
scan-end fuel a need h e = rw e

scan-fit :
    (fuel a need n : ℕ) (h : Heap)
    → 16 ≤ n
    → block_size h a ≡ n
    → (not (is_alloc h a) && leb need n) ≡ true
    → a + n < 2 ^ 32
    → scan (suc fuel) a need h ≡ some (a + 4, place a need h)
unfolding scan
scan-fit fuel a need n h big e fit low =
    let some_size : (block_size h a == 0) ≡ false = ground arith in
    let fit' : (not (is_alloc h a) && leb need (block_size h a)) ≡ true = rw (e, fit) in
    let low' : (a + 4) % 2 ^ 32 ≡ a + 4 = omega arith in rw (some_size, fit', low')

scan-next :
    (fuel a need n : ℕ) (h : Heap)
    → 16 ≤ n
    → block_size h a ≡ n
    → (not (is_alloc h a) && leb need n) ≡ false
    → a + n < 2 ^ 32
    → scan (suc fuel) a need h ≡ scan fuel (a + n) need h
unfolding scan
scan-next fuel a need n h big e fit low =
    let some_size : (block_size h a == 0) ≡ false = ground arith in
    let fit' : (not (is_alloc h a) && leb need (block_size h a)) ≡ false = rw (e, fit) in
    let next_is : next_block h a ≡ a + n = omega arith in rw (some_size, fit', next_is)

leb-both : (u : Bool) (m n : ℕ) → (u && leb m n) ≡ true → m ≤ n
leb-both true m n e = ground arith
leb-both false m n e = ground arith

tag-free : (u b : Bool) (n : ℕ) → (not u && b) ≡ true → tag n u ≡ n
tag-free true b n e = ground arith
tag-free false b n e = refl

free-of : (u b : Bool) → (not u && b) ≡ true → u ≢ true
free-of true b e u = ground arith
free-of false b e u = ground arith

pub scan_lem :
    (fuel : ℕ) (bs : List Block) (a need : ℕ) (h : Heap)
    → min_block ≤ need
    → need % 8 ≡ 0
    → Blocks h a bs heap_end
    → h heap_end ≡ 1
    → length bs < fuel
    → let (found, bs') = first_fit need a bs in Allocated h a bs found bs' (scan fuel a need h)
unfolding first_fit
scan_lem zero bs a need h big even v end enough = elim enough [ ]
scan_lem (suc fuel) [] a need h big even v end enough = record {
  heap = h;
  result = scan-end fuel a need h (rw v end);
  blocks = v;
  outside = λ x o. refl;
  keeps = tt;
}
scan_lem (suc fuel) (k ∷ bs) a need h big even v end enough =
    let below = Blocks-le h (a + k.size) bs heap_end v.4 in
    let size_is : block_size h a ≡ k.size = rw v.2 (tag-size k.size k.used v.1) in
    let used_is : is_alloc h a ≡ k.used = rw v.2 (tag-used k.size k.used v.1) in
    let low : a + k.size < 2 ^ 32 = omega (arith, below) in
    elim (Bool-cases (not k.used && leb need k.size)) [
      | inl fit ↦
          let large : need ≤ k.size = leb-both (not k.used) need k.size fit in
          let head_is : h a ≡ k.size = v.2 ∙ tag-free k.used (leb need k.size) k.size fit in
          let same : (x : ℕ) → (x < a) ⊎ (a + k.size ≤ x) → place a need h x ≡ h x =
            place-outside h a need k.size big even large v.1 low head_is in
          rw fit record {
            heap = place a need h;
            result = scan-fit fuel a need k.size h v.0 size_is (rw used_is fit) low;
            blocks =
                Blocks-append (place a need h) a (carve need k.size) (a + k.size) bs heap_end
                  (place-Blocks h a need k.size big even large v.1 low head_is)
                  (Blocks-agree h (place a need h) (a + k.size) bs heap_end
                    (λ x lo hi. same x (inr lo)) v.4);
            outside = λ x o. same x (elim o [ inl lo ↦ inl lo | inr hi ↦ inr (omega arith) ]);
            keeps = (
              λ u x lo hi. elim (free-of k.used (leb need k.size) fit u) [ ],
              Keeps-agree h (place a need h) (a + k.size) bs (λ x lo. same x (inr lo)),
            );
          }
      | inr skip ↦
          let rest : Allocated h (a + k.size) bs _ _ _ =
            scan_lem fuel bs (a + k.size) need h big even v.4 end (omega arith) in
          rw skip record {
            heap = rest.heap;
            result = scan-next fuel a need k.size h v.0 size_is (rw used_is skip) low ∙ rest.result;
            blocks = (
              v.0,
              v.1,
              rest.outside a (inl (omega arith)) ∙ v.2,
              rest.outside (a + k.size - 4) (inl (omega arith)) ∙ v.3,
              rest.blocks,
            );
            outside =
                λ x o. rest.outside x (elim o [ inl lo ↦ inl (omega arith) | inr hi ↦ inr hi ]);
            keeps = (λ u x lo hi. rest.outside x (inl hi), rest.keeps);
          }
    ]

Blocks-length :
    (h : Heap) (a : ℕ) (bs : List Block) (b : ℕ) → Blocks h a bs b → a + 16 * length bs ≤ b
Blocks-length h a [] b v = omega (arith, v)
Blocks-length h a (k ∷ bs) b v = omega (arith, v.0, Blocks-length h (a + k.size) bs b v.4)

pub need_size-big : (size : ℕ) → min_block ≤ need_size size
unfolding need_size
need_size-big size = ground arith

pub need_size-even : (size : ℕ) → need_size size % 8 ≡ 0
unfolding need_size
need_size-even size = ground arith

-- A request by the size that the code computes for its block.
pub kmalloc-need_size :
    (size : ℕ) (h : Heap) (bs : List Block)
    → 0 < size
    → IsHeap h bs
    → let (found, bs') = first_fit (need_size size) heap_start bs in
      (r : ℕ × Heap) × (kmalloc size h ≡ some r)
      × (r.0 ≡ pointer found)
      × IsHeap r.1 bs'
      × Keeps h r.1 heap_start bs
unfolding kmalloc
kmalloc-need_size size h bs some_bytes w =
    let count = Blocks-length h heap_start bs heap_end w.blocks in
    let r =
      scan_lem walk_fuel bs heap_start (need_size size) h (need_size-big size) (need_size-even size)
        w.blocks w.end_mark (omega (arith, count)) in
    let asked : (size == 0) ≡ false = ground arith in
    (
      (pointer (first_fit (need_size size) heap_start bs).0, r.heap),
      rw asked r.result,
      refl,
      record { blocks = r.blocks; end_mark = r.outside heap_end (inr (omega arith)) ∙ w.end_mark },
      r.keeps,
    )

-- The least block for a request: a multiple of 8 with room for a header of 4 bytes, the bytes that are
-- asked for and a footer of 4, and no less than 16 bytes.
abbrev pub block_for : ℕ → ℕ
block_for size = if leb size 8 then 16 else (4 + size + 4 + 7) / 8 * 8

need_size-block_for : (size : ℕ) → size + 16 ≤ 2 ^ 32 → need_size size ≡ block_for size
unfolding need_size
need_size-block_for size fits = ground arith

-- For every request of 1 to 2^32 - 16 bytes on a heap whose words are the blocks bs, kmalloc ends.
-- It returns the address behind the header of the first free block that has room for the request
-- rounded up to a multiple of 8 with a header and a footer of 4 bytes each, and is at least 16
-- bytes long, or NULL where there is none; the heap is then the blocks with that block given out
-- and its remainder split off if it makes a block, and no word of a block that was allocated has
-- changed.
pub kmalloc-first_fit :
    (size : ℕ) (h : Heap) (bs : List Block)
    → 0 < size
    → size + 16 ≤ 2 ^ 32
    → IsHeap h bs
    → let (found, bs') = first_fit (block_for size) heap_start bs in
      (r : ℕ × Heap) × (kmalloc size h ≡ some r)
      × (r.0 ≡ pointer found)
      × IsHeap r.1 bs'
      × Keeps h r.1 heap_start bs
kmalloc-first_fit size h bs some_bytes fits w =
    subst
      (λ need.
        (r : ℕ × Heap) × (kmalloc size h ≡ some r)
        × (r.0 ≡ pointer (first_fit need heap_start bs).0)
        × IsHeap r.1 (first_fit need heap_start bs).1
        × Keeps h r.1 heap_start bs)
      (need_size-block_for size fits) (kmalloc-need_size size h bs some_bytes w)

-- `kmalloc_init` makes the heap one free block.
pub kmalloc_init-IsHeap : (h : Heap) → IsHeap (kmalloc_init h) (free_block heap_size ∷ [])
unfolding kmalloc_init
kmalloc_init-IsHeap h = record { blocks = (omega arith, refl, refl, refl, refl); end_mark = refl }
