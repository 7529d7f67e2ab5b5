-- ===== src/Heap/Blocks.antt =====
-- The heap of kernel/kmalloc.c as a list of blocks: what the words of a well-formed heap are, and
-- what the writes of a header and a footer do to it.
use sros.Prelude.{
  ℕ, ◌+◌, ◌-◌, ◌%◌, ◌^◌, ◌≤◌, ◌<◌, ◌≡◌, ◌∙◌, Bool, true, false, List, [], ◌∷◌, ◌++◌, arith, ◌==◌,
  if◌then◌else◌,
}
use sros.Heap.{Heap, heap_start, heap_size, min_block, mark_used, mark_free}

pub record Block : Type 0 where
  pub size : ℕ
  pub used : Bool

-- The word in a block's header and footer.
abbrev pub tag : ℕ → Bool → ℕ
tag n true = n + 1
tag n false = n

-- From address `a` to address `b` the heap is the blocks `bs`.
abbrev pub Blocks : Heap → ℕ → List Block → ℕ → Type 0
Blocks h a [] b = a ≡ b
Blocks h a (k ∷ bs) b =
    (min_block ≤ k.size)
    × (k.size % 8 ≡ 0)
    × (h a ≡ tag k.size k.used)
    × (h (a + k.size - 4) ≡ tag k.size k.used)
    × Blocks h (a + k.size) bs b

abbrev pub heap_end : ℕ
heap_end = heap_start + heap_size

-- The blocks fill the heap, and the end is marked.
pub record IsHeap (h : Heap) (bs : List Block) : Type 0 where
  pub blocks : Blocks h heap_start bs heap_end
  pub end_mark : h heap_end ≡ 1

pub Blocks-le : (h : Heap) (a : ℕ) (bs : List Block) (b : ℕ) → Blocks h a bs b → a ≤ b
Blocks-le h a [] b v = omega arith
Blocks-le h a (k ∷ bs) b v = omega (arith, Blocks-le h (a + k.size) bs b v.4)

-- Blocks depend only on the words between their ends.
pub Blocks-agree :
    (h g : Heap) (a : ℕ) (bs : List Block) (b : ℕ)
    → ((x : ℕ) → a ≤ x → x < b → g x ≡ h x)
    → Blocks h a bs b
    → Blocks g a bs b
Blocks-agree h g a [] b same v = v
Blocks-agree h g a (k ∷ bs) b same v =
    let rest = Blocks-le h (a + k.size) bs b v.4 in
    (
      v.0,
      v.1,
      same a (omega arith) (omega arith) ∙ v.2,
      same (a + k.size - 4) (omega arith) (omega arith) ∙ v.3,
      Blocks-agree h g (a + k.size) bs b (λ x lo hi. same x (omega arith) hi) v.4,
    )

pub Blocks-append :
    (h : Heap) (a : ℕ) (xs : List Block) (m : ℕ) (ys : List Block) (b : ℕ)
    → Blocks h a xs m
    → Blocks h m ys b
    → Blocks h a (xs ++ ys) b
Blocks-append h a [] m ys b v w = rw v w
Blocks-append h a (k ∷ xs) m ys b v w =
    (v.0, v.1, v.2, v.3, Blocks-append h (a + k.size) xs m ys b v.4 w)

-- The header and footer of an allocated block, written.
pub mark_used_lem :
    (cur n : ℕ) (h : Heap) (x : ℕ)
    → min_block ≤ n
    → n % 8 ≡ 0
    → cur + n < 2 ^ 32
    → mark_used cur n h x ≡ (if x == cur + n - 4 then n + 1 else if x == cur then n + 1 else h x)
unfolding mark_used
mark_used_lem cur n h x big even fits = ground arith

pub mark_free_lem :
    (hdr n : ℕ) (h : Heap) (x : ℕ)
    → min_block ≤ n
    → n % 8 ≡ 0
    → hdr + n < 2 ^ 32
    → mark_free hdr n h x ≡ (if x == hdr + n - 4 then n else if x == hdr then n else h x)
unfolding mark_free
mark_free_lem hdr n h x big even fits = ground arith
