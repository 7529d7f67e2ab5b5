-- ===== src/Tests/Heap.antt =====
-- A request on the fresh heap.
use sros.Prelude.{refl, ◌+◌, ◌-◌, ◌==◌, if◌then◌else◌, ℕ, ◌≡◌, [], ◌∷◌, some, arith}
use sros.Heap.{Heap, heap_start, heap_size, kmalloc_init, kmalloc, kfree}
use sros.Heap.Free.{kfree-joins}
use sros.Heap.Joins.{join_prev, joined_size, joined_rest}
use sros.Heap.Blocks.{IsHeap}
use sros.Heap.Alloc.{Keeps, block_for, kmalloc-first_fit, kmalloc_init-IsHeap}
use sros.Heap.Place.{first_fit, pointer, free_block}

abbrev pub fresh : Heap
fresh = kmalloc_init (λ a. 0)

kmalloc-first_fit_example :
    let (found, bs') = first_fit (block_for 100) heap_start (free_block heap_size ∷ []) in
    (r : ℕ × Heap) × (kmalloc 100 fresh ≡ some r)
    × (r.0 ≡ pointer found)
    × IsHeap r.1 bs'
    × Keeps fresh r.1 heap_start (free_block heap_size ∷ [])
kmalloc-first_fit_example =
    kmalloc-first_fit 100 fresh (free_block heap_size ∷ []) (omega arith) (omega arith)
      (kmalloc_init-IsHeap (λ a. 0))

-- One block is all of the heap, and is given out.
abbrev all_used : Heap
all_used x =
    if x == heap_start
    then heap_size + 1
    else if x == heap_start + heap_size - 4
    then heap_size + 1
    else if x == heap_start + heap_size
    then 1
    else 0

kfree-joins_example :
    IsHeap
      (kfree (heap_start + 4) all_used)
      (join_prev [] (joined_size heap_size []) (joined_rest []))
kfree-joins_example =
    kfree-joins all_used heap_start heap_size [] [] refl (omega arith, refl, refl, refl, refl) refl
