-- ===== src/Heap.antt =====
-- kernel/kmalloc.c: the kernel heap, a sequence of blocks with boundary tags. The state is the u32
-- words at their byte addresses; the heap's headers and footers are among them.
pub mod Blocks
pub mod Place
pub mod Alloc
pub mod Joins
pub mod Free
use sros.Prelude.{
  ℕ, zero, suc, ◌+◌, ◌-◌, ◌*◌, ◌/◌, ◌%◌, ◌^◌, Bool, true, false, ◌&&◌, not, Option, none, some, leb,
  ltb, ◌==◌, if◌then◌else◌,
}

abbrev pub Heap : Type 0
Heap = ℕ → ℕ

abbrev pub heap_start : ℕ
heap_start = 0x200000

abbrev pub heap_size : ℕ
heap_size = 0x40000

abbrev pub min_block : ℕ
min_block = 16

-- `hdr->size = w`
abbrev pub write : ℕ → ℕ → Heap → Heap
write a w h b = if b == a then w else h b

-- BLOCK_SIZE: `size & ~0x7`
abbrev pub block_size : Heap → ℕ → ℕ
block_size h hdr = h hdr / 8 * 8

-- BLOCK_IS_ALLOC: `size & 1`
abbrev pub is_alloc : Heap → ℕ → Bool
is_alloc h hdr = h hdr % 2 == 1

-- BLOCK_SET_ALLOC: `size |= 1`
abbrev pub set_alloc : ℕ → Heap → Heap
set_alloc hdr h = write hdr (h hdr / 2 * 2 + 1) h

-- BLOCK_SET_FREE: `size &= ~1`
abbrev pub set_free : ℕ → Heap → Heap
set_free hdr h = write hdr (h hdr / 2 * 2) h

-- NEXT_BLOCK, BLOCK_FOOTER and PREV_BLOCK, on 32-bit addresses.
abbrev pub next_block : Heap → ℕ → ℕ
next_block h hdr = (hdr + block_size h hdr) % 2 ^ 32

abbrev pub footer : Heap → ℕ → ℕ
footer h hdr = (hdr + block_size h hdr + 2 ^ 32 - 4) % 2 ^ 32

abbrev pub prev_block : Heap → ℕ → ℕ
prev_block h hdr = (hdr + 2 ^ 32 - block_size h ((hdr + 2 ^ 32 - 4) % 2 ^ 32)) % 2 ^ 32

pub kmalloc_init : Heap → Heap
kmalloc_init h =
    write (heap_start + heap_size) 1
      (write (heap_start + heap_size - 4) heap_size (write heap_start heap_size h))

-- The size of the block for a request, in wrapping u32 arithmetic.
unfoldable pub need_size : ℕ → ℕ
need_size size =
    let aligned = (size + 7) % 2 ^ 32 / 8 * 8 in
    let need = (4 + aligned + 4) % 2 ^ 32 in if ltb need min_block then min_block else need

-- A header and a footer for an allocated block of `n` bytes.
pub mark_used : ℕ → ℕ → Heap → Heap
mark_used cur n h0 =
    let h1 = set_alloc cur (write cur n h0) in
    let h2 = write (footer h1 cur) n h1 in set_alloc (footer h2 cur) h2

-- A header and a footer for a free block.
pub mark_free : ℕ → ℕ → Heap → Heap
mark_free hdr n h = let h1 = write hdr n h in write (footer h1 hdr) n h1

-- The block `cur` of `need` bytes, and a free block of what remains; or the whole block.
pub place : ℕ → ℕ → Heap → Heap
place cur need h =
    let remaining = block_size h cur - need in
    if leb min_block remaining
    then mark_free ((cur + need) % 2 ^ 32) remaining (mark_used cur need h)
    else mark_used cur (block_size h cur) h

-- The walk over the blocks; `none` is a walk that does not end. The pointer 0 is NULL.
pub scan : ℕ → ℕ → ℕ → Heap → Option (ℕ × Heap)
scan zero cur need h = none
scan (suc fuel) cur need h =
    let rest = scan fuel (next_block h cur) need h in
    if block_size h cur == 0
    then some (0, h)
    else if not (is_alloc h cur) && leb need (block_size h cur)
    then some ((cur + 4) % 2 ^ 32, place cur need h)
    else rest

-- The heap has room for `heap_size / 16` blocks and the walk visits each once, then the end.
abbrev pub walk_fuel : ℕ
walk_fuel = heap_size / 16 + 1

pub kmalloc : ℕ → Heap → Option (ℕ × Heap)
kmalloc size h = if size == 0 then some (0, h) else scan walk_fuel heap_start (need_size size) h

-- Step 2 of `kfree`.
pub free_block : ℕ → Heap → Heap
free_block hdr h0 = let h1 = set_free hdr h0 in write (footer h1 hdr) (h1 hdr) h1

-- Step 3, with the next block.
pub merge_next : ℕ → Heap → Heap
merge_next hdr h =
    let next = next_block h hdr in
    if ltb 0 (block_size h next) && not (is_alloc h next)
    then mark_free hdr ((block_size h hdr + block_size h next) % 2 ^ 32) h
    else h

-- Step 4, with the previous block, found by its footer.
pub merge_prev : ℕ → Heap → Heap
merge_prev hdr h =
    let prev = prev_block h hdr in
    if ltb heap_start hdr && not (is_alloc h prev)
    then mark_free prev ((block_size h prev + block_size h hdr) % 2 ^ 32) h
    else h

pub kfree : ℕ → Heap → Heap
kfree ptr h =
    if ptr == 0
    then h
    else (let hdr = (ptr + 2 ^ 32 - 4) % 2 ^ 32 in
        merge_prev hdr (merge_next hdr (free_block hdr h)))

-- The totals of `kmalloc_dump`: blocks, allocated bytes and free bytes.
pub dump : ℕ → ℕ → ℕ × ℕ × ℕ → Heap → Option (ℕ × ℕ × ℕ)
dump zero cur acc h = none
dump (suc fuel) cur (blocks, total_alloc, total_free) h =
    let rest =
      dump fuel (next_block h cur)
        (if is_alloc h cur
          then (blocks + 1, (total_alloc + block_size h cur) % 2 ^ 32, total_free)
          else (blocks + 1, total_alloc, (total_free + block_size h cur) % 2 ^ 32))
        h in
    if block_size h cur == 0 then some (blocks, total_alloc, total_free) else rest

pub kmalloc_dump : Heap → Option (ℕ × ℕ × ℕ)
unfolding dump
kmalloc_dump h = dump walk_fuel heap_start (0, 0, 0) h
