-- ===== src/Tests/Windows.antt =====
-- Two windows on a small screen, on the fresh heap.
use sros.Prelude.{ℕ, ◌≡◌, refl, none, some, List, [], ◌∷◌, arith, pos, true, false}
use sros.Heap.{Heap, kmalloc, heap_size, heap_start, need_size}
use sros.Heap.Blocks.{Block, IsHeap}
use sros.Heap.Place.{free_block, first_fit, pointer}
use sros.Heap.Alloc.{Keeps, kmalloc-need_size, kmalloc_init-IsHeap}
use sros.Window.{Window, Wm, wm_desktop_color, wm_get_window_at, find_window}
use sros.Window.Manage.{new_window, is_focus, wm_focus_window, wm_create_window, window_size}
use sros.Window.Focus.{OnTop, wm_focus_window-OnTop}
use sros.Window.Hit.{IsTop, covers, wm_get_window_at-IsTop}
use sros.Window.Failure.{HeapOnly, wm_create_window-HeapOnly}
use sros.Window.Create.{Created, wm_create_window-Created}
use sros.Tests.Heap.{fresh}
use sros.Tests.Display.{shown}

abbrev window_at : ℕ → ℕ → Window
window_at addr z = record {
  addr = addr;
  x = pos addr;
  y = pos 5;
  width = 14;
  height = 30;
  content_w = 10;
  content_h = 8;
  title = 65 ∷ [];
  z_order = z;
  visible = true;
  focused = false;
  buffer = 0;
  pixels = λ i. i;
  dirty = false;
}

abbrev two_windows : Wm
two_windows = record {
  windows = window_at 8 1 ∷ record (window_at 16 2) { focused = true } ∷ [];
  focus = some 16;
  count = pos 2;
  needs_composite = false;
  desktop_color = wm_desktop_color;
  buttons_last = 0;
  heap = fresh;
  screen = shown;
}

wm_focus_window_example : OnTop 8 (window_at 8 1) two_windows (wm_focus_window (some 8) two_windows)
wm_focus_window_example =
    wm_focus_window-OnTop 8 (window_at 8 1) two_windows refl refl (omega arith, (omega arith, tt))

wm_get_window_at_example :
    IsTop (covers 17 6) two_windows.windows (wm_get_window_at two_windows.windows (pos 17) (pos 6))
wm_get_window_at_example =
    wm_get_window_at-IsTop two_windows.windows 17 6 ((omega arith, tt), (tt, tt))
      ((omega arith, omega arith), ((omega arith, omega arith), tt)) (omega arith) (omega arith)

-- The list is full.
abbrev many : Wm
many = record two_windows { count = pos 16 }

full_fails : wm_create_window (pos 0) (pos 0) 10 8 [] many ≡ some (none, many)
unfolding wm_create_window
full_fails = refl

wm_create_window_failure_example : HeapOnly many many
wm_create_window_failure_example =
    wm_create_window-HeapOnly (pos 0) (pos 0) 10 8 [] many many full_fails

-- The blocks before, between and behind the two allocations.
abbrev blocks0 : List Block
blocks0 = free_block heap_size ∷ []

abbrev blocks1 : List Block
blocks1 = (first_fit (need_size 80) heap_start blocks0).1

struct_call :
    (r : ℕ × Heap) × (kmalloc window_size fresh ≡ some r)
    × (r.0 ≡ pointer (first_fit (need_size 80) heap_start blocks0).0)
    × IsHeap r.1 blocks1
    × Keeps fresh r.1 heap_start blocks0
struct_call =
    kmalloc-need_size window_size fresh blocks0 (omega arith) (kmalloc_init-IsHeap (λ a. 0))

abbrev struct_at : ℕ
struct_at = struct_call.0.0

buffer_call :
    (r : ℕ × Heap) × (kmalloc 320 struct_call.0.1 ≡ some r)
    × (r.0 ≡ pointer (first_fit (need_size 320) heap_start blocks1).0)
    × IsHeap r.1 (first_fit (need_size 320) heap_start blocks1).1
    × Keeps struct_call.0.1 r.1 heap_start blocks1
buffer_call = kmalloc-need_size 320 struct_call.0.1 blocks1 (omega arith) struct_call.3

struct_is : struct_at ≡ 0x200004
unfolding first_fit need_size
struct_is = struct_call.2

buffer_is : buffer_call.0.0 ≡ 0x20005C
unfolding first_fit need_size
buffer_is = buffer_call.2

struct_fresh : find_window struct_at two_windows.windows ≡ none
struct_fresh = rw struct_is refl

struct_unfocused : is_focus two_windows.focus struct_at ≡ false
struct_unfocused = rw struct_is refl

wm_create_window_example :
    (wm' : Wm) × (wm_create_window (pos 3) (pos 4) 10 8 (72 ∷ []) two_windows
      ≡ some (some struct_at, wm'))
    × Created
        (new_window struct_at buffer_call.0.0 (pos 3) (pos 4) 10 8 (72 ∷ []))
        struct_at
        (record two_windows { heap = buffer_call.0.1 })
        wm'
wm_create_window_example =
    wm_create_window-Created (pos 3) (pos 4) 10 8 (72 ∷ []) two_windows struct_at buffer_call.0.0
      struct_call.0.1 buffer_call.0.1 refl struct_call.1 (omega (arith, struct_is)) buffer_call.1
      (omega (arith, buffer_is)) (omega arith) struct_fresh struct_unfocused
      (omega arith, (omega arith, tt))
