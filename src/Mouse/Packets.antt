-- ===== src/Mouse/Packets.antt =====
-- The byte stream of the mouse: what `mouse_handler` of drivers/mouse.c puts into the ring for a
-- stream of PS/2 packets and noise, and what `mouse_read` gives back.
use sros.Prelude.{
  ℕ, suc, ◌+◌, ◌-◌, ◌%◌, ◌≤◌, ◌<◌, ◌≡◌, ap, ◌∙◌, ◌≢◌, true, false, some, List, [], ◌∷◌, ◌++◌, arith,
  ◌==◌, length, get_or, modify, length-modify,
}
use sros.Prelude.Window.{window, window-push, window-pop}
use sros.Mouse.{Mouse, MouseEvent, mouse_buffer_size, no_event, mouse_buffer_put, mouse_read}

-- The number of events in the ring, and the events, oldest first.
abbrev pub count : Mouse → ℕ
count m = (m.head + 64 - m.tail) % 64

abbrev pub held : Mouse → List MouseEvent
held m = window no_event mouse_buffer_size m.buffer m.tail (count m)

pub record IsRing (m : Mouse) : Type 0 where
  pub slots : length m.buffer ≡ mouse_buffer_size
  pub head_in : m.head < mouse_buffer_size
  pub tail_in : m.tail < mouse_buffer_size

apart_64 : (a b : ℕ) → a < b → b < a + 64 → b % 64 ≢ a % 64
apart_64 a b lo hi e = omega arith

next_64 : (a b : ℕ) → a % 64 ≡ b % 64 → (a + 1) % 64 ≡ (b + 1) % 64
next_64 a b e = omega arith

put-room :
    (ev : MouseEvent) (m : Mouse)
    → IsRing m
    → count m < 63
    → mouse_buffer_put ev m
      ≡ record m { buffer = modify m.buffer m.head (λ _. ev); head = (m.head + 1) % 64 }
unfolding mouse_buffer_put
put-room ev m v room =
    let free : ((m.head + 1) % 64 == m.tail) ≡ false = ground (arith, v.head_in, v.tail_in) in
    rw free

pub put-full : (ev : MouseEvent) (m : Mouse) → IsRing m → 63 ≤ count m → mouse_buffer_put ev m ≡ m
unfolding mouse_buffer_put
put-full ev m v full =
    let taken : ((m.head + 1) % 64 == m.tail) ≡ true = ground (arith, v.head_in, v.tail_in) in
    rw taken

-- A mouse whose handler stands between two packets.
pub record Between (m : Mouse) : Type 0 where
  pub ring : IsRing m
  pub at_start : m.cycle ≡ 0
  pub three : length m.packet ≡ 3

pub put-Between :
    (ev : MouseEvent) (m : Mouse)
    → Between m
    → count m < 63
    → Between (mouse_buffer_put ev m)
      × (count (mouse_buffer_put ev m) ≡ suc (count m))
      × (held (mouse_buffer_put ev m) ≡ held m ++ ev ∷ [])
put-Between ev m v room =
    let grown =
      window-push no_event mouse_buffer_size apart_64 m.buffer m.tail (count m) m.head (λ _. ev)
        (omega arith) (omega (arith, v.ring.head_in, v.ring.tail_in))
        (omega (arith, v.ring.slots, v.ring.head_in)) in
    let one_more : ((m.head + 1) % 64 + 64 - m.tail) % 64 ≡ suc (count m) =
      omega (arith, v.ring.head_in, v.ring.tail_in) in
    rw (put-room ev m v.ring room) (
      record {
        ring = record {
          slots = length-modify m.buffer m.head (λ _. ev) ∙ v.ring.slots;
          head_in = omega arith;
          tail_in = v.ring.tail_in;
        };
        at_start = v.at_start;
        three = v.three;
      },
      one_more,
      ap (window no_event mouse_buffer_size (modify m.buffer m.head (λ _. ev)) m.tail) one_more
          ∙ grown,
    )

-- A read from a well-formed mouse ring that is not empty gives its oldest event, keeps it well-
-- formed and leaves the other events in order.
pub mouse_read_lem :
    (m : Mouse)
    → IsRing m
    → 0 < count m
    → (ev : MouseEvent) × (m' : Mouse) × (mouse_read m ≡ (some ev, m'))
      × IsRing m'
      × (held m ≡ ev ∷ held m')
unfolding mouse_read
mouse_read_lem m v some_left =
    let full : (m.head == m.tail) ≡ false = ground (arith, v.head_in, v.tail_in) in
    let next = (m.tail + 1) % 64 in
    (
      get_or m.buffer m.tail no_event,
      record m { tail = next },
      rw full,
      record { slots = v.slots; head_in = v.head_in; tail_in = omega arith },
      window-pop no_event mouse_buffer_size next_64 m.buffer m.tail next (count m)
          ((m.head + 64 - next) % 64) (omega (arith, v.head_in, v.tail_in))
          (omega (arith, v.tail_in)) (omega arith),
    )
