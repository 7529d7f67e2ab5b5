-- ===== src/Mouse.antt =====
-- drivers/mouse.c: the ring of mouse events, and the state machine that gathers the three bytes of a
-- PS/2 packet. `mouse_init` and its helpers only talk to the controller's ports.
pub mod Packets
pub mod Pieces
pub mod Stream
use sros.Prelude.{
  ℕ, zero, suc, ◌+◌, ◌-◌, ◌/◌, ◌%◌, Bool, true, false, not, Option, none, some, List, [], ◌∷◌, ℤ,
  pos, negsuc, ltb, ◌==◌, if◌then◌else◌, get_or, modify, set,
}

-- `mouse_event_t`
pub record MouseEvent : Type 0 where
  pub buttons : ℕ
  pub dx : ℤ
  pub dy : ℤ

abbrev pub mouse_buffer_size : ℕ
mouse_buffer_size = 64

abbrev pub no_event : MouseEvent
no_event = record { buttons = 0; dx = ℤ.pos 0; dy = ℤ.pos 0 }

-- `mouse_buffer` with its two indices, `mouse_cycle` and the three bytes of `mouse_packet`.
pub record Mouse : Type 0 where
  pub buffer : List MouseEvent
  pub head : ℕ
  pub tail : ℕ
  pub cycle : ℕ
  pub packet : List ℕ

-- `(i8)b`
abbrev pub of_i8 : ℕ → ℤ
of_i8 b = if ltb b 128 then pos b else negsuc (255 - b)

-- A full ring drops the event.
pub mouse_buffer_put : MouseEvent → Mouse → Mouse
mouse_buffer_put ev m =
    let next = (m.head + 1) % mouse_buffer_size in
    if next == m.tail
    then m
    else record m { buffer = modify m.buffer m.head (λ _. ev); head = next }

-- `none` is the result 0.
unfoldable pub mouse_read : Mouse → Option MouseEvent × Mouse
mouse_read m = if m.head == m.tail then (none, m) else (
  some (get_or m.buffer m.tail no_event),
  record m { tail = (m.tail + 1) % mouse_buffer_size },
)

pub mouse_has_data : Mouse → Bool
mouse_has_data m = not (m.head == m.tail)

-- The event of a whole packet.
abbrev pub event_of : List ℕ → MouseEvent
event_of p = record {
  buttons = get_or p 0 0 % 8;
  dx = of_i8 (get_or p 1 0);
  dy = of_i8 (get_or p 2 0);
}

-- The end of a packet: it is dropped if one of its overflow bits is set.
abbrev pub finish_packet : Mouse → Mouse
finish_packet m =
    if get_or m.packet 0 0 / 64 % 4 == 0 then mouse_buffer_put (event_of m.packet) m else m

-- `mouse_handler`, for the byte that it reads from port 0x60.
pub mouse_handler : ℕ → Mouse → Mouse
mouse_handler b m =
    if m.cycle == 0
    then (if b / 8 % 2 == 1 then record m { packet = set m.packet 0 b; cycle = 1 } else m)
    else if m.cycle == 1
    then record m { packet = set m.packet 1 b; cycle = 2 }
    else if m.cycle == 2
    then finish_packet (record m { packet = set m.packet 2 b; cycle = 0 })
    else m
