-- ===== src/Tests/Mouse.antt =====
-- A mouse whose ring is empty and goes round at once, and a stream with a movement to the left, a
-- byte out of step, an overflow and a click.
use sros.Prelude.{refl, List, [], ◌∷◌, arith, replicate, pos, negsuc}
use sros.Mouse.{Mouse, MouseEvent, no_event}
use sros.Mouse.Packets.{IsRing, Between}
use sros.Mouse.Pieces.{Piece, motion, overflow, noise, stream_bytes, stream_events, handle_all}
use sros.Mouse.Stream.{Gains, handle_all-Gains}

abbrev quiet : Mouse
quiet = record {
  buffer = replicate 64 no_event;
  head = 63;
  tail = 63;
  cycle = 0;
  packet = 0 ∷ 0 ∷ 0 ∷ [];
}

quiet-Between : Between quiet
quiet-Between = record {
  ring = record { slots = refl; head_in = omega arith; tail_in = omega arith };
  at_start = refl;
  three = refl;
}

abbrev to_left : MouseEvent
to_left = record { buttons = 0; dx = negsuc 4; dy = pos 3 }

abbrev click : MouseEvent
click = record { buttons = 1; dx = pos 0; dy = pos 0 }

abbrev pieces : List Piece
pieces = motion to_left ∷ noise 0x51 ∷ overflow 0x48 1 2 ∷ motion click ∷ []

handle_all-Gains_example :
    Gains quiet (stream_events pieces) (handle_all (stream_bytes pieces) quiet)
handle_all-Gains_example = handle_all-Gains pieces quiet quiet-Between (
  (omega arith, omega arith, omega arith),
  (refl, ((refl, omega arith), ((omega arith, omega arith, omega arith), tt))),
)

abbrev pub moved : Mouse
moved = record quiet { head = 0 }

pub moved-IsRing : IsRing moved
moved-IsRing = record { slots = refl; head_in = omega arith; tail_in = omega arith }
