-- ===== src/Mouse/Stream.antt =====
-- The events that `mouse_handler` of drivers/mouse.c makes of the stream of bytes that a PS/2 mouse
-- sends.
use sros.Prelude.{
  ℕ, zero, suc, ◌+◌, ◌-◌, ◌*◌, ◌/◌, ◌%◌, ◌≤◌, ◌<◌, ◌≡◌, refl, sym, ap, ◌∙◌, true, false, List, [],
  ◌∷◌, ◌++◌, append_assoc, append-nil, arith, ℤ, pos, negsuc, ◌==◌, length, set, ltb, take,
  Bool-cases, inl, inr,
}
use sros.Mouse.{Mouse, MouseEvent, of_i8, event_of, mouse_buffer_put, finish_packet, mouse_handler}
use sros.Mouse.Packets.{Between, count, held, put-Between, put-full}
use sros.Mouse.Pieces.{
  Piece, motion, overflow, noise, sign_bit, low_byte, IsI8, IsPiece, first_byte, bytes_of,
  stream_bytes, stream_events, AllPieces, handle_all,
}

set_three : (p : List ℕ) (a b c : ℕ) → length p ≡ 3 → set (set (set p 0 a) 1 b) 2 c ≡ a ∷ b ∷ c ∷ []
set_three (x ∷ y ∷ z ∷ []) a b c e = refl
set_three [] a b c e = absurd (omega arith)
set_three (x ∷ []) a b c e = absurd (omega arith)
set_three (x ∷ y ∷ []) a b c e = absurd (omega arith)
set_three (x ∷ y ∷ z ∷ w ∷ p) a b c e = absurd (omega arith)

-- The mouse after the bytes of a packet, before its end is looked at.
abbrev gathered : ℕ → ℕ → ℕ → Mouse → Mouse
gathered a b c m = record m { packet = a ∷ b ∷ c ∷ []; cycle = 0 }

handle_three :
    (a b c : ℕ) (m : Mouse)
    → Between m
    → a / 8 % 2 ≡ 1
    → mouse_handler c (mouse_handler b (mouse_handler a m)) ≡ finish_packet (gathered a b c m)
unfolding mouse_handler
handle_three a b c m v bit =
    let start : (m.cycle == 0) ≡ true = ground (arith, v.at_start) in
    let marked : (a / 8 % 2 == 1) ≡ true = ground arith in
    rw (start, marked)
      (ap (λ p. finish_packet (record m { packet = p; cycle = 0 }))
        (set_three m.packet a b c v.three))

of_i8-low_byte : (z : ℤ) → IsI8 z → of_i8 (low_byte z) ≡ z
of_i8-low_byte (pos n) h = ground arith
of_i8-low_byte (negsuc n) h =
    let far : ltb (255 - n) 128 ≡ false = ground arith in
    let back : 255 - (255 - n) ≡ n = omega arith in rw far (ap negsuc back)

sign_bit_le : (z : ℤ) → sign_bit z ≤ 1
sign_bit_le (pos n) = omega arith
sign_bit_le (negsuc n) = omega arith

-- The first byte has bit 3, no overflow bit, and the buttons.
first_byte_bits :
    (s t b : ℕ)
    → s ≤ 1
    → t ≤ 1
    → b < 8
    → let a = s * 32 + t * 16 + 8 + b in (a / 8 % 2 ≡ 1) × (a / 64 % 4 ≡ 0) × (a % 8 ≡ b)
first_byte_bits s t b hs ht hb = (omega arith, omega arith, omega arith)

event-bytes :
    (ev : MouseEvent)
    → IsPiece (motion ev)
    → (first_byte ev / 8 % 2 ≡ 1)
      × (first_byte ev / 64 % 4 ≡ 0)
      × (event_of (bytes_of (motion ev)) ≡ ev)
event-bytes ev (few, x_in, y_in) =
    let (marked, kept, pressed) =
      first_byte_bits (sign_bit ev.dy) (sign_bit ev.dx) ev.buttons (sign_bit_le ev.dy)
        (sign_bit_le ev.dx) few in
    (
      marked,
      kept,
      λ i. record {
        buttons = pressed i;
        dx = of_i8-low_byte ev.dx x_in i;
        dy = of_i8-low_byte ev.dy y_in i;
      },
    )

-- The mouse between two packets, with the events `es` more than before.
abbrev pub Gains : Mouse → List MouseEvent → Mouse → Type 0
Gains m es m' = Between m' × (held m' ≡ held m ++ take (63 - count m) es)

gathered-Between : (a b c : ℕ) (m : Mouse) → Between m → Between (gathered a b c m)
gathered-Between a b c m v = record {
  ring = record { slots = v.ring.slots; head_in = v.ring.head_in; tail_in = v.ring.tail_in };
  at_start = refl;
  three = refl;
}

finish-keeps :
    (a b c : ℕ) (m : Mouse)
    → a / 64 % 4 ≡ 0
    → finish_packet (gathered a b c m)
      ≡ mouse_buffer_put (event_of (a ∷ b ∷ c ∷ [])) (gathered a b c m)
finish-keeps a b c m e = let kept : (a / 64 % 4 == 0) ≡ true = ground arith in rw kept

finish-drops :
    (a b c : ℕ) (m : Mouse) → 1 ≤ a / 64 % 4 → finish_packet (gathered a b c m) ≡ gathered a b c m
finish-drops a b c m h = let dropped : (a / 64 % 4 == 0) ≡ false = ground arith in rw dropped

handle-overflow :
    (a b c : ℕ) (m : Mouse)
    → Between m
    → IsPiece (overflow a b c)
    → handle_all (bytes_of (overflow a b c)) m ≡ gathered a b c m
handle-overflow a b c m v (marked, over) = handle_three a b c m v marked ∙ finish-drops a b c m over

handle-noise : (b : ℕ) (m : Mouse) → Between m → IsPiece (noise b) → mouse_handler b m ≡ m
unfolding mouse_handler
handle-noise b m v h =
    let start : (m.cycle == 0) ≡ true = ground (arith, v.at_start) in
    let unmarked : (b / 8 % 2 == 1) ≡ false = ground arith in rw (start, unmarked)

handle-motion :
    (ev : MouseEvent) (m : Mouse)
    → Between m
    → IsPiece (motion ev)
    → handle_all (bytes_of (motion ev)) m
      ≡ mouse_buffer_put ev (gathered (first_byte ev) (low_byte ev.dx) (low_byte ev.dy) m)
handle-motion ev m v h =
    let (marked, kept, is_ev) = event-bytes ev h in
    handle_three (first_byte ev) (low_byte ev.dx) (low_byte ev.dy) m v marked
    ∙ finish-keeps (first_byte ev) (low_byte ev.dx) (low_byte ev.dy) m kept
    ∙ ap (λ e. mouse_buffer_put e (gathered (first_byte ev) (low_byte ev.dx) (low_byte ev.dy) m))
        is_ev

handle_all-append :
    (bs cs : List ℕ) (m : Mouse) → handle_all (bs ++ cs) m ≡ handle_all cs (handle_all bs m)
handle_all-append [] cs m = refl
handle_all-append (b ∷ bs) cs m = handle_all-append bs cs (mouse_handler b m)

take-nil : (n : ℕ) → take {A = MouseEvent} n [] ≡ []
take-nil zero = refl
take-nil (suc n) = refl

put_any-Between : (ev : MouseEvent) (m : Mouse) → Between m → Between (mouse_buffer_put ev m)
put_any-Between ev m v = elim (Bool-cases (ltb (count m) 63)) [
  | inl room ↦ (put-Between ev m v (ground arith)).0
  | inr full ↦ rw (put-full ev m v.ring (ground arith)) v
]

-- One event put, and what a run from there gains.
put-Gains :
    (ev : MouseEvent) (es : List MouseEvent) (m m' : Mouse)
    → Between m
    → Gains (mouse_buffer_put ev m) es m'
    → Gains m (ev ∷ es) m'
put-Gains ev es m m' v (v', e) = elim (Bool-cases (ltb (count m) 63)) [
  | inl room ↦
      let (w, one_more, grown) = put-Between ev m v (ground arith) in
      let less : 63 - count m ≡ suc (63 - count (mouse_buffer_put ev m)) =
        ground (arith, one_more) in
      (
        v',
        e
            ∙ ap (λ xs. xs ++ take (63 - count (mouse_buffer_put ev m)) es) grown
            ∙ append_assoc (held m) (ev ∷ []) _
            ∙ sym (ap (λ n. held m ++ take n (ev ∷ es)) less),
      )
  | inr full ↦
      let many : 63 ≤ count m = ground arith in
      let none_left : 63 - count m ≡ 0 = omega arith in
      let same = put-full ev m v.ring many in
      (
        v',
        e
            ∙ ap (λ (k : Mouse). held k ++ take (63 - count k) es) same
            ∙ ap (λ n. held m ++ take n es) none_left
            ∙ sym (ap (λ n. held m ++ take n (ev ∷ es)) none_left),
      )
]

-- From a well-formed mouse between two packets, the bytes of a stream of movements, overflowing
-- packets and bytes out of step lead back between two packets; the ring gains, in order, exactly
-- the movements that were sent, as many of the first as it has room for.
pub handle_all-Gains :
    (ps : List Piece) (m : Mouse)
    → Between m
    → AllPieces ps
    → Gains m (stream_events ps) (handle_all (stream_bytes ps) m)
handle_all-Gains [] m v h =
    (v, sym (append-nil (held m)) ∙ ap (λ xs. held m ++ xs) (sym (take-nil (63 - count m))))
handle_all-Gains (motion ev ∷ ps) m v (h, hs) =
    let k = gathered (first_byte ev) (low_byte ev.dx) (low_byte ev.dy) m in
    let w = gathered-Between (first_byte ev) (low_byte ev.dx) (low_byte ev.dy) m v in
    rw (handle-motion ev m v h) (
      put-Gains ev (stream_events ps) k _ w
        (handle_all-Gains ps (mouse_buffer_put ev k) (put_any-Between ev k w) hs))
handle_all-Gains (overflow a b c ∷ ps) m v (h, hs) =
    rw (handle-overflow a b c m v h)
      (handle_all-Gains ps (gathered a b c m) (gathered-Between a b c m v) hs)
handle_all-Gains (noise b ∷ ps) m v (h, hs) = rw (handle-noise b m v h) (handle_all-Gains ps m v hs)
