-- ===== src/Cursor/Poll.antt =====
-- `cursor_poll_mouse` of drivers/cursor.c empties the ring of drivers/mouse.c: its loop ends, and
-- the cursor has made the moves of all events, oldest first.
use sros.Prelude.{
  ℕ, zero, suc, ◌<◌, ◌≡◌, refl, sym, ap, ◌∙◌, true, Option, none, some, List, [], ◌∷◌, arith, ◌==◌,
  length,
}
use sros.Prelude.Window.{length-window}
use sros.Mouse.{Mouse, MouseEvent, no_event, mouse_buffer_size, mouse_read}
use sros.Mouse.Packets.{IsRing, count, held, mouse_read_lem}
use sros.Cursor.{Screen, neg_int, cursor_move, cursor_poll_mouse}

-- The moves of a list of events.
abbrev pub moves : List MouseEvent → Screen → Screen
moves [] s = s
moves (ev ∷ es) s = moves es (cursor_move ev.dx (neg_int ev.dy) s)

mouse_read-empty : (m : Mouse) → IsRing m → count m ≡ 0 → mouse_read m ≡ (none, m)
unfolding mouse_read
mouse_read-empty m v none_left =
    let same : (m.head == m.tail) ≡ true = ground (arith, v.head_in, v.tail_in) in rw same

held-nil : (m : Mouse) → held m ≡ [] → count m ≡ 0
held-nil m e =
    sym (length-window no_event mouse_buffer_size m.buffer m.tail (count m)) ∙ ap length e

held-cons : (m : Mouse) (ev : MouseEvent) (es : List MouseEvent) → held m ≡ ev ∷ es → 0 < count m
held-cons m ev es e =
    let many : count m ≡ suc (length es) =
      sym (length-window no_event mouse_buffer_size m.buffer m.tail (count m)) ∙ ap length e in
    omega arith

cons-inj : (x y : MouseEvent) (xs ys : List MouseEvent) → x ∷ xs ≡ y ∷ ys → (x ≡ y) × (xs ≡ ys)
cons-inj x y xs ys e = (cc, cc)

-- What the loop leaves.
abbrev pub Polled : List MouseEvent → Screen → Option (Mouse × Screen) → Type 0
Polled es s r = (m' : Mouse) × (r ≡ some (m', moves es s)) × IsRing m' × (held m' ≡ [])

-- One round, by what the read gives.
poll_round_lem :
    (rounds : ℕ) (m m' : Mouse) (s : Screen) (r : Option MouseEvent)
    → mouse_read m ≡ (r, m')
    → cursor_poll_mouse (suc rounds) m s ≡ elim r [
      | none ↦ some (m', s)
      | some ev ↦ cursor_poll_mouse rounds m' (cursor_move ev.dx (neg_int ev.dy) s)
    ]
unfolding cursor_poll_mouse
poll_round_lem rounds m m' s r e =
    ap
      (λ (p : Option MouseEvent × Mouse). elim p.0 [
        | none ↦ some (p.1, s)
        | some ev ↦ cursor_poll_mouse rounds p.1 (cursor_move ev.dx (neg_int ev.dy) s)
      ])
      e

poll_all :
    (rounds : ℕ) (m : Mouse) (s : Screen) (es : List MouseEvent)
    → IsRing m
    → held m ≡ es
    → length es < rounds
    → Polled es s (cursor_poll_mouse rounds m s)
poll_all zero m s es v e enough = absurd (omega arith)
poll_all (suc rounds) m s [] v e enough =
    (m, poll_round_lem rounds m m s none (mouse_read-empty m v (held-nil m e)), v, e)
poll_all (suc rounds) m s (ev ∷ es) v e enough =
    let (ev', m', reads, v', rest) = mouse_read_lem m v (held-cons m ev es e) in
    let (same, others) = cons-inj ev ev' es (held m') (sym e ∙ rest) in
    rw (poll_round_lem rounds m m' s (some ev') reads, sym same)
      (poll_all rounds m' (cursor_move ev.dx (neg_int ev.dy) s) es v' (sym others) (omega arith))

-- On a well-formed mouse ring the loop of cursor_poll_mouse ends within 64 rounds; the ring is
-- then well-formed and empty, and the cursor has made the moves of all events that it held, oldest
-- first.
pub cursor_poll_mouse-Polled :
    (m : Mouse) (s : Screen) → IsRing m → Polled (held m) s (cursor_poll_mouse 64 m s)
cursor_poll_mouse-Polled m s v =
    poll_all 64 m s (held m) v refl
      (rw (length-window no_event mouse_buffer_size m.buffer m.tail (count m)) (omega arith))
