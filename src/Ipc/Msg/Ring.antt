-- ===== src/Ipc/Msg/Ring.antt =====
-- The ring buffer of a message queue of kernel/ipc.c refines a FIFO of at most 64 messages.
use sros.Prelude.{
  ℕ, zero, suc, ◌+◌, ◌-◌, ◌%◌, ◌≤◌, ◌<◌, ◌≡◌, refl, ap, ◌∙◌, ◌≢◌, List, [], ◌∷◌, ◌++◌, arith,
  length, get_or, modify, length-modify, take, map,
}
use mathlib.Core.List.{map-append}
use sros.Prelude.Window.{window, window-pop, window-push}
use sros.Ipc.{Message, MsgQueue}
use sros.Ipc.Msg.{no_message, msgqueue_size, overwrite, put_message, take_message}

-- What a receiver gets of a message: its length, and as many bytes.
abbrev pub delivered : Message → ℕ × List ℕ
delivered m = (m.len, take m.len m.bytes)

-- The messages in the ring, oldest first.
abbrev pub pending : MsgQueue → List Message
pending q = window no_message msgqueue_size q.msgs q.head q.count

pub record IsRing (q : MsgQueue) : Type 0 where
  pub slots : length q.msgs ≡ msgqueue_size
  pub head_in : q.head < msgqueue_size
  pub tail_is : q.tail ≡ (q.head + q.count) % msgqueue_size
  pub count_in : q.count ≤ msgqueue_size

apart_64 : (a b : ℕ) → a < b → b < a + 64 → b % 64 ≢ a % 64
apart_64 a b lo hi e = omega arith

next_64 : (a b : ℕ) → a % 64 ≡ b % 64 → (a + 1) % 64 ≡ (b + 1) % 64
next_64 a b e = omega arith

take-append : (n : ℕ) (xs ys : List ℕ) → length xs ≡ n → take n (xs ++ ys) ≡ xs
take-append zero [] ys e = refl
take-append zero (x ∷ xs) ys e = absurd (omega arith)
take-append (suc n) [] ys e = absurd (omega arith)
take-append (suc n) (x ∷ xs) ys e = ap (λ zs. x ∷ zs) (take-append n xs ys (omega arith))

length-take_le : (n : ℕ) (xs : List ℕ) → n ≤ length xs → length (take n xs) ≡ n
length-take_le zero xs h = refl
length-take_le (suc n) [] h = absurd (omega arith)
length-take_le (suc n) (x ∷ xs) h = ap suc (length-take_le n xs (omega arith))

window-front :
    (msgs : List Message) (h n : ℕ)
    → h < msgqueue_size
    → 0 < n
    → window no_message msgqueue_size msgs h n
      ≡ get_or msgs h no_message
        ∷ window no_message msgqueue_size msgs ((h + 1) % msgqueue_size) (n - 1)
window-front msgs h n inside some_left =
    window-pop no_message msgqueue_size next_64 msgs h ((h + 1) % msgqueue_size) n (n - 1)
      (omega arith) (omega arith) (omega arith)

-- A message of len bytes that is put into a well-formed ring with room keeps the ring well-formed
-- and joins the end of its messages, with exactly the first len bytes of the payload.
pub put_message_lem :
    (q : MsgQueue) (len : ℕ) (payload : List ℕ)
    → IsRing q
    → q.count < msgqueue_size
    → len ≤ length payload
    → let q' = put_message len payload q in
      IsRing q'
      × (map delivered (pending q') ≡ map delivered (pending q) ++ (len, take len payload) ∷ [])
unfolding put_message
put_message_lem q len payload v room enough =
    let write_one : Message → Message =
      λ m. record { len = len; bytes = overwrite m.bytes (take len payload) } in
    let one_more : q.count + 1 ≡ suc q.count = omega arith in
    let grown =
      window-push no_message msgqueue_size apart_64 q.msgs q.head q.count q.tail write_one room
        v.tail_is (omega (arith, v.slots)) in
    (
      record {
        slots = length-modify q.msgs q.tail write_one ∙ v.slots;
        head_in = v.head_in;
        tail_is = omega arith;
        count_in = omega arith;
      },
      ap
            (λ n.
              map delivered
                (window no_message msgqueue_size (modify q.msgs q.tail write_one) q.head n))
            one_more
          ∙ ap (map delivered) grown
          ∙ map-append delivered (pending q) (write_one (get_or q.msgs q.tail no_message) ∷ [])
          ∙ ap (λ bs. map delivered (pending q) ++ (len, bs) ∷ [])
              (take-append len (take len payload) _ (length-take_le len payload enough)),
    )

-- Taking a message from a well-formed ring that is not empty keeps it well-formed, gives the
-- oldest message and leaves the others in order.
pub take_message_lem :
    (q : MsgQueue)
    → IsRing q
    → 0 < q.count
    → let (m, q') = take_message q in
      IsRing q' × (map delivered (pending q) ≡ m ∷ map delivered (pending q'))
unfolding take_message
take_message_lem q v some_left = (
  record { slots = v.slots; head_in = omega arith; tail_is = omega arith; count_in = omega arith },
  ap (map delivered) (window-front q.msgs q.head q.count v.head_in some_left),
)
