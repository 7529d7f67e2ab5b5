-- ===== src/Ipc/Msg.antt =====
-- kernel/ipc.c: the message queues. A buffer of the caller is the list of its bytes, and NULL is
-- `none`.
pub mod Ring
use sros.Prelude.{
  ℕ, zero, suc, ◌+◌, ◌-◌, ◌%◌, ◌++◌, Bool, true, false, Option, none, some, List, [], ℤ, minus_one,
  is_neg, eq_int, inc_int, if◌then◌else◌, leb, ltb, ◌==◌, map, length, get_or, modify, find_index,
  take, drop,
}
use sros.Task.{TaskQueue, empty_queue}
use sros.Scheduler.{Sched, CallResult, returns, sleeps}
use sros.Ipc.Sem.{sem_init}
use sros.Ipc.{Ipc, Message, MsgQueue, block_on, wake_first, wake_all}

-- MSGQUEUE_SIZE and MSG_MAX_DATA
abbrev pub msgqueue_size : ℕ
msgqueue_size = 64

abbrev pub msg_max_data : ℕ
msg_max_data = 64

abbrev pub no_message : Message
no_message = record { len = 0; bytes = [] }

abbrev pub no_queue : MsgQueue
no_queue = record {
  id = minus_one;
  msgs = [];
  head = 0;
  tail = 0;
  count = 0;
  recv_wait = empty_queue;
  send_wait = empty_queue;
}

abbrev pub mq_at : Ipc → ℕ → MsgQueue
mq_at k i = get_or k.mq_table i no_queue

abbrev pub update_mq : ℕ → (MsgQueue → MsgQueue) → Ipc → Ipc
update_mq i f k = record k { mq_table = modify k.mq_table i f }

pub msg_queue_init : Ipc → Ipc
msg_queue_init k = record k {
  mq_table = map (λ (q : MsgQueue). record q { id = minus_one }) k.mq_table;
}

mq_find_slot : Ipc → Option ℕ
mq_find_slot k = find_index (λ (q : MsgQueue). is_neg q.id) k.mq_table

pub find_mq : ℤ → Ipc → Option ℕ
find_mq mq_id k = find_index (λ (q : MsgQueue). eq_int q.id mq_id) k.mq_table

create_at : Option ℕ → Ipc → ℤ × Ipc
create_at none k = (minus_one, k)
create_at (some i) k = (
  k.mq_count,
  record (update_mq i
      (λ q. record q {
        id = k.mq_count;
        head = 0;
        tail = 0;
        count = 0;
        recv_wait = empty_queue;
        send_wait = empty_queue;
      })
      k) { mq_count = inc_int k.mq_count },
)

pub msg_queue_create : Ipc → ℤ × Ipc
unfolding create_at mq_find_slot
msg_queue_create k = create_at (mq_find_slot k) k

-- The overwriting of the front of a buffer by `memcpy`.
abbrev pub overwrite : List ℕ → List ℕ → List ℕ
overwrite buf bs = bs ++ drop (length bs) buf

-- The write into the ring, at an index that the code keeps below 64.
pub put_message : ℕ → List ℕ → MsgQueue → MsgQueue
put_message len payload q = record q {
  msgs =
      modify q.msgs q.tail
        (λ m. record { len = len; bytes = overwrite m.bytes (take len payload) });
  tail = (q.tail + 1) % msgqueue_size;
  count = q.count + 1;
}

-- The removal from the ring; `msg->len` bytes are copied out.
pub take_message : MsgQueue → (ℕ × List ℕ) × MsgQueue
take_message q =
    let m = get_or q.msgs q.head no_message in
    (
      (m.len, take m.len m.bytes),
      record q { head = (q.head + 1) % msgqueue_size; count = q.count - 1 },
    )

-- Wake the first waiting receiver, or the first waiting sender, of the queue in slot `i`.
wake_receiver : ℕ → Ipc → Ipc
wake_receiver i k = elim (mq_at k i).recv_wait.head [
  | none ↦ k
  | some _ ↦
      let (s, q) = wake_first (mq_at k i).recv_wait k.sched in
      record (update_mq i (λ m. record m { recv_wait = q }) k) { sched = s }
]

wake_sender : ℕ → Ipc → Ipc
wake_sender i k = elim (mq_at k i).send_wait.head [
  | none ↦ k
  | some _ ↦
      let (s, q) = wake_first (mq_at k i).send_wait k.sched in
      record (update_mq i (λ m. record m { send_wait = q }) k) { sched = s }
]

sleep_to_send : ℕ → Option ℕ → Ipc → CallResult × Ipc
sleep_to_send i none k = (returns minus_one, k)
sleep_to_send i (some c) k =
    let (s, q) = block_on c (mq_at k i).send_wait k.sched in
    (sleeps, record (update_mq i (λ m. record m { send_wait = q }) k) { sched = s })

sleep_to_recv : ℕ → Option ℕ → Ipc → CallResult × Ipc
sleep_to_recv i none k = (returns minus_one, k)
sleep_to_recv i (some c) k =
    let (s, q) = block_on c (mq_at k i).recv_wait k.sched in
    (sleeps, record (update_mq i (λ m. record m { recv_wait = q }) k) { sched = s })

-- `if (len > MSG_MAX_DATA) len = MSG_MAX_DATA;`
abbrev pub clamp_len : ℕ → ℕ
clamp_len len = if ltb msg_max_data len then msg_max_data else len

-- One round of the loop of `msg_queue_send`, on the queue in slot `i`, where a resumed task goes
-- round again.
pub send_round : ℕ → List ℕ → ℕ → Ipc → CallResult × Ipc
unfolding wake_receiver sleep_to_send put_message
send_round i payload len k =
    if leb msgqueue_size (mq_at k i).count
    then sleep_to_send i k.sched.current k
    else (returns (ℤ.pos 0), wake_receiver i (update_mq i (put_message len payload) k))

send_at : Option ℕ → Option (List ℕ) → ℕ → Ipc → CallResult × Ipc
unfolding send_round
send_at (some i) (some payload) len k = send_round i payload (clamp_len len) k
send_at _ _ len k = (returns minus_one, k)

pub msg_queue_send : ℤ → Option (List ℕ) → ℕ → Ipc → CallResult × Ipc
unfolding send_at
msg_queue_send mq_id payload len k =
    if is_neg mq_id then (returns minus_one, k) else send_at (find_mq mq_id k) payload len k

-- What a successful receive stores through its two pointers: the length and the bytes.
abbrev pub Received : Type 0
Received = Option (ℕ × List ℕ)

-- One round of the loop of `msg_queue_recv`.
pub recv_round : ℕ → Ipc → CallResult × Received × Ipc
unfolding wake_sender sleep_to_recv take_message
recv_round i k =
    if (mq_at k i).count == 0
    then (let (r, k') = sleep_to_recv i k.sched.current k in (r, none, k'))
    else (let (m, q) = take_message (mq_at k i) in
        (returns (ℤ.pos 0), some m, wake_sender i (update_mq i (λ _. q) k)))

recv_at : Option ℕ → Bool → Ipc → CallResult × Received × Ipc
unfolding recv_round
recv_at (some i) true k = recv_round i k
recv_at _ _ k = (returns minus_one, none, k)

-- `has_buffers` says that neither `buf` nor `len` is NULL.
pub msg_queue_recv : ℤ → Bool → Ipc → CallResult × Received × Ipc
unfolding recv_at
msg_queue_recv mq_id has_buffers k =
    if is_neg mq_id then (returns minus_one, none, k) else recv_at (find_mq mq_id k) has_buffers k

-- The slot after its waiters have been woken; the messages stay in the array.
cleared : ℕ → Ipc → Sched → Ipc
cleared i k s =
    record (update_mq i
      (λ q. record q {
        id = minus_one;
        head = 0;
        tail = 0;
        count = 0;
        recv_wait = empty_queue;
        send_wait = empty_queue;
      })
      k) { sched = s }

-- Receivers first, then senders.
wake_both : ℕ → Ipc → Option Sched
wake_both i k =
    let fuel = length k.sched.tasks + 1 in
    elim (wake_all fuel (mq_at k i).recv_wait.head k.sched) [
      | none ↦ none
      | some s ↦ wake_all fuel (mq_at k i).send_wait.head s
    ]

destroy_at : Option ℕ → Ipc → Option (ℤ × Ipc)
unfolding cleared wake_both
destroy_at none k = some (minus_one, k)
destroy_at (some i) k = elim (wake_both i k) [
  | none ↦ none
  | some s ↦ some (ℤ.pos 0, cleared i k s)
]

-- `none` is a loop that does not end.
pub msg_queue_destroy : ℤ → Ipc → Option (ℤ × Ipc)
unfolding destroy_at find_mq
msg_queue_destroy mq_id k =
    if is_neg mq_id then some (minus_one, k) else destroy_at (find_mq mq_id k) k

pub ipc_init : Ipc → Ipc
unfolding msg_queue_init
ipc_init k = msg_queue_init (sem_init k)
