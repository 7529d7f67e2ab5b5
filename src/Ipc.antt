-- ===== src/Ipc.antt =====
-- kernel/ipc.c: counting semaphores and message queues over the tasks of kernel/scheduler.c. The
-- code between `cli` and `sti` runs undivided, and so does each function of the model.
pub mod Sem
pub mod Msg
pub mod Waiters
use sros.Prelude.{ℕ, zero, suc, Option, none, some, List, [], ℤ, minus_one, map, get_or, modify}
use sros.Task.{Task, TaskQueue, empty_queue, set_state, set_next, task_at, push_back, pop_front}
use sros.Scheduler.{Sched, update, task_block, task_wake}

-- `sem_t`
pub record Semaphore : Type 0 where
  pub id : ℤ
  pub name : List ℕ
  pub value : ℤ
  pub wait : TaskQueue

-- `message_t`
pub record Message : Type 0 where
  pub len : ℕ
  pub bytes : List ℕ

-- `msg_queue_t`
pub record MsgQueue : Type 0 where
  pub id : ℤ
  pub msgs : List Message
  pub head : ℕ
  pub tail : ℕ
  pub count : ℕ
  pub recv_wait : TaskQueue
  pub send_wait : TaskQueue

pub record Ipc : Type 0 where
  pub sched : Sched
  pub sem_table : List Semaphore
  pub sem_count : ℤ
  pub mq_table : List MsgQueue
  pub mq_count : ℤ

-- The code that `sem_wait`, `msg_queue_send` and `msg_queue_recv` share word for word: block the
-- current task `c` and append it to a wait queue.
pub block_on : ℕ → TaskQueue → Sched → Sched × TaskQueue
block_on c q s =
    let s1 = task_block s in let (ts, q') = push_back s1.tasks q c in (record s1 { tasks = ts }, q')

-- Wake the task that a removal from a wait queue has given.
pub wake_popped : Sched → Option ℕ × List Task × TaskQueue → Sched × TaskQueue
wake_popped s (w, ts, q) = (task_wake w (record s { tasks = ts }), q)

-- The code that `sem_post`, `msg_queue_send` and `msg_queue_recv` share: take the first waiter off
-- a wait queue that has one, and wake it.
pub wake_first : TaskQueue → Sched → Sched × TaskQueue
unfolding wake_popped
wake_first q s = wake_popped s (pop_front s.tasks q)

-- The loop of the destroying functions over a wait queue from its head on. A queue whose pointers
-- make a circle keeps the loop busy for ever, which shows as `none`.
pub wake_all : ℕ → Option ℕ → Sched → Option Sched
wake_all zero head s = none
wake_all (suc fuel) none s = some s
wake_all (suc fuel) (some w) s =
    wake_all fuel (task_at s.tasks w).next (task_wake (some w) (update w (set_next none) s))
