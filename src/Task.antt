-- ===== src/Task.antt =====
-- The process control blocks of include/scheduler.h and the intrusive FIFO lists that thread them:
-- the ready queue of kernel/scheduler.c, and the wait queues of kernel/ipc.c, whose code repeats
-- that of the ready queue in line. A `task_t *` is the index of its slot in `task_table`, and NULL
-- is `none`; all queues share the one `next` field of each slot.
pub mod Chain
pub mod Queue
use sros.Prelude.{ℕ, zero, suc, Option, none, some, List, [], ◌∷◌, ℤ, minus_one, get_or, modify}

-- TASK_READY, TASK_RUNNING, TASK_BLOCKED, TASK_ZOMBIE. TASK_FREE is assigned nowhere in the code: a
-- free slot has pid -1.
pub data TaskState : Type 0 where
  ready running blocked zombie : TaskState

-- `task_t`. The name is its bytes before the NUL.
pub record Task : Type 0 where
  pub pid : ℤ
  pub parent_pid : ℤ
  pub state : TaskState
  pub exit_code : ℤ
  pub kernel_esp : ℕ
  pub kernel_stack_base : ℕ
  pub kernel_stack_top : ℕ
  pub page_dir : ℕ
  pub name : List ℕ
  pub next : Option ℕ

-- A slot that `memset` has cleared and marked free by `pid = -1`.
abbrev pub free_slot : Task
free_slot = record {
  pid = minus_one;
  parent_pid = ℤ.pos 0;
  state = ready;
  exit_code = ℤ.pos 0;
  kernel_esp = 0;
  kernel_stack_base = 0;
  kernel_stack_top = 0;
  page_dir = 0;
  name = [];
  next = none;
}

abbrev pub Table : Type 0
Table = List Task

abbrev pub task_at : Table → ℕ → Task
task_at ts i = get_or ts i free_slot

-- `task->next = p`
abbrev pub set_next : Option ℕ → Task → Task
set_next p t = record t { next = p }

-- `task->state = st`
abbrev pub set_state : TaskState → Task → Task
set_state st t = record t { state = st }

-- A head and a tail pointer.
pub record TaskQueue : Type 0 where
  pub head : Option ℕ
  pub tail : Option ℕ

abbrev pub empty_queue : TaskQueue
empty_queue = record { head = none; tail = none }

-- Write the link from the old tail, or the head of an empty queue.
link_last : Table → TaskQueue → ℕ → Table × TaskQueue
link_last ts q i = elim q.tail [
  | none ↦ (ts, record { head = some i; tail = some i })
  | some t ↦ (modify ts t (set_next (some i)), record q { tail = some i })
]

pub push_back : Table → TaskQueue → ℕ → Table × TaskQueue
unfolding link_last
push_back ts q i = link_last (modify ts i (set_next none)) q i

-- The queue that is left when its head's successor is `next`.
abbrev pub after_head : TaskQueue → Option ℕ → TaskQueue
after_head q none = empty_queue
after_head q (some n) = record q { head = some n }

pub pop_front : Table → TaskQueue → Option ℕ × Table × TaskQueue
pop_front ts q = elim q.head [
  | none ↦ (none, ts, q)
  | some h ↦ (some h, modify ts h (set_next none), after_head q (task_at ts h).next)
]
