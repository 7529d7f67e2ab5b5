-- ===== src/Scheduler.antt =====
-- kernel/scheduler.c: the process table, the ready queue and the scheduling entry. A pointer into
-- `task_table` is a slot index; `current` is `current_task`.
--
-- `int $32` saves the running task's registers and enters `scheduler_tick`. A function that raises
-- it in the middle is modelled up to the interrupt: its result says that the task sleeps, and what
-- it does once it is resumed is said beside it.
pub mod Queue
pub mod Round
pub mod Invariant
pub mod Between
pub mod Steps
pub mod Stacks
pub mod Lifecycle
pub mod Wait
use sros.Prelude.{
  ℕ, zero, suc, ◌+◌, ◌%◌, ◌^◌, Bool, true, false, Option, none, some, [], ◌∷◌, ℤ, minus_one, is_neg,
  inc_int, ltb, ◌==◌, if◌then◌else◌, map, modify, set, find_index,
}
use sros.Memory.{Mem, M}
use sros.Task.{
  Task, TaskState, ready, running, blocked, zombie, Table, task_at, free_slot, TaskQueue,
  empty_queue, set_state, push_back, pop_front,
}

pub record Sched : Type 0 where
  pub mem : Mem
  pub tasks : Table
  pub task_count : ℕ
  pub next_pid : ℤ
  pub current : Option ℕ
  pub ready_queue : TaskQueue
  pub timer_ticks : ℕ
  pub tss_esp0 : ℕ

-- How far a call comes that may block: it returns, or it has raised `int $32` with its task blocked.
pub data CallResult : Type 0 where
  returns : ℤ → CallResult
  sleeps : CallResult

-- `none` is a panic of the kernel.
abbrev pub K : Type 0 → Type 0
K A = Sched → Option (A × Sched)

abbrev pub pure : {A : Type 0} → A → K A
pure a s = some (a, s)

infixl 5 ◌>>=◌ ◌>>◌
abbrev pub ◌>>=◌ : {A B : Type 0} → K A → (A → K B) → K B
◌>>=◌ f k s = elim (f s) [ none ↦ none | some (a, s') ↦ k a s' ]

abbrev pub ◌>>◌ : {B : Type 0} → K (Unit {0}) → K B → K B
f >> k = f >>= λ _. k

-- A call of kernel/paging.c.
abbrev pub paging : {A : Type 0} → M A → K A
paging f s = elim (f s.mem) [ none ↦ none | some (a, m) ↦ some (a, record s { mem = m }) ]

-- `task_table[i].f = …`
abbrev pub update : ℕ → (Task → Task) → Sched → Sched
update i f s = record s { tasks = modify s.tasks i f }

abbrev pub state_of : Sched → ℕ → TaskState
state_of s i = (task_at s.tasks i).state

unfoldable pub enqueue_ready : ℕ → Sched → Sched
enqueue_ready i s =
    let (ts, q) = push_back s.tasks s.ready_queue i in record s { tasks = ts; ready_queue = q }

unfoldable pub dequeue_ready : Sched → Option ℕ × Sched
dequeue_ready s =
    let (next, ts, q) = pop_front s.tasks s.ready_queue in
    (next, record s { tasks = ts; ready_queue = q })

-- The loop that marks every slot free, and task 0, the shell. "init" in ASCII.
abbrev init_task : ℤ → ℕ → Task
init_task pid cr3 = record {
  pid = pid;
  parent_pid = minus_one;
  state = running;
  exit_code = ℤ.pos 0;
  kernel_esp = 0;
  kernel_stack_base = 0;
  kernel_stack_top = 0x20000;
  page_dir = cr3;
  name = b'i' ∷ b'n' ∷ b'i' ∷ b't' ∷ [];
  next = none;
}

pub scheduler_init : Sched → Sched
scheduler_init s = record s {
  tasks =
      set (map (λ (t : Task). record t { pid = minus_one }) s.tasks) 0
        (init_task s.next_pid s.mem.cr3);
  next_pid = inc_int s.next_pid;
  current = some 0;
  task_count = 1;
  tss_esp0 = 0x20000;
}

-- What the interrupt's return path restores: a frame of registers, or nothing after `cli; hlt`.
pub data Resume : Type 0 where
  frame : ℕ → Resume
  halted : Resume

-- Load the next task: TSS.ESP0, and its page directory if it has its own.
pub switch_to : ℕ → Sched → Resume × Sched
switch_to n s =
    let s' = update n (set_state running) s in
    let t = task_at s'.tasks n in
    (
      frame t.kernel_esp,
      record s' {
        current = some n;
        tss_esp0 = t.kernel_stack_top;
        mem = if t.page_dir == 0 then s'.mem else record s'.mem { cr3 = t.page_dir };
      },
    )

-- The choice behind `dequeue_ready`.
picked : ℕ → ℕ → Option ℕ × Sched → Resume × Sched
picked c regs (some n, s) = switch_to n s
picked c regs (none, s) = elim (state_of s c) [
  | zombie ↦ (halted, s)
  | _ ↦ (frame regs, update c (set_state running) s)
]

-- The label `pick_next` for the current task `c`.
pub pick_next : ℕ → ℕ → Sched → Resume × Sched
unfolding picked
pick_next c regs s = picked c regs (dequeue_ready s)

-- The branches on the current task's state.
pub by_state : TaskState → ℕ → ℕ → Sched → Resume × Sched
by_state zombie c regs s = pick_next c regs s
by_state blocked c regs s = pick_next c regs s
by_state _ c regs s =
    if ltb 1 s.task_count
    then pick_next c regs (enqueue_ready c (update c (set_state ready) s))
    else (frame regs, update c (set_state running) s)

pub reschedule : ℕ → ℕ → Sched → Resume × Sched
unfolding by_state
reschedule c regs s = by_state (state_of s c) c regs s

-- The timer interrupt, with or without a task to save.
tick_on : Option ℕ → ℕ → Sched → Resume × Sched
tick_on none regs s = (frame regs, s)
tick_on (some c) regs s = reschedule c regs (update c (λ t. record t { kernel_esp = regs }) s)

pub timer_tick : ℕ → Sched → Resume × Sched
unfolding tick_on
timer_tick regs s = tick_on s.current regs s

-- `regs` is the address of the saved frame and `int_no` its interrupt number.
pub scheduler_tick : ℕ → ℕ → Sched → Resume × Sched
scheduler_tick int_no regs s =
    if int_no == 32
    then timer_tick regs (record s { timer_ticks = (s.timer_ticks + 1) % 2 ^ 32 })
    else (frame regs, s)

-- `task_yield` raises the interrupt of the timer, with the frame at `regs`.
pub task_yield : ℕ → Sched → Resume × Sched
unfolding scheduler_tick
task_yield regs s = scheduler_tick 32 regs s

pub task_find_slot : Table → Option ℕ
task_find_slot ts = find_index (λ t. is_neg t.pid) ts

-- `task_block`
unfoldable pub task_block : Sched → Sched
task_block s = elim s.current [ none ↦ s | some c ↦ update c (set_state blocked) s ]

-- `task_wake`; `none` is the NULL pointer.
unfoldable pub task_wake : Option ℕ → Sched → Sched
unfolding enqueue_ready
task_wake none s = s
task_wake (some i) s = enqueue_ready i (update i (set_state ready) s)
