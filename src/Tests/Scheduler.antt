-- ===== src/Tests/Scheduler.antt =====
-- Three tasks: slot 0 runs, slots 1 and 2 are ready in this order.
use sros.Prelude.{
  minus_one, List, ℕ, ◌≡◌, refl, sym, ap, true, false, Option, none, some, [], ◌∷◌, pos, arith,
  Bool-cases, inl, inr, ◌==◌,
}
use sros.Memory.{Mem}
use sros.Task.{zombie, task_at, empty_queue, Task, TaskState, ready, running, blocked, free_slot}
use sros.Task.Chain.{has}
use sros.Scheduler.{Sched, CallResult, state_of, frame, scheduler_tick, task_block}
use sros.Scheduler.Lifecycle.{task_from_pid, task_exit}
use sros.Scheduler.Lifecycle.Exit.{task_exit-wakes}
use sros.Scheduler.Wait.{task_wait}
use sros.Scheduler.Wait.Children.{Waits, task_wait-Waits}
use sros.Scheduler.Queue.{IsReady}
use sros.Scheduler.Round.{Inv, Follows, saved, plan_from, plan, tick-stopped, tick-requeued}
use sros.Scheduler.Between.{blocks}
use sros.Scheduler.Steps.{Run, here, between, tick, Serves, Run-Serves, Run-Inv}
use sros.Scheduler.Invariant.{plan_current, plan_queue, scheduler_tick-Inv}

abbrev pub empty_mem : Mem
empty_mem = record {
  phys = λ _. 0;
  cr3 = 0;
  paging_on = false;
  page_frames = [];
  page_frame_count = 0;
}

abbrev pub task : ℕ → TaskState → ℕ → Option ℕ → Task
task pid st esp next = record free_slot { pid = pos pid; state = st; kernel_esp = esp; next = next }

abbrev pub sched_of : TaskState → Sched
sched_of st = record {
  mem = empty_mem;
  tasks = task 1 st 0x1000 none ∷ task 2 ready 0x2000 (some 2) ∷ task 3 ready 0x3000 none ∷ [];
  task_count = 3;
  next_pid = pos 4;
  current = some 0;
  ready_queue = record { head = some 1; tail = some 2 };
  timer_ticks = 0;
  tss_esp0 = 0;
}

pub sched_of-IsReady : (st : TaskState) → IsReady (sched_of st) (1 ∷ 2 ∷ [])
sched_of-IsReady st = record {
  chain = (refl, omega arith, refl, (refl, omega arith, refl, refl));
  tail_is = refl;
}

all_ready : (st : TaskState) (j : ℕ) → has j (1 ∷ 2 ∷ []) ≡ true → state_of (sched_of st) j ≡ ready
all_ready st j h = elim (Bool-cases (j == 1)) [
  | inl one ↦ let e : 1 ≡ j = ground arith in ap (state_of (sched_of st)) (sym e)
  | inr other ↦ let e : 2 ≡ j = ground arith in ap (state_of (sched_of st)) (sym e)
]

sched_of-Inv : (st : TaskState) → Inv (sched_of st) 0 (1 ∷ 2 ∷ [])
sched_of-Inv st = record {
  current_is = refl;
  queue = sched_of-IsReady st;
  bound = omega arith;
  apart = refl;
  all_ready = all_ready st;
}

scheduler_tick-Inv_example :
    let p = plan running true 0 (1 ∷ 2 ∷ []) in
    Inv (scheduler_tick 32 0x5000 (sched_of running)).1 (plan_current 0 p) (plan_queue p)
scheduler_tick-Inv_example =
    scheduler_tick-Inv (sched_of running) 0 0x5000 (1 ∷ 2 ∷ []) (sched_of-Inv running)

tick-requeued_example :
    let (r, s') = scheduler_tick 32 0x5000 (sched_of running) in
    (r ≡ frame 0x2000)
    × (s'.current ≡ some 1)
    × (state_of s' 1 ≡ running)
    × (state_of s' 0 ≡ ready)
    × IsReady s' (2 ∷ 0 ∷ [])
tick-requeued_example =
    tick-requeued (sched_of running) 0 0x5000 (1 ∷ 2 ∷ []) (sched_of-Inv running) 1 (2 ∷ []) refl
      (omega arith) refl

tick-stopped_example :
    Follows
      (saved 0 0x5000 (sched_of blocked))
      0
      0x5000
      (plan_from blocked (1 ∷ 2 ∷ []))
      (scheduler_tick 32 0x5000 (sched_of blocked))
tick-stopped_example =
    tick-stopped (sched_of blocked) 0 0x5000 (1 ∷ 2 ∷ []) (sched_of-Inv blocked) refl

-- The child in slot 1 has exited.
abbrev with_zombie : Sched
with_zombie = record (sched_of running) {
  tasks =
      task 1 running 0x1000 none
      ∷ record (task 2 zombie 0x2000 none) { parent_pid = pos 1; exit_code = pos 9 }
      ∷ [];
  task_count = 2;
  ready_queue = empty_queue;
}

task_wait_example :
    (r : CallResult) × (s' : Sched) × (task_wait minus_one with_zombie ≡ some (r, s'))
    × Waits with_zombie 0 minus_one r s'
task_wait_example = task_wait-Waits with_zombie 0 minus_one refl (omega arith)

-- Slot 0 exits; its parent in slot 1 is blocked.
abbrev with_parent : Sched
with_parent = record (sched_of running) {
  tasks =
      record (task 2 running 0x1000 none) { parent_pid = pos 1 }
      ∷ task 1 blocked 0x2000 none
      ∷ task 3 ready 0x3000 none
      ∷ [];
  ready_queue = record { head = some 2; tail = some 2 };
}

parent_found : task_from_pid (pos 1) with_parent ≡ some 1
unfolding task_from_pid
parent_found = refl

task_exit_example :
    let s' = task_exit (pos 5) with_parent in
    (state_of s' 0 ≡ zombie)
    × ((task_at s'.tasks 0).exit_code ≡ pos 5)
    × (state_of s' 1 ≡ ready)
    × IsReady s' (2 ∷ 1 ∷ [])
task_exit_example =
    task_exit-wakes with_parent 0 1 (pos 5) (2 ∷ []) refl (omega arith) refl parent_found
      (omega arith) refl record { chain = (refl, omega arith, refl, refl); tail_is = refl } refl

-- The running task blocks, and two timer interrupts follow.
abbrev run_end : Sched
run_end = (scheduler_tick 32 0x6000 (scheduler_tick 32 0x5000 (task_block (sched_of running))).1).1

abbrev two_ticks : Run 2 (sched_of running) run_end
two_ticks = between (blocks (sched_of running)) (tick 0x5000 (tick 0x6000 (here run_end)))

Run-Serves_example : Serves 2 1 two_ticks
Run-Serves_example =
    Run-Serves two_ticks 0 2 (1 ∷ []) [] (sched_of-Inv running) (omega arith) (omega arith)

Run-Inv_example : (c : ℕ) × (xs : List ℕ) × Inv run_end c xs
Run-Inv_example = Run-Inv two_ticks 0 (1 ∷ 2 ∷ []) (sched_of-Inv running)
