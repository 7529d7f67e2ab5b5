-- ===== src/Scheduler/Wait.antt =====
-- kernel/scheduler.c: `task_wait`.
pub mod Children
use sros.Prelude.{
  ℕ, ◌-◌, Bool, true, false, ◌&&◌, ◌||◌, not, Option, none, some, ℤ, minus_one, is_neg, eq_int,
  if◌then◌else◌, ◌==◌, find_index,
}
use sros.Memory
use sros.Memory.{M}
use sros.Paging.{pfa_free}
use sros.Task.{Task, TaskState, blocked, zombie, task_at, free_slot, set_state}
use sros.Scheduler.{CallResult, returns, sleeps, Sched, K, ◌>>◌, paging, update}

abbrev pub is_zombie : TaskState → Bool
is_zombie zombie = true
is_zombie _ = false

-- A child of the task `me` that the call waits for.
abbrev pub is_waited : ℤ → ℤ → Task → Bool
is_waited me pid t =
    not (is_neg t.pid) && eq_int t.parent_pid me && (is_neg pid || eq_int t.pid pid)

abbrev pub is_exited : ℤ → ℤ → Task → Bool
is_exited me pid t = is_waited me pid t && is_zombie t.state

abbrev pub is_alive : ℤ → ℤ → Task → Bool
is_alive me pid t = is_waited me pid t && not (is_zombie t.state)

free_if : ℕ → M (Unit {0})
free_if addr = if addr == 0 then Memory.pure tt else pfa_free addr

-- The frames of the child go back to the pool.
free_child : Task → M (Unit {0})
unfolding free_if
free_child child = Memory.◌>>◌ (free_if child.kernel_stack_base) (free_if child.page_dir)

-- The child in slot `i` is collected: its frames are freed and its slot too.
clear_slot : ℕ → Sched → Sched
clear_slot i s = record (update i (λ _. free_slot) s) { task_count = s.task_count - 1 }

collect : ℕ → Task → K CallResult
unfolding clear_slot
collect i child = paging (free_child child) >> λ s. some (returns child.pid, clear_slot i s)

-- No child has exited: sleep if one is alive.
sleep_or_fail : ℕ → Option ℕ → Sched → CallResult × Sched
sleep_or_fail c none s = (returns minus_one, s)
sleep_or_fail c (some _) s = (sleeps, update c (set_state blocked) s)

-- One round of the loop, for the current task `c`, after its first search.
wait_found : ℕ → ℤ → Option ℕ → K CallResult
unfolding collect sleep_or_fail
wait_found c pid (some i) s = collect i (task_at s.tasks i) s
wait_found c pid none s =
    some (sleep_or_fail c (find_index (is_alive (task_at s.tasks c).pid pid) s.tasks) s)

wait_round : Option ℕ → ℤ → K CallResult
unfolding wait_found
wait_round none pid s = some (returns minus_one, s)
wait_round (some c) pid s =
    wait_found c pid (find_index (is_exited (task_at s.tasks c).pid pid) s.tasks) s

-- The first round. After `sleeps` the resumed task runs `task_wait pid` once more.
pub task_wait : ℤ → K CallResult
unfolding wait_round
task_wait pid s = wait_round s.current pid s
