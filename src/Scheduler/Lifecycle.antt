-- ===== src/Scheduler/Lifecycle.antt =====
-- kernel/scheduler.c: `task_create`, `task_fork` and `task_exit`.
pub mod Exit
use sros.Prelude.{
  ℕ, ◌+◌, Option, none, some, List, ℤ, minus_one, is_neg, inc_int, eq_int, if◌then◌else◌, ◌==◌, ltb,
  length, find_index,
}
use sros.Paging.Clone.{paging_clone_directory}
use sros.Task.{Task, TaskState, ready, blocked, zombie, task_at, set_state}
use sros.Scheduler.{Sched, K, pure, ◌>>=◌, paging, update, state_of, enqueue_ready, task_find_slot}
use sros.Scheduler.Stacks.{stack_top, frame_at, new_stacks, fork_stack}

-- A new PCB but for its pid, on the kernel stack in the frame `kstack`.
abbrev pub new_task : ℤ → ℕ → ℕ → List ℕ → Task
new_task parent kstack page_dir name = record {
  pid = minus_one;
  parent_pid = parent;
  state = ready;
  exit_code = ℤ.pos 0;
  kernel_esp = frame_at kstack;
  kernel_stack_base = kstack;
  kernel_stack_top = stack_top kstack;
  page_dir = page_dir;
  name = name;
  next = none;
}

-- The PCB in `slot` gets the next pid and joins the ready queue.
pub install : ℕ → Task → Sched → ℤ × Sched
install slot task s =
    let s1 = update slot (λ _. record task { pid = s.next_pid }) s in
    let s2 = enqueue_ready slot (record s1 { next_pid = inc_int s.next_pid }) in
    (s.next_pid, record s2 { task_count = s2.task_count + 1 })

-- `current_task ? current_task->pid : -1`
abbrev pub current_pid : Sched → ℤ
current_pid s = elim s.current [ none ↦ minus_one | some c ↦ (task_at s.tasks c).pid ]

-- The size of a task's name with its NUL.
abbrev task_name_max : ℕ
task_name_max = 32

create_in : List ℕ → ℕ → Option ℕ → K ℤ
create_in name entry none = pure minus_one
create_in name entry (some slot) = do
  kstack ← paging (new_stacks entry)
  λ s.
      if ltb (length name) task_name_max
      then some (install slot (new_task (current_pid s) kstack 0 name) s)
      else none

-- `entry` is the address of the task's function. A name that is longer than its array would overwrite
-- what follows: `none`.
pub task_create : List ℕ → ℕ → K ℤ
unfolding create_in
task_create name entry s = create_in name entry (task_find_slot s.tasks) s

-- Steps 6 and 7, for the current task `parent`; a read through NULL faults.
fork_child : ℕ → ℕ → ℕ → K ℤ
fork_child slot page_dir kstack s = elim s.current [
  | none ↦ none
  | some c ↦
      let parent = task_at s.tasks c in
      some (install slot (new_task parent.pid kstack page_dir parent.name) s)
]

fork_into : ℕ → ℕ → ℕ → K ℤ
fork_into slot regs page_dir = do kstack ← paging (fork_stack regs); fork_child slot page_dir kstack

fork_in : ℕ → ℕ → Option ℕ → K ℤ
unfolding fork_into
fork_in bss_end regs none = pure minus_one
fork_in bss_end regs (some slot) = do
  page_dir ← paging (paging_clone_directory bss_end)
  if page_dir == 0 then pure minus_one else fork_into slot regs page_dir

-- `regs` is the address of the parent's frame.
pub task_fork : ℕ → ℕ → K ℤ
unfolding fork_in
task_fork bss_end regs s = fork_in bss_end regs (task_find_slot s.tasks) s

-- `task_from_pid`
unfoldable pub task_from_pid : ℤ → Sched → Option ℕ
task_from_pid pid s = find_index (λ (t : Task). eq_int t.pid pid) s.tasks

wake_state : TaskState → ℕ → Sched → Sched
wake_state blocked p s = enqueue_ready p (update p (set_state ready) s)
wake_state _ p s = s

wake_if_blocked : Option ℕ → Sched → Sched
wake_if_blocked none s = s
wake_if_blocked (some p) s = wake_state (state_of s p) p s

-- The parent of the exiting task, if it has one and that is blocked, for whatever reason.
pub wake_parent : ℤ → Sched → Sched
unfolding wake_if_blocked
wake_parent parent_pid s =
    if is_neg parent_pid then s else wake_if_blocked (task_from_pid parent_pid s) s

-- `task_exit` of the current task `c`.
exit_slot : ℕ → ℤ → Sched → Sched
exit_slot c exit_code s =
    wake_parent (task_at s.tasks c).parent_pid
      (update c (λ t. record t { exit_code = exit_code; state = zombie }) s)

exit_current : Option ℕ → ℤ → Sched → Sched
unfolding exit_slot
exit_current none exit_code s = s
exit_current (some c) exit_code s = exit_slot c exit_code s

-- Up to `int $32`. A task that has exited is not resumed; behind the interrupt stands `cli; hlt`.
pub task_exit : ℤ → Sched → Sched
unfolding exit_current
task_exit exit_code s = exit_current s.current exit_code s
