-- ===== src/Scheduler/Lifecycle/Exit.antt =====
-- `task_exit` of kernel/scheduler.c: the state that it leaves for the interrupt it raises.
use sros.Prelude.{
  ℕ, ◌<◌, ◌≡◌, ◌≢◌, refl, sym, ap, ◌∙◌, Bool, false, Option, some, List, [], ◌∷◌, ◌++◌, ℤ, is_neg,
  length, eq_int, zero, suc, find_index, find_index_sound, modify, length-modify,
  get_or-modify_self, get_or-modify_ne, if◌then◌else◌,
}
use sros.Task.{Task, TaskState, ready, blocked, zombie, task_at, free_slot, set_state}
use sros.Task.Chain.{has}
use sros.Scheduler.{Sched, update, state_of, enqueue_ready}
use sros.Scheduler.Queue.{IsReady, IsQueue-modify_keep, enqueue_ready_lem, field-enqueue_ready}
use sros.Scheduler.Lifecycle.{
  task_from_pid, wake_state, wake_if_blocked, wake_parent, exit_slot, exit_current, task_exit,
}

-- The exiting slot `c`, marked.
abbrev marked : ℕ → ℤ → Sched → Sched
marked c code s = update c (λ t. record t { exit_code = code; state = zombie }) s

find_index-modify :
    (p : Task → Bool) (ts : List Task) (i : ℕ) (f : Task → Task)
    → ((t : Task) → p (f t) ≡ p t)
    → find_index p (modify ts i f) ≡ find_index p ts
find_index-modify p [] i f same = refl
find_index-modify p (t ∷ ts) zero f same = rw (same t) refl
find_index-modify p (t ∷ ts) (suc i) f same = rw (find_index-modify p ts i f same) refl

marked-task_from_pid :
    (c : ℕ) (code pid : ℤ) (s : Sched) → task_from_pid pid (marked c code s) ≡ task_from_pid pid s
unfolding task_from_pid
marked-task_from_pid c code pid s =
    find_index-modify (λ t. eq_int t.pid pid) s.tasks c _ (λ t. refl)

exit_is :
    (s : Sched) (c p : ℕ) (code : ℤ)
    → s.current ≡ some c
    → is_neg (task_at s.tasks c).parent_pid ≡ false
    → task_from_pid (task_at s.tasks c).parent_pid s ≡ some p
    → state_of (marked c code s) p ≡ blocked
    → task_exit code s ≡ enqueue_ready p (update p (set_state ready) (marked c code s))
unfolding task_exit exit_current exit_slot wake_parent wake_if_blocked wake_state
exit_is s c p code cur has_parent found waits =
    ap (λ (o : Option ℕ). exit_current o code s) cur
    ∙ ap
        (λ b.
          if b
          then marked c code s
          else wake_if_blocked (task_from_pid (task_at s.tasks c).parent_pid (marked c code s))
              (marked c code s))
        has_parent
    ∙ ap (λ (o : Option ℕ). wake_if_blocked o (marked c code s))
        (marked-task_from_pid c code (task_at s.tasks c).parent_pid s ∙ found)
    ∙ ap (λ (st : TaskState). wake_state st p (marked c code s)) waits

parent_in : (s : Sched) (pid : ℤ) (p : ℕ) → task_from_pid pid s ≡ some p → p < length s.tasks
unfolding task_from_pid
parent_in s pid p e = (find_index_sound (λ (t : Task). eq_int t.pid pid) s.tasks p free_slot e).0

-- When the current task c exits and its parent is another slot p that is blocked and not in the
-- ready queue xs, c becomes a zombie with the exit code, and p becomes ready and the last of the
-- ready queue, whatever p was blocked on.
pub task_exit-wakes :
    (s : Sched) (c p : ℕ) (code : ℤ) (xs : List ℕ)
    → s.current ≡ some c
    → c < length s.tasks
    → is_neg (task_at s.tasks c).parent_pid ≡ false
    → task_from_pid (task_at s.tasks c).parent_pid s ≡ some p
    → c ≢ p
    → state_of s p ≡ blocked
    → IsReady s xs
    → has p xs ≡ false
    → let s' = task_exit code s in
      (state_of s' c ≡ zombie)
      × ((task_at s'.tasks c).exit_code ≡ code)
      × (state_of s' p ≡ ready)
      × IsReady s' (xs ++ p ∷ [])
task_exit-wakes s c p code xs cur bound has_parent found apart waits q out =
    rw (exit_is s c p code cur has_parent found still) (
      kept (λ t. t.state) (λ n t. refl) ∙ ap (λ (t : Task). t.state) own,
      kept (λ t. t.exit_code) (λ n t. refl) ∙ ap (λ (t : Task). t.exit_code) own,
      field-enqueue_ready (λ t. t.state) woken p p (λ n t. refl)
          ∙ ap (λ (t : Task). t.state)
              (get_or-modify_self (marked c code s).tasks p (set_state ready) free_slot in_marked),
      enqueue_ready_lem woken p xs
          (rw (length-modify (marked c code s).tasks p (set_state ready)) in_marked)
          (IsQueue-modify_keep (marked c code s).tasks s.ready_queue xs p (set_state ready)
            (λ t. refl) (IsQueue-modify_keep s.tasks s.ready_queue xs c _ (λ t. refl) q))
          out,
    )
  where
    marks : Task → Task
    marks t = record t { exit_code = code; state = zombie }

    woken : Sched
    woken = update p (set_state ready) (marked c code s)

    still : state_of (marked c code s) p ≡ blocked
    still = ap (λ (t : Task). t.state) (get_or-modify_ne s.tasks c p _ free_slot apart) ∙ waits

    in_table : p < length s.tasks
    in_table = parent_in s (task_at s.tasks c).parent_pid p found

    in_marked : p < length (marked c code s).tasks
    in_marked =
        rw (length-modify s.tasks c (λ t. record t { exit_code = code; state = zombie })) in_table

    -- What waking the parent keeps of the exiting slot.
    kept :
        {B : Type 0} (g : Task → B)
        → ((n : Option ℕ) (t : Task) → g (record t { next = n }) ≡ g t)
        → g (task_at (enqueue_ready p woken).tasks c) ≡ g (task_at woken.tasks c)
    kept g same = field-enqueue_ready g woken p c same

    own : task_at woken.tasks c ≡ record (task_at s.tasks c) { exit_code = code; state = zombie }
    own =
        get_or-modify_ne (marked c code s).tasks p c (set_state ready) free_slot
          (λ e. apart (sym e))
        ∙ get_or-modify_self s.tasks c _ free_slot bound
