-- ===== src/Ipc/Sem/Destroy.antt =====
-- `sem_destroy` of kernel/ipc.c.
use sros.Prelude.{
  ℕ, ◌+◌, ◌≤◌, ◌≡◌, ◌≢◌, ap, ◌∙◌, true, false, Option, some, ◌++◌, arith, ℤ, pos, minus_one, is_neg,
  length, get_or-modify_self, get_or-modify_ne,
}
use sros.Task.{ready}
use sros.Task.Chain.{has}
use sros.Scheduler.{state_of}
use sros.Scheduler.Queue.{IsReady}
use sros.Ipc.{Ipc, Semaphore}
use sros.Ipc.Waiters.{wake_all_lem}
use sros.Ipc.Sem.{sem_at, no_sem, find_sem, cleared, finish_destroy, destroy_at, sem_destroy}
use sros.Ipc.Sem.Laws.{View, Shows}

-- What a destroyed semaphore leaves behind.
pub record Destroyed (k : Ipc) (i : ℕ) (v : View) (k' : Ipc) : Type 0 where
  pub queue : IsReady k'.sched (v.ready_tasks ++ v.waiting)
  pub woken : (j : ℕ) → has j v.waiting ≡ true → state_of k'.sched j ≡ ready
  pub others : (j : ℕ) → has j v.waiting ≡ false → state_of k'.sched j ≡ state_of k.sched j
  pub is_free : (sem_at k' i).id ≡ minus_one
  pub same_sems : (j : ℕ) → i ≢ j → sem_at k' j ≡ sem_at k j

destroy_at-Destroyed :
    (k : Ipc) (i : ℕ) (v : View)
    → Shows k i v
    → length v.waiting ≤ length k.sched.tasks
    → (k' : Ipc) × (destroy_at (some i) k ≡ some (pos 0, k')) × Destroyed k i v k'
unfolding destroy_at finish_destroy cleared
destroy_at-Destroyed k i v sh few =
    let (s, run, queue, woken, others, cur) =
      wake_all_lem (length k.sched.tasks + 1) (sem_at k i).wait.head k.sched v.waiting v.ready_tasks
        sh.waits.chain sh.queue sh.apart (omega arith) in
    (
      cleared i k s,
      ap (finish_destroy i k) run,
      record {
        queue = queue;
        woken = woken;
        others = others;
        is_free =
            ap (λ (m : Semaphore). m.id) (get_or-modify_self k.sem_table i _ no_sem sh.in_table);
        same_sems = λ j ne. get_or-modify_ne k.sem_table i j _ no_sem ne;
      },
    )

-- For a semaphore that is found by its id, which is not negative, and shows a view with no more
-- waiters than there are tasks, sem_destroy ends and returns 0: the waiters join the ready tasks
-- in their order and are ready, the other tasks' states stay, the slot is free, and every other
-- semaphore is as before.
pub sem_destroy-Destroyed :
    (sem_id : ℤ) (k : Ipc) (i : ℕ) (v : View)
    → is_neg sem_id ≡ false
    → find_sem sem_id k ≡ some i
    → Shows k i v
    → length v.waiting ≤ length k.sched.tasks
    → (k' : Ipc) × (sem_destroy sem_id k ≡ some (pos 0, k')) × Destroyed k i v k'
unfolding sem_destroy
sem_destroy-Destroyed sem_id k i v valid found sh few =
    let (k', run, d) = destroy_at-Destroyed k i v sh few in
    (k', rw valid (ap (λ (o : Option ℕ). destroy_at o k) found ∙ run), d)
