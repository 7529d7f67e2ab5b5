-- ===== src/Scheduler/Invariant.antt =====
-- The invariant of kernel/scheduler.c and the operations that keep it.
use sros.Prelude.{
  ℕ, ◌<◌, ◌≡◌, refl, sym, ap, ◌∙◌, ◌≢◌, Bool, true, false, some, List, [], ◌∷◌, ◌++◌, arith, ◌==◌,
  ltb, length, length-modify, get_or-modify_ne, Bool-cases, inl, inr,
}
use sros.Task.{Task, TaskState, ready, running, blocked, zombie, free_slot, set_state}
use sros.Task.Chain.{has, has-append}
use sros.Scheduler.{
  Sched, update, state_of, enqueue_ready, Resume, pick_next, by_state, scheduler_tick,
}
use sros.Scheduler.Queue.{
  IsReady, IsQueue-modify_keep, field-enqueue_ready, length-enqueue_ready, Switched, pick_next-cons,
  pick_next-nil,
}
use sros.Scheduler.Round.{
  Plan, runs_on, stops, switches, plan, plan_from, saved, Inv, tick_is, saved-queue, saved-bound,
  saved-state, requeued, requeued-queue, requeued-state,
}

-- The task that runs after a plan, and the slots that are left ready.
abbrev pub plan_current : ℕ → Plan → ℕ
plan_current c (runs_on xs) = c
plan_current c stops = c
plan_current c (switches n ns) = n

abbrev pub plan_queue : Plan → List ℕ
plan_queue (runs_on xs) = xs
plan_queue stops = []
plan_queue (switches n ns) = ns

abbrev pub AllReady : Sched → List ℕ → Type 0
AllReady s xs = (j : ℕ) → has j xs ≡ true → state_of s j ≡ ready

module _ (s : Sched) (c regs : ℕ) (bound : c < length s.tasks) (cur : s.current ≡ some c) where
  update_running-Inv :
      (xs : List ℕ)
      → IsReady s xs
      → has c xs ≡ false
      → AllReady s xs
      → Inv (update c (set_state running) s) c xs
  update_running-Inv xs q out all = record {
    current_is = cur;
    queue = IsQueue-modify_keep s.tasks s.ready_queue xs c (set_state running) (λ t. refl) q;
    bound = rw (length-modify s.tasks c (set_state running)) bound;
    apart = out;
    all_ready = λ j h.
        ap (λ (t : Task). t.state)
          (get_or-modify_ne s.tasks c j (set_state running) free_slot
            (λ e. cc (ap (λ k. has k xs) e)))
        ∙ all j h;
  }

  Switched-Inv :
      (n : ℕ) (ns : List ℕ) (r : Resume) (s' : Sched)
      → IsReady s (n ∷ ns)
      → AllReady s (n ∷ ns)
      → Switched s n ns r s'
      → Inv s' n ns
  Switched-Inv n ns r s' q all sw = record {
    current_is = sw.current_is;
    queue = sw.queue;
    bound = rw sw.size q.chain.1;
    apart = q.chain.2;
    all_ready = λ j h.
        sw.others j (λ e. absurd (cc (sym q.chain.2 ∙ ap (λ k. has k ns) e ∙ h)))
        ∙ all j (ground arith);
  }

  pick_next-Inv :
      (st : TaskState) (xs : List ℕ)
      → state_of s c ≡ st
      → IsReady s xs
      → AllReady s xs
      → let p = plan_from st xs in Inv (pick_next c regs s).1 (plan_current c p) (plan_queue p)
  pick_next-Inv st (n ∷ ns) e q all =
      Switched-Inv n ns (pick_next c regs s).0 (pick_next c regs s).1 q all
        (pick_next-cons s c regs n ns q)
  pick_next-Inv zombie [] e q all =
      rw (pick_next-nil s c regs q, e)
        (record { current_is = cur; queue = q; bound = bound; apart = refl; all_ready = all })
  pick_next-Inv ready [] e q all =
      rw (pick_next-nil s c regs q, e) (update_running-Inv [] q refl all)
  pick_next-Inv running [] e q all =
      rw (pick_next-nil s c regs q, e) (update_running-Inv [] q refl all)
  pick_next-Inv blocked [] e q all =
      rw (pick_next-nil s c regs q, e) (update_running-Inv [] q refl all)

pub current-enqueue_ready : (s : Sched) (i : ℕ) → (enqueue_ready i s).current ≡ s.current
unfolding enqueue_ready
current-enqueue_ready s i = refl

module _ (s : Sched) (c regs : ℕ) (xs : List ℕ) (v : Inv s c xs) where
  saved-AllReady : AllReady (saved c regs s) xs
  saved-AllReady j h = saved-state s c regs xs v j ∙ v.all_ready j h

  requeued-AllReady : AllReady (requeued s c regs xs v) (xs ++ c ∷ [])
  requeued-AllReady j h = elim (Bool-cases (c == j)) [
    | inl same ↦
        let e : c ≡ j = ground arith in
        ap (state_of (requeued s c regs xs v)) (sym e) ∙ requeued-state s c regs xs v
    | inr apart ↦
        let ne : c ≢ j = ground arith in
        field-enqueue_ready (λ t. t.state) (update c (set_state ready) (saved c regs s)) c j
          (λ n t. refl)
        ∙ ap (λ (t : Task). t.state)
            (get_or-modify_ne (saved c regs s).tasks c j (set_state ready) free_slot ne)
        ∙ saved-AllReady j (ground (arith, has-append j xs (c ∷ [])))
  ]

  picked-Inv :
      (st : TaskState)
      → state_of s c ≡ st
      → let p = plan_from st xs in
        Inv (pick_next c regs (saved c regs s)).1 (plan_current c p) (plan_queue p)
  picked-Inv st e =
      pick_next-Inv (saved c regs s) c regs (saved-bound s c regs xs v) v.current_is st xs
        (saved-state s c regs xs v c ∙ e) (saved-queue s c regs xs v) saved-AllReady

  requeued-Inv :
      let p = plan_from ready (xs ++ c ∷ []) in
      Inv (pick_next c regs (requeued s c regs xs v)).1 (plan_current c p) (plan_queue p)
  requeued-Inv =
      pick_next-Inv (requeued s c regs xs v) c regs
        (rw
          (
            length-enqueue_ready (update c (set_state ready) (saved c regs s)) c,
            length-modify (saved c regs s).tasks c (set_state ready),
          )
          (saved-bound s c regs xs v))
        (current-enqueue_ready _ c ∙ v.current_is) ready (xs ++ c ∷ [])
        (requeued-state s c regs xs v) (requeued-queue s c regs xs v) requeued-AllReady

  alone-Inv : Inv (update c (set_state running) (saved c regs s)) c xs
  alone-Inv =
      update_running-Inv (saved c regs s) c regs (saved-bound s c regs xs v) v.current_is xs
        (saved-queue s c regs xs v) v.apart saved-AllReady

  by_state-Inv :
      (st : TaskState) (many : Bool)
      → state_of s c ≡ st
      → ltb 1 s.task_count ≡ many
      → let p = plan st many c xs in
        Inv (by_state st c regs (saved c regs s)).1 (plan_current c p) (plan_queue p)
  unfolding by_state
  by_state-Inv zombie many e m = picked-Inv zombie e
  by_state-Inv blocked many e m = picked-Inv blocked e
  by_state-Inv ready true e m = rw m requeued-Inv
  by_state-Inv ready false e m = rw m alone-Inv
  by_state-Inv running true e m = rw m requeued-Inv
  by_state-Inv running false e m = rw m alone-Inv

  -- The timer interrupt keeps the invariant of the scheduler (the current task is known and in the
  -- table, the ready queue is a list of distinct slots without it, all of them ready), for the
  -- task and the queue that the plan for the current task's state gives.
  pub scheduler_tick-Inv :
      let p = plan (state_of s c) (ltb 1 s.task_count) c xs in
      Inv (scheduler_tick 32 regs s).1 (plan_current c p) (plan_queue p)
  scheduler_tick-Inv =
      rw (tick_is s c regs xs v) (by_state-Inv (state_of s c) (ltb 1 s.task_count) refl refl)
