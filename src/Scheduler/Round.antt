-- ===== src/Scheduler/Round.antt =====
-- `scheduler_tick` of kernel/scheduler.c against a plan over the list of ready slots: round robin.
use sros.Prelude.{
  ℕ, ◌+◌, ◌%◌, ◌^◌, ◌<◌, ◌≡◌, refl, sym, ap, ◌∙◌, ◌≢◌, Bool, true, false, Option, some, List, [],
  ◌∷◌, ◌++◌, arith, if◌then◌else◌, length, length-modify, get_or-modify_self, get_or-modify_ne,
  lt→ltb,
}
use sros.Task.{Task, TaskState, ready, running, blocked, zombie, task_at, free_slot, set_state}
use sros.Task.Chain.{has, field-modify_keep}
use sros.Scheduler.{
  Sched, update, state_of, enqueue_ready, Resume, frame, halted, pick_next, by_state, reschedule,
  timer_tick, tick_on, scheduler_tick,
}
use sros.Scheduler.Queue.{
  IsReady, IsQueue-modify_keep, enqueue_ready_lem, field-enqueue_ready, Switched, pick_next-cons,
  pick_next-nil,
}

-- What the scheduler does next, and the ready queue that it leaves.
pub data Plan : Type 0 where
  runs_on : List ℕ → Plan
  stops : Plan
  switches : ℕ → List ℕ → Plan

abbrev pub plan_from : TaskState → List ℕ → Plan
plan_from st (n ∷ ns) = switches n ns
plan_from zombie [] = stops
plan_from _ [] = runs_on []

-- A task that can run goes to the back of the queue, if there is more than one task.
abbrev pub plan : TaskState → Bool → ℕ → List ℕ → Plan
plan zombie many c xs = plan_from zombie xs
plan blocked many c xs = plan_from blocked xs
plan ready many c xs = if many then plan_from ready (xs ++ c ∷ []) else runs_on xs
plan running many c xs = if many then plan_from ready (xs ++ c ∷ []) else runs_on xs

-- The run of `pick_next` from the state `s`, whose task `c` was interrupted, follows the plan.
abbrev pub Follows : Sched → ℕ → ℕ → Plan → Resume × Sched → Type 0
Follows s c regs (runs_on xs) (r, s') =
    (r ≡ frame regs)
    × (s'.current ≡ s.current)
    × (state_of s' c ≡ running)
    × ((j : ℕ) → c ≢ j → state_of s' j ≡ state_of s j)
    × IsReady s' xs
Follows s c regs stops (r, s') =
    (r ≡ halted)
    × (s'.current ≡ s.current)
    × ((j : ℕ) → state_of s' j ≡ state_of s j)
    × IsReady s' []
Follows s c regs (switches n ns) (r, s') = Switched s n ns r s'

module _ (s : Sched) (c regs : ℕ) (bound : c < length s.tasks) where
  update_running :
      (xs : List ℕ)
      → IsReady s xs
      → Follows s c regs (runs_on xs) (frame regs, update c (set_state running) s)
  update_running xs v = (
    refl,
    refl,
    ap (λ (t : Task). t.state) (get_or-modify_self s.tasks c (set_state running) free_slot bound),
    (λ j ne.
        ap (λ (t : Task). t.state) (get_or-modify_ne s.tasks c j (set_state running) free_slot ne)),
    IsQueue-modify_keep s.tasks s.ready_queue xs c (set_state running) (λ t. refl) v,
  )

  -- The choice of `pick_next` follows the plan for the ready queue as it stands.
  pick_next-Follows :
      (st : TaskState) (xs : List ℕ)
      → state_of s c ≡ st
      → IsReady s xs
      → Follows s c regs (plan_from st xs) (pick_next c regs s)
  pick_next-Follows st (n ∷ ns) e v = pick_next-cons s c regs n ns v
  pick_next-Follows zombie [] e v = rw (pick_next-nil s c regs v, e) (refl, refl, (λ j. refl), v)
  pick_next-Follows ready [] e v = rw (pick_next-nil s c regs v, e) (update_running [] v)
  pick_next-Follows running [] e v = rw (pick_next-nil s c regs v, e) (update_running [] v)
  pick_next-Follows blocked [] e v = rw (pick_next-nil s c regs v, e) (update_running [] v)

-- The saved frame of the interrupted task, in the state that the choice is made in.
abbrev pub saved : ℕ → ℕ → Sched → Sched
saved c regs s =
    update c (λ t. record t { kernel_esp = regs })
      (record s { timer_ticks = (s.timer_ticks + 1) % 2 ^ 32 })

-- The scheduler holds the ready slots `xs`, and runs or has just stopped running the slot `c`,
-- which is not among them.
pub record Inv (s : Sched) (c : ℕ) (xs : List ℕ) : Type 0 where
  pub current_is : s.current ≡ some c
  pub queue : IsReady s xs
  pub bound : c < length s.tasks
  pub apart : has c xs ≡ false
  pub all_ready : (j : ℕ) → has j xs ≡ true → state_of s j ≡ ready

timer_tick-some :
    (s : Sched) (c regs : ℕ)
    → s.current ≡ some c
    → timer_tick regs s ≡ reschedule c regs (update c (λ t. record t { kernel_esp = regs }) s)
unfolding timer_tick
timer_tick-some s c regs e = ap (λ (o : Option ℕ). tick_on o regs s) e

module _ (s : Sched) (c regs : ℕ) (xs : List ℕ) (v : Inv s c xs) where
  pub saved-queue : IsReady (saved c regs s) xs
  saved-queue = IsQueue-modify_keep s.tasks s.ready_queue xs c _ (λ t. refl) v.queue

  pub saved-bound : c < length (saved c regs s).tasks
  saved-bound = rw (length-modify s.tasks c (λ t. record t { kernel_esp = regs })) v.bound

  pub saved-state : (j : ℕ) → state_of (saved c regs s) j ≡ state_of s j
  saved-state j = field-modify_keep (λ t. t.state) s.tasks c j _ (λ t. refl)

  pub tick_is : scheduler_tick 32 regs s ≡ by_state (state_of s c) c regs (saved c regs s)
  unfolding scheduler_tick reschedule
  tick_is =
      timer_tick-some (record s { timer_ticks = (s.timer_ticks + 1) % 2 ^ 32 }) c regs v.current_is
      ∙ ap (λ (st : TaskState). by_state st c regs (saved c regs s)) (saved-state c)

-- A stopped task gives way to the oldest ready task; with none it is the machine that stops, if the
-- task has exited, and a blocked task runs on.
abbrev pub stopped : TaskState → Bool
stopped zombie = true
stopped blocked = true
stopped _ = false

pub by_state-stopped :
    (st : TaskState) (c regs : ℕ) (s : Sched)
    → stopped st ≡ true
    → by_state st c regs s ≡ pick_next c regs s
unfolding by_state
by_state-stopped zombie c regs s e = refl
by_state-stopped blocked c regs s e = refl
by_state-stopped ready c regs s e = cc
by_state-stopped running c regs s e = cc

pub by_state-requeued :
    (st : TaskState) (c regs : ℕ) (s : Sched)
    → stopped st ≡ false
    → 1 < s.task_count
    → by_state st c regs s ≡ pick_next c regs (enqueue_ready c (update c (set_state ready) s))
unfolding by_state
by_state-requeued zombie c regs s e h = cc
by_state-requeued blocked c regs s e h = cc
by_state-requeued ready c regs s e h = rw (lt→ltb 1 s.task_count h)
by_state-requeued running c regs s e h = rw (lt→ltb 1 s.task_count h)

module _ (s : Sched) (c regs : ℕ) (xs : List ℕ) (v : Inv s c xs) where
  -- The timer interrupt of a current task that has blocked or exited follows the plan for the
  -- ready queue: the oldest ready task is resumed; without one the machine halts if the task has
  -- exited, and the task runs on if it was blocked.
  pub tick-stopped :
      stopped (state_of s c) ≡ true
      → Follows (saved c regs s) c regs (plan_from (state_of s c) xs) (scheduler_tick 32 regs s)
  tick-stopped h =
      rw (tick_is s c regs xs v, by_state-stopped (state_of s c) c regs (saved c regs s) h)
        (pick_next-Follows (saved c regs s) c regs (saved-bound s c regs xs v) (state_of s c) xs
          (saved-state s c regs xs v c) (saved-queue s c regs xs v))

  abbrev pub requeued : Sched
  requeued = enqueue_ready c (update c (set_state ready) (saved c regs s))

  pub requeued-queue : IsReady requeued (xs ++ c ∷ [])
  requeued-queue =
      enqueue_ready_lem (update c (set_state ready) (saved c regs s)) c xs
        (rw (length-modify (saved c regs s).tasks c (set_state ready)) (saved-bound s c regs xs v))
        (IsQueue-modify_keep (saved c regs s).tasks s.ready_queue xs c (set_state ready) (λ t. refl)
          (saved-queue s c regs xs v))
        v.apart

  pub requeued-state : state_of requeued c ≡ ready
  requeued-state =
      field-enqueue_ready (λ t. t.state) (update c (set_state ready) (saved c regs s)) c c
        (λ n t. refl)
      ∙ ap (λ (t : Task). t.state)
          (get_or-modify_self (saved c regs s).tasks c (set_state ready) free_slot
            (saved-bound s c regs xs v))

  requeued-esp :
      (n : ℕ) → c ≢ n → (task_at requeued.tasks n).kernel_esp ≡ (task_at s.tasks n).kernel_esp
  requeued-esp n ne =
      field-enqueue_ready (λ t. t.kernel_esp) (update c (set_state ready) (saved c regs s)) c n
        (λ p t. refl)
      ∙ field-modify_keep (λ t. t.kernel_esp) (saved c regs s).tasks c n (set_state ready)
          (λ t. refl)
      ∙ ap (λ (t : Task). t.kernel_esp) (get_or-modify_ne s.tasks c n _ free_slot ne)

  requeued-Switched :
      (n : ℕ) (ns : List ℕ)
      → stopped (state_of s c) ≡ false
      → 1 < s.task_count
      → xs ≡ n ∷ ns
      → let (r, s') = scheduler_tick 32 regs s in Switched requeued n (ns ++ c ∷ []) r s'
  requeued-Switched n ns h many e =
      rw (tick_is s c regs xs v, by_state-requeued (state_of s c) c regs (saved c regs s) h many)
        (pick_next-cons requeued c regs n (ns ++ c ∷ []) (rw e at requeued-queue))

  -- For a scheduler whose ready queue holds the slots n and ns, with the running or ready slot c
  -- current and more than one task, the timer interrupt resumes n from its saved frame, marks n
  -- running and c ready, and leaves the ready queue ns followed by c.
  pub tick-requeued :
      (n : ℕ) (ns : List ℕ)
      → stopped (state_of s c) ≡ false
      → 1 < s.task_count
      → xs ≡ n ∷ ns
      → let (r, s') = scheduler_tick 32 regs s in
        (r ≡ frame (task_at s.tasks n).kernel_esp)
        × (s'.current ≡ some n)
        × (state_of s' n ≡ running)
        × (state_of s' c ≡ ready)
        × IsReady s' (ns ++ c ∷ [])
  tick-requeued n ns h many e =
      let sw = requeued-Switched n ns h many e in
      let apart : has c (n ∷ ns) ≡ false = sym (ap (has c) e) ∙ v.apart in
      let ne : n ≢ c = ground arith in
      (
        sw.restores ∙ ap frame (requeued-esp n (λ q. ne (sym q))),
        sw.current_is,
        sw.is_running,
        sw.others c ne ∙ requeued-state,
        sw.queue,
      )
