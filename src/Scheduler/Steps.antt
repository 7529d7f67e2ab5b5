-- ===== src/Scheduler/Steps.antt =====
-- The running kernel as steps of kernel/scheduler.c: timer interrupts, and what happens between them.
use sros.Prelude.{
  ℕ, zero, suc, ◌<◌, ◌≡◌, refl, sym, ◌∙◌, true, some, List, [], ◌∷◌, ◌++◌, arith, ltb, length,
  append-nil, append_assoc, Bool-cases, inl, inr, lt→ltb,
}
use sros.Task.{TaskState, ready, running, blocked, zombie, set_state}
use sros.Scheduler.{Sched, update, state_of, enqueue_ready, scheduler_tick}
use sros.Scheduler.Queue.{task_count-pick_next}
use sros.Scheduler.Round.{
  Inv, plan, saved, saved-queue, requeued, requeued-queue, stopped, by_state-stopped,
  by_state-requeued, tick_is,
}
use sros.Scheduler.Invariant.{plan_current, plan_queue, scheduler_tick-Inv}
use sros.Scheduler.Between.{Quiet, Quiet-Inv}

-- The runs with a given number of timer interrupts.
pub data Run : ℕ → Sched → Sched → Type 0 where
  here : (s : Sched) → Run 0 s s
  between : {k : ℕ} {s t u : Sched} → Quiet s t → Run k t u → Run k s u
  tick : {k : ℕ} {s u : Sched} (regs : ℕ) → Run k (scheduler_tick 32 regs s).1 u → Run (suc k) s u

-- Where the current task goes at an interrupt.
abbrev pub behind : TaskState → ℕ → List ℕ
behind ready c = c ∷ []
behind running c = c ∷ []
behind _ c = []

plan-front :
    (st : TaskState) (c n : ℕ) (ns : List ℕ)
    → (plan_current c (plan st true c (n ∷ ns)) ≡ n)
      × (plan_queue (plan st true c (n ∷ ns)) ≡ ns ++ behind st c)
plan-front ready c n ns = (refl, refl)
plan-front running c n ns = (refl, refl)
plan-front blocked c n ns = (refl, sym (append-nil ns))
plan-front zombie c n ns = (refl, sym (append-nil ns))

-- With more than one task, an interrupt passes the slot to the next task in the queue.
pub tick-next :
    (s : Sched) (c n regs : ℕ) (ns : List ℕ)
    → Inv s c (n ∷ ns)
    → 1 < s.task_count
    → Inv (scheduler_tick 32 regs s).1 n (ns ++ behind (state_of s c) c)
tick-next s c n regs ns v many =
    let (cur, rest) = plan-front (state_of s c) c n ns in
    let several : ltb 1 s.task_count ≡ true = lt→ltb 1 s.task_count many in
    rw (several, cur, rest) at (scheduler_tick-Inv s c regs (n ∷ ns) v)

task_count-enqueue_ready : (s : Sched) (i : ℕ) → (enqueue_ready i s).task_count ≡ s.task_count
unfolding enqueue_ready
task_count-enqueue_ready s i = refl

task_count-tick :
    (s : Sched) (c n regs : ℕ) (ns : List ℕ)
    → Inv s c (n ∷ ns)
    → 1 < s.task_count
    → (scheduler_tick 32 regs s).1.task_count ≡ s.task_count
task_count-tick s c n regs ns v many = elim (Bool-cases (stopped (state_of s c))) [
  | inl gives_way ↦
      rw
        (
          tick_is s c regs (n ∷ ns) v,
          by_state-stopped (state_of s c) c regs (saved c regs s) gives_way,
        )
        (task_count-pick_next (saved c regs s) c regs n ns (saved-queue s c regs (n ∷ ns) v))
  | inr goes_on ↦
      rw
        (
          tick_is s c regs (n ∷ ns) v,
          by_state-requeued (state_of s c) c regs (saved c regs s) goes_on many,
        )
        (task_count-pick_next (requeued s c regs (n ∷ ns) v) c regs n (ns ++ c ∷ [])
            (requeued-queue s c regs (n ∷ ns) v)
          ∙ task_count-enqueue_ready (update c (set_state ready) (saved c regs s)) c)
]

-- The run has more than `i` interrupts, and the one after the first `i` leads to a state that
-- satisfies `Q`.
abbrev pub AfterTick : {k : ℕ} {s u : Sched} → (Sched → Type 0) → ℕ → Run k s u → Type 0
AfterTick Q i (here s) = i < 0
AfterTick Q i (between q r) = AfterTick Q i r
AfterTick Q zero (tick {s = s} regs r) = Q (scheduler_tick 32 regs s).1
AfterTick Q (suc i) (tick regs r) = AfterTick Q i r

-- After that interrupt the task in slot `n` runs.
abbrev pub Serves : {k : ℕ} {s u : Sched} → ℕ → ℕ → Run k s u → Type 0
Serves n i r = AfterTick (λ t. t.current ≡ some n) i r

-- In a scheduler that satisfies its invariant and has more than one task, let n be a ready slot
-- with k slots before it in the ready queue. In every run of timer interrupts, blocking of the
-- running task and waking of blocked tasks that has more than k interrupts, interrupt number k + 1
-- of that run leads to a state in which n runs.
pub Run-Serves :
    {k : ℕ} {s u : Sched} (r : Run k s u) (c n : ℕ) (pre post : List ℕ)
    → Inv s c (pre ++ n ∷ post)
    → 1 < s.task_count
    → length pre < k
    → Serves n (length pre) r
Run-Serves (here s) c n pre post v many enough = absurd (omega arith)
Run-Serves (between q r) c n pre post v many enough =
    let (ys, w, same) = Quiet-Inv q c (pre ++ n ∷ post) v in
    Run-Serves r c n pre (post ++ ys) (rw (append_assoc pre (n ∷ post) ys) at w)
      (rw (sym same) at many) enough
Run-Serves (tick {s = s} regs r) c n [] post v many enough =
    (tick-next s c n regs post v many).current_is
Run-Serves (tick {s = s} regs r) c n (p ∷ pre) post v many enough =
    let back = behind (state_of s c) c in
    let w = tick-next s c p regs (pre ++ n ∷ post) v many in
    let same = task_count-tick s c p regs (pre ++ n ∷ post) v many in
    Run-Serves r p n pre (post ++ back) (rw (append_assoc pre (n ∷ post) back) at w)
      (rw (sym same) at many) (omega arith)

-- Every state that a run of timer interrupts, blocking of the running task and waking of blocked
-- tasks reaches from a state with the scheduler's invariant satisfies it too, for some current
-- task and ready queue: the queue stays a list of distinct ready slots without the current one.
pub Run-Inv :
    {k : ℕ} {s u : Sched}
    → Run k s u
    → (c : ℕ) (xs : List ℕ) → Inv s c xs
    → (c' : ℕ) × (xs' : List ℕ) × Inv u c' xs'
Run-Inv (here s) c xs v = (c, xs, v)
Run-Inv (between q r) c xs v = let (ys, w, same) = Quiet-Inv q c xs v in Run-Inv r c (xs ++ ys) w
Run-Inv (tick {s = s} regs r) c xs v = Run-Inv r _ _ (scheduler_tick-Inv s c regs xs v)
