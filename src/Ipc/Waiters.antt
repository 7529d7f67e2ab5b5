-- ===== src/Ipc/Waiters.antt =====
-- The wait queues of kernel/ipc.c beside the ready queue: how a task goes to sleep on one, and how
-- one waiter or all of them are woken.
use sros.Prelude.{
  ℕ, zero, suc, ◌<◌, ◌≡◌, refl, sym, ap, ◌∙◌, ◌≢◌, true, false, Option, none, some, List, [], ◌∷◌,
  ◌++◌, append_assoc, append-nil, arith, length, modify, length-modify, get_or-modify_self,
  get_or-modify_ne, ◌==◌, Bool-cases, inl, inr,
}
use sros.Task.{Task, ready, blocked, Table, task_at, free_slot, TaskQueue, set_next, set_state}
use sros.Task.Chain.{has, Chain, IsQueue, Chain-modify_ne, Chain-modify_keep, has-append}
use sros.Task.Queue.{
  Disjoint, push_back_lem, Chain-push_back, field-push_back, length-push_back, pop_front-some,
  pop_front-cons,
}
use sros.Scheduler.{Sched, update, state_of, enqueue_ready, task_block, task_wake}
use sros.Scheduler.Queue.{
  IsReady, IsQueue-modify_keep, enqueue_ready_lem, field-enqueue_ready, length-enqueue_ready,
}
use sros.Ipc.{block_on, wake_popped, wake_first, wake_all}

-- What waking the slot `w` does to the scheduler: it becomes ready, behind the ready slots `rs`,
-- and no other task changes its state.
pub record Woken (s : Sched) (w : ℕ) (rs : List ℕ) (s' : Sched) : Type 0 where
  pub queue : IsReady s' (rs ++ w ∷ [])
  pub is_ready : state_of s' w ≡ ready
  pub others : (j : ℕ) → w ≢ j → state_of s' j ≡ state_of s j
  pub same_current : s'.current ≡ s.current
  pub size : length s'.tasks ≡ length s.tasks

pub not-has-cons : (rs ws : List ℕ) (w : ℕ) → Disjoint rs (w ∷ ws) → has w rs ≡ false
not-has-cons rs ws w apart = elim (Bool-cases (has w rs)) [
  | inl inside ↦ ground (arith, apart w)
  | inr outside ↦ outside
]

pub Disjoint-tail : (rs ws : List ℕ) (w : ℕ) → Disjoint rs (w ∷ ws) → Disjoint rs ws
Disjoint-tail rs ws w apart a m = ground (arith, apart a m)

-- A slot that moves from the front of one list to the end of the other keeps them apart.
pub Disjoint-move :
    (rs ws : List ℕ) (w : ℕ) → Disjoint rs (w ∷ ws) → has w ws ≡ false → Disjoint (rs ++ w ∷ []) ws
Disjoint-move rs ws w apart out a m = elim (Bool-cases (has a rs)) [
  | inl inside ↦ Disjoint-tail rs ws w apart a inside
  | inr outside ↦
      let e : a ≡ w = ground (arith, has-append a rs (w ∷ [])) in ap (λ k. has k ws) e ∙ out
]

pub Disjoint-snoc :
    (rs ws : List ℕ) (c : ℕ) → Disjoint rs ws → has c rs ≡ false → Disjoint rs (ws ++ c ∷ [])
Disjoint-snoc rs ws c apart out a m = elim (Bool-cases (a == c)) [
  | inl same ↦ let e : a ≡ c = ground arith in cc (sym m ∙ ap (λ k. has k rs) e ∙ out)
  | inr other ↦ ground (arith, has-append a ws (c ∷ []), apart a m)
]

module _ (s : Sched) (w : ℕ) (rs : List ℕ) (bound : w < length s.tasks) (q : IsReady s rs)
    (out : has w rs ≡ false) where
  -- The state after the unlinking of `w`, before `task_wake` queues it.
  abbrev unlinked : Sched
  unlinked = update w (set_state ready) (update w (set_next none) s)

  unlinked-bound : w < length unlinked.tasks
  unlinked-bound =
      rw
        (
          length-modify (modify s.tasks w (set_next none)) w (set_state ready),
          length-modify s.tasks w (set_next none),
        )
        bound

  unlinked-IsReady : IsReady unlinked rs
  unlinked-IsReady =
      IsQueue-modify_keep (modify s.tasks w (set_next none)) s.ready_queue rs w (set_state ready)
        (λ t. refl)
        (record {
          chain = Chain-modify_ne s.tasks s.ready_queue.head rs w (set_next none) out q.chain;
          tail_is = q.tail_is;
        })

  pub task_wake-Woken : Woken s w rs (task_wake (some w) (update w (set_next none) s))
  unfolding task_wake
  task_wake-Woken = record {
    queue = enqueue_ready_lem unlinked w rs unlinked-bound unlinked-IsReady out;
    is_ready =
        field-enqueue_ready (λ t. t.state) unlinked w w (λ n t. refl)
        ∙ ap (λ (t : Task). t.state)
            (get_or-modify_self (modify s.tasks w (set_next none)) w (set_state ready) free_slot
              (rw (length-modify s.tasks w (set_next none)) bound));
    others = λ j ne.
        field-enqueue_ready (λ t. t.state) unlinked w j (λ n t. refl)
        ∙ ap (λ (t : Task). t.state)
            (get_or-modify_ne (modify s.tasks w (set_next none)) w j (set_state ready) free_slot ne
              ∙ get_or-modify_ne s.tasks w j (set_next none) free_slot ne);
    same_current = unfold enqueue_ready in refl;
    size =
        length-enqueue_ready unlinked w
        ∙ length-modify (modify s.tasks w (set_next none)) w (set_state ready)
        ∙ length-modify s.tasks w (set_next none);
  }

  -- A chain that shares no slot with the ready queue and does not hold `w` is left alone.
  pub Chain-task_wake :
      (p : Option ℕ) (ys : List ℕ)
      → has w ys ≡ false
      → Disjoint rs ys
      → Chain (modify s.tasks w (set_next none)) p ys
      → Chain (task_wake (some w) (update w (set_next none) s)).tasks p ys
  unfolding task_wake enqueue_ready
  Chain-task_wake p ys away apart c =
      Chain-push_back unlinked.tasks s.ready_queue w rs p ys q.tail_is away apart (
        Chain-modify_keep (modify s.tasks w (set_next none)) p ys w (set_state ready) (λ t. refl) c)

-- The first waiter of a queue becomes the last ready task, and the others keep waiting in order.
pub wake_first-cons :
    (s : Sched) (q : TaskQueue) (w : ℕ) (ws rs : List ℕ)
    → IsQueue s.tasks q (w ∷ ws)
    → IsReady s rs
    → Disjoint rs (w ∷ ws)
    → let (s', q') = wake_first q s in Woken s w rs s' × IsQueue s'.tasks q' ws
unfolding wake_first wake_popped
wake_first-cons s q w ws rs v r apart =
    let out = not-has-cons rs ws w apart in
    let rest = rw (pop_front-some s.tasks q w v.chain.0) at (pop_front-cons s.tasks q w ws v).2 in
    rw (pop_front-some s.tasks q w v.chain.0) (
      task_wake-Woken s w rs v.chain.1 r out,
      record {
        chain =
            Chain-task_wake s w rs v.chain.1 r out _ ws v.chain.2 (Disjoint-tail rs ws w apart)
              rest.chain;
        tail_is = rest.tail_is;
      },
    )

-- The loop that empties a wait queue ends when the fuel exceeds the number of waiters; it moves
-- all waiters in their order to the end of the ready queue, makes them ready, and leaves the
-- states of the other tasks and the current task as they were.
pub wake_all_lem :
    (fuel : ℕ) (p : Option ℕ) (s : Sched) (ws rs : List ℕ)
    → Chain s.tasks p ws
    → IsReady s rs
    → Disjoint rs ws
    → length ws < fuel
    → (s' : Sched) × (wake_all fuel p s ≡ some s')
      × IsReady s' (rs ++ ws)
      × ((j : ℕ) → has j ws ≡ true → state_of s' j ≡ ready)
      × ((j : ℕ) → has j ws ≡ false → state_of s' j ≡ state_of s j)
      × (s'.current ≡ s.current)
unfolding wake_all
wake_all_lem zero p s ws rs c r apart h = elim h [ ]
wake_all_lem (suc fuel) none s [] rs c r apart h =
    (s, refl, rw append-nil r, (λ j m. cc), (λ j m. refl), refl)
wake_all_lem (suc fuel) (some x) s [] rs c r apart h = cc
wake_all_lem (suc fuel) none s (w ∷ ws) rs c r apart h = cc (c.0)
wake_all_lem (suc fuel) (some x) s (w ∷ ws) rs c r apart h =
    let e : w ≡ x = ground arith in
    let out = not-has-cons rs ws w apart in
    let wk = task_wake-Woken s w rs c.1 r out in
    let (s', run, queue, woken, others, cur) =
      wake_all_lem fuel (task_at s.tasks w).next (task_wake (some w) (update w (set_next none) s))
        ws (rs ++ w ∷ [])
        (Chain-task_wake s w rs c.1 r out _ ws c.2 (Disjoint-tail rs ws w apart)
          (Chain-modify_ne s.tasks _ ws w (set_next none) c.2 c.3))
        wk.queue (Disjoint-move rs ws w apart c.2) (omega arith) in
    (
      s',
      rw (← e) run,
      rw (← append_assoc rs (w ∷ []) ws) queue,
      (λ j m. elim (Bool-cases (has j ws)) [
        | inl inside ↦ woken j inside
        | inr outside ↦
            let same : w ≡ j = ground arith in
            others j outside
            ∙ ap (state_of (task_wake (some w) (update w (set_next none) s))) (sym same)
            ∙ wk.is_ready
      ]),
      (λ j m. others j (ground arith) ∙ wk.others j (ground arith)),
      cur ∙ wk.same_current,
    )

task_block-some :
    (s : Sched) (c : ℕ) → s.current ≡ some c → task_block s ≡ update c (set_state blocked) s
unfolding task_block
task_block-some s c e = ground arith

-- What going to sleep does: the slot `c` is blocked and last among the waiters `ws`; the ready
-- queue, the current task and the states of the others stay.
pub record Slept (s : Sched) (c : ℕ) (ws rs : List ℕ) (s' : Sched) (q' : TaskQueue) : Type 0 where
  pub waits : IsQueue s'.tasks q' (ws ++ c ∷ [])
  pub queue : IsReady s' rs
  pub is_blocked : state_of s' c ≡ blocked
  pub others : (j : ℕ) → c ≢ j → state_of s' j ≡ state_of s j
  pub same_current : s'.current ≡ s.current
  pub size : length s'.tasks ≡ length s.tasks

pub block_on-Slept :
    (s : Sched) (c : ℕ) (q : TaskQueue) (ws rs : List ℕ)
    → s.current ≡ some c
    → c < length s.tasks
    → IsQueue s.tasks q ws
    → IsReady s rs
    → has c ws ≡ false
    → has c rs ≡ false
    → Disjoint ws rs
    → let (s', q') = block_on c q s in Slept s c ws rs s' q'
unfolding block_on
block_on-Slept s c q ws rs e b v r out away apart = rw (task_block-some s c e) (record {
  waits = push_back_lem ts q c ws bound (IsQueue-modify_keep s.tasks q ws c _ (λ t. refl) v) out;
  queue = record {
    chain =
        Chain-push_back ts q c ws s.ready_queue.head rs v.tail_is away apart (
          Chain-modify_keep s.tasks s.ready_queue.head rs c (set_state blocked) (λ t. refl)
            r.chain);
    tail_is = r.tail_is;
  };
  is_blocked =
      field-push_back (λ t. t.state) ts q c c (λ n t. refl)
      ∙ ap (λ (t : Task). t.state) (get_or-modify_self s.tasks c (set_state blocked) free_slot b);
  others = λ j ne.
      field-push_back (λ t. t.state) ts q c j (λ n t. refl)
      ∙ ap (λ (t : Task). t.state) (get_or-modify_ne s.tasks c j (set_state blocked) free_slot ne);
  same_current = refl;
  size = length-push_back ts q c ∙ length-modify s.tasks c (set_state blocked);
})
  where
    ts : Table
    ts = modify s.tasks c (set_state blocked)

    bound : c < length ts
    bound = rw (length-modify s.tasks c (set_state blocked)) b
