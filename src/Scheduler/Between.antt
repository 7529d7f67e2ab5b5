-- ===== src/Scheduler/Between.antt =====
-- What happens between two timer interrupts in kernel/scheduler.c: `task_block` for the running task
-- and `task_wake` for a blocked one.
use sros.Prelude.{
  ℕ, ◌<◌, ◌≡◌, refl, sym, ap, ◌∙◌, ◌≢◌, true, false, some, List, [], ◌∷◌, ◌++◌, arith, ◌==◌, length,
  length-modify, get_or-modify_self, get_or-modify_ne, append-nil, Bool-cases, inl, inr,
}
use sros.Task.{Task, ready, blocked, free_slot, set_state}
use sros.Task.Chain.{has, has-append}
use sros.Scheduler.{Sched, update, state_of, enqueue_ready, task_block, task_wake}
use sros.Scheduler.Queue.{
  IsQueue-modify_keep, enqueue_ready_lem, field-enqueue_ready, length-enqueue_ready,
}
use sros.Scheduler.Round.{Inv}
use sros.Scheduler.Invariant.{current-enqueue_ready}

-- A task that another one, or an interrupt handler, makes ready.
pub record Wakes (s : Sched) (i : ℕ) : Type 0 where
  pub inside : i < length s.tasks
  pub waits : state_of s i ≡ blocked
  pub not_current : s.current ≢ some i

-- What happens between two timer interrupts.
pub data Quiet : Sched → Sched → Type 0 where
  blocks : (s : Sched) → Quiet s (task_block s)
  wakes : (s : Sched) (i : ℕ) → Wakes s i → Quiet s (task_wake (some i) s)

task_block-some :
    (s : Sched) (c : ℕ) → s.current ≡ some c → task_block s ≡ update c (set_state blocked) s
unfolding task_block
task_block-some s c e = rw e

task_block-Inv : (s : Sched) (c : ℕ) (xs : List ℕ) → Inv s c xs → Inv (task_block s) c xs
task_block-Inv s c xs v = rw (task_block-some s c v.current_is) (record {
  current_is = v.current_is;
  queue = IsQueue-modify_keep s.tasks s.ready_queue xs c (set_state blocked) (λ t. refl) v.queue;
  bound = rw (length-modify s.tasks c (set_state blocked)) v.bound;
  apart = v.apart;
  all_ready = λ j h.
      ap (λ (t : Task). t.state)
        (get_or-modify_ne s.tasks c j (set_state blocked) free_slot
          (λ e. cc (v.apart, h, ap (λ k. has k xs) e)))
      ∙ v.all_ready j h;
})

module _ (s : Sched) (c i : ℕ) (xs : List ℕ) (v : Inv s c xs) (w : Wakes s i) where
  not_queued : has i xs ≡ false
  not_queued = elim (Bool-cases (has i xs)) [
    | inl queued ↦ let e = v.all_ready i queued in cc (e, w.waits)
    | inr out ↦ out
  ]

  abbrev woken : Sched
  woken = update i (set_state ready) s

  woken-state : (j : ℕ) → has j (xs ++ i ∷ []) ≡ true → state_of (enqueue_ready i woken) j ≡ ready
  woken-state j h =
      field-enqueue_ready (λ t. t.state) woken i j (λ n t. refl) ∙ elim (Bool-cases (i == j)) [
        | inl same ↦
            let e : i ≡ j = ground arith in
            ap (state_of woken) (sym e)
            ∙ ap (λ (t : Task). t.state)
                (get_or-modify_self s.tasks i (set_state ready) free_slot w.inside)
        | inr apart ↦
            let ne : i ≢ j = ground arith in
            ap (λ (t : Task). t.state) (get_or-modify_ne s.tasks i j (set_state ready) free_slot ne)
            ∙ v.all_ready j (ground (arith, has-append j xs (i ∷ [])))
      ]

  task_wake-Inv : Inv (task_wake (some i) s) c (xs ++ i ∷ [])
  unfolding task_wake
  task_wake-Inv = record {
    current_is = current-enqueue_ready woken i ∙ v.current_is;
    queue =
        enqueue_ready_lem woken i xs (rw (length-modify s.tasks i (set_state ready)) w.inside)
          (IsQueue-modify_keep s.tasks s.ready_queue xs i (set_state ready) (λ t. refl) v.queue)
          not_queued;
    bound = rw (length-enqueue_ready woken i, length-modify s.tasks i (set_state ready)) v.bound;
    apart =
        let ne : c ≢ i = λ e. w.not_current (v.current_is ∙ ap some e) in
        has-append c xs (i ∷ []) ∙ ground (arith, v.apart);
    all_ready = woken-state;
  }

-- What a step between two interrupts keeps: the queue may only grow at its end.
pub Quiet-Inv :
    {s t : Sched}
    → Quiet s t
    → (c : ℕ) (xs : List ℕ) → Inv s c xs
    → (ys : List ℕ) × Inv t c (xs ++ ys) × (t.task_count ≡ s.task_count)
unfolding task_wake enqueue_ready
Quiet-Inv (blocks s) c xs v = (
  [],
  rw (append-nil xs) (task_block-Inv s c xs v),
  ap (λ (t : Sched). t.task_count) (task_block-some s c v.current_is),
)
Quiet-Inv (wakes s i w) c xs v = (i ∷ [], task_wake-Inv s c i xs v w, refl)
