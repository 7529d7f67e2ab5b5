-- ===== src/Scheduler/Queue.antt =====
-- The ready queue of kernel/scheduler.c as a list of slots: `enqueue_ready`, `dequeue_ready` and
-- the switch to the next task.
use sros.Prelude.{
  ℕ, ◌<◌, ◌≡◌, refl, ap, ◌∙◌, ◌≢◌, false, Option, none, some, List, [], ◌∷◌, ◌++◌, arith, ◌==◌,
  if◌then◌else◌, length, modify, length-modify, get_or-modify_self, get_or-modify_ne,
}
use sros.Task.{
  Task, TaskState, running, zombie, Table, task_at, free_slot, TaskQueue, set_next, set_state,
  after_head,
}
use sros.Task.Chain.{has, IsQueue, Chain-modify_keep, field-modify_keep}
use sros.Task.Queue.{
  push_back_lem, field-push_back, length-push_back, pop_front-nil, pop_front-cons, pop_front-some,
}
use sros.Scheduler.{
  Sched, update, state_of, enqueue_ready, dequeue_ready, Resume, frame, halted, switch_to,
  pick_next,
}

-- The ready queue of the state holds the slots `xs`, oldest first.
abbrev pub IsReady : Sched → List ℕ → Type 0
IsReady s xs = IsQueue s.tasks s.ready_queue xs

pub IsQueue-modify_keep :
    (ts : Table) (q : TaskQueue) (xs : List ℕ) (i : ℕ) (f : Task → Task)
    → ((t : Task) → (f t).next ≡ t.next)
    → IsQueue ts q xs
    → IsQueue (modify ts i f) q xs
IsQueue-modify_keep ts q xs i f same v = record {
  chain = Chain-modify_keep ts q.head xs i f same v.chain;
  tail_is = v.tail_is;
}

pub enqueue_ready_lem :
    (s : Sched) (i : ℕ) (xs : List ℕ)
    → i < length s.tasks
    → IsReady s xs
    → has i xs ≡ false
    → IsReady (enqueue_ready i s) (xs ++ i ∷ [])
unfolding enqueue_ready
enqueue_ready_lem s i xs b v out = push_back_lem s.tasks s.ready_queue i xs b v out

pub field-enqueue_ready :
    {B : Type 0} (g : Task → B) (s : Sched) (i j : ℕ)
    → ((n : Option ℕ) (t : Task) → g (set_next n t) ≡ g t)
    → g (task_at (enqueue_ready i s).tasks j) ≡ g (task_at s.tasks j)
unfolding enqueue_ready
field-enqueue_ready g s i j same = field-push_back g s.tasks s.ready_queue i j same

pub length-enqueue_ready : (s : Sched) (i : ℕ) → length (enqueue_ready i s).tasks ≡ length s.tasks
unfolding enqueue_ready
length-enqueue_ready s i = length-push_back s.tasks s.ready_queue i

-- What a switch to `n` does: the frame that is restored, and the state.
pub record Switched (s : Sched) (n : ℕ) (ns : List ℕ) (r : Resume) (s' : Sched) : Type 0 where
  pub restores : r ≡ frame (task_at s.tasks n).kernel_esp
  pub current_is : s'.current ≡ some n
  pub is_running : state_of s' n ≡ running
  pub others : (j : ℕ) → n ≢ j → state_of s' j ≡ state_of s j
  pub queue : IsReady s' ns
  pub size : length s'.tasks ≡ length s.tasks
  pub esp0 : s'.tss_esp0 ≡ (task_at s.tasks n).kernel_stack_top
  pub space :
      s'.mem.cr3
      ≡ (if (task_at s.tasks n).page_dir == 0 then s.mem.cr3 else (task_at s.tasks n).page_dir)

-- The state with the head `n` of the ready queue taken off.
abbrev dequeued : Sched → ℕ → Sched
dequeued s n = record s {
  tasks = modify s.tasks n (set_next none);
  ready_queue = after_head s.ready_queue (task_at s.tasks n).next;
}

dequeue_ready-some :
    (s : Sched) (n : ℕ) → s.ready_queue.head ≡ some n → dequeue_ready s ≡ (some n, dequeued s n)
unfolding dequeue_ready
dequeue_ready-some s n e = rw (pop_front-some s.tasks s.ready_queue n e)

dequeued-IsReady :
    (s : Sched) (n : ℕ) (ns : List ℕ) → IsReady s (n ∷ ns) → IsReady (dequeued s n) ns
dequeued-IsReady s n ns v =
    rw (pop_front-some s.tasks s.ready_queue n v.chain.0) at
      (pop_front-cons s.tasks s.ready_queue n ns v).2

switch_to-Switched :
    (s : Sched) (n : ℕ) (ns : List ℕ)
    → IsReady s (n ∷ ns)
    → let (r, s') = switch_to n (dequeued s n) in Switched s n ns r s'
unfolding switch_to
switch_to-Switched s n ns v = record {
  restores = ap frame (kept (λ t. t.kernel_esp) (λ st t. refl) (λ p t. refl));
  current_is = refl;
  is_running =
      ap (λ (t : Task). t.state)
        (get_or-modify_self (dequeued s n).tasks n (set_state running) free_slot
          (rw (length-modify s.tasks n (set_next none)) bound));
  others = λ j ne.
      ap (λ (t : Task). t.state)
        (get_or-modify_ne (dequeued s n).tasks n j (set_state running) free_slot ne
          ∙ get_or-modify_ne s.tasks n j (set_next none) free_slot ne);
  queue = IsQueue-modify_keep _ _ ns n (set_state running) (λ t. refl) (dequeued-IsReady s n ns v);
  size =
      length-modify (dequeued s n).tasks n (set_state running)
      ∙ length-modify s.tasks n (set_next none);
  esp0 = kept (λ t. t.kernel_stack_top) (λ st t. refl) (λ p t. refl);
  space = rw (kept (λ t. t.page_dir) (λ st t. refl) (λ p t. refl)) (ground arith);
}
  where
    bound : n < length s.tasks
    bound = v.chain.1

    kept :
        {B : Type 0} (g : Task → B)
        → ((st : TaskState) (t : Task) → g (set_state st t) ≡ g t)
        → ((p : Option ℕ) (t : Task) → g (set_next p t) ≡ g t)
        → g (task_at (update n (set_state running) (dequeued s n)).tasks n) ≡ g (task_at s.tasks n)
    kept g a b =
        field-modify_keep g (dequeued s n).tasks n n (set_state running) (a running)
        ∙ field-modify_keep g s.tasks n n (set_next none) (b none)

-- With a task in the ready queue, `pick_next` switches to the oldest.
pub pick_next-cons :
    (s : Sched) (c regs n : ℕ) (ns : List ℕ)
    → IsReady s (n ∷ ns)
    → let (r, s') = pick_next c regs s in Switched s n ns r s'
unfolding pick_next
pick_next-cons s c regs n ns v = rw (dequeue_ready-some s n v.chain.0) (switch_to-Switched s n ns v)

pub task_count-pick_next :
    (s : Sched) (c regs n : ℕ) (ns : List ℕ)
    → IsReady s (n ∷ ns)
    → (pick_next c regs s).1.task_count ≡ s.task_count
unfolding pick_next switch_to
task_count-pick_next s c regs n ns v = rw (dequeue_ready-some s n v.chain.0) refl

dequeue_ready-nil : (s : Sched) → IsReady s [] → dequeue_ready s ≡ (none, s)
unfolding dequeue_ready
dequeue_ready-nil s v = simp (pop_front-nil s.tasks s.ready_queue v)

-- Without one, a task that has exited leaves the machine halted, and any other runs on.
pub pick_next-nil :
    (s : Sched) (c regs : ℕ)
    → IsReady s []
    → pick_next c regs s ≡ elim (state_of s c) [
      | zombie ↦ (halted, s)
      | _ ↦ (frame regs, update c (set_state running) s)
    ]
unfolding pick_next
pick_next-nil s c regs v = rw (dequeue_ready-nil s v)
