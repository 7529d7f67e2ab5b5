-- ===== src/Ipc/Sem/Laws.antt =====
-- The semaphores of kernel/ipc.c refine counting semaphores with a FIFO of waiters.
use sros.Prelude.{
  ℕ, zero, suc, ◌+◌, ◌<◌, ◌≡◌, ◌≢◌, refl, sym, ap, ◌∙◌, false, Option, none, some, List, [], ◌∷◌,
  ◌++◌, arith, ℤ, pos, max_int, eq_int, eq_int_iff, inc_int, dec_int, length, get_or, modify,
  get_or-modify_self, length-modify, find_index_sound,
}
use sros.Task.Chain.{has, IsQueue}
use sros.Task.Queue.{Disjoint, Disjoint-symm}
use sros.Task.{TaskState, blocked}
use sros.Scheduler.{Sched, CallResult, returns, sleeps, state_of}
use sros.Scheduler.Queue.{IsReady}
use sros.Ipc.{Ipc, Semaphore, block_on, wake_first}
use sros.Ipc.Waiters.{wake_first-cons, block_on-Slept, Disjoint-move, Disjoint-snoc}
use sros.Ipc.Sem.{
  sem_at, no_sem, update_sem, find_sem, checked_sem, sleep_on, wait_at, sem_wait, wake_one, post_to,
  sem_post,
}

-- A semaphore as its users see it: its tokens, the tasks that wait for one, oldest first, and the
-- ready tasks that a wake-up joins.
pub record View : Type 0 where
  pub tokens : ℕ
  pub waiting : List ℕ
  pub ready_tasks : List ℕ

-- P by the task `c`.
abbrev pub wait_view : ℕ → ℕ → List ℕ → List ℕ → CallResult × View
wait_view c zero ws rs = (sleeps, record { tokens = 0; waiting = ws ++ c ∷ []; ready_tasks = rs })
wait_view c (suc n) ws rs = (returns (pos 0), record { tokens = n; waiting = ws; ready_tasks = rs })

abbrev pub spec_wait : ℕ → View → CallResult × View
spec_wait c v = wait_view c v.tokens v.waiting v.ready_tasks

-- V: a waiter, if there is one, gets the token at once.
abbrev pub post_view : ℕ → List ℕ → List ℕ → View
post_view n [] rs = record { tokens = n + 1; waiting = []; ready_tasks = rs }
post_view n (w ∷ ws) rs = record { tokens = n; waiting = ws; ready_tasks = rs ++ w ∷ [] }

abbrev pub spec_post : View → View
spec_post v = post_view v.tokens v.waiting v.ready_tasks

-- The state of the task that has done P: it is blocked if there was no token.
abbrev pub wait_state : ℕ → TaskState → TaskState
wait_state zero st = blocked
wait_state (suc n) st = st

-- P by the task `c` has set its state, and no other task's.
pub record States (c n : ℕ) (s s' : Sched) : Type 0 where
  pub own : state_of s' c ≡ wait_state n (state_of s c)
  pub others : (j : ℕ) → c ≢ j → state_of s' j ≡ state_of s j

-- The semaphore in slot `i` shows the view `v`.
pub record Shows (k : Ipc) (i : ℕ) (v : View) : Type 0 where
  pub in_table : i < length k.sem_table
  pub value_is : (sem_at k i).value ≡ pos v.tokens
  pub waits : IsQueue k.sched.tasks (sem_at k i).wait v.waiting
  pub queue : IsReady k.sched v.ready_tasks
  pub apart : Disjoint v.ready_tasks v.waiting

-- An id that is found belongs to the semaphore in the slot.
pub checked_sem_sound :
    (sem_id : ℤ) (k : Ipc) (i : ℕ)
    → checked_sem sem_id k ≡ some i
    → (i < length k.sem_table) × ((sem_at k i).id ≡ sem_id)
unfolding checked_sem find_sem
checked_sem_sound sem_id k i h = ground (
  arith,
  find_index_sound (λ (m : Semaphore). eq_int m.id sem_id) k.sem_table i no_sem,
  eq_int_iff (sem_at k i).id sem_id,
)

inc_int-pos : (n : ℕ) → n < max_int → inc_int (pos n) ≡ pos (n + 1)
inc_int-pos n h = ground arith

wait_at-takes :
    (k : Ipc) (i n : ℕ)
    → (sem_at k i).value ≡ pos (suc n)
    → wait_at (some i) k
      ≡ (returns (pos 0), update_sem i (λ m. record m { value = dec_int m.value }) k)
unfolding wait_at
wait_at-takes k i n e = rw (e, wait_at) (ground arith)

wait_at-sleeps :
    (k : Ipc) (i c : ℕ)
    → (sem_at k i).value ≡ pos 0
    → k.sched.current ≡ some c
    → wait_at (some i) k ≡ sleep_on i (some c) k
unfolding wait_at
wait_at-sleeps k i c e cur = rw (e, wait_at) (ap (λ (o : Option ℕ). sleep_on i o k) cur)

module _ (k : Ipc) (i : ℕ) (v : View) (sh : Shows k i v) where
  sem_at-modify :
      (f : Semaphore → Semaphore) → get_or (modify k.sem_table i f) i no_sem ≡ f (sem_at k i)
  sem_at-modify f = get_or-modify_self k.sem_table i f no_sem sh.in_table

  sem_table-modify : (f : Semaphore → Semaphore) → i < length (modify k.sem_table i f)
  sem_table-modify f = rw (length-modify k.sem_table i f) sh.in_table

  -- Taking a token.
  take-Shows :
      (n : ℕ)
      → v.tokens ≡ suc n
      → let (r, k') = wait_at (some i) k in
        (r ≡ returns (pos 0))
        × Shows k' i (record { tokens = n; waiting = v.waiting; ready_tasks = v.ready_tasks })
        × (k'.sched ≡ k.sched)
  take-Shows n e =
      let full : (sem_at k i).value ≡ pos (suc n) = sh.value_is ∙ ap pos e in
      rw (wait_at-takes k i n full) (
        refl,
        record {
          in_table = sem_table-modify _;
          value_is =
              rw (sem_at-modify (λ m. record m { value = dec_int m.value })) (ap dec_int full);
          waits = rw (sem_at-modify (λ m. record m { value = dec_int m.value })) sh.waits;
          queue = sh.queue;
          apart = sh.apart;
        },
        refl,
      )

  -- Going to sleep.
  sleep-Shows :
      (c : ℕ)
      → v.tokens ≡ 0
      → k.sched.current ≡ some c
      → c < length k.sched.tasks
      → has c v.waiting ≡ false
      → has c v.ready_tasks ≡ false
      → let (r, k') = wait_at (some i) k in
        (r ≡ sleeps)
        × Shows k' i
            (record { tokens = 0; waiting = v.waiting ++ c ∷ []; ready_tasks = v.ready_tasks })
        × States c 0 k.sched k'.sched
  unfolding sleep_on
  sleep-Shows c e cur bound out away =
      let none_left : (sem_at k i).value ≡ pos 0 = sh.value_is ∙ ap pos e in
      let (s, q) = block_on c (sem_at k i).wait k.sched in
      let slept =
        block_on-Slept k.sched c (sem_at k i).wait v.waiting v.ready_tasks cur bound sh.waits
          sh.queue out away (Disjoint-symm v.ready_tasks v.waiting sh.apart) in
      rw (wait_at-sleeps k i c none_left cur) (
        refl,
        record {
          in_table = sem_table-modify _;
          value_is = rw (sem_at-modify (λ m. record m { wait = q })) none_left;
          waits = rw (sem_at-modify (λ m. record m { wait = q })) slept.waits;
          queue = slept.queue;
          apart = Disjoint-snoc v.ready_tasks v.waiting c sh.apart away;
        },
        record { own = slept.is_blocked; others = slept.others },
      )

  post_to-Shows :
      (h : Option ℕ) (ws : List ℕ)
      → (sem_at k i).wait.head ≡ h
      → v.waiting ≡ ws
      → v.tokens < max_int
      → Shows (post_to i h k) i (post_view v.tokens ws v.ready_tasks)
  unfolding post_to wake_one
  post_to-Shows none [] e w fits = record {
    in_table = sem_table-modify _;
    value_is =
        rw (sem_at-modify (λ m. record m { value = inc_int m.value }))
          (ap inc_int sh.value_is ∙ inc_int-pos v.tokens fits);
    waits = rw (sem_at-modify (λ m. record m { value = inc_int m.value })) (rw w at sh.waits);
    queue = sh.queue;
    apart = λ a m. refl;
  }
  post_to-Shows (some x) [] e w fits =
      let before : IsQueue k.sched.tasks (sem_at k i).wait [] = rw w at sh.waits in
      cc (sym e ∙ before.chain)
  post_to-Shows none (y ∷ ws) e w fits =
      let before : IsQueue k.sched.tasks (sem_at k i).wait (y ∷ ws) = rw w at sh.waits in
      cc (sym e ∙ before.chain.0)
  post_to-Shows (some x) (y ∷ ws) e w fits =
      let (s, q) = wake_first (sem_at k i).wait k.sched in
      let apart : Disjoint v.ready_tasks (y ∷ ws) = rw w at sh.apart in
      let before : IsQueue k.sched.tasks (sem_at k i).wait (y ∷ ws) = rw w at sh.waits in
      let (wk, rest) =
        wake_first-cons k.sched (sem_at k i).wait y ws v.ready_tasks before sh.queue apart in
      record {
        in_table = sem_table-modify _;
        value_is = rw (sem_at-modify (λ m. record m { wait = q })) sh.value_is;
        waits = rw (sem_at-modify (λ m. record m { wait = q })) rest;
        queue = wk.queue;
        apart = Disjoint-move v.ready_tasks ws y apart before.chain.2;
      }

wait_at-refines :
    (k : Ipc) (i : ℕ) (v : View)
    → Shows k i v
    → (c n : ℕ) → v.tokens ≡ n
    → k.sched.current ≡ some c
    → c < length k.sched.tasks
    → has c v.waiting ≡ false
    → has c v.ready_tasks ≡ false
    → let (r, k') = wait_at (some i) k in
      let (r', v') = spec_wait c v in (r ≡ r') × Shows k' i v' × States c n k.sched k'.sched
wait_at-refines k i v sh c zero e cur bound out away =
    rw e (sleep-Shows k i v sh c e cur bound out away)
wait_at-refines k i v sh c (suc n) e cur bound out away =
    let (result, shows, same) = take-Shows k i v sh n e in
    rw e (
      result,
      shows,
      record { own = ap (λ s. state_of s c) same; others = λ j ne. ap (λ s. state_of s j) same },
    )

module _ (sem_id : ℤ) (k : Ipc) (i : ℕ) (v : View) (found : checked_sem sem_id k ≡ some i)
    (sh : Shows k i v) where
  -- For a semaphore that is found and shows a view of tokens, waiters and ready tasks, sem_wait by
  -- the current task c, which is neither waiting nor ready, is P: with a token it takes it and
  -- returns 0, and no task's state changes; without one it puts c behind the waiters and sleeps, c
  -- is then blocked, and the other tasks' states stay. The ready tasks stay.
  pub sem_wait-refines :
      (c : ℕ)
      → k.sched.current ≡ some c
      → c < length k.sched.tasks
      → has c v.waiting ≡ false
      → has c v.ready_tasks ≡ false
      → let (r, k') = sem_wait sem_id k in
        let (r', v') = spec_wait c v in
        (r ≡ r') × Shows k' i v' × States c v.tokens k.sched k'.sched
  unfolding sem_wait
  sem_wait-refines c cur bound out away =
      rw (found) (wait_at-refines k i v sh c v.tokens refl cur bound out away)

  -- For a semaphore that is found and shows a view, sem_post returns 0 and is V: the first waiter,
  -- if any, becomes the last ready task and the tokens stay; else there is one token more. The
  -- tokens must be fewer than the largest int.
  pub sem_post-refines :
      v.tokens < max_int → let (r, k') = sem_post sem_id k in (r ≡ pos 0) × Shows k' i (spec_post v)
  unfolding sem_post
  sem_post-refines h = rw (found) (refl, post_to-Shows k i v sh _ v.waiting refl refl h)
