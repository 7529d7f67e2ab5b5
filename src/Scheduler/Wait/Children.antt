-- ===== src/Scheduler/Wait/Children.antt =====
-- What a parent gets from `task_wait` of kernel/scheduler.c.
use sros.Prelude.{
  ℕ, ◌+◌, ◌-◌, ◌≤◌, ◌<◌, ◌≡◌, ◌≢◌, refl, ap, ◌∙◌, ◌⊎◌, inl, inr, Bool, true, false, ◌&&◌, not,
  Option, none, some, ℤ, minus_one, arith, length, set, find_index, find_index_sound,
  find_index-none, get_or-modify_self, get_or-modify_ne, ◌==◌, if◌then◌else◌, ltb, Bool-cases,
}
use sros.Memory.{Mem}
use sros.Paging.{max_pages, pfa_free}
use sros.Task.{Task, TaskState, ready, running, blocked, zombie, task_at, free_slot, set_state}
use sros.Scheduler.{Sched, CallResult, returns, sleeps, update, state_of}
use sros.Scheduler.Wait.{
  is_zombie, is_waited, is_exited, is_alive, free_if, free_child, clear_slot, collect,
  sleep_or_fail, wait_found, wait_round, task_wait,
}

-- A child that the call waits for, in slot `j`.
abbrev pub waited : Sched → ℕ → ℤ → ℕ → Bool
waited s c pid j = is_waited (task_at s.tasks c).pid pid (task_at s.tasks j)

-- What a round of waiting gives the task `c`.
abbrev pub Waits : Sched → ℕ → ℤ → CallResult → Sched → Type 0
Waits s c pid sleeps s' =
    ((j : ℕ) → j < length s.tasks → waited s c pid j ≡ true → is_zombie (state_of s j) ≡ false)
    × ((i : ℕ) × (i < length s.tasks) × (waited s c pid i ≡ true))
    × (s' ≡ update c (set_state blocked) s)
Waits s c pid (returns v) s' =
    ((v ≡ minus_one) × (s' ≡ s) × ((j : ℕ) → j < length s.tasks → waited s c pid j ≡ false))
    ⊎ ((i : ℕ) × (i < length s.tasks)
        × (waited s c pid i ≡ true)
        × (state_of s i ≡ zombie)
        × (v ≡ (task_at s.tasks i).pid)
        × (task_at s'.tasks i ≡ free_slot)
        × ((j : ℕ) → i ≢ j → task_at s'.tasks j ≡ task_at s.tasks j)
        × (s'.task_count ≡ s.task_count - 1)
        × (s'.ready_queue ≡ s.ready_queue))

is_zombie-zombie : (st : TaskState) → is_zombie st ≡ true → st ≡ zombie
is_zombie-zombie zombie e = refl
is_zombie-zombie ready e = cc
is_zombie-zombie running e = cc
is_zombie-zombie blocked e = cc

-- The pool after a frame has been given back.
abbrev freed : ℕ → Mem → Mem
freed addr m = if addr == 0 then m else record m {
  page_frames = set m.page_frames m.page_frame_count addr;
  page_frame_count = m.page_frame_count + 1;
}

free_if-some :
    (addr : ℕ) (m : Mem)
    → m.page_frame_count < max_pages
    → (free_if addr m ≡ some (tt, freed addr m))
      × ((freed addr m).page_frame_count ≤ m.page_frame_count + 1)
unfolding free_if pfa_free
free_if-some addr m room = elim (Bool-cases (addr == 0)) [
  | inl null ↦ rw null (refl, omega arith)
  | inr given ↦
      let space : ltb m.page_frame_count max_pages ≡ true = ground arith in
      rw (given, space) (refl, omega arith)
]

free_child-some :
    (t : Task) (m : Mem)
    → m.page_frame_count + 1 < max_pages
    → free_child t m ≡ some (tt, freed t.page_dir (freed t.kernel_stack_base m))
unfolding free_child
free_child-some t m room =
    let (e1, le) = free_if-some t.kernel_stack_base m (omega arith) in
    let (e2, le2) = free_if-some t.page_dir (freed t.kernel_stack_base m) (omega arith) in
    ap
      (λ (o : Option (Unit {0} × Mem)). elim o [
        | none ↦ none
        | some (a, m') ↦ free_if t.page_dir m'
      ])
      e1
    ∙ e2

collect-Waits :
    (s : Sched) (c : ℕ) (pid : ℤ) (i : ℕ)
    → s.mem.page_frame_count + 1 < max_pages
    → i < length s.tasks
    → is_exited (task_at s.tasks c).pid pid (task_at s.tasks i) ≡ true
    → (r : CallResult) × (s' : Sched) × (collect i (task_at s.tasks i) s ≡ some (r, s'))
      × Waits s c pid r s'
unfolding collect clear_slot
collect-Waits s c pid i room bound gone =
    let t = task_at s.tasks i in
    let m = freed t.page_dir (freed t.kernel_stack_base s.mem) in
    (
      returns t.pid,
      clear_slot i (record s { mem = m }),
      ap
          (λ (o : Option (Unit {0} × Mem)).
            elim (elim o as (λ _. Option (Unit {0} × Sched)) [
              | none ↦ none
              | some (a, m') ↦ some (a, record s { mem = m' })
            ])
              as (λ _. Option (CallResult × Sched)) [
                | none ↦ none
                | some (a, s1) ↦ some (returns t.pid, clear_slot i s1)
              ])
          (free_child-some t s.mem room),
      inr (
        i,
        bound,
        ground arith,
        is_zombie-zombie (state_of s i) (ground arith),
        refl,
        get_or-modify_self s.tasks i (λ _. free_slot) free_slot bound,
        (λ j ne. get_or-modify_ne s.tasks i j (λ _. free_slot) free_slot ne),
        refl,
        refl,
      ),
    )

alive_of : (w z : Bool) → (w && not z) ≡ true → (w ≡ true) × (z ≡ false)
alive_of w z e = (ground arith, ground arith)

exited_not : (w z : Bool) → (w && z) ≡ false → w ≡ true → z ≡ false
exited_not w z e h = ground arith

waited_not : (w z : Bool) → (w && z) ≡ false → (w && not z) ≡ false → w ≡ false
waited_not w z e h = ground arith

-- No child that the call waits for has exited.
sleep_or_fail-Waits :
    (s : Sched) (c : ℕ) (pid : ℤ) (o : Option ℕ)
    → find_index (is_alive (task_at s.tasks c).pid pid) s.tasks ≡ o
    → find_index (is_exited (task_at s.tasks c).pid pid) s.tasks ≡ none
    → let (r, s') = sleep_or_fail c o s in Waits s c pid r s'
unfolding sleep_or_fail
sleep_or_fail-Waits s c pid none e gone =
    let me = (task_at s.tasks c).pid in
    inl (
      refl,
      refl,
      λ j hi.
          waited_not (waited s c pid j) (is_zombie (state_of s j))
            (find_index-none (is_exited me pid) s.tasks j free_slot gone hi)
            (find_index-none (is_alive me pid) s.tasks j free_slot e hi),
    )
sleep_or_fail-Waits s c pid (some i) e gone =
    let me = (task_at s.tasks c).pid in
    let (bound, alive) = find_index_sound (is_alive me pid) s.tasks i free_slot e in
    (
      (λ j hi w.
          exited_not (waited s c pid j) (is_zombie (state_of s j))
            (find_index-none (is_exited me pid) s.tasks j free_slot gone hi) w),
      (i, bound, (alive_of (waited s c pid i) (is_zombie (state_of s i)) alive).0),
      refl,
    )

wait_found-Waits :
    (s : Sched) (c : ℕ) (pid : ℤ) (o : Option ℕ)
    → s.mem.page_frame_count + 1 < max_pages
    → find_index (is_exited (task_at s.tasks c).pid pid) s.tasks ≡ o
    → (r : CallResult) × (s' : Sched) × (wait_found c pid o s ≡ some (r, s')) × Waits s c pid r s'
unfolding wait_found
wait_found-Waits s c pid none room e = (_, _, refl, sleep_or_fail-Waits s c pid _ refl e)
wait_found-Waits s c pid (some i) room e =
    let me = (task_at s.tasks c).pid in
    let (bound, gone) = find_index_sound (is_exited me pid) s.tasks i free_slot e in
    collect-Waits s c pid i room bound gone

-- For a current task c and a frame pool with room for two frames, task_wait produces a result. It
-- returns the pid of a child that is waited for and has exited, its slot then free, the other
-- slots and the ready queue as before and the task count one less; or it returns -1 with nothing
-- changed, and no child is waited for; or it sleeps with c blocked, and children are waited for
-- but none has exited.
pub task_wait-Waits :
    (s : Sched) (c : ℕ) (pid : ℤ)
    → s.current ≡ some c
    → s.mem.page_frame_count + 1 < max_pages
    → (r : CallResult) × (s' : Sched) × (task_wait pid s ≡ some (r, s')) × Waits s c pid r s'
unfolding task_wait wait_round
task_wait-Waits s c pid cur room =
    let (r, s', run, w) = wait_found-Waits s c pid _ room refl in
    (r, s', ap (λ (o : Option ℕ). wait_round o pid s) cur ∙ run, w)
