-- ===== src/Ipc/Sem.antt =====
-- kernel/ipc.c: the semaphores.
pub mod Laws
pub mod Destroy
pub mod Create
use sros.Prelude.{
  ℕ, zero, suc, ◌+◌, ◌||◌, Bool, true, false, not, Option, none, some, List, [], ℤ, minus_one,
  is_neg, is_pos, eq_int, lt_int, inc_int, dec_int, ltb, if◌then◌else◌, map, length, get_or, modify,
  find_index,
}
use sros.Task.{TaskQueue, empty_queue}
use sros.Scheduler.{Sched, CallResult, returns, sleeps}
use sros.Ipc.{Ipc, Semaphore, block_on, wake_first, wake_all}

abbrev pub max_sems : ℕ
max_sems = 64

abbrev pub no_sem : Semaphore
no_sem = record { id = minus_one; name = []; value = ℤ.pos 0; wait = empty_queue }

abbrev pub sem_at : Ipc → ℕ → Semaphore
sem_at k i = get_or k.sem_table i no_sem

-- `sem_table[i].f = …`
abbrev pub update_sem : ℕ → (Semaphore → Semaphore) → Ipc → Ipc
update_sem i f k = record k { sem_table = modify k.sem_table i f }

pub sem_init : Ipc → Ipc
sem_init k = record k {
  sem_table = map (λ (m : Semaphore). record m { id = minus_one }) k.sem_table;
}

unfoldable pub sem_find_slot : Ipc → Option ℕ
sem_find_slot k = find_index (λ (m : Semaphore). is_neg m.id) k.sem_table

-- The lookup loop of `sem_wait`, `sem_post` and `sem_destroy`.
unfoldable pub find_sem : ℤ → Ipc → Option ℕ
find_sem sem_id k = find_index (λ (m : Semaphore). eq_int m.id sem_id) k.sem_table

-- `name ? strcpy(…) : '\0'`
abbrev pub name_or_empty : Option (List ℕ) → List ℕ
name_or_empty none = []
name_or_empty (some n) = n

-- The size of a semaphore's name with its NUL.
abbrev pub sem_name_max : ℕ
sem_name_max = 24

-- A name that is longer than its array would overwrite what follows: `none`.
pub create_at : Option ℕ → Option (List ℕ) → ℤ → Ipc → Option (ℤ × Ipc)
create_at none name v k = some (minus_one, k)
create_at (some i) name v k =
    if ltb (length (name_or_empty name)) sem_name_max
    then some (
      k.sem_count,
      record (update_sem i
          (λ _. record {
            id = k.sem_count;
            name = name_or_empty name;
            value = if is_neg v then ℤ.pos 0 else v;
            wait = empty_queue;
          })
          k) { sem_count = inc_int k.sem_count },
    )
    else none

pub sem_create : Option (List ℕ) → ℤ → Ipc → Option (ℤ × Ipc)
unfolding create_at sem_find_slot
sem_create name v k = create_at (sem_find_slot k) name v k

-- The guard on the id, and the lookup.
unfoldable pub checked_sem : ℤ → Ipc → Option ℕ
unfolding find_sem
checked_sem sem_id k =
    if is_neg sem_id || not (lt_int sem_id k.sem_count) then none else find_sem sem_id k

-- The current task, if there is one, goes to sleep on the semaphore in slot `i`.
pub sleep_on : ℕ → Option ℕ → Ipc → CallResult × Ipc
sleep_on i none k = (returns minus_one, k)
sleep_on i (some c) k =
    let (s, q) = block_on c (sem_at k i).wait k.sched in
    (sleeps, record (update_sem i (λ m. record m { wait = q }) k) { sched = s })

pub wait_at : Option ℕ → Ipc → CallResult × Ipc
wait_at none k = (returns minus_one, k)
wait_at (some i) k =
    if is_pos (sem_at k i).value
    then (returns (ℤ.pos 0), update_sem i (λ m. record m { value = dec_int m.value }) k)
    else sleep_on i k.sched.current k

-- Up to `int $32`. A task that is resumed returns 0.
pub sem_wait : ℤ → Ipc → CallResult × Ipc
unfolding wait_at
sem_wait sem_id k = wait_at (checked_sem sem_id k) k

-- `sem->wait_head` is not NULL: wake its task.
pub wake_one : ℕ → Ipc → Ipc
wake_one i k =
    let (s, q) = wake_first (sem_at k i).wait k.sched in
    record (update_sem i (λ m. record m { wait = q }) k) { sched = s }

pub post_to : ℕ → Option ℕ → Ipc → Ipc
post_to i (some w) k = wake_one i k
post_to i none k = update_sem i (λ m. record m { value = inc_int m.value }) k

pub post_at : Option ℕ → Ipc → ℤ × Ipc
unfolding post_to
post_at none k = (minus_one, k)
post_at (some i) k = (ℤ.pos 0, post_to i (sem_at k i).wait.head k)

pub sem_post : ℤ → Ipc → ℤ × Ipc
unfolding post_at
sem_post sem_id k = post_at (checked_sem sem_id k) k

-- The slot after its waiters have been woken.
pub cleared : ℕ → Ipc → Sched → Ipc
cleared i k s =
    record (update_sem i
      (λ m. record { id = minus_one; name = []; value = ℤ.pos 0; wait = empty_queue }) k) {
        sched = s;
      }

finish_destroy : ℕ → Ipc → Option Sched → Option (ℤ × Ipc)
unfolding cleared
finish_destroy i k none = none
finish_destroy i k (some s) = some (ℤ.pos 0, cleared i k s)

pub destroy_at : Option ℕ → Ipc → Option (ℤ × Ipc)
unfolding finish_destroy
destroy_at none k = some (minus_one, k)
destroy_at (some i) k =
    finish_destroy i k (wake_all (length k.sched.tasks + 1) (sem_at k i).wait.head k.sched)

-- A wait queue has at most one entry for each task, so one round more than there are tasks will do;
-- `none` is a loop that does not end.
pub sem_destroy : ℤ → Ipc → Option (ℤ × Ipc)
unfolding destroy_at
sem_destroy sem_id k =
    if is_neg sem_id then some (minus_one, k) else destroy_at (find_sem sem_id k) k
