-- ===== src/Ipc/Sem/Create.antt =====
-- `sem_create` of kernel/ipc.c: the new semaphore is found by its id.
use sros.Prelude.{
  ℕ, zero, suc, ◌+◌, ◌<◌, ◌≡◌, ◌≢◌, refl, ap, ◌∙◌, Bool, true, false, Option, none, some, List, [],
  ◌∷◌, arith, ℤ, pos, negsuc, max_int, is_neg, eq_int, lt_int, inc_int, length, length-modify,
  get_or, modify, get_or-modify_self, get_or-modify_ne, find_index, find_index_sound, ltb,
  if◌then◌else◌,
}
use sros.Task.{empty_queue}
use sros.Scheduler.Queue.{IsReady}
use sros.Ipc.{Ipc, Semaphore}
use sros.Ipc.Sem.{
  sem_at, no_sem, update_sem, name_or_empty, sem_name_max, sem_find_slot, find_sem, checked_sem,
  create_at, sem_create,
}
use sros.Ipc.Sem.Laws.{Shows}

-- Every id in the table has been given out.
abbrev pub IdsGiven : Ipc → ℕ → Type 0
IdsGiven k c =
    (k.sem_count ≡ pos c)
    × ((j : ℕ) → j < length k.sem_table → lt_int (sem_at k j).id (pos c) ≡ true)

find_index-modify_new :
    (p : Semaphore → Bool) (ms : List Semaphore) (i : ℕ) (f : Semaphore → Semaphore)
    → i < length ms
    → ((j : ℕ) → j < length ms → p (get_or ms j no_sem) ≡ false)
    → ((m : Semaphore) → p (f m) ≡ true)
    → find_index p (modify ms i f) ≡ some i
find_index-modify_new p [] i f h fresh hit = elim h [ ]
find_index-modify_new p (m ∷ ms) zero f h fresh hit = rw (hit m) refl
find_index-modify_new p (m ∷ ms) (suc i) f h fresh hit =
    rw
      (
        fresh 0 (omega arith),
        find_index-modify_new p ms i f (omega arith) (λ j b. fresh (suc j) (omega arith)) hit,
      )
      refl

lt_int-ne : (x : ℤ) (c : ℕ) → lt_int x (pos c) ≡ true → eq_int x (pos c) ≡ false
lt_int-ne (pos n) c h = ground arith
lt_int-ne (negsuc n) c h = refl

-- The semaphore that `sem_create` writes.
abbrev created : Option (List ℕ) → ℕ → ℤ → Semaphore
created name n id = record { id = id; name = name_or_empty name; value = pos n; wait = empty_queue }

abbrev with_created : ℕ → Option (List ℕ) → ℕ → ℕ → Ipc → Ipc
with_created i name n c k = record (update_sem i (λ _. created name n (pos c)) k) {
  sem_count = inc_int (pos c);
}

create_is :
    (name : Option (List ℕ)) (n c i : ℕ) (k : Ipc)
    → sem_find_slot k ≡ some i
    → k.sem_count ≡ pos c
    → length (name_or_empty name) < sem_name_max
    → sem_create name (pos n) k ≡ some (pos c, with_created i name n c k)
unfolding sem_create create_at
create_is name n c i k slot count short =
    let new : ℤ → ℤ × Ipc =
      λ z. (z, record (update_sem i (λ _. created name n z) k) { sem_count = inc_int z }) in
    let fits : ltb (length (name_or_empty name)) sem_name_max ≡ true = ground arith in
    ap (λ (o : Option ℕ). create_at o name (pos n) k) slot
    ∙ ap (λ b. if b then some (new k.sem_count) else none) fits
    ∙ ap (λ z. some (new z)) count

checked-created :
    (name : Option (List ℕ)) (n c i : ℕ) (k : Ipc)
    → IdsGiven k c
    → i < length k.sem_table
    → c < max_int
    → checked_sem (pos c) (with_created i name n c k) ≡ some i
unfolding checked_sem find_sem
checked-created name n c i k given bound small =
    let next : inc_int (pos c) ≡ pos (c + 1) = ground arith in
    let valid : lt_int (pos c) (inc_int (pos c)) ≡ true = ap (lt_int (pos c)) next ∙ ground arith in
    rw valid (
      find_index-modify_new (λ m. eq_int m.id (pos c)) k.sem_table i (λ _. created name n (pos c))
        bound (λ j b. lt_int-ne (sem_at k j).id c (given.1 j b)) (λ m. ground arith))

slot_in : (k : Ipc) (i : ℕ) → sem_find_slot k ≡ some i → i < length k.sem_table
unfolding sem_find_slot
slot_in k i e = (find_index_sound (λ (m : Semaphore). is_neg m.id) k.sem_table i no_sem e).0

-- With a name of fewer than 24 bytes, a free slot i in the table, every id below the counter c, c
-- below the largest int and the ready tasks rs, sem_create with n tokens returns the id c, by
-- which sem_wait and sem_post then find the slot i; the semaphore there has the name, n tokens and
-- no waiters, the ready tasks are rs, and every other semaphore is as before.
pub sem_create-Shows :
    (name : Option (List ℕ)) (n c i : ℕ) (k : Ipc) (rs : List ℕ)
    → sem_find_slot k ≡ some i
    → IdsGiven k c
    → c < max_int
    → length (name_or_empty name) < sem_name_max
    → IsReady k.sched rs
    → (k' : Ipc) × (sem_create name (pos n) k ≡ some (pos c, k'))
      × ((sem_at k' i).name ≡ name_or_empty name)
      × (checked_sem (pos c) k' ≡ some i)
      × Shows k' i (record { tokens = n; waiting = []; ready_tasks = rs })
      × ((j : ℕ) → i ≢ j → sem_at k' j ≡ sem_at k j)
sem_create-Shows name n c i k rs slot given small short q =
    let bound = slot_in k i slot in
    let own : sem_at (with_created i name n c k) i ≡ created name n (pos c) =
      get_or-modify_self k.sem_table i (λ _. created name n (pos c)) no_sem bound in
    (
      with_created i name n c k,
      create_is name n c i k slot given.0 short,
      ap (λ (m : Semaphore). m.name) own,
      checked-created name n c i k given bound small,
      record {
        in_table = rw (length-modify k.sem_table i (λ _. created name n (pos c))) bound;
        value_is = ap (λ (m : Semaphore). m.value) own;
        waits = rw own record { chain = refl; tail_is = refl };
        queue = q;
        apart = λ a m. refl;
      },
      (λ j ne. get_or-modify_ne k.sem_table i j (λ _. created name n (pos c)) no_sem ne),
    )
