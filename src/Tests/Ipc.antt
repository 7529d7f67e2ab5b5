-- ===== src/Tests/Ipc.antt =====
-- Slot 0 runs, slot 1 is ready, slot 2 waits.
use sros.Prelude.{
  ◌<◌, zero, suc, ◌≢◌, lt_int, minus_one, none, ℕ, ◌≡◌, refl, true, some, [], ◌∷◌, ◌++◌, pos, arith,
  map, replicate, take, length,
}
use sros.Task.{empty_queue, ready, running, blocked}
use sros.Task.Chain.{Chain}
use sros.Task.Queue.{Disjoint}
use sros.Scheduler.{Sched}
use sros.Scheduler.Queue.{IsReady}
use sros.Ipc.{Ipc, MsgQueue}
use sros.Ipc.Sem.Destroy.{Destroyed, sem_destroy-Destroyed}
use sros.Ipc.Sem.Create.{sem_create-Shows}
use sros.Ipc.Sem.{
  sem_create, sem_find_slot, sem_at, sem_destroy, checked_sem, find_sem, sem_wait, sem_post,
}
use sros.Ipc.Sem.Laws.{
  View, Shows, States, spec_wait, spec_post, sem_wait-refines, sem_post-refines,
}
use sros.Ipc.Msg.{put_message, take_message, no_queue}
use sros.Ipc.Msg.Ring.{IsRing, delivered, pending, put_message_lem, take_message_lem}
use sros.Tests.Scheduler.{empty_mem, task}

abbrev waiting_sched : Sched
waiting_sched = record {
  mem = empty_mem;
  tasks = task 1 running 0x1000 none ∷ task 2 ready 0x2000 none ∷ task 3 blocked 0x3000 none ∷ [];
  task_count = 3;
  next_pid = pos 4;
  current = some 0;
  ready_queue = record { head = some 1; tail = some 1 };
  timer_ticks = 0;
  tss_esp0 = 0;
}

abbrev pub kernel : Ipc
kernel = record {
  sched = waiting_sched;
  sem_table =
      record {
        id = pos 7;
        name = [];
        value = pos 0;
        wait = record { head = some 2; tail = some 2 };
      }
      ∷ [];
  sem_count = pos 8;
  mq_table = [];
  mq_count = pos 0;
}

abbrev view : View
view = record { tokens = 0; waiting = 2 ∷ []; ready_tasks = 1 ∷ [] }

one_IsReady : IsReady waiting_sched (1 ∷ [])
one_IsReady = record { chain = (refl, omega arith, refl, refl); tail_is = refl }

waiting_Chain : Chain waiting_sched.tasks (some 2) (2 ∷ [])
waiting_Chain = (refl, omega arith, refl, refl)

apart : Disjoint (1 ∷ []) (2 ∷ [])
apart a m = ground arith

kernel-Shows : Shows kernel 0 view
kernel-Shows = record {
  in_table = omega arith;
  value_is = refl;
  waits = record { chain = waiting_Chain; tail_is = refl };
  queue = one_IsReady;
  apart = apart;
}

-- The lookup of the id 7.
found_7 : checked_sem (pos 7) kernel ≡ some 0
unfolding checked_sem find_sem
found_7 = refl

sem_wait-refines_example :
    let (r, k') = sem_wait (pos 7) kernel in
    let (r', v') = spec_wait 0 view in
    (r ≡ r') × Shows k' 0 v' × States 0 view.tokens kernel.sched k'.sched
sem_wait-refines_example =
    sem_wait-refines (pos 7) kernel 0 view found_7 kernel-Shows 0 refl (omega arith) refl refl

sem_post-refines_example :
    let (r, k') = sem_post (pos 7) kernel in (r ≡ pos 0) × Shows k' 0 (spec_post view)
sem_post-refines_example = sem_post-refines (pos 7) kernel 0 view found_7 kernel-Shows (omega arith)

-- A queue with one message of two bytes.
abbrev mailbox : MsgQueue
mailbox = record no_queue {
  msgs = record { len = 2; bytes = 10 ∷ 11 ∷ [] } ∷ replicate 63 (record { len = 0; bytes = [] });
  count = 1;
  tail = 1;
}

mailbox-IsRing : IsRing mailbox
mailbox-IsRing = record {
  slots = refl;
  head_in = omega arith;
  tail_is = refl;
  count_in = omega arith;
}

put_message_example :
    let q' = put_message 3 (1 ∷ 2 ∷ 3 ∷ 4 ∷ []) mailbox in
    IsRing q'
    × (map delivered (pending q')
        ≡ map delivered (pending mailbox) ++ (3, take 3 (1 ∷ 2 ∷ 3 ∷ 4 ∷ [])) ∷ [])
put_message_example =
    put_message_lem mailbox 3 (1 ∷ 2 ∷ 3 ∷ 4 ∷ []) mailbox-IsRing (omega arith) (omega arith)

take_message_example :
    let (m, q') = take_message mailbox in
    IsRing q' × (map delivered (pending mailbox) ≡ m ∷ map delivered (pending q'))
take_message_example = take_message_lem mailbox mailbox-IsRing (omega arith)

found_by_id : find_sem (pos 7) kernel ≡ some 0
unfolding find_sem
found_by_id = refl

sem_destroy_example :
    (k' : Ipc) × (sem_destroy (pos 7) kernel ≡ some (pos 0, k')) × Destroyed kernel 0 view k'
sem_destroy_example =
    sem_destroy-Destroyed (pos 7) kernel 0 view refl found_by_id kernel-Shows (omega arith)

-- A table with a free slot.
abbrev with_slot : Ipc
with_slot = record kernel {
  sem_table =
      record { id = pos 7; name = []; value = pos 0; wait = empty_queue }
      ∷ record { id = minus_one; name = []; value = pos 0; wait = empty_queue }
      ∷ [];
}

slot_1 : sem_find_slot with_slot ≡ some 1
unfolding sem_find_slot
slot_1 = refl

ids_below : (j : ℕ) → j < length with_slot.sem_table → lt_int (sem_at with_slot j).id (pos 8) ≡ true
ids_below zero h = refl
ids_below (suc zero) h = refl
ids_below (suc (suc j)) h = absurd (omega arith)

sem_create_example :
    (k' : Ipc) × (sem_create (some (b'a' ∷ [])) (pos 3) with_slot ≡ some (pos 8, k'))
    × ((sem_at k' 1).name ≡ b'a' ∷ [])
    × (checked_sem (pos 8) k' ≡ some 1)
    × Shows k' 1 (record { tokens = 3; waiting = []; ready_tasks = 1 ∷ [] })
    × ((j : ℕ) → 1 ≢ j → sem_at k' j ≡ sem_at with_slot j)
sem_create_example =
    sem_create-Shows (some (b'a' ∷ [])) 3 8 1 with_slot (1 ∷ []) slot_1 (refl, ids_below)
      (omega arith) (omega arith) one_IsReady
