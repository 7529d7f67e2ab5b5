-- ===== src/Task/Chain.antt =====
-- Intrusive lists of tasks as mathematical lists: the chain of `next` pointers from a head, and
-- what `push_back` and `pop_front` do to the chains of the queue and of every other queue.
use sros.Prelude.{
  ℕ, zero, suc, ◌<◌, ◌≡◌, refl, ◌≢◌, Bool, true, false, ◌||◌, Option, none, some, List, [], ◌∷◌,
  ◌++◌, arith, ap, length, modify, length-modify, get_or-modify_self, get_or-modify_ne, ◌==◌,
}
use sros.Task.{Task, Table, task_at, free_slot, TaskQueue, set_next}

-- `i` is one of the slots `xs`.
abbrev pub has : ℕ → List ℕ → Bool
has i [] = false
has i (x ∷ xs) = (i == x) || has i xs

abbrev pub last : List ℕ → Option ℕ
last [] = none
last (x ∷ []) = some x
last (x ∷ y ∷ ys) = last (y ∷ ys)

-- From `p` the `next` pointers lead through the distinct slots `xs` of the table to NULL.
abbrev pub Chain : Table → Option ℕ → List ℕ → Type 0
Chain ts p [] = p ≡ none
Chain ts p (x ∷ xs) =
    (p ≡ some x) × (x < length ts) × (has x xs ≡ false) × Chain ts (task_at ts x).next xs

-- The queue holds the slots `xs`, oldest first.
pub record IsQueue (ts : Table) (q : TaskQueue) (xs : List ℕ) : Type 0 where
  pub chain : Chain ts q.head xs
  pub tail_is : q.tail ≡ last xs

-- A write that keeps a field of its slot keeps that field of every slot.
pub field-modify_keep :
    {B : Type 0} (g : Task → B) (ts : Table) (i j : ℕ) (f : Task → Task)
    → ((t : Task) → g (f t) ≡ g t)
    → g (task_at (modify ts i f) j) ≡ g (task_at ts j)
field-modify_keep g [] i j f same = refl
field-modify_keep g (t ∷ ts) zero zero f same = same t
field-modify_keep g (t ∷ ts) zero (suc j) f same = refl
field-modify_keep g (t ∷ ts) (suc i) zero f same = refl
field-modify_keep g (t ∷ ts) (suc i) (suc j) f same = field-modify_keep g ts i j f same

-- A write to a slot outside the chain spares the chain.
pub Chain-modify_ne :
    (ts : Table) (p : Option ℕ) (xs : List ℕ) (i : ℕ) (f : Task → Task)
    → has i xs ≡ false
    → Chain ts p xs
    → Chain (modify ts i f) p xs
Chain-modify_ne ts p [] i f out c = c
Chain-modify_ne ts p (x ∷ xs) i f out c = (
  c.0,
  rw (length-modify ts i f) c.1,
  c.2,
  rw (get_or-modify_ne ts i x f free_slot (ground arith))
      (Chain-modify_ne ts _ xs i f (ground arith) c.3),
)

-- So does a write to other fields than `next`.
pub Chain-modify_keep :
    (ts : Table) (p : Option ℕ) (xs : List ℕ) (i : ℕ) (f : Task → Task)
    → ((t : Task) → (f t).next ≡ t.next)
    → Chain ts p xs
    → Chain (modify ts i f) p xs
Chain-modify_keep ts p [] i f same c = c
Chain-modify_keep ts p (x ∷ xs) i f same c = (
  c.0,
  rw (length-modify ts i f) c.1,
  c.2,
  rw (field-modify_keep (λ t. t.next) ts i x f same) (Chain-modify_keep ts _ xs i f same c.3),
)

pub has-append : (i : ℕ) (xs ys : List ℕ) → has i (xs ++ ys) ≡ (has i xs || has i ys)
has-append i [] ys = refl
has-append i (x ∷ xs) ys = ground (arith, has-append i xs ys)

pub last-snoc : (xs : List ℕ) (i : ℕ) → last (xs ++ i ∷ []) ≡ some i
last-snoc [] i = refl
last-snoc (x ∷ []) i = refl
last-snoc (x ∷ y ∷ ys) i = last-snoc (y ∷ ys) i

pub last-has : (xs : List ℕ) (t : ℕ) → last xs ≡ some t → has t xs ≡ true
last-has [] t e = cc
last-has (x ∷ []) t e = ground arith
last-has (x ∷ y ∷ ys) t e = ground (arith, last-has (y ∷ ys) t e)

ne_of_out : (i t : ℕ) (xs : List ℕ) → has i xs ≡ false → has t xs ≡ true → i ≢ t
ne_of_out i t xs out inside e = cc (ap (λ j. has j xs) e)

-- Linking a fresh last slot behind the tail extends the chain by it.
pub Chain-snoc :
    (ts : Table) (p : Option ℕ) (x : ℕ) (xs : List ℕ) (t i : ℕ)
    → Chain ts p (x ∷ xs)
    → last (x ∷ xs) ≡ some t
    → i < length ts
    → (task_at ts i).next ≡ none
    → has i (x ∷ xs) ≡ false
    → Chain (modify ts t (set_next (some i))) p (x ∷ xs ++ i ∷ [])
Chain-snoc ts p x [] t i c e b n out =
    let xt : x ≡ t = ground arith in
    rw (← xt) (
      c.0,
      rw (length-modify ts x (set_next (some i))) c.1,
      ground arith,
      (
        ap (λ (u : Task). u.next) (get_or-modify_self ts x (set_next (some i)) free_slot c.1),
        rw (length-modify ts x (set_next (some i))) b,
        refl,
        rw (get_or-modify_ne ts x i (set_next (some i)) free_slot (ground arith)) n,
      ),
    )
Chain-snoc ts p x (y ∷ ys) t i c e b n out =
    let rest = last-has (y ∷ ys) t e in
    let apart : t ≢ x = ground (arith, ne_of_out x t (y ∷ ys) c.2 rest) in
    (
      c.0,
      rw (length-modify ts t (set_next (some i))) c.1,
      ground (arith, has-append x (y ∷ ys) (i ∷ [])),
      rw (get_or-modify_ne ts t x (set_next (some i)) free_slot apart)
          (Chain-snoc ts (task_at ts x).next y ys t i c.3 e b n (ground arith)),
    )
