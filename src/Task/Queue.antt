-- ===== src/Task/Queue.antt =====
-- `push_back` and `pop_front` refine a FIFO queue of task slots, and spare every queue that shares
-- no slot with it.
use sros.Prelude.{
  ℕ, ◌<◌, ◌≡◌, refl, sym, ◌∙◌, ap, inl, inr, Option-cases, Bool-cases, true, false, Option, none,
  some, List, [], ◌∷◌, ◌++◌, arith, length, modify, length-modify, get_or-modify_self,
}
use sros.Task.{
  Task, Table, task_at, free_slot, TaskQueue, set_next, link_last, push_back, pop_front, after_head,
}
use sros.Task.Chain.{
  has, last, Chain, IsQueue, Chain-modify_ne, Chain-snoc, last-snoc, last-has, field-modify_keep,
}

abbrev pub Disjoint : List ℕ → List ℕ → Type 0
Disjoint xs ys = (a : ℕ) → has a xs ≡ true → has a ys ≡ false

pub Disjoint-symm : (xs ys : List ℕ) → Disjoint xs ys → Disjoint ys xs
Disjoint-symm xs ys apart a m = elim (Bool-cases (has a xs)) [
  | inl inside ↦ cc (apart a inside)
  | inr outside ↦ outside
]

last-cons : (x : ℕ) (xs : List ℕ) → (t : ℕ) × (last (x ∷ xs) ≡ some t)
last-cons x [] = (x, refl)
last-cons x (y ∷ ys) = last-cons y ys

link_last-IsQueue :
    (ts : Table) (i : ℕ) (h t : Option ℕ) (xs : List ℕ)
    → i < length ts
    → Chain ts h xs
    → t ≡ last xs
    → (task_at ts i).next ≡ none
    → has i xs ≡ false
    → let (ts', q') = link_last ts (record { head = h; tail = t }) i in
      IsQueue ts' q' (xs ++ i ∷ [])
unfolding link_last
link_last-IsQueue ts i h none [] b c e n out = record { chain = (refl, b, refl, n); tail_is = refl }
link_last-IsQueue ts i h (some t) [] b c e n out = cc
link_last-IsQueue ts i h none (x ∷ xs) b c e n out = let (t, l) = last-cons x xs in cc (e ∙ l)
link_last-IsQueue ts i h (some t) (x ∷ xs) b c e n out = record {
  chain = Chain-snoc ts h x xs t i c (sym e) b n out;
  tail_is = sym (last-snoc (x ∷ xs) i);
}

-- A slot outside the queue goes behind its last.
pub push_back_lem :
    (ts : Table) (q : TaskQueue) (i : ℕ) (xs : List ℕ)
    → i < length ts
    → IsQueue ts q xs
    → has i xs ≡ false
    → let (ts', q') = push_back ts q i in IsQueue ts' q' (xs ++ i ∷ [])
unfolding push_back
push_back_lem ts q i xs b v out =
    link_last-IsQueue (modify ts i (set_next none)) i q.head q.tail xs
      (rw (length-modify ts i (set_next none)) b)
      (Chain-modify_ne ts q.head xs i (set_next none) out v.chain) v.tail_is
      (ap (λ (u : Task). u.next) (get_or-modify_self ts i (set_next none) free_slot b)) out

-- A chain that shares no slot with the queue, and does not hold the new slot, is left alone.
pub Chain-push_back :
    (ts : Table) (q : TaskQueue) (i : ℕ) (xs : List ℕ) (p : Option ℕ) (ys : List ℕ)
    → q.tail ≡ last xs
    → has i ys ≡ false
    → Disjoint xs ys
    → Chain ts p ys
    → Chain (push_back ts q i).0 p ys
unfolding push_back link_last
Chain-push_back ts q i xs p ys e out apart c = elim (Option-cases q.tail) [
  | inl empty ↦ rw (empty, link_last) (Chain-modify_ne ts p ys i (set_next none) out c)
  | inr (t, more) ↦
      rw (more, link_last)
        (Chain-modify_ne (modify ts i (set_next none)) p ys t (set_next (some i))
          (apart t (last-has xs t (sym e ∙ more)))
          (Chain-modify_ne ts p ys i (set_next none) out c))
]

-- Only `next` fields are written.
pub field-push_back :
    {B : Type 0} (g : Task → B) (ts : Table) (q : TaskQueue) (i j : ℕ)
    → ((n : Option ℕ) (t : Task) → g (set_next n t) ≡ g t)
    → g (task_at (push_back ts q i).0 j) ≡ g (task_at ts j)
unfolding push_back link_last
field-push_back g ts q i j same = elim (Option-cases q.tail) [
  | inl empty ↦ rw (empty, link_last) (field-modify_keep g ts i j (set_next none) (same none))
  | inr (t, more) ↦
      rw (more, link_last)
        (field-modify_keep g (modify ts i (set_next none)) t j (set_next (some i)) (same (some i))
          ∙ field-modify_keep g ts i j (set_next none) (same none))
]

pub length-push_back :
    (ts : Table) (q : TaskQueue) (i : ℕ) → length (push_back ts q i).0 ≡ length ts
unfolding push_back link_last
length-push_back ts q i = elim (Option-cases q.tail) [
  | inl empty ↦ rw (empty, link_last) (length-modify ts i (set_next none))
  | inr (t, more) ↦
      rw (more, link_last)
        (length-modify (modify ts i (set_next none)) t (set_next (some i))
          ∙ length-modify ts i (set_next none))
]

-- An empty queue gives nothing and stays as it is.
pub pop_front-nil : (ts : Table) (q : TaskQueue) → IsQueue ts q [] → pop_front ts q ≡ (none, ts, q)
unfolding pop_front
pop_front-nil ts q v = ground arith

pub pop_front-some :
    (ts : Table) (q : TaskQueue) (x : ℕ)
    → q.head ≡ some x
    → pop_front ts q ≡ (some x, modify ts x (set_next none), after_head q (task_at ts x).next)
unfolding pop_front
pop_front-some ts q x e = ground arith

after_head-IsQueue :
    (ts : Table) (q : TaskQueue) (p : Option ℕ) (x : ℕ) (xs : List ℕ)
    → Chain ts p xs
    → q.tail ≡ last (x ∷ xs)
    → IsQueue ts (after_head q p) xs
after_head-IsQueue ts q none x [] c e = record { chain = refl; tail_is = refl }
after_head-IsQueue ts q (some n) x [] c e = cc
after_head-IsQueue ts q none x (y ∷ ys) c e = cc (c.0)
after_head-IsQueue ts q (some n) x (y ∷ ys) c e = record { chain = c; tail_is = e }

-- Otherwise the oldest slot comes off, unlinked, and the rest is the queue that is left.
pub pop_front-cons :
    (ts : Table) (q : TaskQueue) (x : ℕ) (xs : List ℕ)
    → IsQueue ts q (x ∷ xs)
    → let (r, ts', q') = pop_front ts q in
      (r ≡ some x) × (ts' ≡ modify ts x (set_next none)) × IsQueue ts' q' xs
pop_front-cons ts q x xs v = rw (pop_front-some ts q x v.chain.0) (
  refl,
  refl,
  after_head-IsQueue (modify ts x (set_next none)) q (task_at ts x).next x xs
      (Chain-modify_ne ts (task_at ts x).next xs x (set_next none) v.chain.2 v.chain.3) v.tail_is,
)
