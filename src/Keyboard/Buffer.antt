-- ===== src/Keyboard/Buffer.antt =====
-- The character ring of drivers/keyboard.c refines a FIFO of at most 255 characters: one slot stays
-- empty, so that equal indices mean an empty ring.
use sros.Prelude.{
  ℕ, zero, suc, ◌+◌, ◌-◌, ◌%◌, ◌<◌, ◌≡◌, refl, sym, ap, ◌∙◌, ◌≢◌, true, false, List, [], ◌∷◌, ◌++◌,
  arith, ◌==◌, length, get_or, set, modify, length-modify,
}
use sros.Prelude.Window.{window, length-window, window-pop, window-push}
use sros.Keyboard.{Keyboard, buffer_size, kbd_buffer_put, kbd_buffer_get, kbd_buffer_has_data}

-- The number of characters in the ring, and the characters, oldest first.
abbrev pub count : Keyboard → ℕ
count k = (k.head + 256 - k.tail) % 256

abbrev pub held : Keyboard → List ℕ
held k = window 0 buffer_size k.buffer k.tail (count k)

pub record IsRing (k : Keyboard) : Type 0 where
  pub slots : length k.buffer ≡ buffer_size
  pub head_in : k.head < buffer_size
  pub tail_in : k.tail < buffer_size

apart_256 : (a b : ℕ) → a < b → b < a + 256 → b % 256 ≢ a % 256
apart_256 a b lo hi e = omega arith

next_256 : (a b : ℕ) → a % 256 ≡ b % 256 → (a + 1) % 256 ≡ (b + 1) % 256
next_256 a b e = omega arith

set-modify : (xs : List ℕ) (i x : ℕ) → set xs i x ≡ modify xs i (λ _. x)
set-modify [] i x = refl
set-modify (y ∷ xs) zero x = refl
set-modify (y ∷ xs) (suc i) x = ap (λ zs. y ∷ zs) (set-modify xs i x)

put-room :
    (c : ℕ) (k : Keyboard)
    → IsRing k
    → count k < 255
    → kbd_buffer_put c k
      ≡ record k { buffer = set k.buffer k.head (c % 256); head = (k.head + 1) % 256 }
unfolding kbd_buffer_put
put-room c k v room =
    let free : ((k.head + 1) % 256 == k.tail) ≡ false = ground (arith, v.head_in, v.tail_in) in
    rw free

pub put-full : (c : ℕ) (k : Keyboard) → IsRing k → count k ≡ 255 → kbd_buffer_put c k ≡ k
unfolding kbd_buffer_put
put-full c k v full =
    let taken : ((k.head + 1) % 256 == k.tail) ≡ true = ground (arith, v.head_in, v.tail_in) in
    rw taken

-- A character put into a well-formed keyboard ring that holds fewer than 255 keeps it well-formed
-- and joins the end of its characters, reduced to a byte.
pub put_lem :
    (c : ℕ) (k : Keyboard)
    → IsRing k
    → count k < 255
    → IsRing (kbd_buffer_put c k) × (held (kbd_buffer_put c k) ≡ held k ++ (c % 256) ∷ [])
put_lem c k v room =
    let writes : ℕ → ℕ = λ _. c % 256 in
    let as_modify = set-modify k.buffer k.head (c % 256) in
    let grown =
      window-push 0 buffer_size apart_256 k.buffer k.tail (count k) k.head writes (omega arith)
        (omega (arith, v.head_in, v.tail_in)) (omega (arith, v.slots, v.head_in)) in
    let one_more : ((k.head + 1) % 256 + 256 - k.tail) % 256 ≡ suc (count k) =
      omega (arith, v.head_in, v.tail_in) in
    rw (put-room c k v room, as_modify)
      (
        record {
          slots = length-modify k.buffer k.head writes ∙ v.slots;
          head_in = omega arith;
          tail_in = v.tail_in;
        },
        ap (window 0 buffer_size (modify k.buffer k.head writes) k.tail) one_more ∙ grown,
      )

pub held-some : (k : Keyboard) (x : ℕ) (xs : List ℕ) → held k ≡ x ∷ xs → 0 < count k
held-some k x xs e =
    let many : count k ≡ suc (length xs) =
      sym (length-window 0 buffer_size k.buffer k.tail (count k)) ∙ ap length e in
    omega arith

-- The ring with something in it, its front apart.
held-front :
    (k : Keyboard)
    → IsRing k
    → 0 < count k
    → held k
      ≡ get_or k.buffer k.tail 0
        ∷ window 0 buffer_size k.buffer
            ((k.tail + 1) % 256)
            ((k.head + 256 - (k.tail + 1) % 256) % 256)
held-front k v some_left =
    let next = (k.tail + 1) % 256 in
    window-pop 0 buffer_size next_256 k.buffer k.tail next (count k) ((k.head + 256 - next) % 256)
      (omega (arith, v.head_in, v.tail_in)) (omega (arith, v.tail_in)) (omega arith)

cons-head : (x y : ℕ) (xs ys : List ℕ) → x ∷ xs ≡ y ∷ ys → (x ≡ y) × (xs ≡ ys)
cons-head x y xs ys e = (cc, cc)

-- A get from a well-formed keyboard ring that is not empty gives the oldest character, keeps it
-- well-formed and leaves the others in order.
pub get_lem :
    (k : Keyboard) (x : ℕ) (xs : List ℕ)
    → IsRing k
    → held k ≡ x ∷ xs
    → let (r, k') = kbd_buffer_get k in (r ≡ x) × IsRing k' × (held k' ≡ xs)
unfolding kbd_buffer_get
get_lem k x xs v e =
    let some_left : 0 < count k = held-some k x xs e in
    let full : (k.head == k.tail) ≡ false = ground (arith, v.head_in, v.tail_in) in
    let (same, others) = cons-head _ x _ xs (sym (held-front k v some_left) ∙ e) in
    rw full (same, record { slots = v.slots; head_in = v.head_in; tail_in = omega arith }, others)

pub has_data-none : (k : Keyboard) → IsRing k → held k ≡ [] → kbd_buffer_has_data k ≡ false
unfolding kbd_buffer_has_data
has_data-none k v e =
    let none_held : count k ≡ 0 =
      sym (length-window 0 buffer_size k.buffer k.tail (count k)) ∙ ap length e in
    let even : (k.head == k.tail) ≡ true = ground (arith, v.head_in, v.tail_in) in rw even

pub has_data-some :
    (k : Keyboard) (x : ℕ) (xs : List ℕ) → IsRing k → held k ≡ x ∷ xs → kbd_buffer_has_data k ≡ true
unfolding kbd_buffer_has_data
has_data-some k x xs v e =
    let some_left = held-some k x xs e in
    let differ : (k.head == k.tail) ≡ false = ground (arith, v.head_in, v.tail_in) in rw differ
