-- ===== src/Syscall/Keys.antt =====
-- SYS_READ of kernel/syscall.c over the FIFO of the keyboard.
use sros.Prelude.{
  ℕ, zero, suc, ◌+◌, ◌%◌, ◌^◌, ◌≤◌, ◌<◌, ◌≡◌, refl, ap, ◌∙◌, ◌⊎◌, inl, List, [], ◌∷◌, arith, length,
  get_or, take, drop,
}
use mathlib.Core.Path.{subst}
use sros.Framebuffer.{poke}
use sros.Keyboard.{Keyboard, kbd_buffer_get}
use sros.Keyboard.Buffer.{held, IsRing, get_lem, has_data-none, has_data-some}
use sros.Syscall.{read_keys, sys_read_keys}

-- The characters `xs` at `start`, the other addresses as before, and the characters `rest` in the
-- ring.
pub record Reads (xs rest : List ℕ) (start : ℕ) (mem mem' : ℕ → ℕ) (k' : Keyboard) : Type 0 where
  pub ring : IsRing k'
  pub remains : held k' ≡ rest
  pub copied : (i : ℕ) → i < length xs → mem' (start + i) ≡ get_or xs i 0
  pub kept : (a : ℕ) → (a < start) ⊎ (start + length xs ≤ a) → mem' a ≡ mem a

-- One character stored, and what is read behind it.
Reads-cons :
    (x : ℕ) (xs rest : List ℕ) (start : ℕ) (mem mem' : ℕ → ℕ) (k' : Keyboard)
    → start < 2 ^ 32
    → Reads xs rest (start + 1) (poke (start % 2 ^ 32) x mem) mem' k'
    → Reads (x ∷ xs) rest start mem mem' k'
Reads-cons x xs rest start mem mem' k' fits r = record {
  ring = r.ring;
  remains = r.remains;
  copied = copied_at;
  kept = λ a out. r.kept a (ground (arith, out)) ∙ ground (arith, out);
}
  where
    copied_at : (i : ℕ) → i < suc (length xs) → mem' (start + i) ≡ get_or (x ∷ xs) i 0
    copied_at zero h = ap mem' (omega arith) ∙ r.kept start (inl (omega arith)) ∙ ground arith
    copied_at (suc i) h = ap mem' (omega arith) ∙ r.copied i (omega (arith, h))

read_keys-Reads :
    (left buf start : ℕ) (mem : ℕ → ℕ) (k : Keyboard) (xs : List ℕ)
    → IsRing k
    → held k ≡ xs
    → buf + start + left ≤ 2 ^ 32
    → let (n, mem', k') = read_keys left buf start mem k in
      (n ≡ start + length (take left xs))
      × Reads (take left xs) (drop left xs) (buf + start) mem mem' k'
unfolding read_keys
read_keys-Reads zero buf start mem k xs v e fits = (
  omega arith,
  record { ring = v; remains = e; copied = λ i h. absurd (omega arith); kept = λ a out. refl },
)
read_keys-Reads (suc left) buf start mem k [] v e fits = rw (has_data-none k v e) (
  omega arith,
  record { ring = v; remains = e; copied = λ i h. absurd (omega arith); kept = λ a out. refl },
)
read_keys-Reads (suc left) buf start mem k (x ∷ xs) v e fits =
    let (same, ring', others) = get_lem k x xs v e in
    let at_place = (buf + start) % 2 ^ 32 in
    let mem1 = poke at_place (kbd_buffer_get k).0 mem in
    let k1 = (kbd_buffer_get k).1 in
    let (n_is, read) = read_keys-Reads left buf (start + 1) mem1 k1 xs ring' others (omega arith) in
    let (n, mem', k') = read_keys left buf (start + 1) mem1 k1 in
    let next : buf + (start + 1) ≡ buf + start + 1 = omega arith in
    let placed = subst (λ a. Reads (take left xs) (drop left xs) a mem1 mem' k') next read in
    let stored =
      subst
        (λ c. Reads (take left xs) (drop left xs) (buf + start + 1) (poke at_place c mem) mem' k')
        same placed in
    rw (has_data-some k x xs v e) (
      omega arith,
      Reads-cons x (take left xs) (drop left xs) (buf + start) mem mem' k' (omega arith) stored,
    )

-- On a well-formed keyboard ring and a buffer that does not reach beyond the address space,
-- SYS_READ returns the number of characters it takes, which are the oldest ones of the ring, at
-- most len; it stores them in order from the start of the buffer, changes no other address, and
-- leaves the ring well-formed with the others in order.
pub sys_read_keys-Reads :
    (buf len : ℕ) (mem : ℕ → ℕ) (k : Keyboard)
    → IsRing k
    → buf + len ≤ 2 ^ 32
    → let (n, mem', k') = sys_read_keys buf len mem k in
      (n ≡ length (take len (held k)))
      × Reads (take len (held k)) (drop len (held k)) buf mem mem' k'
unfolding sys_read_keys
sys_read_keys-Reads buf len mem k v fits =
    let (n_is, read) = read_keys-Reads len buf 0 mem k (held k) v refl (omega arith) in
    let (n, mem', k') = read_keys len buf 0 mem k in
    let base : buf + 0 ≡ buf = omega arith in
    (
      omega arith,
      subst (λ a. Reads (take len (held k)) (drop len (held k)) a mem mem' k') base read,
    )
