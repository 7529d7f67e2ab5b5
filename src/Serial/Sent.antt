-- ===== src/Serial/Sent.antt =====
-- What drivers/serial.c sends on a line that gets ready in time.
use sros.Prelude.{
  ℕ, zero, suc, ◌+◌, ◌/◌, ◌%◌, ◌^◌, ◌<◌, ◌≡◌, refl, sym, Bool, true, false, List, [], ◌∷◌, ◌++◌,
  append_assoc, append-nil, ◌==◌, arith, if◌then◌else◌,
}
use mathlib.Core.Path.{subst}
use sros.Ports.{Ports, Io, pure, ◌>>◌, act, Ends, Ends-if, Ends-bind}
use sros.Serial.{hex, wait_ready, and_then, serial_putc, serial_puts, put_digits, serial_puthex}

-- The bytes of a text: a newline has a carriage return before it.
abbrev pub line_bytes : List ℕ → List ℕ
line_bytes [] = []
line_bytes (c ∷ s) = let rest = c % 256 ∷ line_bytes s in if c == b'\n' then b'\r' ∷ rest else rest

-- The last `n` hexadecimal digits of a number.
abbrev pub digit_bytes : ℕ → ℕ → List ℕ
digit_bytes zero val = []
digit_bytes (suc n) val = hex (val / 16 ^ n % 16) % 256 ∷ digit_bytes n val

module _ {S : Type 0} (polls : ℕ) (Shows : ℕ → List ℕ → S → Type 0) where
  -- The line has sent `out`, and is ready after fewer polls than the code makes.
  pub record Soon (out : List ℕ) (s : S) : Type 0 where
    pub busy : ℕ
    pub in_time : busy < polls
    pub shows : Shows busy out s

module _ {S : Type 0} (io : Ports S) (polls port : ℕ) (Shows : ℕ → List ℕ → S → Type 0) where
  -- The documented line: bit 5 of its status says that it is ready, and a byte that is then written is
  -- sent.
  pub record IsLine : Type 0 where
    pub polled :
        (n : ℕ) (out : List ℕ) (s : S)
        → Shows (suc n) out s
        → let r = io.inb (port + 5) s in ((r.0 / 32 % 2 == 1) ≡ false) × Shows n out r.1
    pub ready :
        (out : List ℕ) (s : S)
        → Shows 0 out s
        → let r = io.inb (port + 5) s in ((r.0 / 32 % 2 == 1) ≡ true) × Shows 0 out r.1
    pub sends :
        (c : ℕ) (out : List ℕ) (s : S)
        → Shows 0 out s
        → Soon polls Shows (out ++ c ∷ []) (io.outb port c s)

module _ {S : Type 0} (io : Ports S) (polls port : ℕ) (Shows : ℕ → List ℕ → S → Type 0)
    (line : IsLine io polls port Shows) where
  -- The step ends, and sends the bytes.
  abbrev pub Sends : List ℕ → Io S Bool → Type 0
  Sends bs m =
      (out : List ℕ) (s : S)
      → Soon polls Shows out s
      → Ends true (Soon polls Shows (out ++ bs)) (m s)

  wait_ready-Ends :
      (n busy : ℕ) (out : List ℕ) (s : S)
      → Shows busy out s
      → busy < n
      → Ends true (Shows 0 out) (wait_ready io polls port n s)
  unfolding wait_ready
  wait_ready-Ends zero busy out s h lt = absurd (omega arith)
  wait_ready-Ends (suc n) zero out s h lt =
      let (is_ready, h') = line.ready out s h in
      Ends-if _ true (pure true) (wait_ready io polls port n) _ true (Shows 0 out) is_ready
        (refl, h')
  wait_ready-Ends (suc n) (suc busy) out s h lt =
      let (is_busy, h') = line.polled busy out s h in
      Ends-if _ false (pure true) (wait_ready io polls port n) _ true (Shows 0 out) is_busy
        (wait_ready-Ends n busy out _ h' (omega arith))

  pub nothing-Sends : Sends [] (pure true)
  nothing-Sends out s h = (refl, subst (λ bs. Soon polls Shows bs s) (sym (append-nil out)) h)

  if-Sends :
      (b : Bool) (xs ys : List ℕ) (m m' : Io S Bool)
      → Sends xs m
      → Sends ys m'
      → Sends (if b then xs else ys) (if b then m else m')
  if-Sends true xs ys m m' h h' = h
  if-Sends false xs ys m m' h h' = h'

  pub and_then-Sends :
      (xs ys : List ℕ) (m next : Io S Bool)
      → Sends xs m
      → Sends ys next
      → Sends (xs ++ ys) (and_then io polls port m next)
  and_then-Sends xs ys m next hm hn out s h =
      let (ended, h1) = hm out s h in
      let (last, h2) = hn (out ++ xs) (m s).1 h1 in
      let s2 = (next (m s).1).1 in
      Ends-bind (λ ok. if ok then next else pure false) (m s) true true
        (Soon polls Shows (out ++ (xs ++ ys))) ended
        (last, subst (λ bs. Soon polls Shows bs s2) (append_assoc out xs ys) h2)

  pub serial_putc-Sends : (c : ℕ) → Sends (c % 256 ∷ []) (serial_putc io polls port c)
  unfolding serial_putc
  serial_putc-Sends c out s h =
      let (ended, h1) = wait_ready-Ends polls h.busy out s h.shows h.in_time in
      let put : Io S Bool = act (io.outb port (c % 256)) >> pure true in
      Ends-bind (λ ok. if ok then put else pure false) (wait_ready io polls port polls s) true true
        (Soon polls Shows (out ++ c % 256 ∷ [])) ended (refl, line.sends (c % 256) out _ h1)

  pub serial_puts-Sends : (s : List ℕ) → Sends (line_bytes s) (serial_puts io polls port s)
  unfolding serial_puts
  serial_puts-Sends [] = nothing-Sends
  serial_puts-Sends (c ∷ s) =
      let rest : Io S Bool =
        and_then io polls port (serial_putc io polls port c) (serial_puts io polls port s) in
      let then_on : Sends (c % 256 ∷ line_bytes s) rest =
        and_then-Sends (c % 256 ∷ []) (line_bytes s) _ _ (serial_putc-Sends c)
          (serial_puts-Sends s) in
      let full : Io S Bool = and_then io polls port (serial_putc io polls port b'\r') rest in
      let with_return : Sends (b'\r' ∷ c % 256 ∷ line_bytes s) full =
        and_then-Sends (b'\r' ∷ []) (c % 256 ∷ line_bytes s) _ _ (serial_putc-Sends b'\r')
          then_on in
      if-Sends (c == b'\n') (b'\r' ∷ c % 256 ∷ line_bytes s) (c % 256 ∷ line_bytes s) full rest
        with_return then_on

  put_digits-Sends : (n val : ℕ) → Sends (digit_bytes n val) (put_digits io polls port n val)
  unfolding put_digits
  put_digits-Sends zero val = nothing-Sends
  put_digits-Sends (suc n) val =
      and_then-Sends (hex (val / 16 ^ n % 16) % 256 ∷ []) (digit_bytes n val) _ _
        (serial_putc-Sends (hex (val / 16 ^ n % 16))) (put_digits-Sends n val)

  -- serial_puthex ends and sends 0x and the eight hexadecimal digits of the number.
  pub serial_puthex-Sends :
      (val : ℕ) → Sends (b'0' ∷ b'x' ∷ digit_bytes 8 val) (serial_puthex io polls port val)
  unfolding serial_puthex
  serial_puthex-Sends val =
      and_then-Sends (b'0' ∷ b'x' ∷ []) (digit_bytes 8 val) _ _
        (serial_puts-Sends (b'0' ∷ b'x' ∷ [])) (put_digits-Sends 8 val)
