-- ===== src/Ports.antt =====
-- The port instructions of include/io.h: what a device answers and how it changes is a parameter of
-- the drivers that use them.
use sros.Prelude.{Bool, true, false, if◌then◌else◌, ℕ, ◌≡◌, refl, sym}
use mathlib.Core.Path.{subst}

-- A machine with states `S`: reading a port gives a value, and may change the device too.
pub record Ports (S : Type 0) : Type 0 where
  pub inb : ℕ → S → ℕ × S
  pub inw : ℕ → S → ℕ × S
  pub inl : ℕ → S → ℕ × S
  pub outb : ℕ → ℕ → S → S
  pub outw : ℕ → ℕ → S → S
  pub outl : ℕ → ℕ → S → S

-- What a driver does between two states.
abbrev pub Io : Type 0 → Type 0 → Type 0
Io S A = S → A × S

abbrev pub pure : {S A : Type 0} → A → Io S A
pure a s = (a, s)

infixl 5 ◌>>=◌ ◌>>◌
abbrev pub ◌>>=◌ : {S A B : Type 0} → Io S A → (A → Io S B) → Io S B
◌>>=◌ m f s = let (a, s') = m s in f a s'

abbrev pub ◌>>◌ : {S B : Type 0} → Io S (Unit {0}) → Io S B → Io S B
m >> k = m >>= λ _. k

-- An output as a step.
abbrev pub act : {S : Type 0} → (S → S) → Io S (Unit {0})
act f s = (tt, f s)

-- Between states that satisfy `P`, the step gives `x`.
abbrev pub Gives : {S A : Type 0} → (S → Type 0) → Io S A → A → Type 0
Gives {S} P m x = (s : S) → P s → ((m s).0 ≡ x) × P (m s).1

pub Gives-pure : {S A : Type 0} (P : S → Type 0) (x : A) → Gives P (pure x) x
Gives-pure P x s p = (refl, p)

pub Gives-bind :
    {S A B : Type 0} (P : S → Type 0) (m : Io S A) (f : A → Io S B) (x : A) (y : B)
    → Gives P m x
    → Gives P (f x) y
    → Gives P (m >>= f) y
Gives-bind P m f x y gm gf s p =
    let (e, p') = gm s p in
    subst (λ a. ((f a (m s).1).0 ≡ y) × P (f a (m s).1).1) (sym e) (gf (m s).1 p')

pub Gives-if :
    {S A : Type 0} (P : S → Type 0) (b : Bool) (m m' : Io S A) (x y : A)
    → Gives P m x
    → Gives P m' y
    → Gives P (if b then m else m') (if b then x else y)
Gives-if P true m m' x y g g' = g
Gives-if P false m m' x y g g' = g'

-- A step gives `x` and leads to a state that satisfies `P`.
abbrev pub Ends : {S A : Type 0} → A → (S → Type 0) → A × S → Type 0
Ends x P r = (r.0 ≡ x) × P r.1

-- A test that is known decides which step is taken.
pub Ends-if :
    {S A : Type 0} (b b' : Bool) (m m' : Io S A) (s : S) (x : A) (P : S → Type 0)
    → b ≡ b'
    → Ends x P ((if b' then m else m') s)
    → Ends x P ((if b then m else m') s)
Ends-if b b' m m' s x P e h = subst (λ c. Ends x P ((if c then m else m') s)) (sym e) h

-- A step that gives `x` goes on as the next step does after `x`.
pub Ends-bind :
    {S A B : Type 0} (f : A → Io S B) (r : A × S) (x : A) (y : B) (P : S → Type 0)
    → r.0 ≡ x
    → Ends y P (f x r.1)
    → Ends y P (f r.0 r.1)
Ends-bind f r x y P e h = subst (λ a. Ends y P (f a r.1)) (sym e) h
