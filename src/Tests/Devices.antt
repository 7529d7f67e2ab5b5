-- ===== src/Tests/Devices.antt =====
-- A key press in the ring, what SYS_READ makes of it, and strings in memory.
use sros.Prelude.{ℕ, ◌≡◌, refl, false, [], ◌∷◌, ◌++◌, some, arith, replicate, length}
use sros.Keyboard.{Keyboard}
use sros.Keyboard.Buffer.{IsRing}
use sros.Syscall.{sys_read_keys}
use sros.Syscall.Keys.{Reads, sys_read_keys-Reads}
use sros.Kstring.{strlen}
use sros.Kstring.Laws.{strlen_lem, stored}

-- The ring holds one character, and its next goes round.
abbrev pub typed : Keyboard
typed = record {
  buffer = replicate 255 0 ++ 97 ∷ [];
  head = 0;
  tail = 255;
  shift_pressed = false;
  ctrl_pressed = false;
  caps_lock_active = false;
}

typed-IsRing : IsRing typed
typed-IsRing = record { slots = refl; head_in = omega arith; tail_in = omega arith }

sys_read_example :
    let (n, mem', k') = sys_read_keys 0x9000 4 (λ a. 0) typed in
    (n ≡ 1) × Reads (97 ∷ []) [] 0x9000 (λ a. 0) mem' k'
sys_read_example = sys_read_keys-Reads 0x9000 4 (λ a. 0) typed typed-IsRing (omega arith)

strlen_example : strlen (stored (104 ∷ 105 ∷ []) (9 ∷ [])) ≡ some (length {A = ℕ} (104 ∷ 105 ∷ []))
strlen_example = strlen_lem (104 ∷ 105 ∷ []) (9 ∷ []) (omega arith, (omega arith, tt))
