-- ===== src/Keyboard.antt =====
-- drivers/keyboard.c: the ring of characters between the interrupt handler and its readers, and the
-- translation of scan codes.
pub mod Buffer
use sros.Prelude.{
  ℕ, zero, suc, ◌+◌, ◌-◌, ◌/◌, ◌%◌, Bool, true, false, not, ◌&&◌, ◌||◌, List, [], ◌∷◌, ltb, leb,
  ◌==◌, if◌then◌else◌, get_or, set,
}

abbrev pub buffer_size : ℕ
buffer_size = 256

-- `kbd_buffer` with its two indices, and the modifier keys.
pub record Keyboard : Type 0 where
  pub buffer : List ℕ
  pub head : ℕ
  pub tail : ℕ
  pub shift_pressed : Bool
  pub ctrl_pressed : Bool
  pub caps_lock_active : Bool

-- A full buffer drops the character.
pub kbd_buffer_put : ℕ → Keyboard → Keyboard
kbd_buffer_put c k =
    let next = (k.head + 1) % buffer_size in
    if next == k.tail then k else record k { buffer = set k.buffer k.head (c % 256); head = next }

-- An empty buffer gives 0.
pub kbd_buffer_get : Keyboard → ℕ × Keyboard
kbd_buffer_get k =
    if k.head == k.tail
    then (0, k)
    else (get_or k.buffer k.tail 0, record k { tail = (k.tail + 1) % buffer_size })

pub kbd_buffer_has_data : Keyboard → Bool
kbd_buffer_has_data k = not (k.head == k.tail)

-- The tables from scan code 0 on; what they do not reach is 0.
abbrev pub kbd_us_normal : List ℕ
kbd_us_normal =
    0 ∷ 0x1B ∷ b'1' ∷ b'2' ∷ b'3' ∷ b'4' ∷ b'5' ∷ b'6' ∷ b'7' ∷ b'8' ∷ b'9' ∷ b'0' ∷ b'-' ∷ b'='
    ∷ 0x08 ∷ 0x09 ∷ b'q' ∷ b'w' ∷ b'e' ∷ b'r' ∷ b't' ∷ b'y' ∷ b'u' ∷ b'i' ∷ b'o' ∷ b'p' ∷ b'['
    ∷ b']' ∷ 0x0A ∷ 0 ∷ b'a' ∷ b's' ∷ b'd' ∷ b'f' ∷ b'g' ∷ b'h' ∷ b'j' ∷ b'k' ∷ b'l' ∷ b';' ∷ 0x27
    ∷ 0x60 ∷ 0 ∷ 0x5C ∷ b'z' ∷ b'x' ∷ b'c' ∷ b'v' ∷ b'b' ∷ b'n' ∷ b'm' ∷ b',' ∷ b'.' ∷ b'/' ∷ 0
    ∷ b'*' ∷ 0 ∷ b' ' ∷ []

abbrev pub kbd_us_shift : List ℕ
kbd_us_shift =
    0 ∷ 0x1B ∷ b'!' ∷ b'@' ∷ b'#' ∷ b'$' ∷ b'%' ∷ b'^' ∷ b'&' ∷ b'*' ∷ b'(' ∷ b')' ∷ b'_' ∷ b'+'
    ∷ 0x08 ∷ 0x09 ∷ b'Q' ∷ b'W' ∷ b'E' ∷ b'R' ∷ b'T' ∷ b'Y' ∷ b'U' ∷ b'I' ∷ b'O' ∷ b'P' ∷ b'{'
    ∷ b'}' ∷ 0x0A ∷ 0 ∷ b'A' ∷ b'S' ∷ b'D' ∷ b'F' ∷ b'G' ∷ b'H' ∷ b'J' ∷ b'K' ∷ b'L' ∷ b':' ∷ 0x22
    ∷ b'~' ∷ 0 ∷ b'|' ∷ b'Z' ∷ b'X' ∷ b'C' ∷ b'V' ∷ b'B' ∷ b'N' ∷ b'M' ∷ b'<' ∷ b'>' ∷ b'?' ∷ 0
    ∷ b'*' ∷ 0 ∷ b' ' ∷ []

-- A scan code with the release bit set.
release : ℕ → Keyboard → Keyboard
release code k =
    if code == 0x2A || code == 0x36
    then record k { shift_pressed = false }
    else if code == 0x1D
    then record k { ctrl_pressed = false }
    else k

-- The character of a key under Caps Lock.
pub apply_caps : Bool → ℕ → ℕ
apply_caps caps ch =
    if caps && leb b'a' ch && leb ch b'z'
    then ch - 32
    else if caps && leb b'A' ch && leb ch b'Z'
    then ch + 32
    else ch

-- KEY_UP, KEY_DOWN, KEY_LEFT and KEY_RIGHT of include/keyboard.h; 0 for any other key.
abbrev pub arrow_key : ℕ → ℕ
arrow_key code =
    if code == 0x48
    then 0xE0
    else if code == 0x50
    then 0xE1
    else if code == 0x4B
    then 0xE2
    else if code == 0x4D
    then 0xE3
    else 0

-- The character that a key press stands for; 0 if it has none.
pub translate_key : Bool → Bool → ℕ → ℕ
unfolding apply_caps
translate_key shift caps code =
    let ch = get_or (if shift then kbd_us_shift else kbd_us_normal) code 0 in
    if ch == 0 && not (arrow_key code == 0) then arrow_key code else apply_caps caps ch

type_char : ℕ → Keyboard → Keyboard
unfolding kbd_buffer_put
type_char ch k = if ch == 0 then k else kbd_buffer_put ch k

press : ℕ → Keyboard → Keyboard
unfolding type_char translate_key
press code k =
    if code == 0x2A || code == 0x36
    then record k { shift_pressed = true }
    else if code == 0x1D
    then record k { ctrl_pressed = true }
    else if code == 0x3A
    then record k { caps_lock_active = not k.caps_lock_active }
    else type_char (translate_key k.shift_pressed k.caps_lock_active code) k

-- `keyboard_handler` on a byte that the status register does not mark as the mouse's.
pub keyboard_handler : ℕ → Keyboard → Keyboard
unfolding release press
keyboard_handler scancode k =
    if leb 128 scancode then release (scancode % 128) k else press scancode k
