-- ===== src/Shell/Editor.antt =====
-- The loop of `shell_main` in user/shell.c: the line editor with its history, one key at a time. A
-- line is an array of 256 bytes. The entries of the history are C strings, oldest first, and
-- `history_count` is their number; `history_index` is `none` for -1. Beside the new state a key
-- gives what is printed and the line that is executed. Reading a string past its array is `none`.
-- `execute` stands for the command that runs on a line: what it prints after the lines executed
-- before, or none where it does not return, as a successful exec. Of the editor's data it changes
-- the line only.
pub mod Typing
use sros.Prelude.{
  ℕ, zero, suc, ◌+◌, ◌-◌, ◌++◌, Bool, true, false, Option, none, some, List, [], ◌∷◌, ltb, leb,
  ◌==◌, if◌then◌else◌, length, get_or, set, take, drop, replicate,
}
use sros.Sfs.Dir.{c_string, same_string}
use sros.Shell.{parse_command}

pub record Editor : Type 0 where
  pub line : List ℕ
  pub pos : ℕ
  pub line_len : ℕ
  pub saved_line : List ℕ
  pub saved_pos : ℕ
  pub history : List (List ℕ)
  pub history_index : Option ℕ
  -- The lines executed so far, which decide the system's state.
  pub executed : List (List ℕ)

-- The state after a key, the characters printed, and the line executed.
abbrev pub KeyResult : Type 0
KeyResult = Option (Editor × List ℕ × Option (List ℕ))

abbrev pub key_up : ℕ
key_up = 0xE0

abbrev pub key_down : ℕ
key_down = 0xE1

abbrev pub key_left : ℕ
key_left = 0xE2

abbrev pub key_right : ℕ
key_right = 0xE3

abbrev pub cursor_left : ℕ
cursor_left = 0x01

abbrev pub cursor_right : ℕ
cursor_right = 0x02

-- "SRos> "
abbrev pub prompt : List ℕ
prompt = b'S' ∷ b'R' ∷ b'o' ∷ b's' ∷ b'>' ∷ b' ' ∷ []

abbrev pub history_max : ℕ
history_max = 16

-- The array ends the string, or it has no end.
abbrev pub string_of : List ℕ → Option (List ℕ)
string_of line = let s = c_string line in if length s == length line then none else some s

-- `strcpy` of a string into an array that is longer.
abbrev pub copied : List ℕ → List ℕ → List ℕ
copied s array = s ++ 0 ∷ drop (length s + 1) array

-- The last entry is the command.
abbrev pub ends_with : List (List ℕ) → List ℕ → Bool
ends_with [] cmd = false
ends_with (h ∷ []) cmd = same_string h cmd
ends_with (h ∷ h' ∷ hs) cmd = ends_with (h' ∷ hs) cmd

pub history_add : List ℕ → List (List ℕ) → List (List ℕ)
history_add cmd history =
    let kept = if leb history_max (length history) then drop 1 history else history in
    if length cmd == 0 then history else if ends_with history cmd then history else kept ++ cmd ∷ []

-- The entry that is `i` entries back from the last one.
abbrev pub entry_back : ℕ → List (List ℕ) → List ℕ
entry_back i history = get_or history (length history - 1 - i) []

-- `execute` splits the line in place.
abbrev pub split_line : List ℕ → List ℕ → List ℕ
split_line text line = (parse_command text 16).1 ++ drop (length text) line

enter : (List (List ℕ) → List ℕ → Option (List ℕ)) → Editor → KeyResult
enter execute e =
    let line = set e.line e.pos 0 in
    let text = c_string line in
    elim (execute e.executed text) [
      | none ↦ none
      | some printed ↦ some (
        record e {
          line = split_line text line;
          pos = 0;
          line_len = 0;
          history = history_add text e.history;
          history_index = none;
          executed = e.executed ++ text ∷ [];
        },
        b'\n' ∷ (printed ++ prompt),
        some text,
      )
    ]

-- The bytes of the line from `i` on move one place to the left, `n` of them.
shift_left : ℕ → ℕ → List ℕ → List ℕ
shift_left zero i line = line
shift_left (suc n) i line = shift_left n (i + 1) (set line i (get_or line (i + 1) 0))

-- `pos` is not greater than `line_len`, so both are positive here.
backspace : Editor → KeyResult
unfolding shift_left
backspace e =
    let pos = e.pos - 1 in
    let line_len = e.line_len - 1 in
    let line = set (shift_left (line_len - pos) pos e.line) line_len 0 in
    let redrawn = take (line_len - pos) (drop pos line) in
    if ltb 0 e.pos
    then some (
      record e { line = line; pos = pos; line_len = line_len },
      0x08 ∷ redrawn ++ b' ' ∷ replicate (line_len + 1 - pos) cursor_left,
      none,
    )
    else some (e, [], none)

-- A string takes the place of the line: the code that KEY_UP and KEY_DOWN share.
abbrev pub show_entry : ℕ → List ℕ → Editor → KeyResult
show_entry i s e = some (
  record e { line = copied s e.line; pos = length s; line_len = length s; history_index = some i },
  replicate e.pos 0x08 ++ s,
  none,
)

-- The line is saved when the history is entered.
save_line : Editor → Option Editor
save_line e = elim e.history_index [
  | some i ↦ some e
  | none ↦ elim (string_of e.line) [
    | none ↦ none
    | some s ↦ some (record e { saved_line = copied s e.saved_line; saved_pos = e.pos })
  ]
]

-- `history_index + 1`
abbrev pub next_index : Option ℕ → ℕ
next_index none = 0
next_index (some i) = i + 1

older : Option Editor → KeyResult
older none = none
older (some e) =
    let i = next_index e.history_index in
    if ltb i (length e.history) then show_entry i (entry_back i e.history) e else some (e, [], none)

up : Editor → KeyResult
unfolding save_line older
up e = if length e.history == 0 then some (e, [], none) else older (save_line e)

-- Back to the saved line, at the position where the cursor was.
restore_line : Option (List ℕ) → Editor → KeyResult
restore_line none e = none
restore_line (some s) e = some (
  record e {
    line = copied s e.line;
    pos = e.saved_pos;
    line_len = e.saved_pos;
    history_index = none;
  },
  replicate e.pos 0x08 ++ s,
  none,
)

down : Editor → KeyResult
unfolding restore_line
down e = elim e.history_index [
  | none ↦ some (e, [], none)
  | some i ↦
      if ltb 0 i
      then show_entry (i - 1) (entry_back (i - 1) e.history) e
      else restore_line (string_of e.saved_line) e
]

insert_char : ℕ → Editor → KeyResult
insert_char c e =
    let pos = e.pos + 1 in
    if ltb e.pos 255
    then some (
      record e {
        line = set e.line e.pos c;
        pos = pos;
        line_len = (if ltb e.line_len pos then pos else e.line_len);
      },
      c ∷ [],
      none,
    )
    else some (e, [], none)

pub shell_key : (List (List ℕ) → List ℕ → Option (List ℕ)) → ℕ → Editor → KeyResult
unfolding enter backspace up down insert_char
shell_key execute c e =
    if c == b'\n'
    then enter execute e
    else if c == 0x08
    then backspace e
    else if c == key_up
    then up e
    else if c == key_down
    then down e
    else if c == key_left
    then (if ltb 0 e.pos
        then some (record e { pos = e.pos - 1 }, cursor_left ∷ [], none)
        else some (e, [], none))
    else if c == key_right
    then (if ltb e.pos e.line_len
        then some (record e { pos = e.pos + 1 }, cursor_right ∷ [], none)
        else some (e, [], none))
    else insert_char c e

-- What a key printed and executed before what the later ones do.
abbrev pub then_keys :
    List ℕ
    → Option (List ℕ)
    → Option (Editor × List ℕ × List (List ℕ))
    → Option (Editor × List ℕ × List (List ℕ))
then_keys out ran none = none
then_keys out none (some (e, outs, rans)) = some (e, out ++ outs, rans)
then_keys out (some s) (some (e, outs, rans)) = some (e, out ++ outs, s ∷ rans)

-- A run of keys: the state, all that is printed, and the lines executed.
pub shell_keys :
    (List (List ℕ) → List ℕ → Option (List ℕ))
    → List ℕ
    → Editor
    → Option (Editor × List ℕ × List (List ℕ))
shell_keys execute [] e = some (e, [], [])
shell_keys execute (c ∷ cs) e = elim (shell_key execute c e) [
  | none ↦ none
  | some (e', out, ran) ↦ then_keys out ran (shell_keys execute cs e')
]
