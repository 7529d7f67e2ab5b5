-- ===== src/Tests/Shell.antt =====
-- A line with two spaces between its words, a hexadecimal number, and a command that is typed.
use sros.Prelude.{ℕ, ◌≡◌, none, List, [], ◌∷◌, arith, replicate, take}
use sros.Shell.{puthex_text, hextoi, parse_command}
use sros.Shell.Hex.{hextoi-puthex_text}
use sros.Shell.Spans.{words}
use sros.Shell.Words.{arguments, parse_command-words}
use sros.Shell.Editor.{Editor}

hextoi_example : hextoi (puthex_text 0x20AF04) ≡ 0x20AF04
hextoi_example = hextoi-puthex_text 0x20AF04 (omega arith)

-- "ls  a"
abbrev ls_a : List ℕ
ls_a = b'l' ∷ b's' ∷ b' ' ∷ b' ' ∷ b'a' ∷ []

parse_command_example : arguments (parse_command ls_a 16) ≡ take 16 (words ls_a)
parse_command_example = parse_command-words ls_a 16 (omega arith)

abbrev at_prompt : Editor
at_prompt = record {
  line = replicate 256 0;
  pos = 0;
  line_len = 0;
  saved_line = replicate 256 0;
  saved_pos = 0;
  history = [];
  history_index = none;
  executed = [];
}

-- "Unknown command\n"
abbrev unknown : List ℕ
unknown =
    b'U' ∷ b'n' ∷ b'k' ∷ b'n' ∷ b'o' ∷ b'w' ∷ b'n' ∷ b' ' ∷ b'c' ∷ b'o' ∷ b'm' ∷ b'm' ∷ b'a' ∷ b'n'
    ∷ b'd' ∷ b'\n' ∷ []
