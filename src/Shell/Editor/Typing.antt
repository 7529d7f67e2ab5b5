-- ===== src/Shell/Editor/Typing.antt =====
-- Typing a command at the prompt of user/shell.c.
use sros.Prelude.{ℕ, ◌<◌, ◌≤◌, ◌≡◌, none, List, [], ◌∷◌, ◌++◌, arith, length, drop}
use sros.Kstring.Laws.{IsText}
use sros.Shell.Editor.{Editor, key_up, history_add}

-- A character that is no special key.
abbrev pub IsPlain : ℕ → Type 0
IsPlain c = (b' ' ≤ c) × (c < key_up)

abbrev pub ArePlain : List ℕ → Type 0
ArePlain [] = Unit {0}
ArePlain (c ∷ s) = IsPlain c × ArePlain s

plain-IsText : (s : List ℕ) → ArePlain s → IsText s
plain-IsText [] v = tt
plain-IsText (c ∷ s) v = (omega (arith, v.0.0), plain-IsText s v.1)

-- The prompt at which the characters `u` have been typed.
pub record Entered (u : List ℕ) (e : Editor) : Type 0 where
  pub at_end : e.pos ≡ length u
  pub whole : e.line_len ≡ length u
  pub array : length e.line ≡ 256
  pub stands : e.line ≡ u ++ drop (length u) e.line

-- The command has run, and the prompt is empty.
pub record Ran (text : List ℕ) (e e' : Editor) : Type 0 where
  pub at_start : e'.pos ≡ 0
  pub empty : e'.line_len ≡ 0
  pub remembered : e'.history ≡ history_add text e.history
  pub fresh : e'.history_index ≡ none
  pub counted : e'.executed ≡ e.executed ++ text ∷ []
