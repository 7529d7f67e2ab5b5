-- ===== src/Mouse/Pieces.antt =====
-- The stream of bytes that a PS/2 mouse sends, in pieces.
use sros.Prelude.{ℕ, ◌+◌, ◌-◌, ◌*◌, ◌/◌, ◌%◌, ◌≤◌, ◌<◌, ◌≡◌, List, [], ◌∷◌, ◌++◌, ℤ, pos, negsuc}
use sros.Mouse.{Mouse, MouseEvent, mouse_handler}

-- A movement is three bytes; so is one whose counters have run over, which has bit 6 or 7 of its
-- first byte set. A byte without bit 3 is no first byte of a packet.
pub data Piece : Type 0 where
  motion : MouseEvent → Piece
  overflow : ℕ → ℕ → ℕ → Piece
  noise : ℕ → Piece

abbrev pub sign_bit : ℤ → ℕ
sign_bit (pos n) = 0
sign_bit (negsuc n) = 1

abbrev pub low_byte : ℤ → ℕ
low_byte (pos n) = n
low_byte (negsuc n) = 255 - n

-- -128 to 127
abbrev pub IsI8 : ℤ → Type 0
IsI8 (pos n) = n < 128
IsI8 (negsuc n) = n < 128

abbrev pub IsPiece : Piece → Type 0
IsPiece (motion ev) = (ev.buttons < 8) × IsI8 ev.dx × IsI8 ev.dy
IsPiece (overflow a b c) = (a / 8 % 2 ≡ 1) × (1 ≤ a / 64 % 4)
IsPiece (noise b) = b / 8 % 2 ≡ 0

abbrev pub first_byte : MouseEvent → ℕ
first_byte ev = sign_bit ev.dy * 32 + sign_bit ev.dx * 16 + 8 + ev.buttons

abbrev pub bytes_of : Piece → List ℕ
bytes_of (motion ev) = first_byte ev ∷ low_byte ev.dx ∷ low_byte ev.dy ∷ []
bytes_of (overflow a b c) = a ∷ b ∷ c ∷ []
bytes_of (noise b) = b ∷ []

abbrev pub stream_bytes : List Piece → List ℕ
stream_bytes [] = []
stream_bytes (p ∷ ps) = bytes_of p ++ stream_bytes ps

abbrev pub stream_events : List Piece → List MouseEvent
stream_events [] = []
stream_events (motion ev ∷ ps) = ev ∷ stream_events ps
stream_events (overflow a b c ∷ ps) = stream_events ps
stream_events (noise b ∷ ps) = stream_events ps

abbrev pub AllPieces : List Piece → Type 0
AllPieces [] = Unit
AllPieces (p ∷ ps) = IsPiece p × AllPieces ps

-- One interrupt for each byte.
abbrev pub handle_all : List ℕ → Mouse → Mouse
handle_all [] m = m
handle_all (b ∷ bs) m = handle_all bs (mouse_handler b m)
