-- ===== src/Syscall/Listing/Laws.antt =====
-- What SYS_FS_LS of kernel/syscall.c leaves in the buffer.
use sros.Prelude.{
  ℕ, zero, suc, ◌+◌, ◌-◌, ◌≡◌, Bool, true, false, List, [], ◌∷◌, ◌++◌, if◌then◌else◌, take, ◌&&◌,
  ◌||◌, ◌==◌,
}
use sros.Sfs.{Fs, block_read}
use sros.Sfs.Dir.{c_string, dentry_at, dentries_per_block}

-- The names one to a line.
abbrev pub add_name : List ℕ × Bool → List ℕ → List ℕ × Bool
add_name (text, true) name = (text ++ name, false)
add_name (text, false) name = (text ++ (b'\n' ∷ name), false)

-- The state of the loop, when `text` is the whole list so far.
abbrev Cut : ℕ → List ℕ × Bool → List ℕ × Bool → Type 0
Cut buf_size (text, first) (written, first') =
    (written ≡ take (buf_size - 1) text) × (first' ≡ first)

abbrev add_names : List (List ℕ) → List ℕ × Bool → List ℕ × Bool
add_names [] st = st
add_names (n ∷ ns) st = add_names ns (add_name st n)

-- "." and "..".
abbrev pub is_dots : List ℕ → Bool
is_dots (a ∷ []) = a == b'.'
is_dots (a ∷ b ∷ []) = (a == b'.') && (b == b'.')
is_dots _ = false

-- The names of a block's entries that are in use, but for "." and "..".
abbrev pub names_in_block : ℕ → ℕ → List ℕ → List (List ℕ)
names_in_block zero di block = []
names_in_block (suc n) di block =
    let d = dentry_at di block in
    let name = c_string d.name in
    let rest = names_in_block n (di + 1) block in
    if (d.ino == 0) || is_dots name then rest else name ∷ rest

-- Those of blocks by their numbers.
abbrev pub names_in_blocks : List ℕ → Fs → List (List ℕ)
names_in_blocks [] f = []
names_in_blocks (b ∷ bs) f =
    names_in_block dentries_per_block 0 (block_read b f.stale f) ++ names_in_blocks bs f

-- One to a line.
abbrev pub lines_after : List (List ℕ) → List ℕ
lines_after [] = []
lines_after (n ∷ ns) = b'\n' ∷ (n ++ lines_after ns)

abbrev pub lines : List (List ℕ) → List ℕ
lines [] = []
lines (n ∷ ns) = n ++ lines_after ns
