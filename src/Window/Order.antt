-- ===== src/Window/Order.antt =====
-- The list of windows of drivers/window.c: what its operations do to the order, the marks and the z
-- orders of the windows.
use sros.Prelude.{
  ℕ, suc, ◌+◌, ◌-◌, ◌%◌, ◌^◌, ◌≤◌, ◌<◌, ◌≡◌, refl, sym, ap, ◌∙◌, ◌≢◌, Bool, true, false, some, List,
  [], ◌∷◌, ◌++◌, arith, ltb, ◌==◌, if◌then◌else◌, Bool-cases, inl, inr,
}
use sros.Window.{
  Window, insert_sorted, remove_from_list, max_z_from, get_next_z_order, with_window, find_window,
}
use sros.Window.Manage.{set_focused}

-- Every window of the list has a z order below `z`.
abbrev pub AllBelow : ℕ → List Window → Type 0
AllBelow z [] = Unit
AllBelow z (w ∷ ws) = (w.z_order < z) × AllBelow z ws

pub insert_top :
    (w : Window) (ws : List Window) → AllBelow w.z_order ws → insert_sorted w ws ≡ ws ++ w ∷ []
unfolding insert_sorted
insert_top w [] h = refl
insert_top w (v ∷ ws) (h, hs) =
    let above : ltb w.z_order v.z_order ≡ false = ground arith in
    rw above (ap (λ us. v ∷ us) (insert_top w ws hs))

pub AllBelow-mono : (a b : ℕ) (ws : List Window) → a ≤ b → AllBelow a ws → AllBelow b ws
AllBelow-mono a b [] h all = tt
AllBelow-mono a b (w ∷ ws) h (k, ks) = (omega arith, AllBelow-mono a b ws h ks)

-- The list operations at the window that they look for, and before it.
module _ (a : ℕ) (w : Window) (ws : List Window) where
  remove-hit : (w.addr == a) ≡ true → remove_from_list a (w ∷ ws) ≡ ws
  unfolding remove_from_list
  remove-hit e = rw e refl

  remove-skip : (w.addr == a) ≡ false → remove_from_list a (w ∷ ws) ≡ w ∷ remove_from_list a ws
  unfolding remove_from_list
  remove-skip e = rw e refl

  with-hit : (f : Window → Window) → (w.addr == a) ≡ true → with_window a f (w ∷ ws) ≡ f w ∷ ws
  with-hit f e = rw e refl

  with-skip :
      (f : Window → Window)
      → (w.addr == a) ≡ false
      → with_window a f (w ∷ ws) ≡ w ∷ with_window a f ws
  with-skip f e = rw e refl

  find-hit : (w.addr == a) ≡ true → find_window a (w ∷ ws) ≡ some w
  find-hit e = rw e refl

  find-skip : (w.addr == a) ≡ false → find_window a (w ∷ ws) ≡ find_window a ws
  find-skip e = rw e refl

pub AllBelow-remove :
    (a z : ℕ) (ws : List Window) → AllBelow z ws → AllBelow z (remove_from_list a ws)
unfolding remove_from_list
AllBelow-remove a z [] h = tt
AllBelow-remove a z (w ∷ ws) (h, hs) = elim (Bool-cases (w.addr == a)) [
  | inl same ↦ rw same hs
  | inr other ↦ rw other (h, AllBelow-remove a z ws hs)
]

-- Changes that keep the addresses and the z orders.
pub record Marks (f : Window → Window) : Type 0 where
  pub addr_same : (w : Window) → (f w).addr ≡ w.addr
  pub z_same : (w : Window) → (f w).z_order ≡ w.z_order

pub Marks-focused : (b : Bool) → Marks (set_focused b)
Marks-focused b = record { addr_same = λ w. refl; z_same = λ w. refl }

module _ (f : Window → Window) (marks : Marks f) where
  moved_hit : (a : ℕ) (w : Window) → (w.addr == a) ≡ true → ((f w).addr == a) ≡ true
  moved_hit a w same = ap (λ b. b == a) (marks.addr_same w) ∙ same

  pub AllBelow-with : (a z : ℕ) (ws : List Window) → AllBelow z ws → AllBelow z (with_window a f ws)
  AllBelow-with a z [] h = tt
  AllBelow-with a z (w ∷ ws) (h, hs) = elim (Bool-cases (w.addr == a)) [
    | inl same ↦ rw same (omega (arith, marks.z_same w), hs)
    | inr other ↦ rw other (h, AllBelow-with a z ws hs)
  ]

  pub remove-with :
      (a : ℕ) (ws : List Window) → remove_from_list a (with_window a f ws) ≡ remove_from_list a ws
  unfolding remove_from_list
  remove-with a [] = refl
  remove-with a (w ∷ ws) = elim (Bool-cases (w.addr == a)) [
    | inl same ↦
        ap (remove_from_list a) (with-hit a w ws f same)
        ∙ remove-hit a (f w) ws (moved_hit a w same)
        ∙ sym (remove-hit a w ws same)
    | inr other ↦
        ap (remove_from_list a) (with-skip a w ws f other)
        ∙ remove-skip a w (with_window a f ws) other
        ∙ ap (λ us. w ∷ us) (remove-with a ws)
        ∙ sym (remove-skip a w ws other)
  ]

  pub find-with :
      (a : ℕ) (w : Window) (ws : List Window)
      → find_window a ws ≡ some w
      → find_window a (with_window a f ws) ≡ some (f w)
  find-with a w [] h = cc
  find-with a w (v ∷ ws) h = elim (Bool-cases (v.addr == a)) [
    | inl same ↦
        let is_w : v ≡ w = cc (find-hit a v ws same, h) in
        ap (find_window a) (with-hit a v ws f same)
        ∙ find-hit a (f v) ws (moved_hit a v same)
        ∙ ap (λ u. some (f u)) is_w
    | inr other ↦
        ap (find_window a) (with-skip a v ws f other)
        ∙ find-skip a v (with_window a f ws) other
        ∙ find-with a w ws (sym (find-skip a v ws other) ∙ h)
  ]

  pub find-with_other :
      (a b : ℕ) (ws : List Window) → b ≢ a → find_window a (with_window b f ws) ≡ find_window a ws
  find-with_other a b [] h = refl
  find-with_other a b (v ∷ ws) h = elim (Bool-cases (v.addr == b)) [
    | inl same ↦
        let away : (v.addr == a) ≡ false = ground arith in
        let away' : ((f v).addr == a) ≡ false = ap (λ c. c == a) (marks.addr_same v) ∙ away in
        ap (find_window a) (with-hit b v ws f same)
        ∙ find-skip a (f v) ws away'
        ∙ sym (find-skip a v ws away)
    | inr other ↦ ap (find_window a) (with-skip b v ws f other) ∙ elim (Bool-cases (v.addr == a)) [
      | inl found ↦ find-hit a v (with_window b f ws) found ∙ sym (find-hit a v ws found)
      | inr missed ↦
          find-skip a v (with_window b f ws) missed
          ∙ find-with_other a b ws h
          ∙ sym (find-skip a v ws missed)
    ]
  ]

max_z_le : (m : ℕ) (ws : List Window) → m ≤ max_z_from m ws
unfolding max_z_from
max_z_le m [] = omega arith
max_z_le m (w ∷ ws) =
    let rest = max_z_le (if ltb m w.z_order then w.z_order else m) ws in ground (arith, rest)

-- The highest z order bounds all, and is no higher than any bound.
pub max_z_AllBelow : (m : ℕ) (ws : List Window) → AllBelow (suc (max_z_from m ws)) ws
unfolding max_z_from
max_z_AllBelow m [] = tt
max_z_AllBelow m (w ∷ ws) =
    let m' = if ltb m w.z_order then w.z_order else m in
    let rest = max_z_le m' ws in (ground (arith, rest), max_z_AllBelow m' ws)

max_z_lt : (m z : ℕ) (ws : List Window) → m < z → AllBelow z ws → max_z_from m ws < z
unfolding max_z_from
max_z_lt m z [] h all = h
max_z_lt m z (w ∷ ws) h (k, ks) =
    max_z_lt (if ltb m w.z_order then w.z_order else m) z ws (ground arith) ks

-- While the z orders are below the largest u32, the next one is above all of them.
pub next_z_above : (ws : List Window) → AllBelow (2 ^ 32 - 1) ws → AllBelow (get_next_z_order ws) ws
unfolding get_next_z_order
next_z_above ws h =
    let small = max_z_lt 0 (2 ^ 32 - 1) ws (omega arith) h in
    let no_wrap : suc (max_z_from 0 ws) ≡ (max_z_from 0 ws + 1) % 2 ^ 32 = omega (arith, small) in
    rw no_wrap at (max_z_AllBelow 0 ws)

pub next_z_lt :
    (ws : List Window) (z : ℕ) → 0 < z → z < 2 ^ 32 → AllBelow z ws → get_next_z_order ws ≤ z
unfolding get_next_z_order
next_z_lt ws z some_room small h = let below = max_z_lt 0 z ws some_room h in omega (arith, below)
