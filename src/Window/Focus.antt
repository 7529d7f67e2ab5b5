-- ===== src/Window/Focus.antt =====
-- Focusing a window in drivers/window.c puts it on top; the others keep their order.
use sros.Prelude.{
  ℕ, ◌-◌, ◌^◌, ◌≡◌, refl, sym, ap, ◌∙◌, true, false, Option, none, some, List, [], ◌∷◌, ◌++◌, arith,
  if◌then◌else◌,
}
use mathlib.Core.Path.{subst}
use sros.Window.{Window, Wm, remove_from_list, get_next_z_order, with_window, find_window}
use sros.Window.Manage.{set_focused, unfocus, raise, is_focus, focus_on, wm_focus_window}
use sros.Window.Order.{
  insert_top, AllBelow-remove, find-with, find-with_other, remove-with, AllBelow-with,
  Marks-focused, next_z_above, AllBelow,
}

pub AllBelow-unfocus :
    (z : ℕ) (o : Option ℕ) (ws : List Window) → AllBelow z ws → AllBelow z (unfocus o ws)
AllBelow-unfocus z none ws h = h
AllBelow-unfocus z (some f) ws h = AllBelow-with (set_focused false) (Marks-focused false) f z ws h

pub find-unfocus :
    (o : Option ℕ) (a : ℕ) (ws : List Window)
    → is_focus o a ≡ false
    → find_window a (unfocus o ws) ≡ find_window a ws
find-unfocus none a ws h = refl
find-unfocus (some f) a ws h =
    find-with_other (set_focused false) (Marks-focused false) a f ws (ground arith)

-- The window `w` at `a` is focused and the highest; below it are the others in their order, the
-- last focused one without its mark.
pub record OnTop (a : ℕ) (w : Window) (wm wm' : Wm) : Type 0 where
  pub z : ℕ
  pub order :
      wm'.windows
      ≡ remove_from_list a (unfocus wm.focus wm.windows)
        ++ record w { focused = true; z_order = z; dirty = true } ∷ []
  pub highest : AllBelow z (remove_from_list a (unfocus wm.focus wm.windows))
  pub has_focus : wm'.focus ≡ some a
  pub to_draw : wm'.needs_composite ≡ true

module _ (a : ℕ) (w : Window) (wm : Wm) where
  -- The windows with the marks of the focus moved.
  abbrev pub marked : List Window
  marked = with_window a (set_focused true) (unfocus wm.focus wm.windows)

  abbrev pub raised : Wm
  raised = record wm {
    windows = raise a (find_window a marked) marked;
    focus = some a;
    needs_composite = true;
  }

  pub focus_on-raised : is_focus wm.focus a ≡ false → focus_on a wm ≡ raised
  unfolding focus_on
  focus_on-raised other =
      ap
        (λ b.
          if b then record wm { windows = with_window a (set_focused true) wm.windows } else raised)
        other

  pub raised-OnTop :
      find_window a wm.windows ≡ some w
      → is_focus wm.focus a ≡ false
      → AllBelow (2 ^ 32 - 1) wm.windows
      → OnTop a w wm raised
  raised-OnTop found other below =
      let marks = Marks-focused true in
      let old = unfocus wm.focus wm.windows in
      let here =
        find-with (set_focused true) marks a w old
          (find-unfocus wm.focus a wm.windows other ∙ found) in
      let above = AllBelow-remove a (get_next_z_order marked) marked (
        next_z_above marked (
          AllBelow-with (set_focused true) marks a (2 ^ 32 - 1) old
            (AllBelow-unfocus (2 ^ 32 - 1) wm.focus wm.windows below))) in
      let others = remove-with (set_focused true) marks a old in
      let top : Window = record w {
        focused = true;
        z_order = get_next_z_order marked;
        dirty = true;
      } in
      record {
        z = get_next_z_order marked;
        order =
            ap (λ o. raise a o marked) here
            ∙ insert_top top (remove_from_list a marked) above
            ∙ ap (λ us. us ++ top ∷ []) others;
        highest = subst (AllBelow (get_next_z_order marked)) others above;
        has_focus = refl;
        to_draw = refl;
      }

-- Focusing a window of the list that does not have the focus, while the z orders are below 2^32 -
-- 1, makes it the last and highest of the list with the focus and its mark; the other windows keep
-- their order, the last focused one without its mark, and a composition is asked for.
pub wm_focus_window-OnTop :
    (a : ℕ) (w : Window) (wm : Wm)
    → find_window a wm.windows ≡ some w
    → is_focus wm.focus a ≡ false
    → AllBelow (2 ^ 32 - 1) wm.windows
    → OnTop a w wm (wm_focus_window (some a) wm)
unfolding wm_focus_window
wm_focus_window-OnTop a w wm found other below =
    subst (OnTop a w wm) (sym (focus_on-raised a w wm other))
      (raised-OnTop a w wm found other below)
