-- ===== src/Client/Ui/Steps/Runs.antt =====
-- gutted-client/src/render.rs: every input of the user is a step, and what any inputs leave.
use exo_browser_core.Common.{ℕ, ◌+◌, ◌^◌, ◌≤◌, ◌<◌, refl, ap, Bool, List, [], ◌∷◌, length, arith}
use exo_browser_core.Client.Events.{InputEvent}
use exo_browser_core.Client.Ui.{Ui, new_no_std}
use exo_browser_core.Client.Ui.Inputs.{UserInput, user_input, user_inputs}
use exo_browser_core.Client.Ui.Tabs.{Tabs, view, Change, IsTabs, Move}
use exo_browser_core.Client.Ui.Tabs.Laws.{Change-IsTabs}
use exo_browser_core.Client.Ui.Steps.{
  on_resize-Move, on_pointer_move-Move, on_scroll-Move, update_keysym_modifier-Move,
  update_x11_mods-Move,
}
use exo_browser_core.Client.Ui.Steps.Keys.{on_key-Move}
use exo_browser_core.Client.Ui.Steps.Clicks.{on_mouse_button-Move}

-- Each input of the user is a step: where every tab has a number of its own below that of the next
-- one and the active tab is among them, it makes one step of the tab machine, and appends to the queue
-- what the step is labelled with.
pub user_input-Move : (i : UserInput) (u : Ui) → Move u (user_input i u)
unfolding user_input
user_input-Move (UserInput.resize w h) u = on_resize-Move w h u
user_input-Move (UserInput.pointer_move x y) u = on_pointer_move-Move x y u
user_input-Move (UserInput.mouse_button x y button pressed) u =
    on_mouse_button-Move x y button pressed u
user_input-Move (UserInput.scroll dx dy) u = on_scroll-Move dx dy u
user_input-Move (UserInput.key keysym pressed text) u = on_key-Move keysym pressed text u
user_input-Move (UserInput.modifier keysym pressed) u = update_keysym_modifier-Move keysym pressed u
user_input-Move (UserInput.x11_mods shift control mod1 mod4) u =
    update_x11_mods-Move shift control mod1 mod4 u

-- A step uses at most one new number.
pub Change-next : {a b : Tabs} {sent : List InputEvent} → Change a b sent → b.next ≤ a.next + 1
Change-next {a} (Change.stay e _) = omega (arith, ap (λ (t : Tabs). t.next) e)
Change-next {a} (Change.open_new e _) = omega (arith, ap (λ (t : Tabs). t.next) e)
Change-next {a} (Change.close k ne e _) = omega (arith, ap (λ (t : Tabs). t.next) e)
Change-next {a} (Change.close_current first rest q e _) = omega (arith, ap (λ (t : Tabs). t.next) e)
Change-next {a} (Change.switch k q e _) = omega (arith, ap (λ (t : Tabs). t.next) e)

-- What each step keeps, while the numbers do not run out, a run keeps.
pub user_inputs-kept :
    (P : Ui → Type 0)
    → ((u v : Ui) → IsTabs (view u) → Move u v → P u → P v)
    → (is : List UserInput) (u : Ui) → (view u).next + length is < 2 ^ 32
    → IsTabs (view u)
    → P u
    → IsTabs (view (user_inputs is u)) × P (user_inputs is u)
unfolding user_inputs
user_inputs-kept P keep [] u room v p = (v, p)
user_inputs-kept P keep (i ∷ is) u room v p =
    let m = user_input-Move i u in
    user_inputs-kept P keep is (user_input i u) (omega (arith, Change-next (m.change v)))
      (Change-IsTabs (omega arith) v (m.change v)) (keep u (user_input i u) v m p)

pub start-IsTabs :
    (w h : ℕ) (url : List ℕ) (editing : Bool) → IsTabs (view (new_no_std w h url editing))
unfolding new_no_std
start-IsTabs w h url editing = record { apart = (tt, tt); fresh = (omega arith, tt); there = refl }

-- From the start on, whatever the user does in fewer than 2^32 - 2 inputs: every tab has a number of
-- its own below that of the next one, and the active tab is one of them.
pub user_inputs-IsTabs :
    (is : List UserInput) (w h : ℕ) (url : List ℕ) (editing : Bool)
    → length is + 2 < 2 ^ 32
    → IsTabs (view (user_inputs is (new_no_std w h url editing)))
unfolding new_no_std
user_inputs-IsTabs is w h url editing room =
    (user_inputs-kept (λ _. Unit {0}) (λ u v t m p. tt) is (new_no_std w h url editing)
      (omega arith) (start-IsTabs w h url editing) tt).0
