-- ===== src/Client/Ui/Tabs.antt =====
-- gutted-client/src/render.rs: the tabs of the client as a machine of their own, whose steps are
-- labelled with the events that the host is sent.
pub mod Laws
use exo_browser_core.Common.{
  ℕ, ◌+◌, ◌%◌, ◌^◌, ◌≤◌, ◌<◌, ◌==◌, ◌≡◌, ◌≢◌, refl, sym, ◌∙◌, append-nil, Bool, true, false, none,
  Option, some, List, [], ◌∷◌, ◌++◌, All, if◌then◌else◌,
}
use exo_browser_core.Client.Events.{InputEvent}
use exo_browser_core.Client.Core.Unique.{ids, Apart}
use exo_browser_core.Client.Ui.{Ui}
use exo_browser_core.Client.Ui.Moves.{home}

pub record Tabs : Type 0 where
  pub ids : List ℕ
  pub active : ℕ
  pub next : ℕ

-- What the machine sees of the client.
abbrev pub view : Ui → Tabs
view ui =
    let s = ui.core.tab_state in
    record { ids = ids s.tabs; active = s.active_tab_id; next = s.next_tab_id }

abbrev pub is_in : ℕ → List ℕ → Bool
is_in k [] = false
is_in k (j ∷ js) = let rest = is_in k js in if j == k then true else rest

abbrev pub others : ℕ → List ℕ → List ℕ
others k [] = []
others k (j ∷ js) = let rest = others k js in if j == k then rest else j ∷ rest

-- The events that do not open, close or switch a tab.
abbrev pub IsOther : InputEvent → Type 0
IsOther (InputEvent.create_tab _ _) = ⊥
IsOther (InputEvent.close_tab _) = ⊥
IsOther (InputEvent.switch_tab _) = ⊥
IsOther _ = Unit {0}

-- The steps, with what is sent. The numbers of new tabs are those of a `u32`.
pub data Change (a b : Tabs) (sent : List InputEvent) : Type 0 where
  stay : b ≡ a → All IsOther sent → Change a b sent
  open_new :
      b ≡ record { ids = a.ids ++ (a.next ∷ []); active = a.next; next = (a.next + 1) % 2 ^ 32 }
      → sent ≡ InputEvent.create_tab a.next home ∷ []
      → Change a b sent
  close :
      (k : ℕ)
      → a.active ≢ k
      → b ≡ record { ids = others k a.ids; active = a.active; next = a.next }
      → sent ≡ InputEvent.close_tab k ∷ []
      → Change a b sent
  close_current :
      (first : ℕ) (rest : List ℕ)
      → others a.active a.ids ≡ first ∷ rest
      → b ≡ record { ids = first ∷ rest; active = first; next = a.next }
      → sent ≡ InputEvent.close_tab a.active ∷ InputEvent.switch_tab first ∷ []
      → Change a b sent
  switch :
      (k : ℕ)
      → is_in k a.ids ≡ true
      → b ≡ record { ids = a.ids; active = k; next = a.next }
      → sent ≡ InputEvent.switch_tab k ∷ []
      → Change a b sent

-- Every tab has a number of its own, below that of the next one, and the active tab is among them.
pub record IsTabs (t : Tabs) : Type 0 where
  pub apart : Apart t.ids
  pub fresh : All (λ k. k < t.next) t.ids
  pub there : is_in t.active t.ids ≡ true

abbrev pub IsZoom : ℕ → Type 0
IsZoom z = (300 ≤ z) × (z ≤ 3000)

-- No tab has a stored picture.
abbrev pub NoPictures : Ui → Type 0
NoPictures ui = let s = ui.core.tab_state in (s.active_buf ≡ none) × (s.tab_composites ≡ [])

-- A step of the client: what is appended to the queue, what happens to well-formed tabs, and what
-- stays.
pub record Move (u v : Ui) : Type 0 where
  pub sent : List InputEvent
  pub emits : v.outbound_inputs ≡ u.outbound_inputs ++ sent
  pub change : IsTabs (view u) → Change (view u) (view v) sent
  pub zoom : IsZoom u.zoom_milli → IsZoom v.zoom_milli
  pub pictures : NoPictures u → NoPictures v

pub Move-if : (b : Bool) {u v w : Ui} → Move u v → Move u w → Move u (if b then v else w)
Move-if true m n = m
Move-if false m n = n

-- Nothing for an input that is not used.
pub data MayMove (u : Ui) : Option Ui → Type 0 where
  unused : MayMove u none
  moves : {v : Ui} → Move u v → MayMove u (some v)

pub MayMove-if :
    (b : Bool) {u : Ui} {o p : Option Ui}
    → MayMove u o
    → MayMove u p
    → MayMove u (if b then o else p)
MayMove-if true m n = m
MayMove-if false m n = n
