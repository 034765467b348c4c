-- ===== src/Client/Core/Switch.antt =====
-- gutted-client/src/render.rs: what showing a tab leaves as it is.
use exo_browser_core.Common.{
  ℕ, ◌==◌, ◌≡◌, ◌≢◌, refl, true, false, Option, none, some, Bool-cases, inl, inr, arith,
}
use exo_browser_core.Client.Core.State.{TabInfo, TabState}
use exo_browser_core.Client.Core.Tabs.{show_tab}

neq : (a b : ℕ) → a ≢ b → (a == b) ≡ false
neq a b h = ground (arith, h)

same : (a : ℕ) → (a == a) ≡ true
same a = ground arith

-- Showing a tab changes neither pictures nor the active tab.
pub show_tab-pictures :
    (o : Option TabInfo) (s : TabState)
    → ((show_tab o s).active_buf ≡ s.active_buf)
      × ((show_tab o s).tab_composites ≡ s.tab_composites)
      × ((show_tab o s).active_tab_id ≡ s.active_tab_id)
unfolding show_tab
show_tab-pictures none s = (refl, refl, refl)
show_tab-pictures (some t) s = elim (Bool-cases s.editing) [
  | inl e ↦ (rw e refl, rw e refl, rw e refl)
  | inr e ↦ (rw e refl, rw e refl, rw e refl)
]
