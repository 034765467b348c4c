-- ===== src/Host/Loop/InStep.antt =====
-- gutted-host-rs/src/main.rs: what it means that a viewer is in step with the host.
use exo_browser_core.Common.{
  ℕ, ◌≡◌, refl, sym, ap, ◌∙◌, none, some, List, [], ◌∷◌, ap₂, ◌++◌, ◌==◌, Bool-cases, inl, inr,
  subst,
}
use exo_browser_core.Message.Types.{Message}
use exo_browser_core.Host.Engine.{Effect}
use exo_browser_core.Host.State.{Table, Frame, HostState, get}
use exo_browser_core.Host.Screen.{Screen, show, show_all}
use exo_browser_core.Host.Loop.{publish_all, when_active}
use exo_browser_core.Host.Loop.Shown.{Shows}
use exo_browser_core.Host.Screen.Arrives.{IsFrame}

-- The messages of the bus among the effects.
unfoldable pub published : List Effect → List Message
published [] = []
published (Effect.publish m ∷ effects) = m ∷ published effects
published (_ ∷ effects) = published effects

-- Every last frame is whole, and a viewer with the screen `s` sees that of the active tab.
pub record InSync (h : HostState) (s : Screen) : Type 0 where
  pub whole : (k : ℕ) (f : Frame) → get k h.last_frames ≡ some f → IsFrame f
  pub shown : (f : Frame) → get h.active_tab_id h.last_frames ≡ some f → Shows s f

pub published-publish_all : (ms : List Message) → published (publish_all ms) ≡ ms
unfolding published
published-publish_all [] = refl
published-publish_all (m ∷ ms) = ap (λ t. m ∷ t) (published-publish_all ms)

pub published-append : (a b : List Effect) → published (a ++ b) ≡ published a ++ published b
unfolding published
published-append [] b = refl
published-append (Effect.publish m ∷ a) b = ap (λ t. m ∷ t) (published-append a b)
published-append (Effect.call _ ∷ a) b = published-append a b
published-append (Effect.reply _ ∷ a) b = published-append a b

pub show_all-append :
    (a b : List Message) (s : Screen) → show_all (a ++ b) s ≡ show_all b (show_all a s)
unfolding show_all
show_all-append [] b s = refl
show_all-append (m ∷ a) b s = show_all-append a b (show m s)

pub some_is : {A : Type 0} (a b : A) → some a ≡ some b → a ≡ b
some_is a b e = ap (λ o. elim o [ none ↦ a | some x ↦ x ]) e

-- Messages that are not frames change neither the frames nor the picture.
pub quiet-InSync :
    (h h' : HostState) (ms : List Message) (s : Screen)
    → h'.last_frames ≡ h.last_frames
    → h'.active_tab_id ≡ h.active_tab_id
    → show_all ms s ≡ s
    → InSync h s
    → InSync h' (show_all ms s)
quiet-InSync h h' ms s frames active quiet v = record {
  whole = λ k f at. v.whole k f (ap (get k) (sym frames) ∙ at);
  shown = λ f at.
      subst (λ t. Shows t f) (sym quiet)
        (v.shown f (ap₂ (λ (k : ℕ) (t : Table Frame). get k t) (sym active) (sym frames) ∙ at));
}

pub when_active-quiet :
    (tab_id : ℕ) (h : HostState) (m : Message) (s : Screen)
    → show m s ≡ s
    → show_all (published (when_active tab_id h m)) s ≡ s
unfolding published show_all
when_active-quiet tab_id h m s e = elim (Bool-cases (h.active_tab_id == tab_id)) [
  | inl here ↦ rw here e
  | inr there ↦ rw there refl
]
