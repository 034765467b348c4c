-- ===== src/Host/Loop/Sync/Batch.antt =====
-- gutted-host-rs/src/main.rs: the turn of the event loop for a batch of frames.
use exo_browser_core.Common.{
  ◌<◌, ◌^◌, ℕ, ◌≡◌, ◌≢◌, refl, sym, ap, ◌∙◌, Bool, true, false, ◌&&◌, not, Option, none, some, List,
  [], ◌∷◌, ◌++◌, All, ==_iff, ◌==◌, Bool-cases, inl, inr, arith, subst, not_both,
}
use exo_browser_core.Message.Types.{Message}
use exo_browser_core.Host.Engine.{Effect}
use exo_browser_core.Host.State.{Table, Frame, full_frame, get, remove, insert, has, without}
use exo_browser_core.Host.State.Keys.{get-remove_other, get-insert, get-insert_other}
use exo_browser_core.Host.Screen.{Screen, show_all}
use exo_browser_core.Host.Loop.{
  LoopState, publish_all, same_size, active_messages, on_frame, on_batch, batch_of,
}
use exo_browser_core.Host.Screen.Arrives.{IsFrame}
use exo_browser_core.Host.Loop.Shown.{Shows, full_frame-Shows, changed_messages-Shows}
use exo_browser_core.Host.Loop.InStep.{
  published, InSync, published-publish_all, published-append, show_all-append, some_is,
}

active_messages-Shows :
    (ts_us : ℕ) (must_full : Bool) (prev : Option Frame) (f : Frame) (s : Screen)
    → ts_us < 2 ^ 64
    → IsFrame f
    → ((p : Frame) → prev ≡ some p → IsFrame p × Shows s p)
    → (ms : List Message) × (active_messages ts_us must_full prev f ≡ some ms)
      × Shows (show_all ms s) f
unfolding active_messages show_all
active_messages-Shows ts_us must_full none f s t v h =
    (full_frame ts_us f ∷ [], refl, full_frame-Shows ts_us f s t v)
active_messages-Shows ts_us must_full (some p) f s t v h =
    let (whole, shown) = h p refl in
    elim (Bool-cases (not must_full && same_size p f)) [
      | inr other ↦ (full_frame ts_us f ∷ [], rw other refl, full_frame-Shows ts_us f s t v)
      | inl same ↦
          let ew : p.width ≡ f.width = ground (arith, same) in
          let eh : p.height ≡ f.height = ground (arith, same) in
          let es : p.stride ≡ f.stride = ground (arith, same) in
          let (ms, e, shows) = changed_messages-Shows ts_us t p f s whole v ew eh es shown in
          (ms, rw same e, shows)
    ]

insert_whole :
    (t : Table Frame) (f : Frame)
    → IsFrame f
    → ((k : ℕ) (g : Frame) → get k t ≡ some g → IsFrame g)
    → (k : ℕ) (g : Frame) → get k (insert f.tab_id f (remove f.tab_id t)) ≡ some g
    → IsFrame g
insert_whole t f v h k g e = elim (Bool-cases (f.tab_id == k)) [
  | inl here ↦
      let e' = (==_iff f.tab_id k).0 here in
      let at_key = rw (← e') at e in
      subst IsFrame (some_is f g (sym (get-insert f.tab_id f (remove f.tab_id t)) ∙ at_key)) v
  | inr there ↦
      let other : f.tab_id ≢ k =
        (λ e'. not_both (f.tab_id == k) ((==_iff f.tab_id k).1 e') there) in
      h k g (
        sym (
          get-insert_other k f.tab_id f (remove f.tab_id t) other
          ∙ get-remove_other k f.tab_id t other)
        ∙ e)
]

-- The turn does not panic, and a viewer in step before it is in step after it.
abbrev pub Kept : Screen → Option (LoopState × List Effect) → Type 0
Kept s turn =
    (l' : LoopState) × (effects : List Effect) × (turn ≡ some (l', effects))
    × InSync l'.host (show_all (published effects) s)

-- A frame of the active tab.
active_frame-InSync :
    (ts_us : ℕ) (f : Frame) (l : LoopState) (s : Screen)
    → ts_us < 2 ^ 64
    → (l.host.active_tab_id == f.tab_id) ≡ true
    → IsFrame f
    → InSync l.host s
    → Kept s (on_frame ts_us f l)
unfolding on_frame
active_frame-InSync ts_us f l s t active v h =
    let stored = remove f.tab_id l.host.last_frames in
    let e' = (==_iff l.host.active_tab_id f.tab_id).0 active in
    let (ms, e, shows) =
      active_messages-Shows ts_us (has f.tab_id l.force_full) (get f.tab_id l.host.last_frames) f s
        t v
        (λ p at.
          (h.whole f.tab_id p at, h.shown p (ap (λ (k : ℕ). get k l.host.last_frames) e' ∙ at))) in
    (
      record {
        host = record l.host { last_frames = insert f.tab_id f stored };
        force_full = without f.tab_id l.force_full;
      },
      publish_all ms,
      rw (active, e) refl,
      record {
        whole = insert_whole l.host.last_frames f v h.whole;
        shown = λ g at. rw (published-publish_all ms) (
            subst (Shows (show_all ms s))
              (some_is f g (
                sym (get-insert f.tab_id f stored)
                ∙ ap (λ (k : ℕ). get k (insert f.tab_id f stored)) (sym e')
                ∙ at))
              shows);
      },
    )

-- A frame of another tab.
background_frame-InSync :
    (ts_us : ℕ) (f : Frame) (l : LoopState) (s : Screen)
    → ts_us < 2 ^ 64
    → (l.host.active_tab_id == f.tab_id) ≡ false
    → IsFrame f
    → InSync l.host s
    → Kept s (on_frame ts_us f l)
unfolding on_frame show_all published
background_frame-InSync ts_us f l s t background v h =
    let stored = remove f.tab_id l.host.last_frames in
    let active = l.host.active_tab_id in
    let other : f.tab_id ≢ active =
      (λ e'. not_both (active == f.tab_id) ((==_iff active f.tab_id).1 (sym e')) background) in
    (
      record l { host = record l.host { last_frames = insert f.tab_id f stored } },
      [],
      rw background refl,
      record {
        whole = insert_whole l.host.last_frames f v h.whole;
        shown = λ g at. h.shown g (
            sym (
              get-insert_other active f.tab_id f stored other
              ∙ get-remove_other active f.tab_id l.host.last_frames other)
            ∙ at);
      },
    )

on_frame-InSync :
    (ts_us : ℕ) (f : Frame) (l : LoopState) (s : Screen)
    → ts_us < 2 ^ 64
    → IsFrame f
    → InSync l.host s
    → Kept s (on_frame ts_us f l)
on_frame-InSync ts_us f l s t v h = elim (Bool-cases (l.host.active_tab_id == f.tab_id)) [
  | inl active ↦ active_frame-InSync ts_us f l s t active v h
  | inr background ↦ background_frame-InSync ts_us f l s t background v h
]

abbrev pub AllFrames : Table Frame → Type 0
AllFrames t = All (λ (kf : ℕ × Frame). IsFrame kf.1) t

pub on_batch-InSync :
    (ts_us : ℕ) (batch : Table Frame) (l : LoopState) (s : Screen)
    → ts_us < 2 ^ 64
    → AllFrames batch
    → InSync l.host s
    → Kept s (on_batch ts_us batch l)
unfolding on_batch published show_all
on_batch-InSync ts_us [] l s t v h = (l, [], refl, h)
on_batch-InSync ts_us ((k, f) ∷ batch) l s t v h =
    let (l1, effects, e, h1) = on_frame-InSync ts_us f l s t v.0 h in
    let (l2, more, e', h2) =
      on_batch-InSync ts_us batch l1 (show_all (published effects) s) t v.1 h1 in
    (
      l2,
      effects ++ more,
      rw (on_batch, e, e') refl,
      subst (InSync l2.host)
          (sym (
            ap (λ ms. show_all ms s) (published-append effects more)
            ∙ show_all-append (published effects) (published more) s))
          h2,
    )

remove_all : (k : ℕ) (t : Table Frame) → AllFrames t → AllFrames (remove k t)
unfolding remove
remove_all k [] v = tt
remove_all k ((j, f) ∷ t) v = elim (Bool-cases (j == k)) [
  | inl e ↦ rw e (remove_all k t v.1)
  | inr e ↦ rw e (v.0, remove_all k t v.1)
]

-- The frames of a batch are whole when all that came are.
pub batch_of-All :
    (fs : List Frame) (batch : Table Frame)
    → All IsFrame fs
    → AllFrames batch
    → AllFrames (batch_of fs batch)
unfolding batch_of insert
batch_of-All [] batch v h = h
batch_of-All (f ∷ fs) batch v h =
    batch_of-All fs (insert f.tab_id f batch) v.1 (v.0, remove_all f.tab_id batch h)
