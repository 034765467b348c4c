-- ===== src/Client/Ui/Agree.antt =====
-- gutted-client/src/render.rs with gutted-host-rs/src/main.rs: the host has the tabs of the client, and
-- shows the same one, when it has handled what the client sent.
use exo_browser_core.Common.{
  ℕ, ◌+◌, ◌^◌, ◌<◌, ◌==◌, ==_iff, ◌≡◌, ◌≢◌, refl, sym, ap, ◌∙◌, subst, Bool, List, [], ◌∷◌, ◌++◌,
  length, All, Bool-cases, inl, inr, arith,
}
use exo_browser_core.Client.Events.{InputEvent, into_proto_message}
use exo_browser_core.Client.Core.Handle.{is_some}
use exo_browser_core.Client.Ui.{Ui, new_no_std}
use exo_browser_core.Client.Ui.Moves.{home}
use exo_browser_core.Client.Ui.Inputs.{UserInput, user_inputs}
use exo_browser_core.Client.Ui.Tabs.{Tabs, view, is_in, others, IsOther, Change, IsTabs, Move}
use exo_browser_core.Client.Ui.Tabs.Laws.{is_in-others, is_in-others_self, is_in-add}
use exo_browser_core.Client.Ui.Steps.Runs.{user_inputs-kept, start-IsTabs}
use exo_browser_core.Host.State.{
  HostState, get, insert, remove, create_tab, switch_tab, close_tab, resize_all, start,
}
use exo_browser_core.Host.State.Keys.{get-remove, get-remove_other, get-insert, get-insert_other}
use exo_browser_core.Host.Dispatch.{Pointer, on_tcp, nav_action}

-- The host after the events of a client, each of which it gets as a message over TCP.
pub heard : ℕ → List InputEvent → Pointer × HostState → Pointer × HostState
heard ts_us [] s = s
heard ts_us (ev ∷ evs) s =
    let next = on_tcp ts_us (into_proto_message ev ts_us) s.0 s.1 in
    heard ts_us evs (next.0, next.1.0)

heard-append :
    (ts_us : ℕ) (evs more : List InputEvent) (s : Pointer × HostState)
    → heard ts_us (evs ++ more) s ≡ heard ts_us more (heard ts_us evs s)
unfolding heard
heard-append ts_us [] more s = refl
heard-append ts_us (ev ∷ evs) more s = heard-append ts_us evs more (
  (on_tcp ts_us (into_proto_message ev ts_us) s.0 s.1).0,
  (on_tcp ts_us (into_proto_message ev ts_us) s.0 s.1).1.0,
)

-- The same tabs, and the same active one.
pub record Agree (t : Tabs) (h : HostState) : Type 0 where
  pub active : h.active_tab_id ≡ t.active
  pub known : (k : ℕ) → is_some (get k h.tabs) ≡ is_in k t.ids

nav_action-state : (action : ℕ) (h : HostState) → (nav_action action h).0 ≡ h
unfolding nav_action
nav_action-state action h = elim (Bool-cases (action == 0)) [
  | inl e ↦ rw e refl
  | inr e ↦ elim (Bool-cases (action == 1)) [
    | inl d ↦ rw (e, d) refl
    | inr d ↦ elim (Bool-cases (action == 2)) [
      | inl c ↦ rw (e, d, c) refl
      | inr c ↦ rw (e, d, c) refl
    ]
  ]
]

-- An event that is not about tabs.
other-Agree :
    (ts_us : ℕ) (ev : InputEvent) (last : Pointer) (t : Tabs) (h : HostState)
    → IsOther ev
    → Agree t h
    → Agree t (on_tcp ts_us (into_proto_message ev ts_us) last h).1.0
unfolding on_tcp into_proto_message resize_all
other-Agree ts_us (InputEvent.motion x y mods) last t h o a = a
other-Agree ts_us (InputEvent.button x y b pressed mods) last t h o a = a
other-Agree ts_us (InputEvent.key keysym mods pressed) last t h o a = a
other-Agree ts_us (InputEvent.scroll dx dy) last t h o a = a
other-Agree ts_us (InputEvent.navigate url) last t h o a = a
other-Agree ts_us (InputEvent.resize w h') last t h o a = record {
  active = a.active;
  known = a.known;
}
other-Agree ts_us (InputEvent.set_zoom level) last t h o a = a
other-Agree ts_us (InputEvent.nav_action action) last t h o a =
    subst (Agree t) (sym (nav_action-state action h)) a
other-Agree ts_us InputEvent.stop last t h o a = a
other-Agree ts_us (InputEvent.create_tab k url) last t h o a = absurd o
other-Agree ts_us (InputEvent.close_tab k) last t h o a = absurd o
other-Agree ts_us (InputEvent.switch_tab k) last t h o a = absurd o
other-Agree ts_us (InputEvent.clear_data cookies cache storage) last t h o a = a

others-Agree :
    (ts_us : ℕ) (evs : List InputEvent) (t : Tabs) (s : Pointer × HostState)
    → All IsOther evs
    → Agree t s.1
    → Agree t (heard ts_us evs s).1
unfolding heard
others-Agree ts_us [] t s o a = a
others-Agree ts_us (ev ∷ evs) t s o a =
    others-Agree ts_us evs t _ o.1 (other-Agree ts_us ev s.0 t s.1 o.0 a)

inserted-known :
    {A : Type 0} (n : ℕ) (a : A) (t : List (ℕ × A)) (ns : List ℕ) (k : ℕ)
    → is_some (get k t) ≡ is_in k ns
    → is_some (get k (insert n a t)) ≡ is_in k (ns ++ (n ∷ []))
inserted-known n a t ns k h = elim (Bool-cases (n == k)) [
  | inl e ↦
      let same : n ≡ k = (==_iff n k).0 e in
      subst (λ (j : ℕ). is_some (get j (insert n a t)) ≡ is_in k (ns ++ (n ∷ []))) same
        (ap is_some (get-insert n a t) ∙ sym (is_in-add k n ns ∙ rw e refl))
  | inr e ↦
      ap is_some (get-insert_other k n a t (ground (arith, e)))
      ∙ h
      ∙ sym (is_in-add k n ns ∙ rw e refl)
]

removed-known :
    {A : Type 0} (n : ℕ) (t : List (ℕ × A)) (ns : List ℕ) (k : ℕ)
    → is_some (get k t) ≡ is_in k ns
    → is_some (get k (remove n t)) ≡ is_in k (others n ns)
removed-known n t ns k h = elim (Bool-cases (n == k)) [
  | inl e ↦
      let same : n ≡ k = (==_iff n k).0 e in
      subst (λ (j : ℕ). is_some (get j (remove n t)) ≡ is_in j (others n ns)) same
        (ap is_some (get-remove n t) ∙ sym (is_in-others_self n ns))
  | inr e ↦
      let ne : n ≢ k = ground (arith, e) in
      ap is_some (get-remove_other k n t ne) ∙ h ∙ sym (is_in-others k n ns (λ q. ne (sym q)))
]

-- What a step of the tabs sends makes the host follow it.
Change-Agree :
    (ts_us : ℕ) {a b : Tabs} {sent : List InputEvent} (s : Pointer × HostState)
    → Change a b sent
    → Agree a s.1
    → Agree b (heard ts_us sent s).1
unfolding heard on_tcp into_proto_message create_tab switch_tab close_tab
Change-Agree ts_us {sent = sent} s (Change.stay e o) g =
    subst (λ t. Agree t (heard ts_us sent s).1) (sym e) (others-Agree ts_us sent _ s o g)
Change-Agree ts_us {a} {b} s (Change.open_new e q) g =
    subst (λ evs. Agree b (heard ts_us evs s).1) (sym q)
      (subst (λ t. Agree t (heard ts_us (InputEvent.create_tab a.next home ∷ []) s).1) (sym e)
        (record {
          active = refl;
          known = λ k. inserted-known a.next _ s.1.tabs a.ids k (g.known k);
        }))
Change-Agree ts_us {a} {b} s (Change.close n ne e q) g =
    subst (λ evs. Agree b (heard ts_us evs s).1) (sym q)
      (subst (λ t. Agree t (heard ts_us (InputEvent.close_tab n ∷ []) s).1) (sym e)
        (record { active = g.active; known = λ k. removed-known n s.1.tabs a.ids k (g.known k) }))
Change-Agree ts_us {a} {b} s (Change.close_current first rest p e q) g =
    let evs = InputEvent.close_tab a.active ∷ InputEvent.switch_tab first ∷ [] in
    subst (λ evs. Agree b (heard ts_us evs s).1) (sym q)
      (subst (λ t. Agree t (heard ts_us evs s).1) (sym e)
        (record {
          active = refl;
          known =
              λ k. removed-known a.active s.1.tabs a.ids k (g.known k) ∙ ap (λ ns. is_in k ns) p;
        }))
Change-Agree ts_us {a} {b} s (Change.switch k p e q) g =
    subst (λ evs. Agree b (heard ts_us evs s).1) (sym q)
      (subst (λ t. Agree t (heard ts_us (InputEvent.switch_tab k ∷ []) s).1) (sym e)
        (record { active = refl; known = g.known }))

module _ (ts_us : ℕ) (last : Pointer) (h : HostState) where
  -- The host has heard all that the client sent.
  abbrev Followed : Ui → Type 0
  Followed u = Agree (view u) (heard ts_us u.outbound_inputs (last, h)).1

  Move-Followed : (u v : Ui) → IsTabs (view u) → Move u v → Followed u → Followed v
  Move-Followed u v t m g =
      let s = heard ts_us u.outbound_inputs (last, h) in
      subst (λ evs. Agree (view v) (heard ts_us evs (last, h)).1) (sym m.emits)
        (subst (λ r. Agree (view v) r.1)
          (sym (heard-append ts_us u.outbound_inputs m.sent (last, h)))
          (Change-Agree ts_us s (m.change t) g))

-- From the start on, whatever the user does in fewer than 2^32 - 2 inputs: when the host has handled
-- all that the client sent in between, it has the tabs of the client, and the same one is active.
pub user_inputs-Agree :
    (is : List UserInput) (w h : ℕ) (url : List ℕ) (editing : Bool) (ts_us : ℕ) (last : Pointer)
    → length is + 2 < 2 ^ 32
    → Agree
        (view (user_inputs is (new_no_std w h url editing)))
        (heard ts_us
          (user_inputs is (new_no_std w h url editing)).outbound_inputs
          (last, start url)).1
unfolding new_no_std heard start get
user_inputs-Agree is w h url editing ts_us last room =
    (user_inputs-kept (Followed ts_us last (start url)) (Move-Followed ts_us last (start url)) is
      (new_no_std w h url editing) (omega arith) (start-IsTabs w h url editing)
      (record {
        active = refl;
        known = λ k. elim (Bool-cases (1 == k)) [ inl e ↦ rw e refl | inr e ↦ rw e refl ];
      })).1
