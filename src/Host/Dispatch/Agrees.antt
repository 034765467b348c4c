-- ===== src/Host/Dispatch/Agrees.antt =====
-- gutted-host-rs/src/main.rs: a TCP client is served as a QUIC client is.
use exo_browser_core.Common.{[], ℕ, ◌≡◌, refl, Bool, true, false, [], arith}
use exo_browser_core.Message.Types.{Message}
use exo_browser_core.Host.State.{HostState}
use exo_browser_core.Host.Dispatch.{Pointer, on_ctrl, on_input, on_tcp}

abbrev pub is_input : Message → Bool
is_input (Message.input_pointer _ _ _ _) = true
is_input (Message.input_button _ _ _ _ _ _) = true
is_input (Message.input_key _ _ _ _) = true
is_input (Message.input_scroll _ _ _ _ _) = true
is_input _ = false

-- The input messages go as on the input stream, all others as on the control stream, and a message
-- of the one kind does nothing on the stream of the other.
pub on_tcp-agrees :
    (ts_us : ℕ) (m : Message) (last : Pointer) (s : HostState)
    → (is_input m ≡ true
        → (on_tcp ts_us m last s ≡ on_input m last s) × (on_ctrl ts_us m s ≡ (s, [])))
      × (is_input m ≡ false
          → (on_tcp ts_us m last s ≡ (last, on_ctrl ts_us m s))
            × (on_input m last s ≡ (last, (s, []))))
unfolding on_tcp on_ctrl on_input
on_tcp-agrees ts_us (Message.input_pointer _ _ _ _) last s =
    ((λ h. (refl, refl)), λ h. ground arith)
on_tcp-agrees ts_us (Message.input_button _ _ _ _ _ _) last s =
    ((λ h. (refl, refl)), λ h. ground arith)
on_tcp-agrees ts_us (Message.input_key _ _ _ _) last s = ((λ h. (refl, refl)), λ h. ground arith)
on_tcp-agrees ts_us (Message.input_scroll _ _ _ _ _) last s =
    ((λ h. (refl, refl)), λ h. ground arith)
on_tcp-agrees ts_us _ last s = ((λ h. ground arith), λ h. (refl, refl))
