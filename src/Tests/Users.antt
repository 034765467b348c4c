-- ===== src/Tests/Users.antt =====
-- The theorems on the input of the user and on addresses at concrete inputs.
use exo_browser_core.Common.{ℕ, ◌≡◌, refl, true, false, none, List, [], ◌∷◌, pos, arith}
use exo_browser_core.Client.Session.{bytes_of}
use exo_browser_core.Client.Events.{InputEvent, RenderEvent}
use exo_browser_core.Client.Url.{canonicalize_url, has_scheme, contains}
use exo_browser_core.Client.Url.Canonical.{canonicalize_url-idempotent}
use exo_browser_core.Client.Ui.{Ui, new_no_std, update_keysym_modifier}
use exo_browser_core.Client.Ui.Keys.{pop, printable, on_key}
use exo_browser_core.Client.Ui.Moves.{next_tab}
use exo_browser_core.Client.Ui.Clicks.{on_mouse_button}
use exo_browser_core.Client.Ui.Inputs.{UserInput, user_input, user_inputs}
use exo_browser_core.Client.Ui.Tabs.{view, IsTabs, IsZoom, NoPictures, Move}
use exo_browser_core.Client.Ui.Steps.Runs.{user_input-Move, user_inputs-IsTabs}
use exo_browser_core.Client.Ui.Agree.{Agree, heard, user_inputs-Agree}
use exo_browser_core.Client.Ui.Turns.{ClientTurn, client_turns, client_turns-NoPictures}
use exo_browser_core.Host.State.{start}

-- The addresses of the tests of the source.
trimmed_address : canonicalize_url (bytes_of "  foo.com  ") ≡ bytes_of "https://foo.com"
unfolding canonicalize_url
trimmed_address = refl

searched_address :
    canonicalize_url (bytes_of "rust programming")
    ≡ bytes_of "https://duckduckgo.com/?q=rust+programming"
unfolding canonicalize_url
searched_address = refl

local_address : canonicalize_url (bytes_of "127.0.0.1:4433") ≡ bytes_of "http://127.0.0.1:4433"
unfolding canonicalize_url
local_address = refl

address_kept : canonicalize_url (bytes_of "data:text/html,x") ≡ bytes_of "data:text/html,x"
unfolding canonicalize_url
address_kept = refl

abbrev typed_words : List ℕ
typed_words = 194 ∷ 160 ∷ bytes_of " exo browser\t"

canonicalize_url-idempotent_example :
    (has_scheme (canonicalize_url typed_words) ≡ true)
    × (contains 32 (canonicalize_url typed_words) ≡ false)
    × (canonicalize_url (canonicalize_url typed_words) ≡ canonicalize_url typed_words)
canonicalize_url-idempotent_example = canonicalize_url-idempotent typed_words

-- The last character of a text has two bytes; a tab and a control character of two bytes are left
-- out.
popped : pop (97 ∷ 195 ∷ 169 ∷ []) ≡ 97 ∷ []
unfolding pop
popped = refl

printed : printable (97 ∷ 9 ∷ 194 ∷ 133 ∷ 195 ∷ 169 ∷ []) ≡ 97 ∷ 195 ∷ 169 ∷ []
unfolding printable
printed = refl

abbrev address : List ℕ
address = bytes_of "https://example.com"

abbrev begun : Ui
begun = new_no_std 800 600 address false

-- Ctrl and T twice, Ctrl and Tab, a click on the cross of the first tab, and one on the second tab.
abbrev busy : List UserInput
busy =
    UserInput.modifier 0xffe3 true
    ∷ UserInput.key 0x74 true none
    ∷ UserInput.key 0x54 true none
    ∷ UserInput.key 0xff09 true none
    ∷ UserInput.mouse_button (pos 200) (pos 10) 1 true
    ∷ UserInput.mouse_button (pos 230) (pos 10) 1 true
    ∷ []

busy_tabs : view (user_inputs busy begun) ≡ record { ids = 2 ∷ 3 ∷ []; active = 3; next = 4 }
unfolding user_inputs new_no_std on_mouse_button on_key update_keysym_modifier next_tab
busy_tabs = refl

busy_sent :
    (user_inputs busy begun).outbound_inputs
    ≡ InputEvent.create_tab 2 (bytes_of "https://duckduckgo.com")
      ∷ InputEvent.create_tab 3 (bytes_of "https://duckduckgo.com")
      ∷ InputEvent.switch_tab 1
      ∷ InputEvent.close_tab 1
      ∷ InputEvent.switch_tab 2
      ∷ InputEvent.switch_tab 3
      ∷ []
unfolding user_inputs new_no_std on_mouse_button on_key update_keysym_modifier next_tab
busy_sent = refl

user_inputs-Agree_example :
    Agree
      (view (user_inputs busy begun))
      (heard 5 (user_inputs busy begun).outbound_inputs ((pos 0, pos 0), start address)).1
user_inputs-Agree_example =
    user_inputs-Agree busy 800 600 address false 5 (pos 0, pos 0) (omega arith)

user_input-Move_example : Move begun (user_input (UserInput.key 0xffc2 true none) begun)
user_input-Move_example = user_input-Move (UserInput.key 0xffc2 true none) begun

user_inputs-IsTabs_example : IsTabs (view (user_inputs busy begun))
user_inputs-IsTabs_example = user_inputs-IsTabs busy 800 600 address false (omega arith)

abbrev turns : List ClientTurn
turns =
    ClientTurn.event 0 (RenderEvent.tab_created 7 [] address)
    ∷ ClientTurn.input (UserInput.mouse_button (pos 260) (pos 10) 1 true)
    ∷ ClientTurn.event 9 (RenderEvent.tab_closed 7)
    ∷ []

client_turns-NoPictures_example :
    IsZoom (client_turns turns begun).zoom_milli × NoPictures (client_turns turns begun)
client_turns-NoPictures_example = client_turns-NoPictures turns 800 600 address false
