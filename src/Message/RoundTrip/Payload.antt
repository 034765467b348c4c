-- ===== src/Message/RoundTrip/Payload.antt =====
-- gutted-proto/src/lib.rs: every arm of `encode_payload` against its arm of `decode_payload`.
use exo_browser_core.Common.{ℕ, List, refl, ◌≡◌, Bool, true, false}
use exo_browser_core.Wire.RoundTrip.{
  Inverse-u64, Inverse-u16, Whole, Whole-Inverse, Whole-seq, Whole-last, Inverse-byte, Inverse-u16,
  Inverse-known, Inverse-skip, Inverse-i32, Inverse-u64, Inverse, Inverse-seq, Inverse-last,
  Inverse-u8, Inverse-bool, Inverse-u32, wire_rules,
}
use exo_browser_core.Pixel.Lossless.{Whole-payload}
use exo_browser_core.Pixel.Payload.{write_payload_geom, read_payload_geom, saturating_mul}
use exo_browser_core.Message.Types.{Message}
use exo_browser_core.Message.Tag.{tag}
use exo_browser_core.Message.Encode.{
  layer_mask_size, layer_mask_content_ref, layer_mask_damage, layer_mask_size, layer_mask_opacity,
  layer_mask_transform, has, encode_payload,
}
use exo_browser_core.Message.Decode.Frame.{select, arms}
use exo_browser_core.Message.Valid.{
  IsU64, IsU16, IsU32, IsTransform, IsU8, IsSize, IsContentRef, IsDamage, IsValid,
}
use exo_browser_core.Message.RoundTrip.Parts.{
  phase_from_u8-phase_to_u8, kind_from_u8-kind_to_u8, shape_from_u8-shape_to_u8, Inverse-hash,
  Inverse-blob, Inverse-content_ref, Inverse-commands, Inverse-transform, Inverse-only,
  Inverse-size, Inverse-damage,
}
use exo_browser_core.Message.Decode.Session.{
  read_hello, read_welcome, read_resize, read_nav, read_nav_action, read_stop, read_heartbeat,
  read_load_state, read_title, read_url_changed,
}
use exo_browser_core.Message.Decode.Input.{
  read_input_pointer, read_input_button, read_input_key, read_input_scroll, read_set_zoom,
  read_cursor_state,
}
use exo_browser_core.Message.Decode.Media.{
  read_raw_frame, read_subframe, read_tile_data, read_tile_ref, read_asset_register,
  read_draw_commands, read_audio_frame, read_video_chunk,
}
use exo_browser_core.Message.Decode.Scene.{
  read_layer_add, read_layer_update, read_layer_remove, read_scene_commit,
}
use exo_browser_core.Message.Decode.Tabs.{
  read_create_tab, read_close_tab, read_switch_tab, read_tab_created, read_tab_closed,
  read_tab_activated, read_tab_title, read_tab_url, read_clear_data, read_auth_challenge,
  read_auth_response, read_auth_success,
}

-- Whether the payload ends in pixels, which take all that is left of it.
unfoldable pub has_pixels : Message → Bool
has_pixels (Message.raw_frame _ _ _ _ _ _ _) = true
has_pixels (Message.subframe _ _ _ _ _ _ _ _ _) = true
has_pixels (Message.tile_data _ _ _ _ _ _ _) = true
has_pixels _ = false

ruleset part_rules = (
  wire_rules, Inverse-hash, Inverse-blob, Inverse-content_ref, Inverse-commands, Inverse-transform,
)

-- The payload of a message without pixels is read back whatever follows it.
pub Inverse-payload :
    (m : Message)
    → IsValid m
    → has_pixels m ≡ false
    → Inverse (encode_payload m) (select (tag m) arms) m
unfolding encode_payload select tag has_pixels read_hello read_welcome read_resize read_nav
    read_nav_action read_stop read_heartbeat read_input_pointer read_input_button read_input_key
    read_input_scroll read_set_zoom read_cursor_state read_load_state read_title read_url_changed
    read_raw_frame read_layer_add read_layer_update read_layer_remove read_scene_commit
    read_subframe read_tile_data read_tile_ref read_asset_register read_draw_commands
    read_audio_frame read_video_chunk read_create_tab read_close_tab read_switch_tab
    read_tab_created read_tab_closed read_tab_activated read_tab_title read_tab_url read_clear_data
    read_auth_challenge read_auth_response read_auth_success
Inverse-payload (Message.hello a b c d e f) v q = search part_rules depth 11
Inverse-payload (Message.welcome a b c d e) v q = search part_rules depth 10
Inverse-payload (Message.resize a b c) v q = search part_rules depth 8
Inverse-payload (Message.nav a) v q = search part_rules depth 6
Inverse-payload (Message.nav_action a) v q = search part_rules depth 6
Inverse-payload Message.stop v q = search part_rules depth 5
Inverse-payload (Message.heartbeat a) v q = search part_rules depth 6
Inverse-payload (Message.input_pointer a b c d) v q = search part_rules depth 9
Inverse-payload (Message.input_button a b c d e f) v q = Inverse-seq _ (Inverse-u64 _ v.0) (
    Inverse-seq _ (Inverse-i32 _ v.1) (
      Inverse-seq _ (Inverse-i32 _ v.2) (
        Inverse-seq _ (Inverse-u32 _ v.3)
          (Inverse-seq _ (Inverse-bool e) (Inverse-last _ (Inverse-u32 _ v.4) (Inverse-skip _))))))
Inverse-payload (Message.input_key a b c d) v q = Inverse-seq _ (Inverse-u64 _ v.0) (
    Inverse-seq _ (Inverse-u32 _ v.1)
      (Inverse-seq _ (Inverse-u32 _ v.2) (Inverse-last _ (Inverse-bool d) (Inverse-skip _))))
Inverse-payload (Message.input_scroll a b c d e) v q = Inverse-seq _ (Inverse-u64 _ v.0) (
    Inverse-seq _ (Inverse-u32 _ v.1) (
      Inverse-seq _ (Inverse-i32 _ v.2) (
        Inverse-seq _ (Inverse-i32 _ v.3) (
          Inverse-last _ (Inverse-u8 _)
            (Inverse-known _ (phase_from_u8-phase_to_u8 e) (Inverse-skip _))))))
Inverse-payload (Message.set_zoom a) v q = search part_rules depth 6
Inverse-payload (Message.cursor_state a b c d) v q = Inverse-seq _ (Inverse-u8 _) (
    Inverse-known _ (shape_from_u8-shape_to_u8 a) (
      Inverse-seq _ (Inverse-u16 _ v.0)
        (Inverse-seq _ (Inverse-u16 _ v.1) (Inverse-last _ (Inverse-u64 _ v.2) (Inverse-skip _)))))
Inverse-payload (Message.load_state a) v q = search part_rules depth 6
Inverse-payload (Message.title a) v q = search part_rules depth 6
Inverse-payload (Message.url_changed a) v q = search part_rules depth 6
Inverse-payload (Message.raw_frame a b c d e f g) v q = cc
Inverse-payload (Message.layer_add a b c d e f g) v q = Inverse-seq _ (Inverse-u32 _ v.0) (
    Inverse-seq _ (Inverse-u32 _ v.1) (
      Inverse-seq _ (Inverse-u8 _) (
        Inverse-known _ (kind_from_u8-kind_to_u8 c) (
          Inverse-seq _ (Inverse-u16 _ v.2) (
            Inverse-seq _ (Inverse-u16 _ v.3) (
              Inverse-seq _ (Inverse-transform _ v.4) (
                Inverse-seq _ (Inverse-u8 _)
                  (Inverse-last _ (Inverse-content_ref _ v.6) (Inverse-skip _)))))))))
Inverse-payload (Message.layer_update a b c d e f g) v q = Inverse-seq _ (Inverse-u32 a v.0) (
    Inverse-seq _ (Inverse-u32 b v.1) (
      Inverse-seq _
        (Inverse-only (has b layer_mask_transform) _ _ c _ IsTransform (Inverse-transform c) v.2)
        (Inverse-seq _ (Inverse-only (has b layer_mask_opacity) _ _ d _ IsU8 (Inverse-byte d) v.3) (
          Inverse-seq _ (Inverse-only (has b layer_mask_size) _ _ e _ IsSize (Inverse-size e) v.4) (
            Inverse-seq _
              (Inverse-only (has b layer_mask_content_ref) _ _ f _ IsContentRef
                (Inverse-content_ref f) v.5)
              (Inverse-last _
                (Inverse-only (has b layer_mask_damage) _ _ g _ IsDamage (Inverse-damage g) v.6)
                (Inverse-skip _)))))))
Inverse-payload (Message.layer_remove a) v q = search part_rules depth 6
Inverse-payload (Message.scene_commit a) v q = search part_rules depth 6
Inverse-payload (Message.subframe a b c d e f g h i) v q = cc
Inverse-payload (Message.tile_data a b c d e f g) v q = cc
Inverse-payload (Message.tile_ref a b c d e f) v q = search part_rules depth 11
Inverse-payload (Message.asset_register a b c) v q = search part_rules depth 8
Inverse-payload (Message.draw_commands a b c) v q = search part_rules depth 8
Inverse-payload (Message.audio_frame a b c d e) v q = search part_rules depth 10
Inverse-payload (Message.video_chunk a b c d e f) v q = Inverse-seq _ (Inverse-u64 _ v.0) (
    Inverse-seq _ (Inverse-u32 _ v.1) (
      Inverse-seq _ (Inverse-bool c) (
        Inverse-seq _ (Inverse-u8 _) (
          Inverse-seq _ (Inverse-u32 _ v.3)
            (Inverse-last _ (Inverse-blob _ v.4) (Inverse-skip _))))))
Inverse-payload (Message.create_tab a b) v q = search part_rules depth 7
Inverse-payload (Message.close_tab a) v q = search part_rules depth 6
Inverse-payload (Message.switch_tab a) v q = search part_rules depth 6
Inverse-payload (Message.tab_created a b c) v q = search part_rules depth 8
Inverse-payload (Message.tab_closed a) v q = search part_rules depth 6
Inverse-payload (Message.tab_activated a) v q = search part_rules depth 6
Inverse-payload (Message.tab_title a b) v q = search part_rules depth 7
Inverse-payload (Message.tab_url a b) v q = search part_rules depth 7
Inverse-payload (Message.clear_data a b c) v q =
    Inverse-seq _ (Inverse-bool a)
      (Inverse-seq _ (Inverse-bool b) (Inverse-last _ (Inverse-bool c) (Inverse-skip _)))
Inverse-payload (Message.auth_challenge a) v q = search part_rules depth 6
Inverse-payload (Message.auth_response a) v q = search part_rules depth 6
Inverse-payload (Message.auth_success a) v q = search part_rules depth 6

-- The payload of a subframe, whatever becomes of its pixels on the way.
pub Whole-subframe :
    (ts_us x y w h stride format compression : ℕ) (pixels got : List ℕ)
    → IsU64 ts_us
    → IsU16 x
    → IsU16 y
    → IsU16 w
    → IsU16 h
    → IsU32 stride
    → IsU32 format
    → Whole
        (write_payload_geom compression w h pixels)
        (read_payload_geom compression w h (saturating_mul stride h))
        got
    → Whole
        (encode_payload (Message.subframe ts_us x y w h stride format compression pixels))
        (select (tag (Message.subframe ts_us x y w h stride format compression pixels)) arms)
        (Message.subframe ts_us x y w h stride format compression got)
unfolding encode_payload select tag read_subframe
Whole-subframe a b c d e f g h i got v0 v1 v2 v3 v4 v5 v6 p = Whole-seq _ (Inverse-u64 _ v0) (
    Whole-seq _ (Inverse-u16 _ v1) (
      Whole-seq _ (Inverse-u16 _ v2) (
        Whole-seq _ (Inverse-u16 _ v3) (
          Whole-seq _ (Inverse-u16 _ v4) (
            Whole-seq _ (Inverse-u32 _ v5) (
              Whole-seq _ (Inverse-u32 _ v6)
                (Whole-seq _ (Inverse-u8 h) (Whole-last _ p refl))))))))

-- The payload of every valid message is read back by the arm of its tag.
pub Whole-message : (m : Message) → IsValid m → Whole (encode_payload m) (select (tag m) arms) m
unfolding encode_payload select tag has_pixels read_raw_frame read_subframe read_tile_data
Whole-message (Message.raw_frame a b c d e f g) v = Whole-seq _ (Inverse-u64 _ v.0) (
    Whole-seq _ (Inverse-u16 _ v.1) (
      Whole-seq _ (Inverse-u16 _ v.2) (
        Whole-seq _ (Inverse-u32 _ v.3) (
          Whole-seq _ (Inverse-u32 _ v.4)
            (Whole-seq _ (Inverse-u8 f) (Whole-last _ (Whole-payload f b c _ g v.6) refl))))))
Whole-message (Message.subframe a b c d e f g h i) v =
    Whole-subframe a b c d e f g h i i v.0 v.1 v.2 v.3 v.4 v.5 v.6 (Whole-payload h d e _ i v.8)
Whole-message (Message.tile_data a b c d e f g) v = Whole-seq _ (Inverse-u64 _ v.0) (
    Whole-seq _ (Inverse-u16 _ v.1) (
      Whole-seq _ (Inverse-u16 _ v.2) (
        Whole-seq _ (Inverse-u32 _ v.3) (
          Whole-seq _ (Inverse-u32 _ v.4)
            (Whole-seq _ (Inverse-u8 f) (Whole-last _ (Whole-payload f b c _ g v.6) refl))))))
Whole-message m v = Whole-Inverse (Inverse-payload m v refl)
