-- ===== src/Message/RoundTrip/Parts.antt =====
-- gutted-proto/src/lib.rs: the enums, `ContentRef` and `DrawCommand` read back as written.
use exo_browser_core.Common.{
  ℕ, ◌≡◌, refl, subst, Bool, true, false, List, [], ◌∷◌, length, All, if◌then◌else◌,
}
use exo_browser_core.Wire.Writer.{
  skip, Writer, write_each, write_i32, write_bytes, write_blob, write_u16, ◌>>◌,
}
use exo_browser_core.Wire.Reader.{Reader, ret, read_times, read_hash, read_blob, read_i32}
use exo_browser_core.Wire.RoundTrip.{
  Inverse, Inverse-seq, Inverse-end, Inverse-u8, Inverse-skip, Inverse-bytes, Inverse-each,
  Inverse-len, Inverse-i32, wire_rules,
}
use exo_browser_core.Message.Types.{
  ScrollPhase, LayerKind, CursorShape, ContentRef, DrawCommand, Transform, begin, default,
  fill_rect, stroke_rect, draw_text, draw_image, set_clip, clear_clip,
}
use exo_browser_core.Message.Parts.{
  phase_to_u8, phase_from_u8, kind_to_u8, kind_from_u8, shape_to_u8, shape_from_u8,
  write_content_ref, read_content_ref, content_ref_body, write_draw_cmd, read_draw_cmd,
  draw_cmd_body,
}
use exo_browser_core.Message.Encode.{only, write_damage}
use exo_browser_core.Message.Decode.Scene.{read_if, read_size, read_damage}
use exo_browser_core.Message.Valid.{
  IsBlob, IsHash, IsTransform, IsContentRef, IsCommand, IsCommands, IsSize, IsDamage,
}

pub phase_from_u8-phase_to_u8 : (p : ScrollPhase) → phase_from_u8 (phase_to_u8 p) ≡ ret p
unfolding phase_from_u8 phase_to_u8
phase_from_u8-phase_to_u8 begin = refl
phase_from_u8-phase_to_u8 _ = refl

pub kind_from_u8-kind_to_u8 : (k : LayerKind) → kind_from_u8 (kind_to_u8 k) ≡ ret k
unfolding kind_from_u8 kind_to_u8
kind_from_u8-kind_to_u8 LayerKind.solid = refl
kind_from_u8-kind_to_u8 _ = refl

pub shape_from_u8-shape_to_u8 : (s : CursorShape) → shape_from_u8 (shape_to_u8 s) ≡ ret s
unfolding shape_from_u8 shape_to_u8
shape_from_u8-shape_to_u8 default = refl
shape_from_u8-shape_to_u8 _ = refl

pub Inverse-hash : (h : List ℕ) → IsHash h → Inverse (write_bytes h) read_hash h
unfolding read_hash
Inverse-hash h v = Inverse-bytes 32 _ h v.width

pub Inverse-blob : (b : List ℕ) → IsBlob b → Inverse (write_blob b) read_blob b
unfolding write_blob read_blob
Inverse-blob b v = Inverse-seq _ (Inverse-len b v.short) (Inverse-bytes (length b) _ b refl)

pub Inverse-content_ref :
    (c : ContentRef) → IsContentRef c → Inverse (write_content_ref c) read_content_ref c
unfolding write_content_ref read_content_ref content_ref_body
Inverse-content_ref ContentRef.none v = Inverse-end _ (Inverse-u8 0) refl
Inverse-content_ref (ContentRef.solid rgba) v = Inverse-seq _ (Inverse-u8 1) (search wire_rules)
Inverse-content_ref (ContentRef.track_id t) v = Inverse-seq _ (Inverse-u8 2) (search wire_rules)
Inverse-content_ref (ContentRef.asset_hash h) v =
    Inverse-seq _ (Inverse-u8 3) (search (wire_rules, Inverse-hash))

pub Inverse-draw_cmd : (c : DrawCommand) → IsCommand c → Inverse (write_draw_cmd c) read_draw_cmd c
unfolding write_draw_cmd read_draw_cmd draw_cmd_body
Inverse-draw_cmd (fill_rect x y w h rgba) v =
    Inverse-seq _ (Inverse-u8 1) (search wire_rules depth 12)
Inverse-draw_cmd (draw_image x y w h asset_hash) v =
    Inverse-seq _ (Inverse-u8 4) (search (wire_rules, Inverse-hash) depth 12)
Inverse-draw_cmd (stroke_rect x y w h rgba line_width) v =
    Inverse-seq _ (Inverse-u8 2) (search wire_rules depth 12)
Inverse-draw_cmd (draw_text x y font_size rgba s) v =
    Inverse-seq _ (Inverse-u8 3) (search wire_rules depth 12)
Inverse-draw_cmd (set_clip x y w h) v = Inverse-seq _ (Inverse-u8 5) (search wire_rules depth 12)
Inverse-draw_cmd clear_clip v = Inverse-end _ (Inverse-u8 6) refl

All-Inverse :
    {A : Type 0} {P : A → Type 0} (w : A → Writer) (r : Reader A)
    → ((a : A) → P a → Inverse (w a) r a)
    → (xs : List A) → All P xs
    → All (λ x. Inverse (w x) r x) xs
All-Inverse w r each [] h = tt
All-Inverse w r each (x ∷ xs) h = (each x h.0, All-Inverse w r each xs h.1)

pub Inverse-commands :
    (cs : List DrawCommand)
    → IsCommands cs
    → Inverse (write_each write_draw_cmd cs) (read_times (length cs) read_draw_cmd) cs
Inverse-commands cs v =
    Inverse-each write_draw_cmd read_draw_cmd (length cs) cs refl
      (All-Inverse write_draw_cmd read_draw_cmd Inverse-draw_cmd cs v.each)

pub Inverse-transform :
    (t : Transform) → IsTransform t → Inverse (write_each write_i32 t) (read_times 6 read_i32) t
Inverse-transform t v =
    Inverse-each write_i32 read_i32 6 t v.width
      (All-Inverse write_i32 read_i32 Inverse-i32 t v.entries)

pub Inverse-size : (s : ℕ × ℕ) → IsSize s → Inverse (write_u16 s.0 >> write_u16 s.1) read_size s
unfolding read_size
Inverse-size s v = search wire_rules

pub Inverse-damage : (d : ℕ × ℕ × ℕ × ℕ) → IsDamage d → Inverse (write_damage d) read_damage d
unfolding write_damage read_damage
Inverse-damage d v = search wire_rules depth 8

-- An optional field, by whether its bit of the mask is set.
pub Inverse-only :
    {A : Type 0} (b : Bool) (w : Writer) (r : Reader A) (a d : A) (P : A → Type 0)
    → (P a → Inverse w r a)
    → (if b then P a else (a ≡ d))
    → Inverse (only b w) (read_if b r d) a
unfolding only read_if
Inverse-only true w r a d P present h = present h
Inverse-only false w r a d P present h = subst (λ x. Inverse skip (ret x) a) h (Inverse-skip a)
