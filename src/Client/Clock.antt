-- ===== src/Client/Clock.antt =====
-- gutted-client/src/render.rs: `AVClock`. A time is a number of microseconds; `Instant::now()` is
-- the argument `now`.
use exo_browser_core.Common.{
  ℕ, ◌+◌, ◌-◌, ◌%◌, ◌^◌, ◌<◌, ◌≡◌, Option, none, some, ltb, ◌==◌, if◌then◌else◌, Bool, false, arith,
}

pub record AvClock : Type 0 where
  pub master_audio_pts : ℕ
  pub last_audio_tick : Option ℕ

unfoldable pub new_clock : AvClock
new_clock = record { master_audio_pts = 0; last_audio_tick = none }

-- `u64` addition of a release build.
unfoldable pub on_audio_frame : AvClock → ℕ → ℕ → ℕ → AvClock
on_audio_frame clock now pts_us duration_us = record {
  master_audio_pts = (pts_us + duration_us) % 2 ^ 64;
  last_audio_tick = some now;
}

unfoldable pub current_master_pts_us : AvClock → ℕ → ℕ
current_master_pts_us clock now = elim clock.last_audio_tick [
  | some t ↦ (clock.master_audio_pts + (now - t) % 2 ^ 64) % 2 ^ 64
  | none ↦ clock.master_audio_pts
]

-- `(video_pts_us as i64) - (master as i64)`, as the pattern of an `i64`.
abbrev pub drift_bits : ℕ → ℕ → ℕ
drift_bits video_pts_us master = (video_pts_us + 2 ^ 64 - master) % 2 ^ 64

-- `drift < -45_000` and `drift > 15_000` of such a pattern.
unfoldable pub is_late : ℕ → Bool
is_late drift = if ltb drift (2 ^ 63) then false else ltb drift (2 ^ 64 - 45000)

unfoldable pub is_early : ℕ → Bool
is_early drift = if ltb drift (2 ^ 63) then ltb 15000 drift else false

-- 0 is "present now", 1 "hold", 2 "drop".
unfoldable pub schedule_video : AvClock → ℕ → ℕ → ℕ
schedule_video clock now video_pts_us =
    let master = current_master_pts_us clock now in
    let drift = drift_bits video_pts_us master in
    if master == 0 then 0 else if is_late drift then 2 else if is_early drift then 1 else 0

-- The verdict without wrap-around: dropped when more than 45 ms late, held when more than 15 ms
-- early.
abbrev pub verdict : ℕ → ℕ → ℕ
verdict master pts =
    if master == 0
    then 0
    else if ltb (pts + 45000) master
    then 2
    else if ltb (master + 15000) pts
    then 1
    else 0

is_late_lem :
    (master pts : ℕ)
    → master < 2 ^ 62
    → pts < 2 ^ 62
    → is_late (drift_bits pts master) ≡ ltb (pts + 45000) master
unfolding is_late
is_late_lem master pts h k = ground arith

is_early_lem :
    (master pts : ℕ)
    → master < 2 ^ 62
    → pts < 2 ^ 62
    → is_early (drift_bits pts master) ≡ ltb (master + 15000) pts
unfolding is_early
is_early_lem master pts h k = ground arith

-- While the audio clock and the picture's time stamp are below 2^62, the picture is dropped exactly
-- when the clock has started and is more than 45 ms past it, held exactly when it is more than 15 ms
-- ahead of a clock that has started, and shown otherwise.
pub schedule_video-verdict :
    (clock : AvClock) (now pts : ℕ)
    → current_master_pts_us clock now < 2 ^ 62
    → pts < 2 ^ 62
    → schedule_video clock now pts ≡ verdict (current_master_pts_us clock now) pts
unfolding schedule_video
schedule_video-verdict clock now pts h k = rw (
  is_late_lem (current_master_pts_us clock now) pts h k,
  is_early_lem (current_master_pts_us clock now) pts h k,
)
