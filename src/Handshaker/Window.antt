-- ===== src/Handshaker/Window.antt =====
-- handshake.rs, `is_valid_timestamp_for`: how far from now a timestamp may be.
use gwyh.Base.{ℕ, ◌+◌, ◌*◌, ◌^◌, ◌<◌, ◌≡◌, ◌↔◌, true, arith}
use gwyh.External.{Timestamp}
use gwyh.Handshaker.Hmac.{is_valid_timestamp_for}

-- The window, in nanoseconds: 60 milliseconds.
abbrev pub window_nanos : ℕ
window_nanos = 60 * 1000000

-- A timestamp that is less than 2 ^ 63 nanoseconds ahead is valid exactly when it is less than 60
-- milliseconds from now, on either side.
pub is_valid_timestamp_for_iff :
    (timestamp now : Timestamp)
    → timestamp < now + 2 ^ 63
    → (is_valid_timestamp_for timestamp now ≡ true)
      ↔ ((now < timestamp + window_nanos) × (timestamp < now + window_nanos))
unfolding is_valid_timestamp_for
is_valid_timestamp_for_iff timestamp now h = ground arith
