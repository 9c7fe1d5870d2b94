-- ===== src/Sequence/Wrap.antt =====
-- sequence.rs: what repeated increments give.
use gwyh.Base.{ℕ, zero, suc, ◌+◌, ◌%◌, ◌<◌, ◌≡◌, arith}
use gwyh.Sequence.{Seq32, u32_modulus, inc}

-- `inc` called `n` times.
pub inc_times : ℕ → Seq32 → Seq32
inc_times zero s = s
inc_times (suc n) s = inc (inc_times n s)

-- After any number of increments from any u32 value, the sequence number is the start plus the
-- number of increments modulo 2 ^ 32; in particular it fits in a u32.
pub inc_times_lem :
    (n : ℕ) (s : Seq32)
    → s.value < u32_modulus
    → ((inc_times n s).value ≡ (s.value + n) % u32_modulus) × ((inc_times n s).value < u32_modulus)
unfolding inc_times inc
inc_times_lem zero s h = (omega arith, h)
inc_times_lem (suc n) s h = let ih = inc_times_lem n s h in (omega (arith, ih.0), omega arith)
