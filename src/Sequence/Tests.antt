-- ===== src/Sequence/Tests.antt =====
-- sequence.rs: a run at the wrap-around.
use gwyh.Base.{◌+◌, ◌%◌, ◌<◌, ◌≡◌, arith}
use gwyh.Sequence.{u32_modulus, from}
use gwyh.Sequence.Wrap.{inc_times, inc_times_lem}

inc_times_lem_example :
    ((inc_times 3 (from 4294967294)).value ≡ (4294967294 + 3) % u32_modulus)
    × ((inc_times 3 (from 4294967294)).value < u32_modulus)
inc_times_lem_example = inc_times_lem 3 (from 4294967294) (omega arith)
