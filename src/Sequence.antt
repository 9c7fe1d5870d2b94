-- ===== src/Sequence.antt =====
-- sequence.rs: the sequence numbers of packets, `Seq<T>` at `T = u32`. The value is below 2 ^ 32.
pub mod Wrap
mod Tests
use gwyh.Base.{ℕ, ◌+◌, ◌%◌, ◌^◌}

abbrev pub u32_modulus : ℕ
u32_modulus = 2 ^ 32

pub record Seq32 : Type 0 where
  pub value : ℕ

-- `Seq::new` and `Default`.
abbrev pub new : Seq32
new = record { value = 0 }

-- `From<u32>`.
abbrev pub from : ℕ → Seq32
from v = record { value = v }

-- `inc` stores the wrapped successor, which is also its result.
unfoldable pub inc : Seq32 → Seq32
inc s = record { value = (s.value + 1) % u32_modulus }
