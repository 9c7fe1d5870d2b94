-- ===== src/PacketHandler/RateControl.antt =====
-- packet_handler.rs: `update_rate_control`, and what a NAK does to the counters and delays.
use gwyh.Base.{
  ℕ, ◌-◌, ◌*◌, Bool, true, none, some, [], ◌∷◌, ℕ_discrete, ltb, if◌then◌else◌, unwrap_or,
}
use gwyh.Base.Dict.{Dict, lookup, upsert}
use gwyh.External.{SocketAddr}
use gwyh.Sequence.{Seq32, new as new_seq}
use gwyh.Message.{Range}
use gwyh.Actor.{draw}
use gwyh.PacketHandler.State.{
  PacketHandler, Crypto, rc_default_packet_interval_nanos, rc_delay_decrease, add_u32, sub_u32,
}

-- `nak_count as f64 / count as f64 < 0.001`. Both are u32 values. Their quotient is rounded, as is
-- 0.001, but two quotients of u32 values and thousandths that differ do so by far more than a
-- rounding error, so the test is that of the exact numbers.
abbrev pub loss_below_threshold : ℕ → ℕ → Bool
loss_below_threshold naks count = if ltb 0 count then ltb (1000 * naks) count else true

-- The step of the additive decrease.
abbrev pub decrease_delay : ℕ → ℕ
decrease_delay delay = if ltb rc_delay_decrease delay then delay - rc_delay_decrease else 0

module _ {Seen : Type 0} where
  -- The packets sent to an address, by the counters.
  abbrev pub sent_count : SocketAddr → Seq32 → PacketHandler Seen → ℕ
  sent_count sock seq s =
      sub_u32 seq.value (unwrap_or (lookup ℕ_discrete sock s.rc_sequences) new_seq).value

  unfoldable pub rate_control_each : Dict SocketAddr Seq32 → PacketHandler Seen → PacketHandler Seen
  rate_control_each [] s = s
  rate_control_each ((sock, seq) ∷ seqs) s = rate_control_each seqs (
      if loss_below_threshold (unwrap_or (lookup ℕ_discrete sock s.nak_count) 0)
        (sent_count sock seq s)
      then record s {
        tx_delay =
            upsert ℕ_discrete sock decrease_delay rc_default_packet_interval_nanos s.tx_delay;
      }
      else s)

  unfoldable pub update_rate_control : PacketHandler Seen → PacketHandler Seen
  unfolding rate_control_each
  update_rate_control s = rate_control_each s.tx_sequences s

  -- The arm `Body::Nak` of `recv`.
  unfoldable pub recv_nak : Crypto → SocketAddr → Range → PacketHandler Seen → PacketHandler Seen
  unfolding draw
  recv_nak crypto from_sockaddr seq s =
      let missed = sub_u32 seq.end seq.start in
      let counted = record s {
        nak_count = upsert ℕ_discrete from_sockaddr (λ c. add_u32 c missed) missed s.nak_count;
      } in
      record counted {
        tx_delay =
            upsert ℕ_discrete from_sockaddr (crypto.scaled_delay s.io.draws)
              rc_default_packet_interval_nanos s.tx_delay;
        io = elim (lookup ℕ_discrete from_sockaddr s.tx_delay) [ none ↦ s.io | some _ ↦ draw s.io ];
      }
