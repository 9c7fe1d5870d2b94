-- ===== src/PacketHandler/Congestion.antt =====
-- packet_handler.rs: what the rate control does to the delay of an address.
use gwyh.Base.{
  ltb, ◌-◌, ◌*◌, ◌||◌, ◌==◌, ℕ, ◌≡◌, refl, ap, subst, ◌∙◌, Bool, true, false, Option, none, some,
  [], ◌∷◌, arith, ℕ_discrete, unwrap_or, Bool-cases, inl, inr, if◌then◌else◌,
}
use gwyh.Base.Dict.{Dict, lookup, upsert, lookup-upsert, Distinct}
use gwyh.External.{SocketAddr}
use gwyh.Sequence.{Seq32}
use gwyh.PacketHandler.State.{PacketHandler, rc_default_packet_interval_nanos}
use gwyh.PacketHandler.RateControl.{
  decrease_delay, loss_below_threshold, sent_count, rate_control_each, update_rate_control,
}

-- The delay that follows one without loss: 100 ns less, and never below 0.
abbrev pub lowered : Option ℕ → ℕ
lowered none = 10000
lowered (some delay) = delay - 100

threshold :
    (naks count : ℕ) → loss_below_threshold naks count ≡ ((count == 0) || ltb (1000 * naks) count)
threshold naks count = ground arith

module _ {Seen : Type 0} where
  -- The packets to an address whose NAKs stay under the threshold.
  abbrev pub is_clean : SocketAddr → Seq32 → PacketHandler Seen → Bool
  is_clean sock seq s =
      let sent = sent_count sock seq s in
      (sent == 0) || ltb (1000 * unwrap_or (lookup ℕ_discrete sock s.nak_count) 0) sent

  is_clean-threshold :
      (sock : SocketAddr) (seq : Seq32) (s : PacketHandler Seen)
      → loss_below_threshold
          (unwrap_or (lookup ℕ_discrete sock s.nak_count) 0)
          (sent_count sock seq s)
        ≡ is_clean sock seq s
  is_clean-threshold sock seq s =
      threshold (unwrap_or (lookup ℕ_discrete sock s.nak_count) 0) (sent_count sock seq s)

  -- The delay of an address after the interval, from the number sent to it, if any.
  abbrev pub delay_after : SocketAddr → Option Seq32 → PacketHandler Seen → Option ℕ
  delay_after sock none s = lookup ℕ_discrete sock s.tx_delay
  delay_after sock (some seq) s =
      if is_clean sock seq s
      then some (lowered (lookup ℕ_discrete sock s.tx_delay))
      else lookup ℕ_discrete sock s.tx_delay

  abbrev lower : SocketAddr → PacketHandler Seen → PacketHandler Seen
  lower sock s = record s {
    tx_delay = upsert ℕ_discrete sock decrease_delay rc_default_packet_interval_nanos s.tx_delay;
  }

  lookup-lower :
      (addr sock : SocketAddr) (s : PacketHandler Seen) (d : Dec (sock ≡ addr))
      → lookup ℕ_discrete addr (lower sock s).tx_delay ≡ elim d [
        | yes _ ↦ some (lowered (lookup ℕ_discrete addr s.tx_delay))
        | no _ ↦ lookup ℕ_discrete addr s.tx_delay
      ]
  lookup-lower addr sock s (yes p) = ground (
    arith,
    p,
    lookup-upsert ℕ_discrete sock addr decrease_delay rc_default_packet_interval_nanos s.tx_delay,
  )
  lookup-lower addr sock s (no n) = ground (
    arith,
    n,
    lookup-upsert ℕ_discrete sock addr decrease_delay rc_default_packet_interval_nanos s.tx_delay,
  )

  -- What the entry for `sock` does to the delay of an address, when `later` is what the later
  -- entries have for it.
  lower-delay_after :
      (addr sock : SocketAddr) (seq : Seq32) (later : Option Seq32) (s : PacketHandler Seen)
      (d : Dec (sock ≡ addr))
      → (sock ≡ addr → later ≡ none)
      → is_clean sock seq s ≡ true
      → delay_after addr later (lower sock s)
        ≡ delay_after addr (elim d [ yes _ ↦ some seq | no _ ↦ later ]) s
  lower-delay_after addr sock seq later s (yes p) new e =
      let here : is_clean addr seq s ≡ true = subst (λ a. is_clean a seq s ≡ true) p e in
      rw (new p, here) (lookup-lower addr sock s (yes p))
  lower-delay_after addr sock seq none s (no n) new e = lookup-lower addr sock s (no n)
  lower-delay_after addr sock seq (some q) s (no n) new e =
      ap (λ d. if is_clean addr q s then some (lowered d) else d) (lookup-lower addr sock s (no n))

  skip-delay_after :
      (addr sock : SocketAddr) (seq : Seq32) (later : Option Seq32) (s : PacketHandler Seen)
      (d : Dec (sock ≡ addr))
      → (sock ≡ addr → later ≡ none)
      → is_clean sock seq s ≡ false
      → delay_after addr later s ≡ delay_after addr (elim d [ yes _ ↦ some seq | no _ ↦ later ]) s
  skip-delay_after addr sock seq later s (yes p) new e =
      let here : is_clean addr seq s ≡ false = subst (λ a. is_clean a seq s ≡ false) p e in
      rw (new p, here) refl
  skip-delay_after addr sock seq later s (no n) new e = refl

  rate_control_each-tx_delay :
      (addr : SocketAddr) (seqs : Dict SocketAddr Seq32) (s : PacketHandler Seen)
      → Distinct ℕ_discrete seqs
      → lookup ℕ_discrete addr (rate_control_each seqs s).tx_delay
        ≡ delay_after addr (lookup ℕ_discrete addr seqs) s
  unfolding rate_control_each lookup
  rate_control_each-tx_delay addr [] s h = refl
  rate_control_each-tx_delay addr ((sock, seq) ∷ seqs) s (new, h) =
      let first : sock ≡ addr → lookup ℕ_discrete addr seqs ≡ none = λ p. ground (arith, new, p) in
      elim (Bool-cases (is_clean sock seq s)) [
        | inl e ↦
            rw (is_clean-threshold sock seq s, e, rate_control_each)
              (rate_control_each-tx_delay addr seqs (lower sock s) h)
            ∙ lower-delay_after addr sock seq _ s (ℕ_discrete sock addr) first e
        | inr e ↦
            rw (is_clean-threshold sock seq s, e, rate_control_each)
              (rate_control_each-tx_delay addr seqs s h)
            ∙ skip-delay_after addr sock seq _ s (ℕ_discrete sock addr) first e
      ]

  -- The additive decrease, for each address: while the NAKs counted for it are under a thousandth
  -- of the packets sent to it, its delay falls by 100 ns and stops at 0, or starts at 10000 ns.
  -- An address with more NAKs, or to which nothing was sent, keeps its delay. `tx_sequences` has
  -- an address once, as a map does.
  pub update_rate_control_lem :
      (addr : SocketAddr) (s : PacketHandler Seen)
      → Distinct ℕ_discrete s.tx_sequences
      → lookup ℕ_discrete addr (update_rate_control s).tx_delay
        ≡ delay_after addr (lookup ℕ_discrete addr s.tx_sequences) s
  unfolding update_rate_control
  update_rate_control_lem addr s = rate_control_each-tx_delay addr s.tx_sequences s
