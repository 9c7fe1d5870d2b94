-- ===== src/Waiting/PacketSends.antt =====
-- packet_handler.rs: what sending a message leads to, for any property of the messages sent.
use gwyh.Base.{ℕ, ◌<◌, Option, none, some, List, [], ◌∷◌, arith, ℕ_discrete, Option-cases, inl, inr}
use gwyh.Base.Dict.{Dict, lookup, insert, upsert}
use gwyh.External.{Uuid, SocketAddr, Timestamp, Entropy}
use gwyh.Sequence.{Seq32}
use gwyh.Message.{Message, Body, PeerRequest, Range}
use gwyh.Packet.{Payload}
use gwyh.Actor.{Effect, PeerKeys, Interval, send_to, emit, draw}
use gwyh.PacketHandler.State.{PacketHandler, Lru, Crypto, rc_default_packet_interval_nanos}
use gwyh.PacketHandler.RateControl.{decrease_delay, rate_control_each, recv_nak}
use gwyh.PacketHandler.Send.{
  packet_to, next_seq, send, multisend_each, multisend, encrypt_each, encrypt_and_send_messages,
  encrypt_and_send_message, send_broadcast_to_subscribers, send_new_to_subscribers, keys_for,
  count_keys,
}
use gwyh.PacketHandler.Recv.{send_nak}
use gwyh.Waiting.{Fits, AllOut, IsPlain, emit-AllOut}

-- What holds of the messages sent, and of the key table and the timer.
abbrev pub Holds :
    {Seen : Type 0}
    → (Effect → Type 0)
    → (Dict Uuid PeerKeys → Interval → Type 0)
    → PacketHandler Seen
    → Type 0
Holds P R s = AllOut P s.io × R s.keys s.rate_control_timer

abbrev pub Keeps :
    {Seen : Type 0}
    → (Effect → Type 0)
    → (Dict Uuid PeerKeys → Interval → Type 0)
    → PacketHandler Seen
    → PacketHandler Seen
    → Type 0
Keeps P R s s' = Holds P R s → Holds P R s'

-- The request in a body, if it is one.
abbrev pub OfBody : (PeerRequest → Type 0) → Body → Type 0
OfBody C (Body.peer_request body) = C body
OfBody C _ = Unit

module _ {Seen : Type 0} (crypto : Crypto) (P : Effect → Type 0)
    (R : Dict Uuid PeerKeys → Interval → Type 0) (top : ℕ)
    (fits : (e : Effect) → Fits 0 top e → IsPlain e → P e) (outward : 0 < top) where
  multisend_each-Keeps :
      (payloads : List (Payload × SocketAddr)) (s : PacketHandler Seen)
      → Keeps P R s (multisend_each crypto payloads s)
  unfolding multisend_each
  multisend_each-Keeps [] s v = v
  multisend_each-Keeps ((payload, to) ∷ payloads) s v =
      let e : Effect = send_to none to (crypto.encode_packet (packet_to to payload s)) in
      multisend_each-Keeps payloads
        (record s {
          tx_sequences = insert ℕ_discrete to (next_seq to s) s.tx_sequences;
          io = emit e s.io;
        })
        (emit-AllOut P e s.io (fits e (tt, outward) tt) v.0, v.1)

  multisend-Keeps :
      (payloads : List (Payload × SocketAddr)) (s : PacketHandler Seen)
      → Keeps P R s (multisend crypto payloads s)
  unfolding multisend
  multisend-Keeps payloads s = ground (arith, multisend_each-Keeps payloads s)

  pub send-Keeps :
      (now : Timestamp) (payload : Payload) (to : SocketAddr) (s : PacketHandler Seen)
      → Keeps P R s (send crypto now payload to s)
  unfolding send
  send-Keeps now payload to s v = elim (Option-cases s.socket) [
    | inl e ↦ rw (e, send) v
    | inr (socket, e) ↦
        rw (e, send) (emit-AllOut P _ s.io (fits (send_to _ _ _) (tt, outward) tt) v.0, v.1)
  ]

  pub recv_nak-Keeps :
      (from : SocketAddr) (missed : Range) (s : PacketHandler Seen)
      → Keeps P R s (recv_nak crypto from missed s)
  unfolding recv_nak
  recv_nak-Keeps from missed s v = elim (Option-cases (lookup ℕ_discrete from s.tx_delay)) [
    | inl e ↦ rw (e, recv_nak) v
    | inr (delay, e) ↦ rw (e, recv_nak) v
  ]

pub rate_control_each-Keeps :
    {Seen : Type 0} (P : Effect → Type 0) (R : Dict Uuid PeerKeys → Interval → Type 0)
    (seqs : Dict SocketAddr Seq32) (s : PacketHandler Seen)
    → Keeps P R s (rate_control_each seqs s)
unfolding rate_control_each
rate_control_each-Keeps P R [] s = (λ v. v)
rate_control_each-Keeps P R ((sock, seq) ∷ seqs) s = ground (
  arith,
  rate_control_each-Keeps P R seqs s,
  rate_control_each-Keeps P R seqs (record s {
    tx_delay = upsert ℕ_discrete sock decrease_delay rc_default_packet_interval_nanos s.tx_delay;
  }),
)

module _ {Seen : Type 0} (crypto : Crypto) (lru : Lru Seen) (ent : Entropy) (P : Effect → Type 0)
    (R : Dict Uuid PeerKeys → Interval → Type 0) (top : ℕ)
    (fits : (e : Effect) → Fits 0 top e → IsPlain e → P e) (outward : 0 < top) where
  pub encrypt_and_send_messages-Keeps :
      (targets : List Uuid) (message : Message) (s : PacketHandler Seen)
      → Keeps P R s (encrypt_and_send_messages crypto lru ent targets message s)
  unfolding encrypt_and_send_messages
  encrypt_and_send_messages-Keeps targets message s =
      let keys = keys_for targets s in
      multisend-Keeps crypto P R top fits outward (encrypt_each crypto ent message keys s.io.draws)
        (record s {
          seen = lru.put message.id s.seen;
          io = record s.io { draws = count_keys keys s.io.draws };
        })

  pub send_new-Keeps :
      (body : Body) (s : PacketHandler Seen)
      → Keeps P R s (send_new_to_subscribers crypto lru ent body s)
  unfolding send_new_to_subscribers send_broadcast_to_subscribers
  send_new-Keeps body s = encrypt_and_send_messages-Keeps _ _ (record s { io = draw s.io })

  pub send_nak-Keeps :
      (prev : Option Seq32) (seq : Seq32) (target : Uuid) (s : PacketHandler Seen)
      → Keeps P R s (send_nak crypto lru ent prev seq target s)
  unfolding send_nak encrypt_and_send_message
  send_nak-Keeps none seq target s = (λ v. v)
  send_nak-Keeps (some prev) seq target s =
      encrypt_and_send_messages-Keeps (target ∷ []) _ (record s { io = draw s.io })
