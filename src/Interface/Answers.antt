-- ===== src/Interface/Answers.antt =====
-- lib.rs: what the methods of a node answer.
use gwyh.Base.{◌≡◌, refl, false, ◌⊎◌, inl, inr, arith, ap, subst, Bool-cases}
use gwyh.External.{Bytes}
use gwyh.Actor.{PacketHandlerMessage}
use gwyh.Interface.{Error, Outcome, CallResult, Gwyh, broadcast_error, broadcast}

-- A failed send gives back the message that was to be sent.
abbrev pub GivesBack : (PacketHandlerMessage → CallResult PacketHandlerMessage Unit) → Type 0
GivesBack call =
    (message back : PacketHandlerMessage)
    → call message ≡ CallResult.send_error back
    → back ≡ message

broadcast_error-failed :
    (payload : Bytes) (e : Error) (r : CallResult PacketHandlerMessage Unit)
    → ((back : PacketHandlerMessage)
        → r ≡ CallResult.send_error back
        → back ≡ PacketHandlerMessage.send_broadcast payload)
    → broadcast_error r ≡ Outcome.failed e
    → ((r ≡ CallResult.send_error (PacketHandlerMessage.send_broadcast payload))
        × (e ≡ Error.broadcast_send payload))
      ⊎ ((r ≡ CallResult.other_error) × (e ≡ Error.broadcast_failed))
broadcast_error-failed payload e (CallResult.reply r) back h = absurd (ground (arith, h))
broadcast_error-failed payload e (CallResult.send_error m) back h =
    let same : m ≡ PacketHandlerMessage.send_broadcast payload = back m refl in
    let given : Outcome.failed (Error.broadcast_send payload) ≡ Outcome.failed e =
      subst (λ x. broadcast_error (CallResult.send_error x) ≡ Outcome.failed e) same h in
    inl (ap CallResult.send_error same, ground (arith, given))
broadcast_error-failed payload e CallResult.other_error back h = inr (refl, ground (arith, h))

-- A broadcast fails in three ways. A node that was not started gives the payload back; so does one
-- whose send to the packet handler failed; any other error of the call loses it.
pub broadcast_lem :
    (call : PacketHandlerMessage → CallResult PacketHandlerMessage Unit) (payload : Bytes)
    (g : Gwyh) (e : Error)
    → GivesBack call
    → broadcast call payload g ≡ Outcome.failed e
    → ((g.registry ≡ false) × (e ≡ Error.no_registry payload))
      ⊎ ((call (PacketHandlerMessage.send_broadcast payload)
            ≡ CallResult.send_error (PacketHandlerMessage.send_broadcast payload))
          × (e ≡ Error.broadcast_send payload))
      ⊎ ((call (PacketHandlerMessage.send_broadcast payload) ≡ CallResult.other_error)
          × (e ≡ Error.broadcast_failed))
unfolding broadcast
broadcast_lem call payload g e back h = elim (Bool-cases g.registry) [
  | inl started ↦
      let answered : broadcast_error (call (PacketHandlerMessage.send_broadcast payload))
          ≡ Outcome.failed e =
        ground (arith, started, h) in
      inr (
        broadcast_error-failed payload e _ (back (PacketHandlerMessage.send_broadcast payload))
          answered)
  | inr n ↦ inl (n, ground (arith, n, h))
]
