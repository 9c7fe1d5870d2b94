-- ===== src/Interface/Tests.antt =====
-- lib.rs: a node from the default builder.
use gwyh.Base.{◌≡◌, ◌⊎◌, refl, true, false, none, some, [], ◌∷◌}
use gwyh.Actor.{
  PacketHandlerMessage, PeerManagerRequest, HandshakerMessage, to_peer_manager, to_packet_handler,
  to_handshaker, cast,
}
use gwyh.Interface.{
  Error, Outcome, CallResult, Gwyh, builder, with_handler, build, start, shutdown, drop, broadcast,
}
use gwyh.Interface.Answers.{GivesBack, broadcast_lem}

abbrev refuse : PacketHandlerMessage → CallResult PacketHandlerMessage Unit
refuse message = CallResult.send_error message

refuse-GivesBack : GivesBack refuse
refuse-GivesBack message back e = cc

abbrev running : Gwyh
running = record (build 1 7 (with_handler 3 builder)) { registry = true }

is_refused : broadcast refuse (42 ∷ []) running ≡ Outcome.failed (Error.broadcast_send (42 ∷ []))
unfolding broadcast
is_refused = refl

broadcast_lem_example :
    ((true ≡ false) × (Error.broadcast_send (42 ∷ []) ≡ Error.no_registry (42 ∷ [])))
    ⊎ ((refuse (PacketHandlerMessage.send_broadcast (42 ∷ []))
          ≡ CallResult.send_error (PacketHandlerMessage.send_broadcast (42 ∷ [])))
        × (Error.broadcast_send (42 ∷ []) ≡ Error.broadcast_send (42 ∷ [])))
    ⊎ ((refuse (PacketHandlerMessage.send_broadcast (42 ∷ [])) ≡ CallResult.other_error)
        × (Error.broadcast_send (42 ∷ []) ≡ Error.broadcast_failed))
broadcast_lem_example =
    broadcast_lem refuse (42 ∷ []) running (Error.broadcast_send (42 ∷ [])) refuse-GivesBack
      is_refused

-- A node that was not started cannot be shut down, nor dropped.
abbrev unstarted : Gwyh
unstarted = build 1 7 (with_handler 3 builder)

unstarted-panics : (shutdown unstarted ≡ none) × (drop unstarted ≡ none)
unfolding shutdown drop build
unstarted-panics = (refl, refl)

-- When the address cannot be bound, the handler is gone for the next start.
failed_start :
    start (λ addr. none) 9 unstarted
    ≡ (record unstarted { registry = true; broadcast_handler = none }, none)
unfolding start build
failed_start = refl

-- What a start sends carries the handler.
first_start :
    (start (λ addr. some 5) 9 unstarted).1
    ≡ some (
      9,
      (to_peer_manager cast (PeerManagerRequest.set_notify 9)
          ∷ to_packet_handler cast (PacketHandlerMessage.set_broadcast_handler (some 3) none)
          ∷ to_packet_handler cast (PacketHandlerMessage.start 5)
          ∷ to_handshaker cast HandshakerMessage.bootstrap
          ∷ to_peer_manager cast PeerManagerRequest.start_heartbeats
          ∷ []),
    )
unfolding start build with_handler
first_start = refl
