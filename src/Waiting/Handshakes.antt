-- ===== src/Waiting/Handshakes.antt =====
-- handshake.rs: the handshaker calls the packet handler and the peer manager only.
use gwyh.Base.{
  OnSome-map, All, filter_map, [], ◌∷◌, ◌>>=◌, ℕ, suc, ◌<◌, OnSome, true, false, Option, none, some,
  List, arith, Option-cases, inl, inr,
}
use gwyh.Base.Dict.{lookup}
use gwyh.External.{Uuid, SocketAddr, Bytes, Text, Timestamp, Entropy, Pair-discrete}
use gwyh.Peer.{Peer}
use gwyh.Packet.{HandshakeStep}
use gwyh.Actor.{
  Effect, Delayed, to_handshaker, call, to_packet_handler, to_peer_manager, send, request,
  HandshakerMessage, draw,
}
use gwyh.Handshaker.Hmac.{Hashing}
use gwyh.Handshaker.State.{Handshaker, HandshakeState, ohai, got_okboss}
use gwyh.Handshaker.Send.{send_goteam, send_peer_up, bootstrap}
use gwyh.Handshaker.Handle.{
  finish_ohai, remove_hello, remove_ohai, remove_okboss, on_okboss, on_goteam, on_dead,
  handle_handshake, handle_message,
}
use gwyh.Waiting.{AllBelow, CallsBelow, Fits, AllOut, IsPlain, handshake_level, emit-AllOut}
use gwyh.Waiting.Greetings.{Keeps, then-Keeps, hello-Keeps, on_hello-Keeps, on_ohai-Keeps}

module _ (ent : Entropy) (hs : Hashing) (P : Effect → Type 0) (T : Option Delayed → Type 0)
    (top : ℕ) (fits : (e : Effect) → Fits 2 top e → IsPlain e → P e) (high : 2 < top) where
  peer_up-Keeps : (p : Peer) (s : Handshaker) → AllOut P s.io → AllOut P (send_peer_up p s).io
  unfolding send_peer_up
  peer_up-Keeps p s v =
      emit-AllOut P _ s.io (fits (to_peer_manager call (request _ _)) (omega arith, high) tt) v

  finish-Keeps :
      (sockaddr : SocketAddr) (handshake : HandshakeState ohai) (s : Handshaker)
      → AllOut P s.io
      → AllOut P (finish_ohai ent hs sockaddr handshake s).io
  unfolding finish_ohai send_goteam
  finish-Keeps sockaddr handshake s v =
      then-Keeps ent hs P T top fits (omega arith) handshake.and_then
        (send_goteam handshake.id sockaddr (send_peer_up handshake.peer s)).io
        (emit-AllOut P _ (send_peer_up handshake.peer s).io
          (fits (to_packet_handler call (send _ _)) (omega arith, omega arith) tt)
          (peer_up-Keeps handshake.peer s v))

  on_okboss-Keeps :
      (sockaddr : SocketAddr) (id : Uuid) (response : List Bytes) (s : Handshaker)
      → Keeps P T s (on_okboss ent hs sockaddr id response s)
  unfolding on_okboss remove_ohai finish_ohai send_goteam send_peer_up
  on_okboss-Keeps sockaddr id response s v =
      elim (Option-cases (lookup Pair-discrete (id, sockaddr) s.ohais)) [
        | inl e ↦ rw (e, on_okboss) v
        | inr (h, e) ↦ elim (Option-cases (got_okboss hs h response s.nodeinfo.keys)) [
          | inl panic ↦ rw (e, on_okboss, panic) tt
          | inr (true, g) ↦
              rw (e, on_okboss, g) (finish-Keeps sockaddr h (remove_ohai (id, sockaddr) s) v.0, v.1)
          | inr (false, g) ↦ rw (e, on_okboss, g) v
        ]
      ]

  on_goteam-Keeps :
      (sockaddr : SocketAddr) (id : Uuid) (s : Handshaker)
      → Keeps P T s (on_goteam ent hs sockaddr id s)
  unfolding on_goteam remove_okboss send_peer_up
  on_goteam-Keeps sockaddr id s v =
      elim (Option-cases (lookup Pair-discrete (id, sockaddr) s.okbosses)) [
        | inl e ↦ rw (e, on_goteam) v
        | inr (h, e) ↦
            rw (e, on_goteam)
              (
                then-Keeps ent hs P T top fits (omega arith) h.and_then
                    (send_peer_up h.peer (remove_okboss (id, sockaddr) s)).io
                    (peer_up-Keeps h.peer (remove_okboss (id, sockaddr) s) v.0),
                v.1,
              )
      ]

  handshake-Keeps :
      (now : Timestamp) (sockaddr : SocketAddr) (id : Uuid) (step : HandshakeStep) (node_id : Uuid)
      (s : Handshaker)
      → Keeps P T s (handle_handshake ent hs now sockaddr id step node_id s)
  unfolding handle_handshake on_dead remove_hello remove_ohai remove_okboss
  handshake-Keeps now sockaddr id (HandshakeStep.hello pk their_zone hmacs timestamp) node_id s v =
      on_hello-Keeps ent hs P T top fits (omega arith) now sockaddr id pk their_zone hmacs timestamp
        node_id s v
  handshake-Keeps now sockaddr id (HandshakeStep.ohai pk their_zone hmacs challenge) node_id s v =
      on_ohai-Keeps ent hs P T top fits (omega arith) now sockaddr id pk their_zone hmacs challenge
        node_id s v
  handshake-Keeps now sockaddr id (HandshakeStep.okboss response) node_id s v =
      on_okboss-Keeps sockaddr id response s v
  handshake-Keeps now sockaddr id HandshakeStep.goteam node_id s v = on_goteam-Keeps sockaddr id s v
  handshake-Keeps now sockaddr id HandshakeStep.dead node_id s v = v

hellos-IsPlain :
    (resolve : Text → Option SocketAddr) (names : List Text)
    → All IsPlain (
        filter_map
          (λ peer. do
            sockaddr ← resolve peer
            some (to_handshaker call (HandshakerMessage.send_hello sockaddr none)))
          names)
unfolding filter_map
hellos-IsPlain resolve [] = tt
hellos-IsPlain resolve (name ∷ names) = elim (Option-cases (resolve name)) [
  | inl e ↦ rw (e, filter_map) (hellos-IsPlain resolve names)
  | inr (addr, e) ↦ rw (e, filter_map) (tt, hellos-IsPlain resolve names)
]

module _ (ent : Entropy) (hs : Hashing) where
  pub handle_message-Keeps :
      (P : Effect → Type 0) (T : Option Delayed → Type 0) (top : ℕ)
      (fits : (e : Effect) → Fits 2 top e → IsPlain e → P e) (resolve : Text → Option SocketAddr)
      (now : Timestamp) (message : HandshakerMessage) (bound : handshake_level message < suc top)
      (boots : (duration : ℕ) (fires : List Effect)
        → All IsPlain fires
        → T (some (record { duration = duration; fires = fires })))
      (s : Handshaker)
      → Keeps P T s (handle_message ent hs resolve now message s)
  unfolding handle_message bootstrap draw
  handle_message-Keeps P T top fits resolve now HandshakerMessage.bootstrap bound boots s v =
      (v.0, boots _ _ (hellos-IsPlain resolve s.nodeinfo.peers))
  handle_message-Keeps P T top fits resolve now
        (HandshakerMessage.packet sockaddr handshake node_id) bound boots s v =
      handshake-Keeps ent hs P T top fits (omega arith) now sockaddr handshake.id handshake.step
        node_id s v
  handle_message-Keeps P T top fits resolve now (HandshakerMessage.send_hello sockaddr and_then)
        bound boots s v =
      hello-Keeps ent hs P T top fits (omega arith) now sockaddr and_then s v

  -- The handshaker waits for the packet handler and the peer manager only: if it has not called
  -- itself, it has not after any message that does not panic.
  pub handle_message-calls_below :
      (resolve : Text → Option SocketAddr) (now : Timestamp) (message : HandshakerMessage)
      (s : Handshaker)
      → AllBelow 2 s.io
      → OnSome (λ s'. AllBelow 2 s'.io) (handle_message ent hs resolve now message s)
  handle_message-calls_below resolve now message s v =
      OnSome-map (λ s' h. h.0) (handle_message ent hs resolve now message s)
        (handle_message-Keeps (CallsBelow 2) (λ t. Unit) (handshake_level message) (λ e h p. h.0)
          resolve now message (omega arith) (λ n l h. tt) s (v, tt))

  -- For a message the handshaker sends only what fits its rank and the message.
  pub handle_message-Fits :
      (resolve : Text → Option SocketAddr) (now : Timestamp) (message : HandshakerMessage)
      (s : Handshaker)
      → AllOut (Fits 2 (handshake_level message)) s.io
      → OnSome
          (λ s'. AllOut (Fits 2 (handshake_level message)) s'.io)
          (handle_message ent hs resolve now message s)
  handle_message-Fits resolve now message s v =
      OnSome-map (λ s' h. h.0) (handle_message ent hs resolve now message s)
        (handle_message-Keeps (Fits 2 (handshake_level message)) (λ t. Unit)
          (handshake_level message) (λ e h p. h) resolve now message (omega arith) (λ n l h. tt) s
          (v, tt))
