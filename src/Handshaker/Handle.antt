-- ===== src/Handshaker/Handle.antt =====
-- handshake.rs: `handle_handshake`, step by step, and `handle_message`. `none` is a panic.
use gwyh.Base.{◌+◌, Option, none, some, List, ℕ_discrete, ◌==◌, ◌>>=◌, if◌then◌else◌}
use gwyh.Base.Dict.{lookup}
use gwyh.Base.Dict
use gwyh.Base.Set
use gwyh.External.{Uuid, SocketAddr, Bytes, Text, PublicKey, Timestamp, Entropy, Pair-discrete}
use gwyh.Peer.{is_handshaken}
use gwyh.Packet.{Hmac, HandshakeStep}
use gwyh.Actor.{HandshakerMessage}
use gwyh.Handshaker.Hmac.{Hashing, has_valid_hmac}
use gwyh.Handshaker.State.{
  Handshaker, HandshakeState, hello, ohai, Key, from_hello, got_ohai, got_okboss,
}
use gwyh.Handshaker.Send.{
  send_hello, send_ohai, send_okboss, send_goteam, send_peer_up, call_and_then, bootstrap,
}

unfoldable pub remove_hello : Key → Handshaker → Handshaker
remove_hello key s = record s { hellos = Dict.remove Pair-discrete key s.hellos }

unfoldable pub remove_ohai : Key → Handshaker → Handshaker
remove_ohai key s = record s { ohais = Dict.remove Pair-discrete key s.ohais }

unfoldable pub remove_okboss : Key → Handshaker → Handshaker
remove_okboss key s = record s { okbosses = Dict.remove Pair-discrete key s.okbosses }

-- The step `Dead`, which the timers send.
unfoldable pub on_dead : SocketAddr → Uuid → Handshaker → Handshaker
unfolding remove_hello remove_ohai remove_okboss
on_dead sockaddr id s =
    let removed =
      remove_okboss (id, sockaddr) (remove_ohai (id, sockaddr) (remove_hello (id, sockaddr) s)) in
    record removed { inflight = Set.remove ℕ_discrete sockaddr removed.inflight }

module _ (ent : Entropy) (hs : Hashing) where
  -- The body of the step `Hello`, once the sender is not this node and an HMAC is valid.
  unfoldable pub accept_hello :
      SocketAddr
      → Uuid
      → PublicKey
      → Option Text
      → Timestamp
      → Uuid
      → Handshaker
      → Option Handshaker
  unfolding from_hello send_ohai
  accept_hello sockaddr id pk zone timestamp node_id s = do
    let n = s.io.draws
    let handshake = from_hello ent n sockaddr node_id id pk timestamp zone
    keypair ← handshake.peer.our_keypair
    challenge ← handshake.challenge
    sent ←
        send_ohai ent hs handshake.id sockaddr keypair.public_key challenge handshake.timestamp
          (Set.contains ℕ_discrete sockaddr s.inflight)
          (record s { io = record s.io { draws = n + 2 } })
    some (record sent {
      inflight = Set.insert ℕ_discrete sockaddr sent.inflight;
      ohais = Dict.insert Pair-discrete (handshake.id, sockaddr) handshake sent.ohais;
    })

  unfoldable pub on_hello :
      Timestamp
      → SocketAddr
      → Uuid
      → PublicKey
      → Option Text
      → List Hmac
      → Timestamp
      → Uuid
      → Handshaker
      → Option Handshaker
  unfolding accept_hello has_valid_hmac
  on_hello now sockaddr id pk zone hmacs timestamp node_id s =
      if node_id == s.nodeinfo.id then some s else do
        valid ← has_valid_hmac hs s.hashed_keys now timestamp hmacs
        if valid then accept_hello sockaddr id pk zone timestamp node_id s else some s

  -- The body of the step `Ohai` for the hello that was taken out, once an HMAC is valid.
  unfoldable pub answer_ohai :
      SocketAddr
      → PublicKey
      → Option Text
      → Bytes
      → Uuid
      → HandshakeState hello
      → Handshaker
      → Option Handshaker
  unfolding got_ohai send_okboss is_handshaken
  answer_ohai sockaddr pk zone challenge node_id handshake s = do
    let answered = got_ohai hs handshake node_id pk challenge s.nodeinfo.keys zone
    response ← answered.response
    let sent = send_okboss answered.id sockaddr response s
    if is_handshaken answered.peer
        then some (record sent {
          okbosses = Dict.insert Pair-discrete (answered.id, sockaddr) answered sent.okbosses;
        })
        else none

  -- The hello is taken out first, also if the HMACs are then found invalid.
  unfoldable pub on_ohai :
      Timestamp
      → SocketAddr
      → Uuid
      → PublicKey
      → Option Text
      → List Hmac
      → Bytes
      → Uuid
      → Handshaker
      → Option Handshaker
  unfolding answer_ohai has_valid_hmac remove_hello
  on_ohai now sockaddr id pk zone hmacs challenge node_id s =
      elim (lookup Pair-discrete (id, sockaddr) s.hellos) [
        | none ↦ some s
        | some handshake ↦ do
          valid ← has_valid_hmac hs s.hashed_keys now handshake.timestamp hmacs
          if valid
              then answer_ohai sockaddr pk zone challenge node_id handshake
                  (remove_hello (id, sockaddr) s)
              else some (remove_hello (id, sockaddr) s)
      ]

  -- What follows an accepted response.
  unfoldable pub finish_ohai : SocketAddr → HandshakeState ohai → Handshaker → Handshaker
  unfolding send_peer_up send_goteam call_and_then
  finish_ohai sockaddr handshake s =
      let sent = send_goteam handshake.id sockaddr (send_peer_up handshake.peer s) in
      record sent { io = call_and_then ent handshake.and_then sent.io }

  unfoldable pub on_okboss : SocketAddr → Uuid → List Bytes → Handshaker → Option Handshaker
  unfolding got_okboss finish_ohai remove_ohai
  on_okboss sockaddr id response s = elim (lookup Pair-discrete (id, sockaddr) s.ohais) [
    | none ↦ some s
    | some handshake ↦ do
      accepted ← got_okboss hs handshake response s.nodeinfo.keys
      some (
          if accepted
          then finish_ohai sockaddr handshake (remove_ohai (id, sockaddr) s)
          else remove_ohai (id, sockaddr) s)
  ]

  unfoldable pub on_goteam : SocketAddr → Uuid → Handshaker → Option Handshaker
  unfolding send_peer_up call_and_then remove_okboss
  on_goteam sockaddr id s = elim (lookup Pair-discrete (id, sockaddr) s.okbosses) [
    | none ↦ some s
    | some handshake ↦
        let sent = send_peer_up handshake.peer (remove_okboss (id, sockaddr) s) in
        some (record sent { io = call_and_then ent handshake.and_then sent.io })
  ]

  unfoldable pub handle_handshake :
      Timestamp → SocketAddr → Uuid → HandshakeStep → Uuid → Handshaker → Option Handshaker
  unfolding on_hello on_ohai on_okboss on_goteam on_dead
  handle_handshake now sockaddr id (HandshakeStep.hello pk zone hmacs timestamp) node_id s =
      on_hello now sockaddr id pk zone hmacs timestamp node_id s
  handle_handshake now sockaddr id (HandshakeStep.ohai pk zone hmacs challenge) node_id s =
      on_ohai now sockaddr id pk zone hmacs challenge node_id s
  handle_handshake now sockaddr id (HandshakeStep.okboss response) node_id s =
      on_okboss sockaddr id response s
  handle_handshake now sockaddr id HandshakeStep.goteam node_id s = on_goteam sockaddr id s
  handle_handshake now sockaddr id HandshakeStep.dead node_id s = some (on_dead sockaddr id s)

  unfoldable pub handle_message :
      (Text → Option SocketAddr) → Timestamp → HandshakerMessage → Handshaker → Option Handshaker
  unfolding bootstrap handle_handshake send_hello
  handle_message resolve now HandshakerMessage.bootstrap s = some (bootstrap ent hs resolve s)
  handle_message resolve now (HandshakerMessage.packet sockaddr handshake node_id) s =
      handle_handshake now sockaddr handshake.id handshake.step node_id s
  handle_message resolve now (HandshakerMessage.send_hello sockaddr and_then) s =
      send_hello ent hs now sockaddr and_then s
