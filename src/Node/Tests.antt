-- ===== src/Node/Tests.antt =====
-- A node runs on concrete inputs.
use gwyh.Base.{
  ◌≡◌, refl, true, ℕ, zero, suc, ℕ_discrete, Option, none, some, List, [], ◌∷◌, ◌⊎◌, unwrap_or,
  ◌>>=◌,
}
use mathlib.Core.WellFounded.{Acc}
use gwyh.Base.Dict.{lookup}
use gwyh.Base.Dict
use gwyh.Message.{PeerRequest, up}
use gwyh.Actor.{Effect, cast, to_handshaker, to_peer_manager, request, HandshakerMessage}
use gwyh.Samples.{entropy, hashing, node, peer, pair}
use gwyh.Samples.Wire.{lru, crypto, chooser}
use gwyh.PeerManager.Keys.{keys_with}
use gwyh.Node.Control.{ActorName}
use gwyh.Node.State.{
  Node, Outside, start, begin_with, advance_from, perform, packets_call, peers_call, control_new,
}
use gwyh.Node.Run.{begin, advance, message, step, enter, Reach, started, stepped, entered, Run}
use gwyh.Node.Waiters.{everywhere}
use gwyh.Node.Invariant.{Inv}
use gwyh.Node.Steps.{Reach-Inv}
use gwyh.Node.Panics.{WeighsPositive}
use gwyh.Node.Progress.{IsQuiet, Moves, Panicking, HandlerReturns, Reach-Moves}
use gwyh.Node.Ends.{Next, Stops, Reach-Acc, Reach-rests}
use gwyh.Node.Plain.{DecodesPublic}
use gwyh.Node.Tables.{InputsPlain, Reach-same_keys}

abbrev outside : Outside (List ℕ)
outside = record {
  crypto = crypto;
  lru = lru;
  hashing = hashing;
  resolve = λ name. none;
  chooser = chooser;
  entropy = λ a. entropy;
  returns = λ handler payload. true;
}

abbrev greeting : Option (Node (List ℕ))
greeting = do
  a ←
      enter outside (message (to_handshaker cast (HandshakerMessage.send_hello 20 none)))
        (start outside (node 1))
  b ← step outside (begin 1000 ActorName.handshaker) a
  c ← step outside (advance ActorName.handshaker) b
  step outside (advance ActorName.handshaker) c

abbrev hailed : Node (List ℕ)
hailed = unwrap_or greeting (start outside (node 1))

hailed-Reach : Reach outside (node 1) hailed
unfolding step enter begin_with advance_from start perform
hailed-Reach =
    stepped
      (stepped
        (stepped
          (entered started (message (to_handshaker cast (HandshakerMessage.send_hello 20 none)))
            refl)
          (begin 1000 ActorName.handshaker) refl)
        (advance ActorName.handshaker) refl)
      (advance ActorName.handshaker) refl

Reach-Inv_example : Inv hailed
Reach-Inv_example = Reach-Inv outside hailed-Reach

chooser-WeighsPositive : WeighsPositive chooser
chooser-WeighsPositive rng l n w h e = cc e

handler-Returns : HandlerReturns outside
handler-Returns handler payload = refl

Reach-Moves_example : IsQuiet hailed ⊎ (Moves outside hailed ⊎ Panicking outside 2000 hailed)
Reach-Moves_example =
    Reach-Moves outside 2000 chooser-WeighsPositive handler-Returns hailed hailed-Reach

Reach-Acc_example : Acc (Next outside) hailed
Reach-Acc_example = Reach-Acc outside hailed hailed-Reach

Reach-rests_example : (m : Node (List ℕ)) × Run outside hailed m × Stops outside 2000 m
Reach-rests_example =
    Reach-rests outside 2000 hailed chooser-WeighsPositive handler-Returns hailed-Reach

crypto-DecodesPublic : DecodesPublic crypto
crypto-DecodesPublic [] = tt
crypto-DecodesPublic (zero ∷ []) = tt
crypto-DecodesPublic (zero ∷ id ∷ payload) = tt
crypto-DecodesPublic (suc x ∷ []) = tt
crypto-DecodesPublic (suc x ∷ id ∷ []) = tt
crypto-DecodesPublic (suc x ∷ id ∷ start ∷ []) = tt
crypto-DecodesPublic (suc x ∷ id ∷ start ∷ end ∷ rest) = tt

-- A peer that comes up, until the packet handler has its keys.
abbrev came_up : Effect
came_up =
    to_peer_manager cast
      (request 2 (PeerRequest.peer_status (record { peer = peer 2 20 1000; state = up })))

abbrev updating : Option (Node (List ℕ))
updating = do
  a ← enter outside (message came_up) (start outside (node 1))
  b ← step outside (begin 1000 ActorName.peer_manager) a
  c ← step outside (advance ActorName.peer_manager) b
  d ← step outside (begin 1000 ActorName.packet_handler) c
  e ← step outside (advance ActorName.packet_handler) d
  step outside (advance ActorName.peer_manager) e

abbrev updated : Node (List ℕ)
updated = unwrap_or updating (start outside (node 1))

abbrev updated-Reach : Reach outside (node 1) updated
unfolding step enter begin_with advance_from start perform packets_call peers_call
updated-Reach =
    stepped
      (stepped
        (stepped
          (stepped
            (stepped (entered started (message came_up) refl) (begin 1000 ActorName.peer_manager)
              refl)
            (advance ActorName.peer_manager) refl)
          (begin 1000 ActorName.packet_handler) refl)
        (advance ActorName.packet_handler) refl)
      (advance ActorName.peer_manager) refl

updated-InputsPlain : InputsPlain updated-Reach
unfolding InputsPlain updated-Reach
updated-InputsPlain = (tt, tt)

updated-IsQuiet : IsQuiet updated
unfolding step enter begin_with advance_from start perform packets_call peers_call
updated-IsQuiet = (everywhere (λ a c. c ≡ control_new) updated.controls refl refl refl, refl)

updated-keys : lookup ℕ_discrete 2 updated.states.packet_handler.keys ≡ some (20, pair 8, 9)
unfolding step enter begin_with advance_from start perform packets_call peers_call lookup
    Dict.insert
updated-keys = refl

Reach-same_keys_example :
    lookup ℕ_discrete 2 updated.states.packet_handler.keys
    ≡ (lookup ℕ_discrete 2 updated.states.peer_manager.known >>= keys_with)
Reach-same_keys_example =
    Reach-same_keys outside updated crypto-DecodesPublic updated-Reach updated-InputsPlain
      updated-IsQuiet 2
