-- ===== src/Handshaker/Tests.antt =====
-- handshake.rs: two nodes with one pre-shared key.
use gwyh.Base.{List, ltb, ◌^◌, ◌+◌, ◌<◌, ◌≡◌, ◌↔◌, refl, true, none, some, [], ◌∷◌, arith}
use gwyh.Message.{up}
use gwyh.Actor.{Io, HandshakerMessage, packet}
use gwyh.Samples.{entropy, hashing, node, password}
use gwyh.Samples.Handshakers.{hashed, handshaker, password_in, is_recent}
use gwyh.Handshaker.Hmac.{
  Hashing, any_or_panic, valid_for_key, calculate_hmac, is_valid_timestamp_for, has_valid_hmac,
  compute_hmacs,
}
use gwyh.Handshaker.State.{Handshaker, new}
use gwyh.Handshaker.Handle.{handle_message, handle_handshake, on_hello}
use gwyh.Packet.{Hmac, HandshakeStep}
use gwyh.Handshaker.Window.{window_nanos, is_valid_timestamp_for_iff}
use gwyh.Handshaker.SharedKey.{compute_hmacs-valid}
use gwyh.Handshaker.Invariant.{Handled, new-Inv}
use gwyh.Handshaker.Preserve.{handle_message-Handled}
use gwyh.Handshaker.LastSent.{last_status}
use gwyh.Handshaker.Agreement.{handshake_run, peer_of_bob, peer_of_alice, handshake_run_agrees}

handshake_run_agrees_example :
    let a = handshaker 1 in
    let b = handshaker 2 in
    (a' b' : Handshaker) × (handshake_run entropy entropy hashing 10 20 1000 1005 1002 none a b
      ≡ some (a', b'))
    × (last_status a'.io.out
        ≡ some (record {
          peer = peer_of_bob entropy entropy hashing 10 20 1000 1005 1002 none a b;
          state = up;
        }))
    × (last_status b'.io.out
        ≡ some (record {
          peer = peer_of_alice entropy entropy hashing 10 20 1000 1005 1002 none a b;
          state = up;
        }))
unfolding new
handshake_run_agrees_example =
    handshake_run_agrees entropy entropy hashing 10 20 1000 1005 1002 none (handshaker 1)
      (handshaker 2) hashed hashed password password (omega arith) refl refl password_in password_in
      password_in password_in is_recent.0 is_recent.1 refl

handle_message-Handled_example : Handled hashing (some 1000) 1000 (
    handle_message entropy hashing
      (λ name. some 20)
      1000
      (HandshakerMessage.send_hello 20 none)
      (new (node 1)))
handle_message-Handled_example =
    handle_message-Handled entropy hashing (λ name. some 20) 1000
      (HandshakerMessage.send_hello 20 none) (new (node 1)) (new-Inv (node 1))

-- Hashes of the years from 1677 to 2262 only.
abbrev in_range : Hashing
in_range = record hashing { has_nanos = λ t. ltb t (2 ^ 63) }

abbrev far_hello : HandshakerMessage
far_hello =
    packet 20
      (record {
        id = 5;
        step =
            HandshakeStep.hello 9 none (record { hmac = password; message = [] } ∷ [])
              (1000 + 2 ^ 63);
      })
      2

-- A Hello that is stamped 2 ^ 63 nanoseconds from now passes the window, and panics.
far_hello-panics :
    handle_message entropy in_range (λ name. none) 1000 far_hello (handshaker 1) ≡ none
unfolding handle_message handle_handshake on_hello has_valid_hmac is_valid_timestamp_for
    any_or_panic valid_for_key calculate_hmac new
far_hello-panics = refl

is_valid_timestamp_for_iff_example :
    (is_valid_timestamp_for 1000 90000000 ≡ true)
    ↔ ((90000000 < 1000 + window_nanos) × (1000 < 90000000 + window_nanos))
is_valid_timestamp_for_iff_example = is_valid_timestamp_for_iff 1000 90000000 (omega arith)

compute_hmacs-valid_example :
    (hmacs : List Hmac) × (io : Io) × (compute_hmacs hashing entropy
        (some hashed)
        1000
        (record { out = []; draws = 0 })
      ≡ some (hmacs, io))
    × (has_valid_hmac hashing (some hashed) 1005 1000 hmacs ≡ some true)
compute_hmacs-valid_example =
    compute_hmacs-valid hashing entropy hashed hashed password 1000 1005
      (record { out = []; draws = 0 }) password_in password_in is_recent.0 refl
