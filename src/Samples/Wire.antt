-- ===== src/Samples/Wire.antt =====
-- Test data: a codec of the packets and messages of a broadcast and of NAKs, boxes that carry the sum
-- of the two keys, a cache that keeps the newest entries first, and a chooser that takes the first.
use gwyh.Base.{
  ℕ, zero, suc, ◌+◌, ◌*◌, ◌≡◌, refl, ap, Option, none, some, List, [], ◌∷◌, ◌++◌, length, arith,
  ℕ_discrete, ◌==◌, if◌then◌else◌,
}
use gwyh.Base.Set.{contains}
use gwyh.External.{Uuid, Bytes}
use gwyh.Sequence.{from}
use gwyh.Message.{Message, Body}
use gwyh.Packet.{Packet, Payload}
use gwyh.Samples.{first}
use gwyh.PeerManager.Choose.{Chooser}
use gwyh.PacketHandler.State.{Lru, Crypto}
use gwyh.PacketHandler.Fanout.{Encrypts}
use gwyh.PacketHandler.Delivery.{LruLaws}
use gwyh.PacketHandler.Arrival.{Codec}

abbrev pub lru : Lru (List Uuid)
lru = record {
  new = λ capacity. [];
  contains = contains ℕ_discrete;
  put = λ id seen. first 10000 (id ∷ seen);
}

pub lru-LruLaws : LruLaws lru
unfolding contains
lru-LruLaws = record {
  contains-put = λ id seen. ground arith;
  contains-put_next = λ id next seen. ground arith;
}

abbrev encode_packet : Packet → Bytes
encode_packet p = elim p.p [
  | Payload.h _ ↦ []
  | Payload.b box nonce ↦ p.s.value ∷ p.id ∷ nonce ∷ length box ∷ box
]

abbrev decode_packet : Bytes → Option Packet
decode_packet (seq ∷ id ∷ nonce ∷ n ∷ rest) =
    some (record { s = from seq; id = id; p = Payload.b (first n rest) nonce })
decode_packet _ = none

abbrev encode_body : Uuid → Body → Bytes
encode_body id (Body.broadcast payload) = 0 ∷ id ∷ payload
encode_body id (Body.nak range) = 1 ∷ id ∷ range.start ∷ range.end ∷ []
encode_body id _ = []

abbrev decode_message : Bytes → Option Message
decode_message (zero ∷ id ∷ payload) = some (record { id = id; body = Body.broadcast payload })
decode_message (suc _ ∷ id ∷ start ∷ end ∷ _) =
    some (record { id = id; body = Body.nak (record { start = start; end = end }) })
decode_message _ = none

abbrev open_box : Bytes → ℕ → Option Bytes
open_box [] key = none
open_box (k ∷ serialized) key = if k == key then some serialized else none

abbrev pub crypto : Crypto
crypto = record {
  encode_packet = encode_packet;
  decode_packet = decode_packet;
  encode_message = λ m. encode_body m.id m.body;
  decode_message = decode_message;
  encrypt_to_vecbox = λ serialized nonce theirs ours. some ((theirs + ours) ∷ serialized);
  decrypt_to_vec = λ box nonce theirs ours. open_box box (theirs + ours);
  scaled_delay = λ n delay. 2 * delay;
}

pub crypto-Encrypts : Encrypts crypto
crypto-Encrypts serialized nonce theirs ours = ((theirs + ours) ∷ serialized, refl)

pub first-length : (box rest : Bytes) → first (length box) (box ++ rest) ≡ box
unfolding length
first-length [] rest = refl
first-length (x ∷ box) rest = ap (◌∷◌ x) (first-length box rest)

unfoldable pub crypto-Codec : Codec crypto
crypto-Codec = record {
  public_of = λ secret. secret;
  decode_packet-encode_packet = λ seq id box nonce rest.
      ap (λ b. some (record { s = seq; id = id; p = Payload.b b nonce })) (first-length box rest);
  decode_message-encode_message = λ id payload. refl;
  decrypt-encrypt = λ serialized box nonce ours theirs made. ground (arith, made);
}

abbrev pub chooser : Chooser
chooser = record {
  seed_from_u64 = λ n. n;
  choose_multiple = λ rng l n. (first n l, suc rng);
  choose_multiple_weighted = λ rng l n w. some (first n l);
}
