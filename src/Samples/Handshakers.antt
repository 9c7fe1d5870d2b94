-- ===== src/Samples/Handshakers.antt =====
-- Test data: handshakers of nodes with one pre-shared key, and times near to each other.
use gwyh.Base.{◌≡◌, refl, true, some, List, [], ◌∷◌, ℕ_discrete}
use gwyh.Base.Set.{contains}
use gwyh.External.{Uuid, Bytes, Bytes-discrete}
use gwyh.Samples.{node, password}
use gwyh.Handshaker.Hmac.{is_valid_timestamp_for}
use gwyh.Handshaker.State.{Handshaker, new}
use gwyh.Handshaker.SharedKey.{Has}

abbrev pub hashed : List Bytes
hashed = password ∷ []

abbrev pub handshaker : Uuid → Handshaker
handshaker id = record (new (node id)) { hashed_keys = some hashed }

pub password_in : Has password hashed
unfolding contains Bytes-discrete ℕ_discrete
password_in = refl

pub is_recent :
    (is_valid_timestamp_for 1000 1005 ≡ true) × (is_valid_timestamp_for 1000 1002 ≡ true)
unfolding is_valid_timestamp_for
is_recent = (refl, refl)
