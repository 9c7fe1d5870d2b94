-- ===== src/PacketHandler/Buffer.antt =====
-- packet_handler.rs: the buffer of the receive loop.
use gwyh.Base.{◌≡◌, ◌≤◌, refl, ap, [], ◌∷◌, ◌++◌, arith, drop, length}
use gwyh.External.{Bytes}
use gwyh.PacketHandler.Recv.{overwrite}

pub overwrite-append :
    (datagram buf : Bytes)
    → length datagram ≤ length buf
    → overwrite datagram buf ≡ datagram ++ drop (length datagram) buf
unfolding overwrite drop length
overwrite-append [] buf h = refl
overwrite-append (b ∷ datagram) [] h = absurd (omega arith)
overwrite-append (b ∷ datagram) (_ ∷ buf) h =
    ap (◌∷◌ b) (overwrite-append datagram buf (omega arith))
