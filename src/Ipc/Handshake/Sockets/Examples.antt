-- ===== src/Ipc/Handshake/Sockets/Examples.antt =====
-- Two threads of one build, over a kernel that keeps packets in a list.
use tere.Prelude.{
  ◌+◌, ◌≡◌, ◌≤◌, refl, sym, ap, ◌∙◌, ◌⊎◌, inr, none, [], ◌∷◌, codes, length, length-append, Build,
  true, arith,
}
use tere.Ipc.SmallCodec.{small, small-IsLawful}
use tere.Ipc.Bincode.{Bytes, BincodeError}
use tere.Ipc.PassFd.{Thread}
use tere.Ipc.SeqPacket
use tere.Ipc.SeqPacket.Link.{send, receive}
use tere.Ipc.SeqPacket.SmallKernel.{Packets, kernel, view, cmsg_space, kernel_law}
use tere.Ipc.SeqPacket.Fifo.{Fits}
use tere.Ipc.SeqPacket.RoundTrip.{Codes}
use tere.Ipc.Handshake
use tere.Ipc.Handshake.{Identity, Handshake, message, message_fields, new}
use tere.Ipc.Handshake.Framed.{framed, framed-apart}
use tere.Ipc.Handshake.Sockets.{Duplex, Joined}
use tere.Ipc.Handshake.Sockets.Agreement.{socket_dialogue-ok}

length-coded :
    (v bs : Bytes)
    → ◌≡◌ {A = BincodeError ⊎ Bytes} (inr (length v ∷ v)) (inr bs)
    → length bs ≡ length v + 1
length-coded v bs h = let same : length v ∷ v ≡ bs = cc in ap length (sym same) ∙ omega arith

length-code :
    (m : Handshake) (code : Bytes)
    → Codes small message.slots (message_fields m) code
    → length code ≡ length m.intent + length m.build_id + 2
length-code m code (bs, rest, e, p, (us, more, f, q, h)) = omega (
  arith,
  ap length p,
  ap length q,
  ap length h,
  length-append bs rest,
  length-append us more,
  length-coded m.intent bs e,
  length-coded m.build_id us f,
)

Fits-short :
    (m : Handshake)
    → length m.intent + length m.build_id ≤ 8000
    → Fits small message (message_fields m)
Fits-short m le = record {
  coded = λ code h q. absurd (omega (arith, length-code m code h, ap length q));
  small = λ code h. omega (arith, length-code m code h);
  few = omega arith;
}

abbrev thread : Thread
thread = record { table = record { open_fds = []; bad_closes = 0 }; oob_ser = none; oob_de = none }

abbrev fresh : Duplex Packets
fresh = record { client = thread; server = thread; up = []; down = [] }

abbrev debug : Build
debug = record { overflow_checks = true; debug_assertions = true }

fresh-Joined : Joined view view small [] [] fresh
fresh-Joined = record {
  up_link = record { represents = tt; no_ser = refl; no_de = refl };
  down_link = record { represents = tt; no_ser = refl; no_de = refl };
}

socket_dialogue-ok_example :
    (codes "c" ≡ codes "c") × (codes "s" ≡ codes "s") × (codes "f00d" ≡ codes "f00d")
unfolding new Handshake.handshake_as_client send tere.Ipc.Message.serialize_fields receive
    Handshake.handshake_as_server tere.Ipc.OwnedFd.own_all SeqPacket.delivered_fds
    tere.Ipc.Message.deserialize_message
socket_dialogue-ok_example =
    socket_dialogue-ok kernel view view small cmsg_space debug kernel_law kernel_law small-IsLawful
      (λ x y h. omega arith) framed (codes "f00d") (codes "f00d") (codes "c") (codes "s")
      (codes "c") (codes "s") fresh framed-apart fresh-Joined (Fits-short _ (omega arith))
      (Fits-short _ (omega arith)) refl
