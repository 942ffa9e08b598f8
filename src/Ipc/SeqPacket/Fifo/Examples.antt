-- ===== src/Ipc/SeqPacket/Fifo/Examples.antt =====
-- A terminal that is sent over a connection of server/src/ipc/seqpacket.rs.
use tere.Prelude.{
  ◌≡◌, refl, ap, sym, ◌∙◌, true, none, List, [], ◌∷◌, ◌++◌, length, Build, arith, append-nil,
}
use tere.Prelude.Int.{pos}
use tere.Std.Fd.{RawFd}
use tere.Ipc.SeqPacket.SmallKernel.{Packets, kernel, view, cmsg_space, kernel_law}
use tere.Ipc.SmallCodec.{small, small-IsLawful}
use tere.Ipc.Bincode.{Bytes}
use tere.Ipc.PassFd.{Thread}
use tere.Ipc.SeqPacket.{Packet, Delivery, scm_rights, delivered_fds}
use tere.Ipc.SeqPacket.Link.{Peers, send, receive}
use tere.Ipc.SeqPacket.Fifo.{Fits, Linked, Received}
use tere.Ipc.SeqPacket
use tere.Ipc.SeqPacket.RoundTrip.{Codes}
use tere.Ipc.Message.{serialize_fields}
use tere.Ipc.SeqPacket.Fifo.Sending.{send-Sent}
use tere.Ipc.SeqPacket.Fifo.Receiving.{receive-Received}
use tere.Ipc.SeqPacket.Fifo.Run.{
  none_yet, sends, receives, sent_by, received_by, InOrder, Calls-InOrder,
}
use tere.Proto.Pty.{init}

abbrev debug : Build
debug = record { overflow_checks = true; debug_assertions = true }

abbrev process : List RawFd → Thread
process fds = record {
  table = record { open_fds = fds; bad_closes = 0 };
  oob_ser = none;
  oob_de = none;
}

abbrev fresh : Peers Packets
fresh = record { sender = process (pos 5 ∷ []); receiver = process []; socket = [] }

fresh-Linked : Linked view small init [] fresh
fresh-Linked = record { represents = tt; no_ser = refl; no_de = refl }

init_code : (code : Bytes) → Codes small init.slots (7, (pos 5, tt)) code → length code ≡ 1
init_code code (bs, rest, e, p, h) =
    let same : 7 ∷ [] ≡ bs = cc in
    ap length (p ∙ ap (λ r. bs ++ r) h ∙ append-nil bs) ∙ ap length (sym same)

init-Fits : Fits small init (7, (pos 5, tt))
init-Fits = record {
  coded = λ code h q. absurd (omega (arith, init_code code h, ap length q));
  small = λ code h. omega (arith, init_code code h);
  few = omega arith;
}

abbrev sent_one : Peers Packets
sent_one = (send kernel small cmsg_space debug init (7, (pos 5, tt)) fresh).1

abbrev received_one : Peers Packets
received_one = (receive kernel small cmsg_space debug init sent_one).1

sent-Linked : Linked view small init ((7, (5, tt)) ∷ []) sent_one
unfolding send SeqPacket.prepare serialize_fields SeqPacket.grow
sent-Linked =
    send-Sent kernel view small cmsg_space debug init kernel_law small-IsLawful [] (7, (pos 5, tt))
      fresh fresh-Linked init-Fits

receive-Received_example :
    Received view small init
      ((7, (5, tt)) ∷ [])
      (receive kernel small cmsg_space debug init sent_one)
receive-Received_example =
    receive-Received kernel view small cmsg_space debug init kernel_law small-IsLawful
      (λ x y h. omega arith) ((7, (5, tt)) ∷ []) sent_one sent-Linked

Calls-InOrder_example :
    InOrder kernel view small cmsg_space debug init received_one
      ([]
        ++ sent_by (send kernel small cmsg_space debug init (7, (pos 5, tt)) fresh).0 (7, (5, tt)))
      ([]
        ++ received_by kernel view small cmsg_space debug init
            (receive kernel small cmsg_space debug init sent_one))
Calls-InOrder_example =
    Calls-InOrder kernel view small cmsg_space debug init kernel_law small-IsLawful
      (λ x y h. omega arith) fresh received_one _ _ fresh-Linked
      (receives (sends none_yet (7, (pos 5, tt)) init-Fits))
