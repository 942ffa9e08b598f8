-- ===== src/Ipc/SeqPacket/SmallKernel.antt =====
-- A kernel that keeps packets in a list, for the examples of server/src/ipc.
use tere.Prelude.{
  ℕ, ◌+◌, ◌≡◌, ◌≢◌, refl, ap, ◌⊎◌, inl, inr, true, false, none, List, [], ◌∷◌, ◌++◌, map, length,
  take, ltb, All, append-nil,
}
use tere.Prelude.Int.{pos, negsuc}
use tere.Std.Fd.{RawFd, is_negative, Table, opened_all}
use tere.Ipc.{IoError}
use tere.Ipc.Closed.{Receiver}
use tere.Ipc.SmallCodec.{small}
use tere.Ipc.SeqPacket.{Delivery, scm_rights, delivered_fds}
use tere.Ipc.SeqPacket.Link.{Kernel, Flight, View, IsSeqPacketSocket}

abbrev pub Packets : Type 0
Packets = List (Flight ℕ)

-- Open files are numbered, and so are the descriptors of both processes.
abbrev pub number : RawFd → ℕ
number (pos n) = n
number (negsuc n) = 0

abbrev pub delivery : ℕ → Flight ℕ → Delivery
delivery n f = record {
  data_read = take n f.bytes;
  truncated = ltb n (length f.bytes);
  messages = inr (scm_rights (map pos f.files)) ∷ [];
  ancillary_truncated = false;
}

abbrev pub nothing : Delivery
nothing = record { data_read = []; truncated = false; messages = []; ancillary_truncated = false }

abbrev pub pop : ℕ → Packets → Table → (IoError ⊎ Delivery) × (Table × Packets)
pop n [] t = (inr nothing, (t, []))
pop n (f ∷ fs) t = (inr (delivery n f), (opened_all (map pos f.files) t, fs))

abbrev pub kernel : Kernel Packets
kernel = record {
  sendmsg = λ p k. (inr tt, k ++ record { bytes = p.encoded; files = map number p.fds } ∷ []);
  recvmsg = λ n size k t. pop n k t;
}

abbrev pub view : View Packets ℕ
view = record {
  in_flight = λ k. k;
  sender_file = λ k fd. number fd;
  receiver_file = λ k fd. number fd;
}

map-number : (ns : List ℕ) → map number (map pos ns) ≡ ns
map-number [] = refl
map-number (n ∷ ns) = ap (λ l. n ∷ l) (map-number ns)

none_negative : (ns : List ℕ) → All (λ fd. is_negative fd ≡ false) (map pos ns)
none_negative [] = tt
none_negative (n ∷ ns) = (refl, none_negative ns)

abbrev pub cmsg_space : ℕ → ℕ
cmsg_space n = 16 + n

delivered : (n : ℕ) (f : Flight ℕ) → delivered_fds (delivery n f).messages ≡ map pos f.files
unfolding delivered_fds
delivered n f = append-nil (map pos f.files)

pop_first :
    (n : ℕ) (k : Packets) (t : Table) (f : Flight ℕ) (fs : Packets) (d : Delivery)
    → k ≡ f ∷ fs
    → (pop n k t).0 ≡ inr d
    → ((pop n k t).1.1 ≡ fs)
      × (d ≡ delivery n f)
      × ((pop n k t).1.0 ≡ opened_all (map pos f.files) t)
pop_first n [] t f fs d e q = cc
pop_first n (g ∷ gs) t f fs d e q = (cc, cc, cc)

pop_never : (n : ℕ) (k : Packets) (t : Table) (e : IoError) → (pop n k t).0 ≢ inl e
pop_never n [] t e q = cc
pop_never n (f ∷ fs) t e q = cc

pop_last :
    (n : ℕ) (k : Packets) (t : Table) (d : Delivery)
    → k ≡ []
    → (pop n k t).0 ≡ inr d
    → ((pop n k t).1.1 ≡ []) × (d ≡ nothing)
pop_last n [] t d e q = (refl, cc)
pop_last n (f ∷ fs) t d e q = cc

pub kernel_law : IsSeqPacketSocket kernel view cmsg_space
kernel_law = record {
  sent = λ p k e. refl;
  not_sent = λ p k e q. cc;
  received = λ n size k t f fs d e q.
      let (left, same, opens) = pop_first n k t f fs d e q in rw same (left, refl, refl);
  received_files = λ n size k t f fs d e q room.
      let (left, same, opens) = pop_first n k t f fs d e q in
      rw (same, delivered n f) (refl, none_negative f.files, map-number f.files, opens);
  not_received = λ n size k t e q. absurd (pop_never n k t e q);
  ended = λ n size k t d e q. let (left, same) = pop_last n k t d e q in rw same (left, refl, refl);
}

-- A thread that holds no descriptors.
abbrev pub small_receiver : Receiver
small_receiver = record {
  codec = small;
  cmsg_space = λ n. n + 16;
  build = record { overflow_checks = true; debug_assertions = true };
  thread = record {
    table = record { open_fds = []; bad_closes = 0 };
    oob_ser = none;
    oob_de = none;
  };
}
