-- ===== src/Proto/Sizes.antt =====
-- The messages of server/src/proto against the sizes that they announce, and that of
-- server/src/ipc/handshake.rs. How long bincode's codes are is documented with its variable-length
-- integers, which the program's configuration selects.
use tere.Prelude.{ℕ, ◌+◌, ◌≡◌, ◌≤◌, ◌<◌, ap, ◌∙◌, inr, [], ◌++◌, length, length-append, arith}
use tere.Std.Fd.{RawFd}
use tere.Ipc.Bincode.{Bytes, Bincode, variant, u8, text, bytes, hash}
use tere.Ipc.Message.{Message, Fields, fds_of}
use tere.Ipc.SeqPacket.RoundTrip.{Codes}
use tere.Ipc.SeqPacket.Fifo.{Fits}
use tere.Ipc.Handshake.{Handshake, message, message_fields}
use tere.Proto.Pty

-- A byte is a byte; so is a small number of another kind; a sequence of fewer than 2 ^ 16 bytes has
-- its length before it, in at most three bytes; an array of 32 bytes is those.
pub record IsCompact (c : Bincode) : Type 0 where
  pub length-u8 : (v : ℕ) (bs : Bytes) → c.encode u8 v ≡ inr bs → length bs ≡ 1
  pub length-variant :
      (n v : ℕ) (bs : Bytes) → v < 251 → c.encode (variant n) v ≡ inr bs → length bs ≡ 1
  pub length-bytes :
      (v bs : Bytes)
      → length v < 65536
      → c.encode bytes v ≡ inr bs
      → (length v < length bs) × (length bs ≤ 3 + length v)
  pub length-text :
      (v bs : Bytes)
      → length v < 65536
      → c.encode text v ≡ inr bs
      → (length v < length bs) × (length bs ≤ 3 + length v)
  pub length-hash : (v bs : Bytes) → c.encode hash v ≡ inr bs → length bs ≡ 32

abbrev Between : ℕ → ℕ → Bytes → Type 0
Between low high code = (low ≤ length code) × (length code ≤ high)

Between-append :
    (a b x y : ℕ) (code bs rest : Bytes)
    → code ≡ bs ++ rest
    → Between a b bs
    → Between x y rest
    → Between (a + x) (b + y) code
Between-append a b x y code bs rest e h k =
    let sum : length code ≡ length bs + length rest = ap length e ∙ length-append bs rest in
    (omega (arith, h.0, k.0), omega (arith, h.1, k.1))

Between-nil : (code : Bytes) → code ≡ [] → Between 0 0 code
Between-nil code e = (omega (arith, ap length e), omega (arith, ap length e))

-- From the bounds of any code of a message to `Fits`.
Fits-Between :
    (c : Bincode) (m : Message) (message : Fields m.slots) (low high : ℕ)
    → ((code : Bytes) → Codes c m.slots message code → Between low high code)
    → 0 < low
    → high ≤ m.max_size
    → length (fds_of m.slots message) ≤ m.max_fds
    → Fits c m message
Fits-Between c m message low high bounds pos room few = record {
  coded = λ code h e. let (a, z) = bounds code h in absurd (omega (arith, ap length e));
  small = λ code h. let (a, z) = bounds code h in omega arith;
  few = few;
}

module _ (c : Bincode) (compact : IsCompact c) where
  Between-u8 : (v : ℕ) (bs : Bytes) → c.encode u8 v ≡ inr bs → Between 1 1 bs
  Between-u8 v bs e = let n = compact.length-u8 v bs e in (omega arith, omega arith)

  Between-variant : (bs : Bytes) → c.encode (variant 1) 0 ≡ inr bs → Between 1 1 bs
  Between-variant bs e =
      let n = compact.length-variant 1 0 bs (omega arith) e in (omega arith, omega arith)

  Between-bytes :
      (n : ℕ) (v bs : Bytes)
      → length v ≤ n
      → n < 65536
      → c.encode bytes v ≡ inr bs
      → Between 0 (3 + n) bs
  Between-bytes n v bs le lt e =
      let (a, z) = compact.length-bytes v bs (omega arith) e in (omega arith, omega arith)

  Between-text :
      (n : ℕ) (v bs : Bytes)
      → length v ≤ n
      → n < 65536
      → c.encode text v ≡ inr bs
      → Between 0 (3 + n) bs
  Between-text n v bs le lt e =
      let (a, z) = compact.length-text v bs (omega arith) e in (omega arith, omega arith)

  Between-hash : (v bs : Bytes) → c.encode hash v ≡ inr bs → Between 32 32 bs
  Between-hash v bs e = let n = compact.length-hash v bs e in (omega arith, omega arith)

  Fits-init : (i : Pty.Init) → Fits c Pty.init (Pty.init_fields i)
  Fits-init i =
      Fits-Between c Pty.init (Pty.init_fields i) 1 1
        (λ code (bs, rest, e, p, h).
          Between-append 1 1 0 0 code bs rest p (Between-u8 i.dummy bs e) (Between-nil rest h))
        (omega arith) (omega arith) (omega arith)

  Fits-request :
      (dummy : ℕ) (fd : RawFd) → Fits c Pty.request (Pty.request_fields (Pty.new_client dummy fd))
  Fits-request dummy fd =
      Fits-Between c Pty.request (Pty.request_fields (Pty.new_client dummy fd)) 2 2
        (λ code (bs, rest, e, p, (us, more, f, q, h)).
          Between-append 1 1 1 1 code bs rest p (Between-variant bs e)
            (Between-append 1 1 0 0 rest us more q (Between-u8 dummy us f) (Between-nil more h)))
        (omega arith) (omega arith) (omega arith)

  Fits-output :
      (n : ℕ) (b : Bytes)
      → length b ≤ n
      → n ≤ 8188
      → Fits c Pty.output (Pty.output_fields (Pty.session_output b))
  Fits-output n b le lt =
      Fits-Between c Pty.output (Pty.output_fields (Pty.session_output b)) 1 (1 + (3 + n + 0))
        (λ code (bs, rest, e, p, (us, more, f, q, h)).
          Between-append 1 1 0 (3 + n + 0) code bs rest p (Between-variant bs e) (
            Between-append 0 (3 + n) 0 0 rest us more q (Between-bytes n b us le (omega arith) f)
              (Between-nil more h)))
        (omega arith) (omega arith) (omega arith)

  Fits-handshake : (m : Handshake) → length m.intent ≤ 8157 → Fits c message (message_fields m)
  Fits-handshake m le =
      Fits-Between c message (message_fields m) 32 (3 + 8157 + (32 + 0))
        (λ code (bs, rest, e, p, (us, more, f, q, h)).
          Between-append 0 (3 + 8157) 32 (32 + 0) code bs rest p
            (Between-text 8157 m.intent bs le (omega arith) e)
            (Between-append 32 32 0 0 rest us more q (Between-hash m.build_id us f)
              (Between-nil more h)))
        (omega arith) (omega arith) (omega arith)

  -- Every message that the services of the server send is coded in at least one byte and in at most
  -- the size that its type announces: the first message to a pty service, which is exactly as long
  -- as its `MAX_SIZE` of 1, a request to it, and terminal output of at most the 1024 bytes of its
  -- buffer; so is a handshake with an intent of at most 8157 bytes, and so is keyboard input of at
  -- most 8188. This supposes the documented lengths of bincode's codes.
  pub messages-Fits :
      (i : Pty.Init) (dummy : ℕ) (fd : RawFd) (o k : Bytes) (h : Handshake)
      → length o ≤ 1024
      → length k ≤ 8188
      → length h.intent ≤ 8157
      → Fits c Pty.init (Pty.init_fields i)
        × Fits c Pty.request (Pty.request_fields (Pty.new_client dummy fd))
        × Fits c Pty.output (Pty.output_fields (Pty.session_output o))
        × Fits c Pty.input (Pty.input_fields (Pty.keyboard_input k))
        × Fits c message (message_fields h)
  messages-Fits i dummy fd o k h small typed short = (
    Fits-init i,
    Fits-request dummy fd,
    Fits-output 1024 o small (omega arith),
    Fits-output 8188 k typed (omega arith),
    Fits-handshake h short,
  )
