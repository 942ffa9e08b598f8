-- ===== src/Proto/Examples.antt =====
-- Messages as the clients of the services send them.
use tere.Prelude.{◌≤◌, none, codes, length}
use tere.Prelude.Int.{pos}
use tere.Prelude.{ℕ, ap, ◌≡◌, [], ◌∷◌, arith, ◌⊎◌, inl, inr, ◌<◌, ◌+◌}
use tere.Ipc.Bincode.{
  Bytes, BincodeError, own, Kind, variant, u8, text, bytes, hash, place, optional_text,
  optional_texts, Value, Bincode,
}
use tere.Ipc.Handshake.{Handshake, message, message_fields}
use tere.Ipc.SeqPacket.Fifo.{Fits}
use tere.Proto.Sizes.{IsCompact, messages-Fits}
use tere.Proto.Machine.{host}
use tere.Proto.Pty
use tere.Proto.Sessions.{CreateShellSession}

abbrev shell : CreateShellSession
shell = record {
  fd = pos 4;
  machine = host;
  user = codes "tv";
  program = none;
  args = none;
  env = none;
}

abbrev terminal : Pty.Init
terminal = record { dummy = 0; pty_master = pos 7 }

abbrev zeros : ℕ → Bytes
zeros Prim.Native.Nat.ℕ.zero = []
zeros (Prim.Native.Nat.ℕ.suc n) = 0 ∷ zeros n

abbrev compact_encode : (k : Kind) → Value k → BincodeError ⊎ Bytes
compact_encode (variant n) v = inr (v ∷ [])
compact_encode u8 v = inr (v ∷ [])
compact_encode text v = inr (length v ∷ v)
compact_encode bytes v = inr (length v ∷ v)
compact_encode hash v = inr (zeros 32)
compact_encode place v = inl (own 0)
compact_encode optional_text v = inl (own 0)
compact_encode optional_texts v = inl (own 0)

-- Only its codes matter.
abbrev compact : Bincode
compact = record {
  encode = compact_encode;
  decode = λ k bs. inl (own 0);
  serialize_unit = inr [];
  deserialize_unit = λ bs. inr bs;
  check_end = λ bs. inr tt;
}

length-single :
    (v : ℕ) (bs : Bytes) → ◌≡◌ {A = BincodeError ⊎ Bytes} (inr (v ∷ [])) (inr bs) → length bs ≡ 1
length-single v bs e = let same : v ∷ [] ≡ bs = cc in omega (arith, ap length same)

length-counted :
    (v bs : Bytes)
    → ◌≡◌ {A = BincodeError ⊎ Bytes} (inr (length v ∷ v)) (inr bs)
    → (length v < length bs) × (length bs ≤ 3 + length v)
length-counted v bs e =
    let same : length v ∷ v ≡ bs = cc in
    (omega (arith, ap length same), omega (arith, ap length same))

length-zeros :
    (bs : Bytes) → ◌≡◌ {A = BincodeError ⊎ Bytes} (inr (zeros 32)) (inr bs) → length bs ≡ 32
length-zeros bs e = let same : zeros 32 ≡ bs = cc in omega (arith, ap length same)

compact-IsCompact : IsCompact compact
compact-IsCompact = record {
  length-u8 = λ v bs e. length-single v bs e;
  length-variant = λ n v bs lt e. length-single v bs e;
  length-bytes = λ v bs lt e. length-counted v bs e;
  length-text = λ v bs lt e. length-counted v bs e;
  length-hash = λ v bs e. length-zeros bs e;
}

abbrev greeting : Handshake
greeting = record { intent = Pty.client_intent; build_id = [] }

messages-Fits_example :
    Fits compact Pty.init (Pty.init_fields terminal)
    × Fits compact Pty.request (Pty.request_fields (Pty.new_client 0 (pos 8)))
    × Fits compact Pty.output (Pty.output_fields (Pty.session_output (codes "$")))
    × Fits compact Pty.input (Pty.input_fields (Pty.keyboard_input (codes "ls")))
    × Fits compact message (message_fields greeting)
messages-Fits_example =
    messages-Fits compact compact-IsCompact terminal 0 (pos 8) (codes "$") (codes "ls") greeting
      (omega arith) (omega arith) (omega arith)
