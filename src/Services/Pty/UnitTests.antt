-- ===== src/Services/Pty/UnitTests.antt =====
-- server/src/services/pty/tests.rs, less the making of the sockets and of the terminal: what the
-- threads of a test do on the connection to the service, and what the test makes of the service's
-- result.
use tere.Prelude.{
  ℕ, ◌≡◌, refl, Bool, inr, Option, some, [], ◌∷◌, Outcome, ok, err, panic, explicit, Act, ◌⊎◌,
  expect_ok, ◌>>◌, if◌then◌else◌,
}
use tere.Std.Fd.{RawFd, Table}
use tere.Ipc.{IoError, ReceiveError}
use tere.Ipc.Bincode.{BincodeError}
use tere.Ipc.Handshake.{Identity, handshake_as_client}
use tere.Ipc.SeqPacket.Sockets.{sock_seqpacket}
use tere.Proto.Pty
use tere.Services.Pty.{Error, receive}
use tere.Services.Pty.Line.{
  Line, Misread, quiet, send_packet, client_handshakes, answers, service, init, request, shakes,
  service-spawns,
}

-- `is_eof` says whether an error of bincode is an I/O error of the kind `UnexpectedEof`.
module _ (is_eof : BincodeError → Bool) where
  abbrev pub expect_eof : Option (Outcome Error (Unit {0})) → Outcome ⊥ (Unit {0})
  expect_eof (some (err (receive (ReceiveError.deserialize e)))) =
      if is_eof e then ok tt else panic explicit
  expect_eof (some (panic p)) = panic p
  expect_eof r = panic explicit

  module _ (misread : Misread) (pass : RawFd → RawFd) (so_type : RawFd → IoError ⊎ ℕ)
      (id : Identity) (table : Table) where
    -- The client's thread in `init_then_eof`.
    abbrev pub send_init : RawFd → Act Line ⊥ (Unit {0})
    send_init pty_master = do
      expect_ok (
          handshake_as_client id (client_handshakes misread (answers misread pass so_type id table))
            Pty.client_intent Pty.server_intent)
      expect_ok (send_packet (init (record { dummy = 0; pty_master = pty_master })))

    -- The part of the client's thread in `pty_io` that uses the service's connection.
    abbrev pub send_client : RawFd → RawFd → Act Line ⊥ (Unit {0})
    send_client pty_master user = do
      send_init pty_master
      expect_ok (send_packet (request (Pty.new_client 0 user)))

    -- Both threads are joined, and the client's first.
    abbrev pub joined : Outcome ⊥ (Unit {0}) × Line → Outcome ⊥ (Unit {0})
    joined (ok u, l) = expect_eof (service misread pass so_type id table l.sent).0
    joined (err e, l) = absurd e
    joined (panic p, l) = panic p

    unfoldable pub init_then_eof : RawFd → Outcome ⊥ (Unit {0})
    init_then_eof pty_master = joined (send_init pty_master quiet)

    -- `as_user` is what the client's thread does as the user of the session and at the terminal's
    -- other end.
    unfoldable pub pty_io : RawFd → RawFd → Outcome ⊥ (Unit {0}) → Outcome ⊥ (Unit {0})
    pty_io pty_master user as_user =
        joined ((send_client pty_master user >> (λ l. (as_user, l))) quiet)

    -- The two tests of the service panic, whatever the build, the descriptors and their numbers in the
    -- service's process: the service returns the error `End` of a receive when the client is gone,
    -- and the tests look for an error of bincode. For `pty_io` this supposes that its thread did what
    -- it has to do as the user, and that the user's socket is a `SOCK_SEQPACKET` one.
    pub tests_panic :
        (pty_master user : RawFd)
        → so_type (pass user) ≡ inr sock_seqpacket
        → (init_then_eof pty_master ≡ panic explicit)
          × (pty_io pty_master user (ok tt) ≡ panic explicit)
    unfolding init_then_eof pty_io
    tests_panic pty_master user seq =
        let i : Pty.Init = record { dummy = 0; pty_master = pty_master } in
        let spawns = service-spawns misread pass so_type id table i in
        (
          rw (shakes misread pass so_type id table, (spawns [] tt).0) refl,
          rw
              (
                shakes misread pass so_type id table,
                (spawns (Pty.new_client 0 user ∷ []) (seq, tt)).0,
              )
              refl,
        )
