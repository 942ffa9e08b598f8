-- ===== src/Ipc/Handshake/Examples.antt =====
-- A key derivation that tells any two inputs apart, and the theorems of
-- server/src/ipc/handshake.rs with the intents of the pty service.
use tere.Prelude.{◌≡◌, ◌≢◌, refl, ◌↔◌, [], ◌∷◌, ok, err, codes, true, false, bytes_eq_iff}
use mathlib.Core.Option.{Option}
use tere.Ipc
use tere.Ipc.{ReceiveError}
use tere.Ipc.Handshake
use tere.Ipc.Bincode.{Bytes}
use tere.Ipc.FakeIpc.{empty, shutdown, fake_ipc, handshake_as_client-shutdown}
use tere.Ipc.Handshake.{Identity, Handshake, Error, wrong_version, new, handshake_as_client}
use tere.Ipc.Handshake.UnitTests
use tere.Ipc.Handshake.UnitTests.{tests_end}
use tere.Prelude.{panic, explicit}
use mathlib.Core.Option.{some}
use tere.Ipc.Handshake.Framed.{framed, framed-apart}
use tere.Ipc.Handshake.Dialogue.{handshake_as_client-ok, handshake_as_server-ok}
use tere.Ipc.Handshake.Wire.{
  Wire, echo, start, server_end, dialogue, dialogue-ok, handshake_as_client-echo,
}

abbrev build : Identity
build = record { derive_key = framed; protocol_identity = codes "f00d" }

abbrev client : Bytes
client = codes "tere 2021-06-10T13:38:10 testing client"

abbrev server : Bytes
server = codes "tere 2021-06-10T13:38:43 testing server"

dialogue-ok_example :
    ((dialogue framed (codes "f00d") (codes "beef") client server client server).0 ≡ ok tt)
    ↔ ((client ≡ client) × (server ≡ server) × (codes "f00d" ≡ codes "beef"))
dialogue-ok_example =
    dialogue-ok framed (codes "f00d") (codes "beef") client server client server framed-apart

intents_differ : client ≢ server
intents_differ e = let odd : false ≡ true = (bytes_eq_iff client server).1 e in cc

handshake_as_client-echo_example :
    (handshake_as_client build echo client server []).0 ≡ err wrong_version
handshake_as_client-echo_example =
    handshake_as_client-echo build client server (λ x y a b e. (framed-apart x y a b e).0)
      intents_differ

handshake_as_client-ok_example : ((handshake_as_client build echo client client []).0 ≡ ok tt) ↔ (
    ((echo.send_with_fds (new build client) []).0 ≡ ok tt)
    × ((echo.receive_with_fds (echo.send_with_fds (new build client) []).1).0
        ≡ ok (new build client)))
handshake_as_client-ok_example = handshake_as_client-ok build echo client client []

abbrev waiting : Wire
waiting = record start { to_server = new build client ∷ [] }

handshake_as_server-ok_example :
    ((Handshake.handshake_as_server build server_end client server waiting).0 ≡ ok tt) ↔ (
      ((server_end.receive_with_fds waiting).0 ≡ ok (new build client))
      × ((server_end.send_with_fds (new build server) (server_end.receive_with_fds waiting).1).0
          ≡ ok tt))
handshake_as_server-ok_example = handshake_as_server-ok build server_end client server waiting

shut_down_runs :
    (handshake_as_client build
      (fake_ipc (λ (m : Handshake). m) Option.some)
      client
      server
      (shutdown Ipc.read empty).1).0
    ≡ err (Error.receive ReceiveError.end)
shut_down_runs = handshake_as_client-shutdown (λ m. m) Option.some build client server

tests_end_example :
    (UnitTests.client_simple (λ m. m) some build (λ e. false) ≡ ok tt)
    × (UnitTests.server_simple (λ m. m) some build (λ e. false) ≡ ok tt)
    × (UnitTests.client_simple_disconnected (λ m. m) some build (λ e. false) ≡ panic explicit)
tests_end_example = tests_end (λ m. m) some build (λ e. false) (λ m. refl)
