-- ===== src/Ipc/Handshake/UnitTests.antt =====
-- The unit tests in server/src/ipc/handshake.rs, on the fake connection of
-- server/src/ipc/fakeipc.rs. The result of a test is its end or its panic.
use tere.Prelude.{
  ◌≡◌, refl, Bool, true, Option, none, some, List, [], ◌∷◌, codes, bytes_eq, bytes_eq_iff,
  if◌then◌else◌, Outcome, ok, err, panic, expect, explicit, expect_outcome,
}
use tere.Ipc.{IoError, ReceiveError, read}
use tere.Ipc.Bincode.{Bytes}
use tere.Ipc.FakeIpc.{empty, add, expect_with, shutdown, fake_ipc, send_with_fds, receive_with_fds}
use tere.Ipc.Handshake.{
  Identity, Handshake, Error, receive, new, identify, handshake_as_client, handshake_as_server,
}

abbrev pub client : Bytes
client = codes "tere 2021-06-10T13:38:10 testing client"

abbrev pub server : Bytes
server = codes "tere 2021-06-10T13:38:43 testing server"

-- `is_eof` says whether the kind of an error is `UnexpectedEof`.
module _ {Any : Type 0} (to_any : Handshake → Any) (downcast : Any → Option Handshake)
    (id : Identity) (is_eof : IoError → Bool) where
  -- The answer of the expectation, once the message has been cast.
  abbrev pub greet_back : Option Handshake → Outcome ⊥ (List Any)
  greet_back none = panic expect
  greet_back (some message) =
      if bytes_eq message.intent client
      then if bytes_eq message.build_id (identify id client)
        then ok (to_any (new id server) ∷ [])
        else panic explicit
      else panic explicit

  unfoldable pub client_simple : Outcome ⊥ (Unit {0})
  unfolding handshake_as_client fake_ipc expect_with identify new
  client_simple =
      expect_outcome
        (handshake_as_client id (fake_ipc to_any downcast) client server
          (expect_with (λ a. greet_back (downcast a)) empty)).0

  abbrev pub must_be_eof : Outcome Error (Unit {0}) → Outcome ⊥ (Unit {0})
  must_be_eof (ok u) = panic expect
  must_be_eof (err (receive (ReceiveError.socket e))) = if is_eof e then ok tt else panic explicit
  must_be_eof (err e) = panic explicit
  must_be_eof (panic p) = panic p

  unfoldable pub client_simple_disconnected : Outcome ⊥ (Unit {0})
  unfolding handshake_as_client fake_ipc shutdown
  client_simple_disconnected =
      must_be_eof
        (handshake_as_client id (fake_ipc to_any downcast) client server (shutdown read empty).1).0

  unfoldable pub server_simple : Outcome ⊥ (Unit {0})
  unfolding handshake_as_server fake_ipc add new
  server_simple =
      expect_outcome
        (handshake_as_server id (fake_ipc to_any downcast) client server
          (add to_any (new id client) empty)).0

  -- For every protocol identity and key derivation, and for any type behind the fake connection
  -- that gives a handshake back as it was put in: the tests `client_simple` and `server_simple`
  -- pass. The test `client_simple_disconnected` panics, because the handshake on a connection that
  -- was shut down for reading fails with the error `End` of the receive, and not with `Socket`.
  pub tests_end :
      ((m : Handshake) → downcast (to_any m) ≡ some m)
      → (client_simple ≡ ok tt)
        × (server_simple ≡ ok tt)
        × (client_simple_disconnected ≡ panic explicit)
  unfolding client_simple server_simple client_simple_disconnected send_with_fds receive_with_fds
      new
  tests_end back =
      let same : (bytes_eq (identify id client) (identify id client)) ≡ true =
        (bytes_eq_iff (identify id client) (identify id client)).1 refl in
      let same_server : (bytes_eq (identify id server) (identify id server)) ≡ true =
        (bytes_eq_iff (identify id server) (identify id server)).1 refl in
      (
        rw (back (new id client), same, back (new id server), same_server) refl,
        rw (back (new id client), same) refl,
        refl,
      )
