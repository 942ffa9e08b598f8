-- ===== src/Ipc/FakeIpc.antt =====
-- server/src/ipc/fakeipc.rs: the connection that the unit tests use. A `Box<dyn Any>` is a value of
-- the type `Any` with its downcast; an expectation may panic, or add messages to the queue.
use tere.Prelude.{
  ℕ, ◌≡◌, refl, Bool, true, false, Option, none, some, List, [], ◌∷◌, ◌++◌, if◌then◌else◌, Outcome,
  ok, err, panic, Act, expect, explicit,
}
use tere.Ipc.{Ipc, SendError, ReceiveError, Shutdown, read, write, both, ShutdownError}
use tere.Ipc.Handshake.{Identity, Handshake, Error, handshake_as_client}

-- What an expectation does with the message that it is shown.
abbrev pub Expectation : Type 0 → Type 0
Expectation Any = Any → Outcome ⊥ (List Any)

pub record State (Any : Type 0) : Type 0 where
  pub incoming : List Any
  pub shut : Bool
  pub expectations : List (Expectation Any)

abbrev pub empty : {Any : Type 0} → State Any
empty = record { incoming = []; shut = false; expectations = [] }

module _ {Any M : Type 0} (to_any : M → Any) where
  unfoldable pub add : M → State Any → State Any
  add message s = record s { incoming = s.incoming ++ to_any message ∷ [] }

module _ {Any : Type 0} where
  unfoldable pub expect_with : Expectation Any → State Any → State Any
  expect_with f s = record s { expectations = s.expectations ++ f ∷ [] }

  abbrev pub answered : Outcome ⊥ (List Any) → Act (State Any) SendError (Unit {0})
  answered (ok replies) s = (ok tt, record s { incoming = s.incoming ++ replies })
  answered (err e) s = absurd e
  answered (panic p) s = (panic p, s)

  abbrev pub meet : List (Expectation Any) → Any → Act (State Any) SendError (Unit {0})
  meet [] any s = (ok tt, s)
  meet (exp ∷ rest) any s = answered (exp any) (record s { expectations = rest })

  abbrev pub downcast_or_panic : {M : Type 0} → Option M → Act (State Any) ReceiveError M
  downcast_or_panic none s = (panic expect, s)
  downcast_or_panic (some m) s = (ok m, s)

  abbrev pub pop : {M : Type 0} → (Any → Option M) → List Any → Act (State Any) ReceiveError M
  pop downcast [] s = if s.shut then (err ReceiveError.end, s) else (panic explicit, s)
  pop downcast (b ∷ rest) s = downcast_or_panic (downcast b) (record s { incoming = rest })

  unfoldable pub shutdown : Shutdown → Act (State Any) ShutdownError (Unit {0})
  shutdown read s = (ok tt, record s { shut = true })
  shutdown write s = (panic explicit, s)
  shutdown both s = (panic explicit, s)

module _ {Any M : Type 0} (to_any : M → Any) (downcast : Any → Option M) where
  unfoldable pub send_with_fds : M → Act (State Any) SendError (Unit {0})
  send_with_fds message s = meet s.expectations (to_any message) s

  unfoldable pub receive_with_fds : Act (State Any) ReceiveError M
  receive_with_fds s = pop downcast s.incoming s

  unfoldable pub fake_ipc : Ipc (State Any) M M
  unfolding send_with_fds receive_with_fds shutdown
  fake_ipc = record {
    send_with_fds = send_with_fds;
    receive_with_fds = receive_with_fds;
    shutdown = shutdown;
  }

-- A client whose connection was shut down for reading before anything came gets the error `End` of
-- the receive, whatever the intents and whatever the build: the `Socket` error for which the test
-- `client_simple_disconnected` looks never comes.
pub handshake_as_client-shutdown :
    {Any : Type 0} (to_any : Handshake → Any) (downcast : Any → Option Handshake) (id : Identity)
    (client_intent server_intent : List ℕ)
    → (handshake_as_client id
        (fake_ipc to_any downcast)
        client_intent
        server_intent
        (shutdown read empty).1).0
      ≡ err (Error.receive ReceiveError.end)
unfolding handshake_as_client fake_ipc shutdown
handshake_as_client-shutdown to_any downcast id client_intent server_intent = refl
