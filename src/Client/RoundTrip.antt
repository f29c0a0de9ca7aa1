-- ===== src/Client/RoundTrip.antt =====
-- cuttlefish/cfctl/src/bin/cfctl.rs and cuttlefish/cfctl/src/daemon/mod.rs: a request of the client
-- goes through the daemon and back.
use fundroid.Prelude.{◌≡◌, refl, true, false, Option, none, some, [], ◌∷◌, ◌++◌, is_empty, ℕ}
use fundroid.Exec.{Result, ok, err, stuck, ◌>>=◌}
use fundroid.Text.{Text, newline, trim}
use fundroid.Protocol.{Request, Message}
use fundroid.Protocol.Reply.{Response}
use fundroid.Host.{Env, World}
use fundroid.Manager.Handle.Returns.{WellFormed}
use fundroid.Daemon.{respond_to}
use fundroid.Daemon.Answers.{respond_to-answers}
use fundroid.Daemon.Stream.{Codec, handle_stream}
use fundroid.Client.{
  connected, Read, line, never, Link, send_request, on_connection, exchange, after_read, decoded,
}

abbrev pub terminated : Text → Text
terminated t = t ++ newline ∷ []

-- The daemon decodes the request that the client encoded, and the client decodes what the daemon
-- encoded of its answer, with the newline behind it, which is not blank.
pub record Serde (env : Env) (w : World) (codec : Codec) (link : Link) (request : Request)
    : Type 0 where
  pub requests :
      (t : Text) × (link.encode_request request ≡ some t)
      × (codec.decode_request (terminated t) ≡ some request)
  pub responses :
      (response : Response)
      → (respond_to env request w).0 ≡ ok response
      → (t : Text) × (codec.encode_response response ≡ some t)
        × (link.decode_response (terminated t) ≡ some response)
        × (is_empty (trim (terminated t)) ≡ false)

-- A connection that is closed without a response reads as an empty line.
abbrev pub reply : Result Message (Option Text) → Read
reply (ok (some t)) = line t
reply (ok none) = line []
reply (err e) = line []
reply stuck = never

-- The socket works, and the daemon is at the other end of it.
pub record Serves (env : Env) (w : World) (codec : Codec) (link : Link) : Type 0 where
  pub connects : link.connect ≡ connected
  pub writes : (link.write_request ≡ true) × (link.write_newline ≡ true) × (link.shutdown ≡ true)
  pub answers : (t : Text) → link.answer t ≡ reply (handle_stream env codec t w).0

terminated-nonempty : (t : Text) → is_empty (terminated t) ≡ false
terminated-nonempty [] = refl
terminated-nonempty (c ∷ t) = refl

module _ (env : Env) (w : World) (codec : Codec) (link : Link) (request : Request)
    (serde : Serde env w codec link request) (serves : Serves env w codec link) where
  handle_stream-answers :
      (response : Response) (answer : (respond_to env request w).0 ≡ ok response)
      → (handle_stream env codec (terminated serde.requests.0) w).0
        ≡ ok (some (terminated (serde.responses response answer).0))
  unfolding handle_stream ◌>>=◌
  handle_stream-answers response answer =
      rw
        (
          terminated-nonempty serde.requests.0,
          serde.requests.2,
          answer,
          (serde.responses response answer).1,
        )
        refl

  send_request-answered :
      (response : Response)
      → (respond_to env request w).0 ≡ ok response
      → send_request link request ≡ ok response
  unfolding send_request on_connection exchange after_read decoded
  send_request-answered response answer =
      rw
        (
          serves.connects,
          serde.requests.1,
          serves.writes.0,
          serves.writes.1,
          serves.writes.2,
          serves.answers (terminated serde.requests.0),
          handle_stream-answers response answer,
          (serde.responses response answer).3,
          (serde.responses response answer).2,
        )
        refl

  -- A request that the client sends over a socket that works is answered: the client decodes the
  -- response that the daemon made for that very request, and the response is well formed, where no
  -- exit watcher holds the lock of a guest and both sides encode what the other decodes.
  pub send_request-respond_to :
      ((h : ℕ) → (w.handles h).locked ≡ false)
      → (response : Response) × ((respond_to env request w).0 ≡ ok response)
        × (send_request link request ≡ ok response)
        × WellFormed request response
  send_request-respond_to unlocked =
      let (response, answer, formed) = respond_to-answers env request w unlocked in
      (response, answer, send_request-answered response answer, formed)
