-- ===== src/Daemon/Stream.antt =====
-- cuttlefish/cfctl/src/daemon/mod.rs: `handle_stream`, from the line that a client sent to the bytes
-- that it gets. The codec is serde_json's, a parameter.
use fundroid.Prelude.{Option, none, some, [], ◌∷◌, ◌++◌, is_empty, if◌then◌else◌}
use fundroid.Exec.{pure, ◌>>=◌}
use fundroid.Text.{Text, newline}
use fundroid.Protocol.{Request}
use fundroid.Protocol.Reply.{Response}
use fundroid.Host.{Env, Action}
use fundroid.Daemon.{respond_to}

pub record Codec : Type 0 where
  pub decode_request : Text → Option Request
  pub encode_response : Response → Option Text

-- Without bytes the connection is closed, and so it is where the line or the response is an error
-- of the codec: `none`.
encoded : Option Text → Option Text
encoded none = none
encoded (some json) = some (json ++ newline ∷ [])

handle_request : Env → Codec → Option Request → Action (Option Text)
unfolding encoded
handle_request env codec none = pure none
handle_request env codec (some request) = do
  response ← respond_to env request
  pure (encoded (codec.encode_response response))

unfoldable pub handle_stream : Env → Codec → Text → Action (Option Text)
unfolding handle_request
handle_stream env codec line =
    if is_empty line then pure none else handle_request env codec (codec.decode_request line)
