-- ===== src/Tests/Client.antt =====
-- Runs of the client.
use fundroid.Prelude.{◌≡◌, refl, true, false, some, []}
use fundroid.Exec.{ok, ◌>>=◌}
use fundroid.Protocol.{Request}
use fundroid.Protocol.Reply
use fundroid.Protocol.Reply.{Response}
use fundroid.Daemon.{respond_to, dispatch}
use fundroid.Manager.Metadata.{by_new_manager}
use fundroid.Manager.Handle.{handle}
use fundroid.Manager.Prune.{list_instances, read_instances}
use fundroid.Exec.{attempt}
use fundroid.Exec.Returns.{ok-injective}
use fundroid.Text.{codes, trim, trim_end}
use fundroid.Daemon.Stream.{Codec, handle_stream}
use fundroid.Manager.Handle.Returns.{WellFormed}
use fundroid.Client.{
  Link, connected, send_request, InstanceCommands, Commands, instances, exit_code, main,
}
use fundroid.Client.RoundTrip.{Serde, Serves, reply, send_request-respond_to}
use fundroid.Client.Exits.{Succeeds, main-exit}
use fundroid.Prelude.{◌↔◌, ap}
use fundroid.Tests.{quiet, world}

abbrev nothing : Response
nothing = record Reply.ok { instances = some [] }

listed : (respond_to quiet Request.list_instances (world false)).0 ≡ ok nothing
unfolding respond_to dispatch by_new_manager handle ◌>>=◌ attempt list_instances read_instances
    Reply.ok
listed = refl

-- A codec that knows one request and one response.
abbrev codec : Codec
codec = record {
  decode_request = λ t. some Request.list_instances;
  encode_response = λ r. some (codes "{}");
}

abbrev link : Link
link = record {
  connect = connected;
  encode_request = λ r. some (codes "list");
  write_request = true;
  write_newline = true;
  shutdown = true;
  answer = λ t. reply (handle_stream quiet codec t (world false)).0;
  decode_response = λ t. some nothing;
  to_string_pretty = λ r. some (codes "{}");
  dots = 3;
}

link-Serde : Serde quiet (world false) codec link Request.list_instances
unfolding trim trim_end
link-Serde = record {
  requests = (codes "list", refl, refl);
  responses = λ r h. (codes "{}", refl, ap (λ x. some x) (ok-injective _ listed h), refl);
}

link-Serves : Serves quiet (world false) codec link
link-Serves = record { connects = refl; writes = (refl, refl, refl); answers = λ t. refl }

send_request-respond_to_example :
    (response : Response) × ((respond_to quiet Request.list_instances (world false)).0
      ≡ ok response)
    × (send_request link Request.list_instances ≡ ok response)
    × WellFormed Request.list_instances response
send_request-respond_to_example =
    send_request-respond_to quiet (world false) codec link Request.list_instances link-Serde
      link-Serves (λ h. refl)

abbrev list_command : Commands
list_command = instances InstanceCommands.list

main-exit_example :
    (exit_code (main link list_command).exit ≡ some 0) ↔ Succeeds link (λ r. refl) list_command
main-exit_example = main-exit link (λ r. refl) list_command
