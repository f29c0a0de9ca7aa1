-- ===== src/Client/Exits.antt =====
-- cuttlefish/cfctl/src/bin/cfctl.rs: the exit of the client.
use fundroid.Prelude.{
  ℕ, ◌≡◌, ◌↔◌, refl, sym, ◌∙◌, Bool, true, false, Option, none, some, List, [], arith,
  if◌then◌else◌, is_some, Option-cases, Bool-cases, inl, inr,
}
use fundroid.Exec.{Result, ok, err, stuck}
use fundroid.Protocol.{Request}
use fundroid.Protocol.Reply.{Response}
use fundroid.Client.{
  InstanceCommands, create, start, create_start, stop, hold, destroy, status, describe, list, prune,
  Commands, instances, deploy, wait_adb, logs, ClientError, Link, send_request, request_of,
  Feedback, exit_code, printed, print_response, print_logs, finish, answered, sent, main,
}

print_response-exit :
    (link : Link) (feedback : List Feedback) (r : Response)
    → is_some (link.to_string_pretty r) ≡ true
    → exit_code (print_response link feedback r).exit ≡ (if r.ok then some 0 else some 1)
unfolding print_response printed
print_response-exit link feedback r shows = elim (Option-cases (link.to_string_pretty r)) [
  | inl lost ↦ absurd (ground arith)
  | inr (text, e) ↦ elim (Bool-cases r.ok) [
    | inl good ↦ rw (e, good) refl
    | inr bad ↦ rw (e, bad) refl
  ]
]

-- The exit code for what came back.
abbrev pub code : Result ClientError Response → Option ℕ
code (ok r) = if r.ok then some 0 else some 1
code (err e) = some 1
code stuck = none

module _ (link : Link) (shows : (r : Response) → is_some (link.to_string_pretty r) ≡ true) where
  print_logs-exit :
      (stdout : Bool) (r : Response) → exit_code (print_logs link stdout r).exit ≡ code (ok r)
  unfolding print_logs
  print_logs-exit false r = print_response-exit link [] r (shows r)
  print_logs-exit true r = elim (Bool-cases r.ok) [
    | inl good ↦ rw good refl
    | inr bad ↦ ground (arith, bad, print_response-exit link [] r (shows r))
  ]

  instance-exit :
      (cmd : InstanceCommands) (r : Response)
      → exit_code (finish link (instances cmd) r).exit ≡ code (ok r)
  unfolding finish
  instance-exit (destroy id timeout_secs) r = print_response-exit link _ r (shows r)
  instance-exit (create purpose) r = print_response-exit link [] r (shows r)
  instance-exit (start id options) r = print_response-exit link [] r (shows r)
  instance-exit (create_start purpose options) r = print_response-exit link [] r (shows r)
  instance-exit (stop id) r = print_response-exit link [] r (shows r)
  instance-exit (hold id) r = print_response-exit link [] r (shows r)
  instance-exit (status id) r = print_response-exit link [] r (shows r)
  instance-exit (describe id n) r = print_response-exit link [] r (shows r)
  instance-exit list r = print_response-exit link [] r (shows r)
  instance-exit (prune max_age_secs all) r = print_response-exit link [] r (shows r)

  finish-exit : (cmd : Commands) (r : Response) → exit_code (finish link cmd r).exit ≡ code (ok r)
  unfolding finish
  finish-exit (instances cmd) r = instance-exit cmd r
  finish-exit (deploy id boot init) r = print_response-exit link [] r (shows r)
  finish-exit (wait_adb id timeout_secs) r = print_response-exit link [] r (shows r)
  finish-exit (logs id lines timeout_secs stdout) r = print_logs-exit stdout r

  answered-exit :
      (cmd : Commands) (r : Result ClientError Response)
      → exit_code (answered link cmd r).exit ≡ code r
  unfolding answered
  answered-exit cmd (ok r) = finish-exit cmd r
  answered-exit cmd (err e) = refl
  answered-exit cmd stuck = refl

  -- The request of the command was answered by a success.
  abbrev pub Succeeds : Commands → Type 0
  Succeeds cmd =
      (request : Request) × (r : Response) × (request_of cmd ≡ ok request)
      × (send_request link request ≡ ok r)
      × (r.ok ≡ true)

  code-Succeeds :
      (o : Result ClientError Response)
      → code o ≡ some 0
      → (r : Response) × (o ≡ ok r) × (r.ok ≡ true)
  code-Succeeds (ok r) h = (r, refl, ground arith)
  code-Succeeds (err e) h = absurd (ground arith)
  code-Succeeds stuck h = absurd (cc)

  sent-Succeeds :
      (cmd : Commands) (o : Result ClientError Request)
      → request_of cmd ≡ o
      → exit_code (sent link cmd o).exit ≡ some 0
      → Succeeds cmd
  unfolding sent
  sent-Succeeds cmd (ok request) e h =
      let (r, answer, good) =
        code-Succeeds (send_request link request)
          (sym (answered-exit cmd (send_request link request)) ∙ h) in
      (request, r, e, answer, good)
  sent-Succeeds cmd (err x) e h = absurd (ground arith)
  sent-Succeeds cmd stuck e h = absurd (cc)

  -- The client exits with 0 exactly if the arguments make a request and the daemon answers it with
  -- `ok`, for every command; responses can be printed.
  pub main-exit : (cmd : Commands) → (exit_code (main link cmd).exit ≡ some 0) ↔ Succeeds cmd
  unfolding main
  main-exit cmd = (
    sent-Succeeds cmd (request_of cmd) refl,
    λ (request, r, e, answer, good).
        rw e (answered-exit cmd (send_request link request) ∙ rw (answer, good) refl),
  )
