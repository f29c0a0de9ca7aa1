-- ===== src/Daemon/Answers.antt =====
-- cuttlefish/cfctl/src/daemon/mod.rs: the responses that a client gets.
use fundroid.Prelude.{ℕ, ◌≡◌, ◌≢◌, ◌∙◌, false, arith, inl, inr, refl}
use fundroid.Exec.{Result, ok, err, stuck, continue, caught, attempt, ◌>>=◌}
use fundroid.Exec.Returns.{Returns, Returns-pure, bind-attempt-ok}
use fundroid.Protocol.{Message, Request}
use fundroid.Protocol.Reply
use fundroid.Protocol.Reply.{Response}
use fundroid.Host.{Env, World}
use fundroid.Manager.Metadata.{by_new_manager}
use fundroid.Manager.Handle.Returns.{WellFormed, handle-Returns}
use fundroid.Manager.Handle.Finishes.{handle-Ends}
use fundroid.Daemon.{dispatch, answered, respond_to}

dispatch-Returns :
    (env : Env) (request : Request) → Returns (WellFormed request) (dispatch env request)
unfolding dispatch by_new_manager
dispatch-Returns env request = record { at = λ s a h. (handle-Returns env request).at _ a h }

module _ (request : Request) where
  answered-WellFormed :
      (r : Result Message Response) (w : World) (response : Response)
      → ((a : Response) → r ≡ ok a → WellFormed request a)
      → (answered r w).0 ≡ ok response
      → WellFormed request response
  unfolding answered Reply.error
  answered-WellFormed (ok a) w response good h = good response h
  answered-WellFormed (err e) w response good h =
      (Returns-pure {Q = WellFormed request} _ (inr (refl, inl refl))).at w response h
  answered-WellFormed stuck w response good h = cc

  respond_to-WellFormed :
      (env : Env) (w : World) (response : Response)
      → (respond_to env request w).0 ≡ ok response
      → WellFormed request response
  unfolding respond_to
  respond_to-WellFormed env w response h =
      answered-WellFormed (dispatch env request w).0 (dispatch env request w).1 response
        ((dispatch-Returns env request).at w)
        (bind-attempt-ok (dispatch env request) answered w response h)

module _ (env : Env) (request : Request) where
  dispatch-ends :
      (w : World) → ((h : ℕ) → (w.handles h).locked ≡ false) → (dispatch env request w).0 ≢ stuck
  unfolding dispatch by_new_manager
  dispatch-ends w unlocked =
      (handle-Ends env w.clock request).run _ (record { unlocked = unlocked; later = omega arith })

  answered-ok :
      (r : Result Message Response) (v : World)
      → r ≢ stuck
      → (response : Response) × ((answered r v).0 ≡ ok response)
  unfolding answered
  answered-ok (ok a) v ends = (a, refl)
  answered-ok (err e) v ends = (Reply.error e, refl)
  answered-ok stuck v ends = absurd (ends refl)

  answered-caught :
      (r : Result Message Response) (v : World)
      → r ≢ stuck
      → (continue (caught r) answered v).0 ≡ (answered r v).0
  answered-caught (ok a) v ends = refl
  answered-caught (err e) v ends = refl
  answered-caught stuck v ends = absurd (ends refl)

  -- Every request is answered, where no exit watcher holds the lock of a guest when it comes: within
  -- the rounds of the model a response is returned, whatever the host answers. A success has the
  -- field that belongs to the request and no error, and a failure has a message or an error.
  pub respond_to-answers :
      (w : World)
      → ((h : ℕ) → (w.handles h).locked ≡ false)
      → (response : Response) × ((respond_to env request w).0 ≡ ok response)
        × WellFormed request response
  unfolding respond_to ◌>>=◌ attempt
  respond_to-answers w unlocked =
      let (response, answer) =
        answered-ok (dispatch env request w).0 (dispatch env request w).1
          (dispatch-ends w unlocked) in
      let returned =
        answered-caught (dispatch env request w).0 (dispatch env request w).1
          (dispatch-ends w unlocked)
        ∙ answer in
      (response, returned, respond_to-WellFormed request env w response returned)
