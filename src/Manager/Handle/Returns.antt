-- ===== src/Manager/Handle/Returns.antt =====
-- cuttlefish/cfctl/src/daemon/manager.rs: the responses that `InstanceManager::handle` makes.
use fundroid.Prelude.{true, false, ◌≡◌, ◌⊎◌, inl, inr, refl, none, is_some}
use fundroid.Exec.{Exec, Result, ok, err, stuck}
use fundroid.Exec.Returns.{Returns, Returns-pure, returns_rules}
use fundroid.Protocol.{
  Request, create_instance, start_instance, create_start_instance, stop_instance, hold_instance,
  destroy_instance, deploy, wait_for_adb, logs, status, describe, list_instances, prune_expired,
  prune_all, ErrorDetail,
}
use fundroid.Protocol.Reply
use fundroid.Protocol.Reply.{Response}
use fundroid.Host.{Env, World, Action}
use fundroid.Manager.Handle.{handle, respond, detailed, plainly}

-- A field that a client reads for the request is there.
abbrev pub Payload : Request → Response → Type 0
Payload (create_instance purpose) r = is_some r.create ≡ true
Payload (deploy req) r = is_some r.message ≡ true
Payload (logs id n options) r = is_some r.logs ≡ true
Payload list_instances r = is_some r.instances ≡ true
Payload (prune_expired max_age_secs) r = is_some r.message ≡ true
Payload prune_all r = is_some r.message ≡ true
Payload _ r = is_some r.action ≡ true

-- A response that a client can act on.
abbrev pub WellFormed : Request → Response → Type 0
WellFormed request r =
    ((r.ok ≡ true) × Payload request r × (r.error ≡ none))
    ⊎ ((r.ok ≡ false) × ((is_some r.message ≡ true) ⊎ (is_some r.error ≡ true)))

module _ {A : Type 0} (request : Request) (f : A → Response)
    (good : (a : A) → WellFormed request (f a)) where
  respond-Returns : (r : Result ErrorDetail A) → Returns (WellFormed request) (respond f r)
  unfolding respond Reply.error_with_detail
  respond-Returns (ok a) = Returns-pure (f a) (good a)
  respond-Returns (err e) = Returns-pure _ (inr (refl, inr refl))
  respond-Returns stuck = search returns_rules

  detailed-Returns : (m : Exec World ErrorDetail A) → Returns (WellFormed request) (detailed f m)
  detailed-Returns m = search (returns_rules, respond-Returns)

  plainly-Returns : (m : Action A) → Returns (WellFormed request) (plainly f m)
  plainly-Returns m = search (returns_rules, good)

pub handle-Returns :
    (env : Env) (request : Request) → Returns (WellFormed request) (handle env request)
unfolding handle Reply.with_message Reply.ok
handle-Returns env (create_instance purpose) =
    plainly-Returns (create_instance purpose) _ (λ a. inl (refl, refl, refl)) _
handle-Returns env (start_instance id options) =
    detailed-Returns (start_instance id options) _ (λ a. inl (refl, refl, refl)) _
handle-Returns env (create_start_instance p o) =
    detailed-Returns (create_start_instance p o) _ (λ a. inl (refl, refl, refl)) _
handle-Returns env (stop_instance id) =
    plainly-Returns (stop_instance id) _ (λ a. inl (refl, refl, refl)) _
handle-Returns env (hold_instance id) =
    plainly-Returns (hold_instance id) _ (λ a. inl (refl, refl, refl)) _
handle-Returns env (destroy_instance id options) =
    detailed-Returns (destroy_instance id options) _ (λ a. inl (refl, refl, refl)) _
handle-Returns env (deploy req) = plainly-Returns (deploy req) _ (λ a. inl (refl, refl, refl)) _
handle-Returns env (wait_for_adb id t) =
    detailed-Returns (wait_for_adb id t) _ (λ a. inl (refl, refl, refl)) _
handle-Returns env (logs id n options) =
    detailed-Returns (logs id n options) _ (λ a. inl (refl, refl, refl)) _
handle-Returns env (status id) = plainly-Returns (status id) _ (λ a. inl (refl, refl, refl)) _
handle-Returns env (describe id n) =
    plainly-Returns (describe id n) _ (λ a. inl (refl, refl, refl)) _
handle-Returns env list_instances = plainly-Returns list_instances _ (λ a. inl (refl, refl, refl)) _
handle-Returns env (prune_expired age) =
    plainly-Returns (prune_expired age) _ (λ a. inl (refl, refl, refl)) _
handle-Returns env prune_all = plainly-Returns prune_all _ (λ a. inl (refl, refl, refl)) _
