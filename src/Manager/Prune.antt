-- ===== src/Manager/Prune.antt =====
-- cuttlefish/cfctl/src/daemon/manager.rs: `list_instances`, and the two prunings.
pub mod Untouched
pub mod Finishes
pub mod Held
pub mod Listed
pub mod Complete
use fundroid.Prelude.{
  ℕ, ◌+◌, ◌-◌, Bool, true, false, Option, none, some, List, [], ◌∷◌, ◌++◌, ltb, leb, if◌then◌else◌,
}
use fundroid.Exec.{Result, ok, err, stuck, hang, pure, fail, attempt, ◌>>=◌, ◌>>◌}
use fundroid.Text.Numbers.{parse_u64}
use fundroid.Protocol.{Message, os_error, InstanceId, destroyed, failed, state_eq, InstanceSummary}
use fundroid.Files.{InstanceMetadata}
use fundroid.Host.{Env, Action, DirEntry, ReadDir, not_found, refused, entries, tick}
use fundroid.Host.Os.{epoch_secs}
use fundroid.Manager.Metadata.{summary, cache_insert, by_new_manager, metadata, mark_metadata_state}
use fundroid.Manager.Cleanup.{CleanupOutcome}
use fundroid.Manager.Destroy.{prepare_destroy, finish_destroy}

-- The id that the name of an entry of the instances directory stands for.
abbrev pub parsed_name : Option (List ℕ) → Option InstanceId
parsed_name none = none
parsed_name (some name) = parse_u64 name

unfoldable pub entry_id : DirEntry → Option InstanceId
entry_id e = if e.is_dir then parsed_name e.name else none

-- `fs::read_dir` of the instances directory.
unfoldable pub read_instances : Env → Action ReadDir
read_instances env w = (ok (env.read_dir w.calls), tick env w)

-- `sort_by_key(|summary| summary.id)`, which keeps the order of equal keys.
unfoldable pub sorted_insert : InstanceSummary → List InstanceSummary → List InstanceSummary
sorted_insert s [] = s ∷ []
sorted_insert s (t ∷ ts) = if leb s.id t.id then s ∷ t ∷ ts else t ∷ sorted_insert s ts

unfoldable pub sort_by_id : List InstanceSummary → List InstanceSummary
unfolding sorted_insert
sort_by_id [] = []
sort_by_id (s ∷ ss) = sorted_insert s (sort_by_id ss)

unfoldable pub listed : Env → Result Message InstanceMetadata → List InstanceSummary
listed env (ok m) = if state_eq m.state destroyed then [] else summary env m ∷ []
listed env _ = []

-- The summaries of one entry: none where it is skipped.
unfoldable pub list_entry : Env → Option InstanceId → Action (List InstanceSummary)
unfolding listed
list_entry env none = pure []
list_entry env (some id) = do m ← attempt (metadata env id); pure (listed env m)

abbrev entry_error : {A : Type 0} → Action A
entry_error w = (err (os_error w.calls), w)

unfoldable pub list_entries : Env → List (Option DirEntry) → Action (List InstanceSummary)
list_entries env [] = pure []
list_entries env (none ∷ es) = entry_error
list_entries env (some e ∷ es) = do
  here ← list_entry env (entry_id e)
  rest ← list_entries env es
  pure (here ++ rest)

unfoldable pub list_read : Env → ReadDir → Action (List InstanceSummary)
unfolding list_entries
list_read env not_found = pure []
list_read env refused = entry_error
list_read env (entries es) = do found ← list_entries env es; pure (sort_by_id found)

unfoldable pub list_instances : Env → Action (List InstanceSummary)
unfolding list_read
list_instances env = do dir ← read_instances env; list_read env dir

abbrev if_ok : Result Message InstanceMetadata → Option InstanceMetadata
if_ok (ok m) = some m
if_ok _ = none

-- The result of the cleanup by a manager of its own: what it leaves for the caller's cache.
after_cleanup :
    Env → InstanceId → Result Message CleanupOutcome → Action (Bool × Option InstanceMetadata)
after_cleanup env id stuck = hang
after_cleanup env id (err e) = do attempt {F = Message} (mark_metadata_state env id failed); fail e
after_cleanup env id (ok outcome) =
    if outcome.guest_processes_killed
    then pure (true, none)
    else do left ← attempt (metadata env id); pure (false, if_ok left)

keep_metadata : InstanceId → Option InstanceMetadata → Action (Unit {0})
keep_metadata id none = pure tt
keep_metadata id (some m) = cache_insert id m

unfoldable pub prune_instance : Env → InstanceId → Action Bool
unfolding after_cleanup keep_metadata
prune_instance env id = do
  prepare_destroy env id
  (gone, left) ←
      by_new_manager (do outcome ← attempt (finish_destroy env id); after_cleanup env id outcome)
  keep_metadata id left
  pure gone

-- `(pruned, retained)`, after one more instance. An error counts as retained.
unfoldable pub tally : Result Message Bool → ℕ × ℕ → ℕ × ℕ
tally (ok true) (p, r) = (p + 1, r)
tally _ (p, r) = (p, r + 1)

pub prune_and_tally : Env → InstanceId → ℕ × ℕ → Action (ℕ × ℕ)
prune_and_tally env id counts = do
  result ← attempt (prune_instance env id)
  pure (tally result counts)

-- One entry of `prune_all_instances`: a held instance is retained.
pub prune_all_loaded : Env → InstanceId → ℕ × ℕ → Result Message InstanceMetadata → Action (ℕ × ℕ)
unfolding prune_and_tally
prune_all_loaded env id counts (err e) = pure counts
prune_all_loaded env id counts stuck = hang
prune_all_loaded env id counts (ok m) =
    if state_eq m.state destroyed
    then pure counts
    else if m.held
    then pure (counts.0, counts.1 + 1)
    else prune_and_tally env id counts

-- One entry of `prune_expired_instances`: a held or a recent instance is skipped.
prune_expired_loaded :
    Env → ℕ → InstanceId → ℕ × ℕ → Result Message InstanceMetadata → Action (ℕ × ℕ)
unfolding prune_and_tally
prune_expired_loaded env cutoff id counts (err e) = pure counts
prune_expired_loaded env cutoff id counts stuck = hang
prune_expired_loaded env cutoff id counts (ok m) =
    if state_eq m.state destroyed
    then pure counts
    else if m.held
    then pure counts
    else if ltb cutoff m.updated_at
    then pure counts
    else prune_and_tally env id counts

prune_entry :
    Env
    → (InstanceId → ℕ × ℕ → Result Message InstanceMetadata → Action (ℕ × ℕ))
    → Option InstanceId
    → ℕ × ℕ
    → Action (ℕ × ℕ)
prune_entry env loaded none counts = pure counts
prune_entry env loaded (some id) counts = do m ← attempt (metadata env id); loaded id counts m

-- The loop over the directory, for either pruning.
prune_entries :
    Env
    → (InstanceId → ℕ × ℕ → Result Message InstanceMetadata → Action (ℕ × ℕ))
    → List (Option DirEntry)
    → ℕ × ℕ
    → Action (ℕ × ℕ)
unfolding prune_entry
prune_entries env loaded [] counts = pure counts
prune_entries env loaded (none ∷ es) counts = entry_error
prune_entries env loaded (some e ∷ es) counts = do
  counts' ← prune_entry env loaded (entry_id e) counts
  prune_entries env loaded es counts'

prune_all_read : Env → ReadDir → Action (ℕ × ℕ)
unfolding prune_entries prune_all_loaded
prune_all_read env not_found = pure (0, 0)
prune_all_read env refused = entry_error
prune_all_read env (entries es) = prune_entries env (prune_all_loaded env) es (0, 0)

unfoldable pub prune_all_instances : Env → Action (ℕ × ℕ)
unfolding prune_all_read
prune_all_instances env = do dir ← read_instances env; prune_all_read env dir

-- The cutoff saturates at 0, as `-` does.
prune_expired_read : Env → ℕ → ReadDir → Action (ℕ × ℕ)
unfolding prune_entries prune_expired_loaded
prune_expired_read env max_age not_found = pure (0, 0)
prune_expired_read env max_age refused = entry_error
prune_expired_read env max_age (entries es) = do
  now ← epoch_secs env
  prune_entries env (prune_expired_loaded env (now - max_age)) es (0, 0)

unfoldable pub prune_expired_instances : Env → ℕ → Action (ℕ × ℕ)
unfolding prune_expired_read
prune_expired_instances env max_age = do
  dir ← read_instances env
  prune_expired_read env max_age dir
