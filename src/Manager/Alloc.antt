-- ===== src/Manager/Alloc.antt =====
-- cuttlefish/cfctl/src/daemon/manager.rs: `allocate_id`, `create_instance` and `hold_instance`.
pub mod Untouched
pub mod Finishes
pub mod Search
pub mod Fresh
pub mod Recorded
pub mod Spared
use fundroid.Prelude.{
  ℕ, zero, suc, ◌+◌, ◌%◌, Bool, true, false, ◌||◌, Option, none, some, [], ◌∷◌, ltb, ◌==◌,
  if◌then◌else◌, unwrap_or,
}
use fundroid.Exec.{pure, fail, gets, map_err, ◌>>=◌, ◌>>◌}
use fundroid.Text.{Text, trim}
use fundroid.Text.Numbers.{show, parse_u64}
use fundroid.Protocol.{
  plain, formatted, context, InstanceId, created, CreateInstanceResponse, InstanceActionResponse,
}
use fundroid.Files.{
  external, InstanceMetadata, text, Node, file, root, artifacts, metadata_file, id_alloc,
}
use fundroid.Host.{Env, Action, attempt_call}
use fundroid.Host.Fs
use fundroid.Host.Os.{epoch_secs}
use fundroid.Manager.Metadata.{
  summary, adb_port_of, cache_insert, metadata, write_metadata, write_env_file,
}

-- The text of the file with the next id; opening it creates it empty.
abbrev pub text_of : Option Node → Text
text_of (some (file (text t))) = t
text_of _ = []

-- `!metadata.exists() && !root.exists()` is the negation; the second stat is made if the first fails.
unfoldable pub occupied : Env → InstanceId → Action Bool
occupied env c = do
  known ← Fs.exists env metadata_file c
  if known then pure true else Fs.exists env root c

abbrev pub wrapped : ℕ → ℕ
wrapped c = if c == 0 || ltb 99 c then 1 else c

-- `candidate % 99 + 1`
abbrev pub successor : ℕ → ℕ
successor c = c % 99 + 1

-- The rounds of the search: the id that was selected, and the next candidate.
unfoldable pub select_id : Env → ℕ → ℕ → Action (Option InstanceId × ℕ)
select_id env zero candidate = pure (none, candidate)
select_id env (suc rounds) candidate = do
  taken ← occupied env (wrapped candidate)
  if taken
      then select_id env rounds (successor (wrapped candidate))
      else pure (some (wrapped candidate), successor (wrapped candidate))

-- An unreadable number is 1, and so is 0.
unfoldable pub next_of : Text → ℕ
next_of buf = let next = unwrap_or (parse_u64 (trim buf)) 1 in if next == 0 then 1 else next

abbrev pub selected_or_fail : Option InstanceId → Action InstanceId
selected_or_fail none = fail (plain "no available instance slots (1-99)")
selected_or_fail (some id) = pure id

-- Creating the directory, opening, locking and reading the file; its text.
unfoldable pub open_id_file : Env → Action Text
open_id_file env = do
  attempt_call env
  attempt_call env
  attempt_call env
  attempt_call env
  gets (λ w. text_of (w.disk id_alloc 0))

-- `set_len(0)`, the seek, the write, `sync_all` and the unlock.
unfoldable pub store_next : Env → ℕ → Action (Unit {0})
store_next env candidate = do
  Fs.write env id_alloc 0 (text [])
  attempt_call env
  Fs.write env id_alloc 0 (text (show candidate))
  attempt_call env
  attempt_call env

unfoldable pub allocate_id : Env → Action InstanceId
allocate_id env = do
  buf ← open_id_file env
  (selected, candidate) ← select_id env 99 (next_of buf)
  id ← selected_or_fail selected
  store_next env candidate
  pure id

unfoldable pub new_metadata : Env → InstanceId → Option Text → ℕ → InstanceMetadata
new_metadata env id purpose now = record {
  id = id;
  purpose = purpose;
  adb_port = adb_port_of env.base_adb_port id;
  state = created;
  boot_image = external env.default_boot_image;
  init_boot_image = external env.default_init_boot_image;
  created_at = now;
  updated_at = now;
  held = false;
}

-- What `create_instance` does for the id that was allocated.
unfoldable pub fill_instance : Env → Option Text → InstanceId → Action CreateInstanceResponse
fill_instance env purpose id = do
  map_err (context (formatted "creating instance dir {}" (id ∷ []))) (Fs.create_dir_all env root id)
  map_err (context (formatted "creating artifacts dir {}" (id ∷ [])))
      (Fs.create_dir_all env artifacts id)
  now ← epoch_secs env
  let m = new_metadata env id purpose now
  write_metadata env id m
  write_env_file env id m
  cache_insert id m
  pure (record { summary = summary env m })

unfoldable pub create_instance : Env → Option Text → Action CreateInstanceResponse
create_instance env purpose = do id ← allocate_id env; fill_instance env purpose id

-- An answer with the summary alone.
unfoldable pub plain_response : Env → InstanceMetadata → InstanceActionResponse
plain_response env m = record {
  summary = summary env m;
  journal_tail = none;
  verification = none;
  cleanup = none;
  run_log_tail = none;
  console_snapshot_path = none;
}

unfoldable pub hold_instance : Env → InstanceId → Action InstanceActionResponse
hold_instance env id = do
  m ← metadata env id
  now ← epoch_secs env
  let held = record m { held = true; updated_at = now }
  write_metadata env id held
  cache_insert id held
  pure (plain_response env held)
