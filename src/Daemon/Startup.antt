-- ===== src/Daemon/Startup.antt =====
-- cuttlefish/cfctl/src/daemon/mod.rs: `ensure_dirs` and `sweep_trash`, which `run` calls before the
-- daemon listens; and the names that `make_trash_path` of daemon/manager.rs gives to trash.
pub mod Sweep
use fundroid.Prelude.{ℕ, Bool, true, false, Option, none, some, List, [], ◌∷◌, ◌++◌, if◌then◌else◌}
use fundroid.Exec.{pure, map_err, ◌>>=◌, ◌>>◌}
use fundroid.Text.{Text, codes, contains}
use fundroid.Text.Numbers.{show}
use fundroid.Protocol.{Message, context, plain}
use fundroid.Host.{Env, Action, attempt_call}

abbrev pub marker : Text
marker = codes ".__trash__."

-- `format!("{}.__trash__.{}.{}", name, epoch, pid)`.
unfoldable pub trash_name : Text → ℕ → ℕ → Text
trash_name name epoch pid = name ++ (marker ++ (show epoch ++ (codes "." ++ show pid)))

-- The names in one directory whose removal is scheduled: an entry that cannot be read, or whose
-- name is no text, is passed over.
unfoldable pub sweep_entries : List (Option (Option Text)) → List Text
sweep_entries [] = []
sweep_entries (some (some name) ∷ es) =
    let rest = sweep_entries es in if contains name marker then name ∷ rest else rest
sweep_entries (_ ∷ es) = sweep_entries es

-- The names for which a thread is started that removes the directory, and only logs an error.
unfoldable pub sweep_base : Option (List (Option (Option Text))) → List Text
unfolding sweep_entries
sweep_base none = []
sweep_base (some entries) = sweep_entries entries

-- The instances directory and the assembly directory.
unfoldable pub sweep_trash :
    Option (List (Option (Option Text)))
    → Option (List (Option (Option Text)))
    → List Text × List Text
unfolding sweep_base
sweep_trash instances assembly = (sweep_base instances, sweep_base assembly)

create_socket_dir : Env → Option Text → Action (Unit {0})
create_socket_dir env none = pure tt
create_socket_dir env (some parent) =
    map_err (context (plain "creating socket dir")) (attempt_call env)

-- The state directory, the etc directory, and the parent of the socket, if it has one.
unfoldable pub ensure_dirs : Env → Option Text → Action (Unit {0})
unfolding create_socket_dir
ensure_dirs env socket_parent = do
  map_err (context (plain "creating state dir")) (attempt_call env)
  map_err (context (plain "creating etc dir")) (attempt_call env)
  create_socket_dir env socket_parent
