-- ===== src/Host/Fs.antt =====
-- `std::fs` over the daemon's own files. A failed write may leave other bytes behind, and a failed
-- `remove_dir_all` may have removed a part.
use fundroid.Prelude.{
  ℕ, Bool, true, false, ◌&&◌, ◌||◌, not, Option, none, some, ◌==◌, if◌then◌else◌, is_some,
}
use fundroid.Exec.{Exec, Result, ok, err}
use fundroid.Protocol.{Message, os_error, InstanceId}
use fundroid.Files.{Slot, parent, under_root, Contents, Node, dir, file, Disk, place}
use fundroid.Host.{Env, World, Action, tick}

-- `path.exists()`, and `symlink_metadata(path).is_ok()`.
unfoldable pub exists : {E : Type 0} → Env → Slot → InstanceId → Exec World E Bool
exists env s i w = (ok (is_some (w.disk s i)), tick env w)

abbrev pub has_parent : Disk → Option Slot → InstanceId → Bool
has_parent d none i = true
has_parent d (some p) i = is_some (d p i)

abbrev pub make_dir : Slot → InstanceId → Disk → Disk
make_dir s i d = if is_some (d s i) then d else place s i (some dir) d

abbrev pub make_parent : Option Slot → InstanceId → Disk → Disk
make_parent none i d = d
make_parent (some p) i d = make_dir p i d

-- `create_dir_all`: the directory and the one above it.
unfoldable pub create_dir_all : Env → Slot → InstanceId → Action (Unit {0})
create_dir_all env s i w =
    let v = tick env w in
    if env.fails w.calls
    then (err (os_error w.calls), v)
    else (ok tt, record v { disk = make_dir s i (make_parent (parent s) i w.disk) })

abbrev pub spoil : Option Contents → Slot → InstanceId → Disk → Disk
spoil none s i d = d
spoil (some c) s i d = place s i (some (file c)) d

-- `fs::write`, and a file that is created and written.
unfoldable pub write : Env → Slot → InstanceId → Contents → Action (Unit {0})
write env s i c w =
    let v = tick env w in
    if not (has_parent w.disk (parent s) i)
    then (err (os_error w.calls), v)
    else if env.fails w.calls
    then (err (os_error w.calls), record v { disk = spoil (env.leftover w.calls) s i w.disk })
    else (ok tt, record v { disk = place s i (some (file c)) w.disk })

-- `fs::rename` onto a file of the same instance: it replaces the file or does nothing.
unfoldable pub rename : Env → Slot → Slot → InstanceId → Action (Unit {0})
rename env from to i w =
    let v = tick env w in
    if env.fails w.calls || not (is_some (w.disk from i))
    then (err (os_error w.calls), v)
    else (ok tt, record v { disk = place from i none (place to i (w.disk from i) w.disk) })

abbrev pub bytes_of : ℕ → Option Node → Result Message Contents
bytes_of n none = err (os_error n)
bytes_of n (some dir) = err (os_error n)
bytes_of n (some (file c)) = ok c

-- Reads a file's bytes.
unfoldable pub read : Env → Slot → InstanceId → Action Contents
read env s i w =
    let v = tick env w in
    if env.fails w.calls then (err (os_error w.calls), v) else (bytes_of w.calls (w.disk s i), v)

unfoldable pub remove_file : Env → Slot → InstanceId → Action (Unit {0})
remove_file env s i w =
    let v = tick env w in
    if env.fails w.calls || not (is_some (w.disk s i))
    then (err (os_error w.calls), v)
    else (ok tt, record v { disk = place s i none w.disk })

-- The disk without what was under the root of `i`, but for the slots that `kept` names.
abbrev pub prune : (Slot → Bool) → InstanceId → Disk → Disk
prune kept i d t j = if under_root t && j == i && not (kept t) then none else d t j

unfoldable pub remove_root : Env → InstanceId → Action (Unit {0})
remove_root env i w =
    let v = tick env w in
    if env.fails w.calls
    then (err (os_error w.calls), record v { disk = prune (env.survives w.calls) i w.disk })
    else (ok tt, record v { disk = prune (λ t. false) i w.disk })
