-- ===== src/Lib.antt =====
-- The daemon `cfctl` of this repository (cuttlefish/cfctl), which runs Android guests in Cuttlefish:
-- it allocates instances, launches and terminates their guests, watches them over adb, cleans up after
-- them, and keeps their state in files. A client sends a request over a socket; the daemon dispatches
-- it to a manager, which answers with a response.
--
-- The files and the code that they model, paths from the root of the repository:
--   Protocol.antt, Protocol/Reply.antt   cuttlefish/cfctl/src/protocol.rs: the requests and responses.
--   Config.antt       cuttlefish/cfctl/src/daemon/config.rs: the settings and their defaults; and
--                     cuttlefish/cfctl/src/bin/cfctl-daemon.rs: the settings from the arguments.
--   Guest.antt        cuttlefish/cfctl/src/daemon/guest.rs: `GuestHandle` (`try_wait`, `wait_timeout`,
--                     `signal`) and the registry of handles.
--   Manager.antt and the files below it   cuttlefish/cfctl/src/daemon/manager.rs, `InstanceManager`:
--     Metadata        `metadata`, `write_metadata`, `write_env_file`, `mark_metadata_state`
--     Alloc           `allocate_id`, `create_instance`, `hold_instance`
--     Cleanup         `kill_guest_processes`, `collect_guest_pids`, `cleanup_host_state` and its steps
--     Tail, Logs      `tail_file` of daemon/util.rs, and `logs`, `status`, `describe`
--     Launch          `prepare_host_directories`, `ensure_qemu_datadir`, `spawn_guest_process`
--     Terminate       `terminate_guest`, `spawn_exit_watcher`, `handle_guest_exit`
--     Adb             `wait_for_adb`, `verify_boot_completed` and what they ask adb
--     Start           `start_instance`, `create_and_start_instance`
--     Destroy         `stop_instance`, `prepare_destroy`, `finish_destroy`, `destroy_instance`, `deploy`
--     Prune           `list_instances`, `prune_instance` and the two prunings
--     Handle          `handle`: the operation of each request and its response
--   Daemon.antt       cuttlefish/cfctl/src/daemon/mod.rs: `dispatch` and `handle_stream`, from the
--                     decoded request to the response, and which locks a request holds.
--   Daemon/Stream.antt, Daemon/Startup.antt   `handle_stream` from bytes to bytes; `ensure_dirs`,
--                     `sweep_trash`, and `make_trash_path` of daemon/manager.rs.
--   Client.antt       cuttlefish/cfctl/src/bin/cfctl.rs: the requests, the output and the exit of the
--                     command line client.
--   Daemon/Locks.antt the table of the locks of the instances (`lock_instance`, `cleanup_instance_lock`)
--                     under requests that run at the same time: a relation of single steps.
--   Compositor.antt and the files below it   compositor-rs/src/main.rs: the state, and in
--     Render          `render_buffer`, its loops and its arithmetic
--     Handle          the requests of the Wayland objects (`Dispatch` and `GlobalDispatch`)
--     Setup, Events   `main`: the setup of the screen, the key events, the loop of 60 seconds
--   TestClient.antt   compositor-rs/src/bin/test-client.rs: what it draws, what it asks the compositor
--                     for, what it does at an event, and its interactive loop.
--   DrmRect.antt      rust/drm_rect/src/lib.rs: the fill of a mapped frame buffer; DrmRect/Display.antt:
--                     `fill_display`.
--   Exec.antt         the state, the errors (`?`, `map_err`, `match`) and, in the files below it, the
--                     rules that the proofs use: what an action keeps, leaves, returns, and that it ends.
--   Files.antt, Host.antt, Host/Fs.antt, Host/Os.antt   the machine that the code calls: its files, the
--                     clocks, the processes, other programs.
--   Text.antt, Text/Numbers.antt   the functions of Rust's `str` that the code uses, on bytes.
--   Prelude.antt      shared names, Boolean tests, lists and maps. Tests.antt: runs on a small machine, on
--                     a small screen, of the client, and through the locks.
--
-- State. A `World` is the daemon's memory (the cache of metadata, the registry with the handles that
-- it points to, the threads that were spawned) and the part of the disk that the daemon owns: for each
-- instance and each role of a file (`Slot`) what stands there, and whether its directories under /tmp
-- exist. An operation takes the world to a result and the world that is left: an error keeps what was
-- done before it. Texts of errors are trees of the literal parts and the numbers that they show.
-- Logging is not modelled.
--
-- The machine. What the operating system and other programs answer is a parameter (`Host`): the n-th
-- call of a run gets the n-th answer, so that the theorems range over every behaviour: calls that fail,
-- writes that leave other bytes behind, removals that stop half way, any pace of the clock (which never
-- goes back), and any exit of a guest. Processes are the host's: what a `pkill` or a `kill` ends, in
-- this instance or in another one that its pattern matches, shows in the later answers, where any guest
-- may have ended; what an operation leaves alone is said of the daemon's files, metadata and handles,
-- and not of processes. serde_json's decoder is the parameter `parse_json`.
--
-- What is assumed: the base directories of the settings are distinct; a stat of a file of the daemon
-- answers from the disk; no two managers work on one instance at once (the lock of the dispatch); an
-- operation of another instance does not run in between; the thread of an exit watcher reaches its wait
-- at once; an `Instant` does not overflow, and code that panics is not modelled.
--
-- The compositor is a program of its own. Its state is a record, and what the kernel and the crates
-- answer is a parameter (`Kernel`, `Drm`, `Rounds`). An i32 or a u16 is a natural number whose products
-- wrap around, as in a release build; `none` or `undefined` is undefined behaviour: an access outside a
-- mapping, or behind the end of the file that is mapped. A mapping of 0 bytes fails. Locks that are
-- poisoned, and which client an object belongs to, play no part in it: objects are kept by their number.
--
-- Loops. `wait_timeout` sleeps for 200 ms in a round, `wait_for_adb` for a second and
-- `verify_boot_completed` for half a second, until a deadline: as many rounds as fit before the
-- deadline, and two more, are the fuel of the model. `stuck` is the result of a model that runs out of
-- rounds, and of a wait that never ends. The loop of the
-- compositor sleeps for 10 ms in a round: 6001 rounds are more than 60 seconds. The client's
-- interactive loop sleeps for 16 ms in a round: 1876 rounds are 30 seconds and more. Other loops are over
-- lists, over pixels, and over the 99 ids.
--
-- Not modelled: sockets and the encoding of JSON, the accept loop of the daemon's `run`, the parsing of
-- arguments by clap, the interleaving of the handlers of requests and of the threads that they leave
-- behind, the test client's connection and its wait for the frame, and the test that lists input devices.
pub mod Prelude
pub mod Exec
pub mod Text
pub mod Protocol
pub mod Config
pub mod Files
pub mod Host
pub mod Guest
pub mod Manager
pub mod Daemon
pub mod Client
pub mod Compositor
pub mod TestClient
pub mod DrmRect
pub mod Tests
