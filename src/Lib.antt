-- ===== src/Lib.antt =====
-- OverCrow: the daemon that follows the game a user selected, and what it shows and starts for it.
--
-- The parts, and how they meet. The core runtime (crates/overcrow-core/src/runtime.rs) holds the
-- overlay's state, the processes that were last read, the settings and the widget profile. It is asked
-- to do things by the D-Bus service, the poll of X11, the refresh of the processes and the watchdog of
-- the window bridge, in any order; each operation runs under the runtime's lock and publishes a
-- snapshot to its subscribers. Which process is a game is read off it and its ancestors
-- (classifier.rs), and whether it is selected off the settings (crates/overcrow-config/src). The
-- session coordinator (session.rs) starts and stops the overlay's systemd units as a selected game
-- comes and goes. On Hyprland a bridge (crates/overcrow-hyprland/src) tells the core which window the
-- player looks at, keeps the overlay over the game, tags the windows that take or block the input, and
-- binds the shortcuts. The overlay (crates/overcrow-overlay/src) is handed the core's snapshots by a
-- channel that keeps the latest one.
--
-- The files.
--   Common: tests, lists, strings, paths, floats, integers and durations of Rust's standard library,
--     as far as the program uses them.
--   Protocol: crates/overcrow-protocol/src/state.rs. `CoreState` with observe_game, clear_game,
--     toggle_overlay and set_overlay_interactive, and the equalities that Rust derives.
--   Config.Settings, Config.Accelerator: crates/overcrow-config/src/model.rs.
--   Config.Allowlist: crates/overcrow-config/src/allowlist.rs.
--   Config.Widgets: crates/overcrow-config/src/widgets.rs.
--   Core.Classifier, Core.Stopwatch, Core.Telemetry: crates/overcrow-core/src/classifier.rs,
--     manual_stopwatch.rs and telemetry.rs.
--   Core.Runtime: runtime.rs and the observation of window.rs. State has the records and the tests on
--     them, Snapshot the publication, Metadata what is kept beside the snapshot, Operations the
--     operations by their names in the source, Start the constructors, Step the operations as one step
--     function over commands. Held and the children of Step have the invariant.
--   Core.Session: session.rs. Desktop detects the session, Plans has the commands, Coordinator starts,
--     stops and reconciles, Loop follows the desired state, Shutdown ends it.
--   Hyprland.Model, Reconcile, Geometry: crates/overcrow-hyprland/src/model.rs, reconcile.rs and
--     geometry.rs. Focus, Diagnostics, Events, Bridge and Loop: bridge.rs, in the order tags and focus,
--     the rate of log lines, the event socket's lines, one pass of each duty, and the turns of
--     run_bridge. Bindings: the text of the bindings of ipc.rs. Shortcut: shortcut.rs, with the
--     accelerators in Shortcut, whose a binding is in Binding, and ShortcutReconciler in Reconciler.
--   Overlay: crates/overcrow-overlay/src/session_clock.rs, runtime/scheduler.rs and runtime/latest.rs.
--   Examples: concrete inputs.
--
-- How the code is modelled. `&mut self` is the state before and after. `Instant::now()`, the ticks
-- per second and the processes that /proc shows are arguments. Times are in nanoseconds. Machine
-- integers are natural numbers with their saturation written out; a float is NaN, an infinity or an
-- exact multiple of the smallest subnormal, which is all that the comparisons need. A text is its
-- list of code points; paths that are not UTF-8 are not told apart from their text. A `BTreeSet` or
-- a `HashSet` is a list, a `HashMap` an association list of which the first entry of a key counts.
-- A watch channel is the value that it last sent. A stop of the session is one step, with the
-- runtime as the stop itself leaves it; what the D-Bus service reports to the runtime between its
-- commands is not part of it. The runner of the session's commands is a parameter with a state of
-- its own, and any errors; nothing is assumed of it. What the channels and the timer of the
-- session's loop do is a list of rounds, and how the tasks of the shutdown end is an argument. What
-- the compositor and the core answer to the bridge is an argument of a pass, and what is sent to
-- them is a list; an error is one value, whatever its text. The bits of a mask are tested by
-- division. The reader of the event socket is the list of its buffers. In the channel of the latest
-- value the locked part and the token are two steps of any number of publishers and one receiver.
--
-- Bounds and fuel. The walks through a process's ancestors stop after 64 (`MAX_ANCESTORS`), as in the
-- source, which is their fuel. The digits of a number are printed with one more than the number as
-- fuel. Everything else is structural recursion.
--
-- Not modelled: the D-Bus interfaces, X11, sockets, files and JSON, the child process of
-- systemctl with its timeouts, the sockets, timers and log lines of the Hyprland bridge, the overlay's
-- user interface and its Twitch, Discord, media, notes and Warframe clients, the control application,
-- the command line and the log.
pub mod Common
pub mod Protocol
pub mod Config
pub mod Core
pub mod Hyprland
pub mod Overlay
mod Examples
