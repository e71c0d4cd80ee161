-- ===== src/Lib.antt =====
-- A model of AHK-Unix, a daemon that reads an AutoHotkey-like script, watches a keyboard and runs the
-- macros whose triggers are typed.
--
-- The program's parts and their files:
--
--   src/StringUtil.cpp             Text.antt: `trim`, beside the functions of the C++ library that the
--                                  parsers use (find, substr, stoi, istringstream, two regular expressions)
--   src/RingBuffer.cpp             Ring.antt: the last keys pressed
--   src/LayoutProfile.cpp          Layout.antt: characters, special keys and modifiers as key codes, which
--                                  Keys.antt names
--   src/commands/SendInputCommand.cpp   SendInput.antt: `parse_sequence`
--   src/commands/ScriptParser.cpp  Script.antt: the text of a block becomes lines, the lines commands
--                                  (Command.antt)
--   src/AhkParser.cpp              Hotstring.antt: one trigger line; ScriptFile.antt: `parse_file`
--   src/Daemon.cpp                 Daemon.antt: matching, the handler of an event, the queue of macros and
--                                  its worker, reloads, the critical sections of the threads
--                                  (Daemon/Threads.antt), the loop of `run` (Daemon/Loop.antt), and the
--                                  execution of a macro (Daemon/Job.antt)
--   src/commands/IfCommand.cpp     Context.antt: variables, the evaluation of a condition and the
--                                  interpolation of a text; Context/Effects.antt: the commands that set
--                                  variables, also src/commands/IncrementCommand.cpp; Context/Run.antt:
--                                  commands run to their end, with exceptions
--   src/daemon/IpcServer.cpp       Ipc.antt: the requests of clients, their replies, start and stop
--   src/cli/main.cpp               Cli.antt: the client `ahkunixctl`
--   src/daemon/main.cpp            Startup.antt: the options, the start, and the callbacks of the server;
--                                  Startup/Serve.antt: `main` to its exit, with the destructors;
--                                  Startup/Cleanup.antt and Startup/Detach.antt: the shutdown and the
--                                  detaching of src/daemon/Daemonizer.cpp
--   src/Fd.cpp                     Fd.antt: the objects that own descriptors
--   src/Signals.cpp                Startup/Signals.antt: the handlers of signals, with those of the
--                                  Daemonizer; Startup/Fork.antt: `daemonize`
--   src/UinputKeyboard.cpp, src/EvdevKeyboard.cpp, src/Clipboard.cpp and src/KeyboardDetect.cpp
--                                  Device.antt: the keyboards, the clipboard and the choice of a device
--
-- `parse_file` calls `parse_hotstring_line` for each trigger line and `parse_action_block` or
-- `parse_replacement` for the body of a group of triggers; the daemon loads the hotstrings that it
-- returns, pushes each key pressed to the ring, and looks for the longest trigger that the ring ends
-- with. A position in a text or in the lines is the text or the lines still unread. An exception is an
-- error value (Base/Throws.antt). The state of the daemon is one record and its critical sections are
-- functions on it. In the relation `Move` of Daemon/Threads.antt the sections of the input thread, of a
-- reload and of the worker follow each other in any order; in the relation `Step` of Daemon/Steps.antt
-- each call is one step, and Daemon/Sections.antt joins the two. A macro is executed over numbered loads
-- of the stop flag, where a parameter tells what each load reads (Daemon/Job.antt). Context/Run.antt
-- executes the same commands without a stop flag. In both, parameters tell what the n-th draw of a random
-- number gives and whether the n-th tap or paste of the macro throws; Daemon/Legacy.antt lists the acts of a
-- macro that has a replacement and no commands.
--
-- The client writes a request to the socket, the server reads it, gives a script to the callback of the
-- daemon's `main`, which calls `reload_script`, and sends a reply that decides the status of the client:
-- Session.antt puts the three together. A loop over calls of the system takes a list with one outcome for
-- each call.
--
-- Bounds: an `int` or a `long long` is an integer with the range checked where the code checks it; a
-- `std::size_t` is a natural number, and wraps where `parse_hotstring_line` lets it wrap. A text is the list
-- of its bytes. The loops of `parse_sequence`, `parse_replacement`, `split_utf8` and
-- `parse_trigger_expr` have fuel for one round more than the text has bytes, each round takes at least
-- one byte; the block parser has two calls for each line and one more; the loop of `parse_file` one
-- round more than there are lines. A wait has a round for each millisecond, and a round waits at least one.
--
-- Not modelled: sockets, processes, device files, pipes and the clock, which are calls of the system: what
-- they return is a parameter; the clock moves between the taps and pastes of a macro, but not while one text
-- is interpolated. The events that the loop of `run` forwards are written without a failure; a write may
-- fail in Device/Output.antt. A tap or paste that throws in a macro counts as not done. A read of the
-- keyboard blocks, as it is opened without O_NONBLOCK. The join of the worker and the lines that are logged
-- are left out. Startup/Serve.antt runs `main` without the requests of clients. The text of errno
-- (src/Errors.cpp) and the binding of a context to commands are left out: all commands of a file share one
-- context. The field `require_all_modifiers` is never read, and `strict_mode` and `origin` are ignored by
-- the code. The context that the hotstrings of a file share is returned beside them.
pub mod Base
pub mod Text
pub mod Ring
pub mod Keys
pub mod Layout
pub mod Command
pub mod SendInput
pub mod Script
pub mod Hotstring
pub mod ScriptFile
pub mod Daemon
pub mod Cli
pub mod Context
pub mod Device
pub mod Fd
pub mod Ipc
pub mod Session
pub mod Startup
