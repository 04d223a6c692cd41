-- ===== src/Lib.antt =====
-- NXRemoteAPI: a verification library for the firmware that lets a Nintendo Switch be watched and
-- controlled over HTTP.
--
-- The program. Three processes run on the console. The core (firmware/core/main.cpp) listens on one
-- port, serves one request per connection, and answers mDNS queries. The orchestrator
-- (firmware/orchestrator/main.cpp) starts the core, watches it and restarts it. The companion app
-- (firmware/companion-app/main.cpp) installs them, and, as the launcher that takes the place of the
-- Album applet, starts titles that the core cannot start itself. The core and the launcher share two
-- files on the SD card, a request and a status. All use firmware/common.
--
-- What is modelled, file by file.
--   Base, Base/*: tests, lists over the native naturals, signed integers, and text as the list of
--     its byte values; Base/State and Base/Hoare: the calls that read and change a state, which the
--     programs share, and what they lead to. A C string is its bytes up to the first NUL.
--   CString, CString/*: the functions of the C library that the sources call, as the standard has
--     them: strstr, strchr, strtol, atoi, strtoull, snprintf (a cut to the room of the buffer) with
--     %u, %d, %X, and the lines of fgets.
--   ByteSearch: firmware/common/ByteSearch.cpp. A read out of bounds would be `none`.
--   HttpFraming, HttpFraming/*: firmware/common/HttpFraming.cpp.
--   JsonSafeAccess, JsonSafeAccess/Total: firmware/common/JsonSafeAccess.cpp over the interface
--     `Json` of the calls of nlohmann::json; `IsLawful` is the behaviour of it that the code relies
--     on. The library aborts the process on a value of another type; that is `none`.
--   Logger, Logger/History: firmware/common/include/Logger.h.
--   Config, Config/*: firmware/common/ConfigManager.cpp. The file is a text that is read whole, a
--     save is the text that is written.
--   Core: firmware/core/main.cpp. Core/World has the state of the process (settings, log, the two
--     flags of services, the pending launch) and `Platform`, the calls of libnx, of the sockets and
--     of the file system. Each call is an event, and each answer is any function of the events
--     before, so a theorem for every `Platform` is one for every behaviour of the console and of the
--     client, changes in the middle of a request included. Core/Net: recv_timeout and send_timeout.
--     Core/Album and Core/Launch: copy_file, the Album override and launch_program_by_id.
--     Core/Control, Core/Command, Core/Reports, Core/Info, Core/Screenshot and Core/Button: the routes.
--     Core/Request: handle_client, which composes them. Core/Effects and its modules: which events a
--     call adds. Core/Auth: who is served. Core/Waits: the loops.
--     Core/Stream, Core/Sized, Core/Screenshot/Bitmap,
--     Core/Screenshot/Memory, Core/Reports/Items and Core/Reports/Listed:
--     what a client is sent.
--     Core/Copy and Core/Handoff: the files that a launch writes. Core/Passive and Core/Quiet: requests that change nothing.
--     Core/Override and its modules: the Album override from the start of main on, and its removal.
--     Core/Mdns: what mdns_responder answers to a datagram. Core/Mdns/Responder: the thread, over `Lan`,
--     its calls of the bsd service, with a history of its own.
--     Core/Server: create_listen_socket and the accept loop, over `Network`, the calls of the bsd
--     service; Core/Server/Views and Core/Server/Sockets: what a history leaves open. Core/Boot:
--     main, over `Services`, the calls that start a service; Core/Boot/Serving: what main holds open.
--   Orchestrator, Orchestrator/*: firmware/orchestrator/main.cpp, the start of main, the launch, end
--     and restart of the core, the control port, the probe and the loop of main, over `Machine`
--     and `System`, the calls of the process manager and of the sockets, by the same
--     principle. Orchestrator/Views: what the log and the waits leave as it is; Orchestrator/Single: which
--     cores live.
--   Companion, Companion/*: firmware/companion-app/main.cpp, over `Device`, the calls of libnx, of
--     libcurl and of the file system, by the same principle. Companion/Log: add_app_log and the boot
--     log. Companion/Launcher: write_launch_status and run_launcher_mode, with `Writer`, how
--     nlohmann::json builds an object. Companion/Launcher/Handoff: a launch from the core's
--     request to the launcher's removal. Companion/Transfer: the write callbacks and download_file; a
--     transfer of libcurl is the pieces that it hands to the callback and its result.
--     Companion/Release: fill_release_info and get_latest_version. Companion/Repair: make_dirs,
--     check_and_fix_sysmodule and download_update. Companion/Bridge: try_connect and the core's log.
--     Companion/Terminal: the lines that draw_ui prints; Companion/Screen: draw_ui, whose text is one
--     event, and how many lines it has. Companion/Loop: a round of the loop of main;
--     Companion/Start: main from its start over that loop to its end.
--   Tests, Tests/*: a console with one client, a core that is gone, and the theorems there.
--
-- Fuel. `send_loop` runs on the length of the message and `copy_loop` on the length of the file,
-- since a round takes a byte at least. `await_body` runs on the 2047 bytes of the buffer for the
-- same reason; that no more is needed is proved. `await_exit` has the 15 slices of the source.
--
-- Bounds. Tick counts are 64-bit, counters of the log 32-bit, both with their wrap-around. Buffers
-- that `snprintf` fills cut what does not fit.
--
-- The loops of the core, of the mDNS thread, of the orchestrator and of the companion are run for any
-- number of rounds. The first three do not end; the companion's ends with appletMainLoop, with (+) or with an update.
--
-- Not modelled. nlohmann::json and the Catch tests are copies of other projects. How a terminal shows
-- the text of the companion's screen is not here. The threads of the core meet in the logger and the
-- settings alone, whose calls are single steps; the mDNS thread is a model of its own. What libnx runs
-- before and after main (__appInit, __appExit, the heaps) is calls of its services only. The Home
-- Assistant integration, the scripts and the builds are not firmware. Events after an abort are in the
-- model and not in the program.
pub mod Base
pub mod CString
pub mod ByteSearch
pub mod HttpFraming
pub mod Logger
pub mod Config
pub mod JsonSafeAccess
pub mod Companion
pub mod Core
pub mod Orchestrator
pub mod Tests
