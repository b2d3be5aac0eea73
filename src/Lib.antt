-- ===== src/Lib.antt =====
-- Verification library of the GoRadio SA-MP plugin, a C++ plugin that drives an audio server for the
-- PAWN scripts of a game server.
--
-- The parts, from the bottom up, and how they meet:
--
-- - Base: the shared notation. A `std::string` is the list of its bytes, numbers are the native ones,
--   a signed integer is a `ℤ` over them. Clib: the C library functions that the sources call, with
--   what the standard leaves open as the fields of `Platform`, a parameter of the model.
-- - Json (src/json.h, src/json.cpp): `JsonValue` with its accessors (Value), `Parser` (Parser and its
--   children, one function per method), `JsonEscape` (Escape) and `JsonObject` (Builder). A value of
--   the parser's recursion runs on fuel of twice the text's length and one; Total proves it enough.
-- - Http (src/http.h, src/http.cpp): `ParseUrl` (Url), the buffered reader of `HttpConnection` (Reader),
--   status line and headers (Headers), the requests (Connection). For these the transport is a script
--   (Wire): what each connect, send and receive will find. The loops over receives run on fuel of what
--   the script holds. Sockets has the plain transport itself, `DialTcp` and `PlainTransport`, over the
--   calls of the system, which are a parameter; the loop of `SendAll` runs on fuel that it is given.
-- - Connect (src/connect_client.h, src/connect_client.cpp): errors (Errors), `ConnectClient::Call`
--   (Client), the envelopes (Envelope) and `EventStream` (Stream).
-- - Station (src/station.h, src/station.cpp): the data of a station, its requests, and its metadata.
-- - Manager (src/manager.h, src/manager.cpp): the state (State), the configuration (Setup), the
--   operations of the natives (Stations, Commands), the cached status (Status), the workers (Worker),
--   the stations' threads and the poller (Streams). Each operation is a function on the state, since
--   each holds the lock; a thread is a state machine whose steps other threads may come between, and
--   the replies of the server are arguments of its steps. `Shutdown` is two steps, before and behind
--   its joins, since threads go on in between. Registry follows the map of the stations
--   through all operations.
-- - ServerConfig (src/serverconfig.h, src/serverconfig.cpp): the settings of server.cfg.
-- - Log (src/log.h, src/log.cpp): the lines of the log, and `Format`.
-- - Amx (src/amxutil.h, src/amxutil.cpp, sdk/amx.h): the entry points of the server, which are a
--   parameter (Exports), the strings of the scripts (Strings), the list of scripts (Scripts), and
--   `AmxCallback` (Callback). Stacks and Carried state what the AMX documents of its heap, its
--   stack and the strings on the heap.
-- - Natives (src/natives.cpp): one function per native, in files by their section of the source, the
--   table (Table), and the callbacks that the events become (Events). Declared is the table of
--   include/goradio.inc, which the scripts see.
-- - Plugin (src/plugin.cpp): the entry points, and the runs of the whole plugin (Running).
--
-- A script calls a native of Natives, which acts on Manager; a JSON request goes from Station and
-- Manager through Connect.Client to Http.Connection; the reply comes back as a `Reply`, which
-- Manager.Worker turns into events; a tick hands these out, and Natives.Events calls the publics of the
-- scripts by Amx.Callback.
--
-- Not modelled: TLS, which only calls its library; where the other parts log; the waits of the
-- backoff; `Interrupt`, which shows as a failed receive; the overflow of `int` ids, of the `int` product
-- that makes milliseconds of the poll interval in server.cfg, and of `long long` sums; a script that
-- loads or unloads another one while a callback is delivered.
pub mod Base
pub mod Clib
pub mod Json
pub mod Http
pub mod Connect
pub mod Station
pub mod Manager
pub mod ServerConfig
pub mod Amx
pub mod Natives
pub mod Plugin
pub mod Log
