-- ===== src/Lib.antt =====
-- A model of ProviderApi, a gateway that serves an OpenAI-compatible chat API from provider plugins,
-- and what it guarantees. A request comes in at internal/api, is resolved by internal/model against the
-- configuration, and goes over JSON-RPC (internal/jsonrpc) to a plugin process that internal/plugin
-- runs; the plugin is a server of sdk/plugin, such as plugins/openai-compat, which calls an upstream
-- HTTP service, or plugins/mock. Events of a stream come back as notifications, and internal/trace
-- records the request in internal/store, with secrets taken out by internal/redact. The administrator
-- reads the records through internal/api and the commands of cmd/providerapi; internal/app starts and
-- stops the whole.
--
-- Which file models what:
--   Prelude, Text, Dict, Json   shared: numbers and their decimal texts, tests, sorting, texts, association lists, JSON values
--   Config                      internal/config/config.go: Load behind the YAML decoder
--   Model                       internal/model: Resolve, ListAliases, ListAdminModels
--   Protocol                    internal/protocol: types, errors, levels, JSON of content and tools
--   Redact                      internal/redact/redact.go
--   JsonRpc                     internal/jsonrpc/jsonrpc.go: a connection, one step per turn, and Serve
--   Plugin.Streams              internal/plugin/runtime.go: onNotify, Stream, closeStream, Cancel
--   Plugin.Instance, .Manager   internal/plugin/runtime.go: life cycle, environment, StartAll, Get
--   Plugin.Calls                internal/plugin/runtime.go: Complete, Stream and Health on an answer
--   Sdk                         sdk/plugin/server.go: handle, forwardStream, audit events, and in
--                               Sdk.Listen the socket, from the arguments on
--   Compat                      plugins/openai-compat/main.go: body, headers, chunks, the stream, and in
--                               Compat.Exchange the handlers Handshake, Complete and Stream
--   Mock                        plugins/mock/main.go: Complete and Stream without an upstream
--   Trace                       internal/trace, internal/store/store.go: sessions, summaries, files of
--                               full traces, sweep, the tables and their migration, and in Trace.Service
--                               all sessions of one service, in turns
--   Api.Chat, .Stream, .Chunks  internal/api/openai.go: routing, handleStream, the JSON of the answers
--   Api.Handler                 internal/api/openai.go: chatCompletions from the request to the reply
--   Relay                       a stream from the upstream's lines to what the client reads
--   Api.Admin, .Console         internal/api/admin.go and internal/api/console/serve.go
--   Observability               internal/observability/metrics.go: the families of metrics and their labels
--   App, Command                internal/app/app.go and cmd/providerapi/main.go
--   Tests                       concrete inputs for the theorems
--
-- How state is modelled: a method on a shared object is a function on a record of the object's fields.
-- Where the code holds a lock over a whole operation, the operation is one step, and an interleaving is a
-- list of steps; onNotify, which sends behind its unlock, has a second step for a send that comes late,
-- and a watcher's look at `stopped` and its Start are two steps. failActiveStreams is one step in
-- the life of an instance; in the states that the streams reach it is also taken in its parts, the loss of
-- the maps, the send of the error and the close, with any other step between them. In three places one step
-- stands for more than one section under a lock or for a wait: StopAll, which waits for the processes; Run's
-- end, where a watcher may still sleep or start a process; and Call, whose entry in the pending map and whose
-- write are under two locks. In Trace.Service each call of a method of a session is a step, and each session is known by its request's id, which is taken to be new.
-- A channel lies on a heap and keeps everything that was ever sent; a send that would wait is `none`.
-- A Go map is an association list; the order in which a loop visits it is the order
-- of the list, so a theorem for every list is one for every order. A table of the database is the list
-- of its rows, and a statement the change that it makes to them. An int is an integer without bound,
-- as no counter of the code comes near 2^63. A counter of metrics panics when it is given a negative
-- number, and the handler ends there. Every loop of the code runs over a list, and is structural
-- recursion. The only fuel is that of Text.Decimal, which prints a number in as many rounds as the number
-- is large; a number below 2^63 is read back, so the fuel is enough.
--
-- What is not in src/ is a parameter: json.Unmarshal of a body or a chunk, most decimal texts, fmt's texts,
-- time.ParseDuration, filepath.Join, the package of flags, the environment, the start of a process, the
-- HTTP client. In Api.Handler the plugin behind its connection is one too: the answer of a call, and the
-- audits that come in before it. encoding/json is modelled as the values it decodes to; a
-- ProviderError in the data of an RPC error is written to such a value and read from it by the tags of its
-- fields, with statuses that are not negative. Texts are compared by code
-- points; ToLower is exact for comparisons with ASCII texts.
--
-- Not modelled: the HTTP servers and the router, processes and sockets beyond how their use ends, the
-- pragmas of the database and the modes of files, the metrics' registry, the random ids of internal/idgen.
-- Times are arguments, and metrics of durations are left out.
pub mod Prelude
pub mod Text
pub mod Dict
pub mod Json
pub mod Protocol
pub mod Config
pub mod Model
pub mod Redact
pub mod JsonRpc
pub mod Plugin
pub mod Sdk
pub mod Compat
pub mod Mock
pub mod Trace
pub mod Api
pub mod Relay
pub mod Observability
pub mod App
pub mod Command
pub mod Tests
