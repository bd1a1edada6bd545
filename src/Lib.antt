-- ===== src/Lib.antt =====
-- The core of the LLM universal proxy: a client speaks one wire format, an upstream another, and the
-- proxy authorizes the request, finds the upstream, decides whether the body must be rewritten, sends
-- it with the right credential, translates events back and counts what happens.
--
-- A request's way through the program, and the files that model each part:
--   * Formats: src/formats.rs, the three wire formats and their names.
--   * DataAuth: src/server/data_auth.rs. `require_data_access` extracts one credential, decides by the
--     access that is configured, and strips the credentials from what the handlers see.
--   * Detect: src/detect.rs, the client's format, from the path and the body.
--   * Routing: src/config.rs. `resolve_model` finds the upstream of a model, by prefix, alias or
--     because there is only one; also the validation of aliases, and the URLs.
--   * ModelSurface: src/config/model_surface.rs and `ModelLimits` of src/config.rs, in two layers.
--   * Discovery: src/discovery.rs, the formats that an upstream speaks and the one to send in.
--   * Dialect and DialectEmit: src/config/dialect.rs and src/translate/internal/dialect_emit.rs, the
--     levels of reasoning that an upstream takes, and how a client's level is written into the body.
--   * RequestProcessing: src/request_processing.rs and src/provider_state_controls.rs, whether the
--     body must be rewritten.
--   * RoleRepair: src/translate/internal.rs, what is rewritten in a request whose format stays the same.
--     RoleRepair/SameFormat has the repairs in their order.
--   * PromptCache: src/prompt_cache_controls.rs, what becomes of prompt cache controls.
--   * Headers: src/server/headers.rs, the credential and the headers that go to the upstream.
--   * Wire: src/streaming/wire.rs, frames of server-sent events, cut from a buffer and written.
--   * Streaming: src/streaming/state.rs and src/streaming/responses_source.rs, the translation of the
--     events of a Responses stream to chunks of Chat Completions. Streaming/Responses has the branch of
--     each event, Streaming/ToolCalls the calls and their arguments, Streaming/Finish the end,
--     Streaming/Usage the usage, Streaming/Size the bytes that a state keeps, Streaming/Normalize the
--     new part of a piece of text (src/streaming/openai_sink.rs), Streaming/Seeding the arguments that
--     a call starts with, Streaming/Limits the timers (src/streaming/stream.rs).
--   * InternalArtifacts: src/internal_artifacts.rs, the names that must not leave the proxy.
--   * PublicIdentity: src/translate/internal/tools.rs and src/server/public_boundary.rs, which bodies
--     are refused for a tool's name. PublicIdentity/Boundary has the guards of Responses resources,
--     PublicIdentity/Names the names that a body shows.
--   * TrackedBody: src/server/tracked_body.rs, the body of a response under the tracker of Telemetry.
--     TrackedBody/Limited puts it over a stream under its timers.
--   * Bridge: src/server/conversation_state_bridge.rs, responses kept for a while within a budget.
--   * Telemetry: src/telemetry.rs, counters and the tracker of a request. Telemetry/World has the
--     steps of a running proxy: any interleaving of calls on any trackers.
--   * Hooks: src/hooks.rs, the circuit breakers of the two hooks and the budget of pending bytes.
--     Hooks/Budget has the interleavings of the compare-exchange loop.
--   * DashboardLogs: src/dashboard_logs.rs, the last lines of the log and the writer that cuts its
--     text. DashboardLogs/Recent has the buffer, DashboardLogs/Cutting the loop.
-- Json models `serde_json::Value`, Prelude holds shared lists, texts, results and maps, and Tests has
-- runs of the model and the theorems at concrete inputs.
--
-- A definition keeps the name of the function it models; a method that shares its name with another
-- is named for its type. A part of a function that is a definition of its own stands just before it.
-- State is passed in and out: under a mutex a call is one step. Numbers are natural numbers; where
-- the source saturates at 64 bits the model does; where it sums token counts or annotations without a
-- check the model wraps, as a release build does; other sums have no bound.
-- Two loops run on fuel: `take_one_sse_event`, on the length of the buffer, of which each turn takes
-- two bytes at least, and `drain_lines`, on the characters of the pending text, of which each turn
-- takes one at least. A numeral is printed on fuel one above its number, which a division by ten uses
-- up slower.
--
-- Parameters stand for code of other packages: the serialiser and the parser of JSON, lossy UTF-8,
-- SHA-256, the clock, and the network. The stream inside another is generic in the source and a
-- parameter here.
-- `str::to_lowercase` is exact for comparisons with ASCII texts. Instants are numbers, in
-- nanoseconds where the hooks read whole seconds off them.
--
-- Not modelled: the translation of whole bodies, the other sources and sinks of translated streams
-- and the guards that look into frames, the synthesis of prompt cache keys, the handlers and resources
-- of src/server, redaction, the admin interface and the dashboards, debug traces, and the
-- reading of configuration files: these are input and output, or wait for the parts above.
pub mod Bridge
pub mod DashboardLogs
pub mod DataAuth
pub mod Detect
pub mod Dialect
pub mod DialectEmit
pub mod Discovery
pub mod Formats
pub mod Headers
pub mod Hooks
pub mod InternalArtifacts
pub mod Json
pub mod ModelSurface
pub mod Prelude
pub mod PromptCache
pub mod PublicIdentity
pub mod RequestProcessing
pub mod RoleRepair
pub mod Routing
pub mod Streaming
pub mod Telemetry
pub mod Tests
pub mod TrackedBody
pub mod Wire
