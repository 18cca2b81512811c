-- ===== src/Lib.antt =====
-- A model of codex-shim, the proxy between Codex Desktop and other model backends.
--
-- A request of the Responses protocol comes in, its `input` goes through the input pipeline, which
-- may read earlier items from the conversation cache, and it is posted upstream by the retry loop.
-- The files model these parts of codex_shim:
--
-- - Cache: `ChatgptConversationCache` of codex_shim/chatgpt_conversation_cache.py. Cache/Segment is
--   `sanitize_path_segment`; Cache/State the fields and the steps `_remember_locked`,
--   `_touch_locked`, `_note_disk_locked` and `_drop_disk_locked`; Cache/Index
--   `_ensure_index_locked`; Cache/Store the methods `get` (get_items), `put` (put_items), `latest`,
--   `prune_until`, `stats` and `_evict_locked`. Cache/Invariant, Rebuild, Eviction and Methods carry
--   the proofs, Cache/Promises what the class promises.
-- - Pipeline: codex_shim/responses_input_pipeline.py and the ids of codex_shim/tool_translate.py.
--   Pipeline/Items is the kinds of items, Ids the canonical ids and `align_responses_tool_call_ids`,
--   Orphans `synthesize_orphan_tool_calls` and `synthesize_missing_tool_outputs`, Cleared
--   `clear_persisted_lookup_ids`, Prepare `expand_cached_responses_input`,
--   `prepare_responses_input_items` and `apply_responses_input_pipeline_to_body`.
-- - Retry: codex_shim/net/retry.py. Retry/Policy is `RetryPolicy` and `_RetryState`, Throttle
--   `next_throttle_delay`, Loop `throttle_sleep` and `retry_aiohttp_post`, Connect
--   `retry_aiohttp_ws_connect`, Urllib `request_urllib`.
-- - Prefill: codex_shim/net/prefill.py, the continuation of a stream that was cut.
-- - StreamGuard: `StreamGuard` of codex_shim/net/stream_guard.py over the protocol `TerminalEmitter`.
-- - Emitters: codex_shim/net/emitters.py, the two relays of native streams as instances of that
--   protocol; Emitters/Relay is the loop of `_chatgpt_passthrough` in codex_shim/server.py that relays a
--   Responses stream under a guard, Emitters/Socket the raw chat emitter and the WebSocket relay, whose
--   proofs are in Socket/Once and Socket/Calls. Emitters/Terminals counts terminal events, Relay/Lines is about
--   the loop, Relay/Endings about the exit.
-- - Sse: `sse_lines` of codex_shim/net/sse.py; Sse/Chunks compares it with the lines of the whole stream.
-- - Errors: codex_shim/net/errors.py. Errors reads fields, Upstream is `parse_upstream_error`, Events
--   `chat_chunk_upstream_error`; Upstream/Nonblank is about what the client is told.
-- - Headers: codex_shim/header_passthrough.py. Headers has the merge of headers and those for the
--   OpenAI and Anthropic protocols, Chatgpt those for ChatGPT; Origin and Secrets carry the proofs.
-- - HostGuard: codex_shim/hostguard.py, which Host headers are admitted; HostGuard/Names says what name a
--   header has. Continuation: codex_shim/continuation_policy.py, when a continuation is expanded from
--   the cache.
-- - Schema: `tighten_json_schema_required` of codex_shim/translate.py; Schema/Tools the tools whose
--   schemas are tightened, Schema/Required the proof.
-- - History: `_responses_input_to_messages` of codex_shim/translate.py. History has its lists and
--   `flush_pending_assistant_tool_calls`, Search the helpers for web searches, Items those for names and
--   summaries, Parts what each item stands for, Conversion the loop over the items; Calls and its
--   children are about the order of calls and outputs (Searches lists the searches that are not called), Kept about what the messages hold.
-- - Usage: `normalize_responses_usage` and `_responses_usage_to_anthropic_usage` of codex_shim/translate.py.
-- - MessageStream: `AnthropicMessagesStreamState` of codex_shim/server.py, its start and the blocks of text and
--   reasoning; MessageStream/Turn its tools, `write_chat_delta`, `finish` and `fail`, Wire the chunks that are
--   read and the frames that are sent, Relay `AnthropicMessagesEmitter` and the handler
--   `_stream_openai_chat_as_anthropic` under a guard. Protocol states what a client expects of the blocks; Blocks
--   and its children carry the invariant, Endings and Content what the stream keeps.
-- - Router: codex_shim/router.py. Router/Task is the signal of a task, Scores `parse_scores`,
--   `pick_candidate` and `fallback_slug`, Auto `resolve_auto` with its cache. Scores/Best, Scores/Pools
--   and Auto/Soundness carry the proofs.
-- - Json, Prelude: JSON values, dictionaries in insertion order, texts as lists of code points.
-- - Tests: runs at concrete inputs.
--
-- The cache is a value; each method takes it and returns the next one, since the lock makes a method
-- one step. Snapshots are values, so the deep copies are the identity. The files below the root are a
-- dictionary from paths to contents, sizes and times. The eviction loops run on fuel, the number of
-- indexed entries: each round drops one, and the bounds on bytes and sessions are proved at that fuel.
-- `throttle_sleep` runs on fuel, the delay in nanoseconds, of which each round sleeps at least one. A
-- duration is a whole number of nanoseconds where the source has float seconds. The loops read a
-- script of what each call did; the script's end is the ending `unfinished`.
--
-- Parameters: Python's `\w`, the SHA-256 digest, the length of a file as JSON, the clock of the file
-- system, `max_cache_bytes`, UUIDs, Python's `str` of a value, the name resolver, the jitter,
-- what `classify_throttle`, `is_retryable` and `parse_retry_after` say of a failure, the answers of `disconnect_fn`,
-- the classifier of the router, the conversions of contents that History uses (`Contents`),
-- `json.loads`, Python's `float` and `hash`, `str.lower`, the version of the installed `codex`, and UTF-8 decoding.
-- What is assumed of them stands as a hypothesis of the theorem that needs it.
--
-- Not modelled: JSON numbers with a fraction, the classification of failures in codex_shim/net/errors.py,
-- whose result the loops of Retry take with each failure, log lines, a write that fails, an item type that cannot be hashed, environment
-- variables, and the parts of codex_shim that are not named above
-- (the rest of the HTTP server and of translation, catalogs, the Cursor bridge, compaction, OAuth). The relay
-- loop is the one without a model override, and its collector of items is left out. The router's
-- costs, scores and threshold are whole numbers of millionths. The handler of MessageStream serves a client
-- that stays; an index of a tool call below 0, and a name or arguments that cannot be appended after another
-- part of their call was, are left out.
pub mod Prelude
pub mod Json
pub mod Pipeline
pub mod Retry
pub mod Cache
pub mod Prefill
pub mod StreamGuard
pub mod Router
pub mod Headers
pub mod Errors
pub mod HostGuard
pub mod Usage
pub mod MessageStream
pub mod History
pub mod Schema
pub mod Continuation
pub mod Sse
pub mod Emitters
pub mod Tests
