-- ===== src/Lib.antt =====
-- The core of pu, an agent for the command line: the parts that keep state and follow rules, and that
-- the rest of the program calls. A task board hands jobs between peers (src/serve/board.cpp). Output of
-- commands is stored, cut into lines and read page by page (src/paging/paging.cpp). A reply arrives as
-- an event stream that is parsed as its bytes come in (src/core/sse.cpp), on top of the text routines
-- (include/pu/core/text.hpp). A conversation is a graph of messages that becomes the next request, in
-- which pages of an older run are replaced, and a ledger of what its turns cost (src/session). A turn
-- asks the provider and runs the tools that it calls until an answer (src/runtime/executor.cpp), and a
-- command's output is kept within a budget while it runs (src/exec/run.cpp), if the policy lets it run
-- (src/tools). A server answers the requests of pages and peers, which move the board and queue turns
-- (src/app, src/config), and a client asks servers of tools (src/mcp).
--
-- Board models src/serve/board.cpp and include/pu/serve/board.hpp: Job the states and the requests,
--   Duration `ParseDuration`, Store the state, `Record`, `TouchPeer` and the ordering, Verbs `Post`,
--   `Move`, `Update`, `Answer`, `Chase`, `Drop` and `Find`, Calls the verbs as one type, Views `Render`,
--   `Snapshot` and `Page`, Digest `Digest`. A verb is one step, since the mutex is held throughout; an
--   exception stands beside the state, since it may leave a write behind. The clock, `uuid::Generate`,
--   `Stamp` and `ParseStamp` are arguments.
-- Text models include/pu/core/text.hpp over bytes. Sse models src/core/sse.cpp: an emission is a call of
--   `on_event` or `on_retry`, and whether a text is one JSON value is an argument. The loop of `Feed`
--   takes the length of the buffer as fuel: each round removes a byte at least.
-- Paging models src/paging/paging.cpp and the records of include/pu/exec/run.hpp: Data the buffer and its
--   line index, Decimal and Cursors the text of a cursor, Reading `Read`, Store the `Pager`. An index out
--   of bounds is none. `std::size_t` wraps at 2 ^ 64.
-- Exec models src/exec/run.cpp: Capture `CountLines` and `Capture`, Run `Settle` and `Run`, where what
--   each round of its loop reads is an argument. The loops that shorten a text take its length as fuel:
--   each round removes a byte at least.
-- Runtime models a turn of src/runtime/executor.cpp: Data its records and the world that it runs in,
--   Spending the usage of its rounds, Calls `RunToolCalls`, Loop `CallProvider`, `RunToolLoop` and
--   `Execute`. The loop takes a number of rounds as fuel; two more than the budget of tool calls are
--   enough, since a round with calls counts one at least and the wrap-up is asked for once. What the
--   provider replies, what the tools give and what the reads of the cancel token find are the world's.
--   Http is `CheckCancel` of src/core/beast_http_client.cpp in front of a request.
-- Session models include/pu/session/message.hpp and graph.hpp, src/session/request.cpp and usage.cpp. A
--   walk along the parents takes one more than the number of nodes as fuel: a graph that was read or
--   built has no cycle, so no walk is longer. A price is a value of a type with an addition. Json is the
--   part of the JSON library that sessions use, as operations with laws; Stored and Saved are the files.
--   Conversation is `RewindBefore` of src/session/session.cpp.
-- Provider models the reading of a reply: Data and Stream the accumulators, Frames `HandleJsonToken` of
--   src/llm/openai_protocol.cpp, Chat `ParseData`, `FinishStream` and `Chat` of
--   src/llm/streaming_provider.cpp over the parser of Sse; `reply_of` is the reply that a turn of Runtime
--   sees. The request is not cancelled while it is read. Deltas, Assembled and Replies are about a reply streamed in pieces. The conversions and the
--   parser of the JSON library are fields of a record. Projection is `ProjectMessages` of
--   src/llm/projection.cpp, what a request says of the history; Projected is about its calls of tools.
-- Tools models src/tools/policy.cpp (Policy) and the part of `BashTool::Execute` of src/tools/bash.cpp that
--   decides on a command (Bash). `std::regex_search` is an argument.
-- Serve models the server of a workspace. Peers is src/config/peer.cpp from the parsed value on. Routes is
--   the table and the admission of src/app/serve_http_routes.cpp, Handlers its handlers of the board and
--   Dispatch `HandlePeerMessage` and `DispatchHttpRequest`; the handlers of the conversation are an
--   argument, on a state of their own. Runner and Joining are the calls of `SessionRunner` in
--   src/app/serve_runner.cpp, and of src/app/serve_websocket.cpp around it, Closing and Worker its worker:
--   a history is a list of events, each a call of some thread or a step of the worker, in any order that
--   the guards allow. What `ProcessInput` says and gives stands in the events, so no fuel is needed. In a
--   history `Attach` and `AppendFrame` are one step each; Halves cuts them where they let go of their
--   locks.
--   Registry is src/config/serve_registry.cpp over the items of its file; labels of directories are left
--   out.
-- Mcp models the client of a tool server: Reader the lines that `ReaderLoop` of
--   src/mcp/stdio_transport.cpp cuts on POSIX, with the length of a chunk as fuel, since a round removes a
--   byte at least; Rpc `JsonRpcClient` and Client `McpClient` of src/mcp/client.cpp. What a request comes
--   to, a reply or an exception, is an argument of the operation that makes it.
-- Base holds the names, lists and words that they share.
--
-- Not modelled: input and output, processes, HTTP itself, terminals, the command line, the handlers of the
-- conversation, the rest of the configuration, the other tools, how a request is built and the other
-- providers (src/app, src/config, src/llm, src/tools), the transports of tool servers (src/mcp), the
-- threads and the wiring of a session and the queue of approvals (src/runtime), the JSON library, and
-- the functions of the modelled parts that parse or print JSON text.
pub mod Base
pub mod Board
pub mod Text
pub mod Tools
pub mod Sse
pub mod Paging
pub mod Exec
pub mod Provider
pub mod Session
pub mod Runtime
pub mod Serve
pub mod Mcp
