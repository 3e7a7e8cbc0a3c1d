-- ===== src/Lib.antt =====
-- requestinspector-relay records HTTP and UDP traffic: a request is admitted, captured, answered by
-- the handler of the configured mode, kept in memory and, where a database is configured, handed to
-- its writer, and every step is told to the readers of the event feed.
--
-- The parts and their files:
-- - internal/capture/model.go, body.go and pipeline.go: Capture/. `Model` has the exchange's data,
--   `Transition` its state machine (`Exchange.Transition`), `Body` the bounded reading of a body
--   (`ReadBody`, `preview`). `Pipeline` has what `ServeHTTP` works with, `Pipeline/Gate` the
--   admission counters (`admit`, `release`, `rejectAdmission`, `recordBodyTooLarge`),
--   `Pipeline/Answers` the answers (`applyModeResult`, `modeFailure`, `writeResponse`),
--   `Pipeline/Serve` the request's course (`startExchange`, `ServeHTTP` with its deferred functions;
--   each early return ends a function), and `Pipeline/Follows`, `Outcome` and `Requests` what holds
--   of the log of its effects.
-- - internal/store/memory.go: Store. The map is an association list; the order of a `range` is the
--   list's. `Store/Order` is the order of `sortNewestFirst`, `Entries` and `Eviction` the invariant,
--   `Reads` what `Get` and `List` find after each operation.
-- - internal/events/bus.go: Events. `Replay` is about the replay buffer, `Delivery` about the
--   accounts of the subscribers, `Session` about one subscription over time.
-- - internal/capture/handler.go: Capture/Handler, and internal/store/repository.go: Store/Joined, the
--   memory store and the writer as the pipeline's repository.
-- - internal/sqlite/repository.go: Sqlite has the reservations, the queue and the batches of the
--   writer (`Reserve`, `Commit`, `Cancel`, `release`, `collectBatch`, the end of `writeBatch`,
--   the maintenance guard), with the database's answer as a parameter. `Sqlite/Words` is int64 in
--   two's complement, `Sqlite/Accounts` and `Sqlite/Runs` the accounts over all interleavings.
-- - internal/httpapi/auth.go and input.go: Httpapi/Authenticator and Httpapi/Logins (`login`,
--   `valid`, `logout`), Httpapi/Range (`parseRange`);
--   internal/httpapi/exchanges.go: Httpapi/Listing (`mergeExchanges`, `olderThan`).
--   `Logins/Limits` is about many logins of a client, `Listing/Merge` about the merged history.
-- - internal/app/udp_sessions.go: App, the replies of an upstream to a UDP client.
-- - internal/config/config.go, `Validate` and what it calls: Config/Validation, with the parsers of
--   net and net/url as parameters; Config/Accepted is what an accepted configuration guarantees.
-- - `receiveUDP` of internal/app/app.go: App/Receive, one datagram.
-- - the handler `exchanges` of internal/httpapi/exchanges.go: Httpapi/Pages, with `Pages/Walk` about
--   a reader that follows the cursors.
-- - internal/config/manager.go: Config/Manager, with the documents as what the file system answers
--   (`Prepare`, `Commit`, `Remove`, `RemoveAuthentication`, `UpdateWithRemovals`, `persist`), and
--   `applyOverrides` of internal/config/config.go: Config/Overrides. A YAML node is read by its
--   decoder, a parameter. `Config/Manager/Persist` is about the document, `Runs` about the calls
--   that come between a `Prepare` and its `Commit`.
-- - internal/httpapi/handler.go: Httpapi/Changes (`applyConfigurationUpdate`, `removeOverride`) over
--   the planes' interface, Httpapi/Reload, of which internal/app has three: traffic.go in
--   App/Traffic, management.go in App/Management and udp.go in App/Datagrams. App/Sockets has the
--   listeners that they hold open.
-- - internal/proxy: Proxy. `Headers` has headers.go, `Url` url.go, `Inspection` inspection.go and
--   `Body`, `Timing` and `Handler` handler.go, with the HTTP client, the decompressors and the URL
--   library as parameters. `Forwarding` is about the request that is sent on, `Outcome` about the
--   answer.
-- - internal/config/config.go: Config has the types of the settings that these parts read.
-- - Base has the Boolean tests, lists measured by native numbers, maps, sorting and decimal texts.
--
-- The pipeline's repository is a parameter, an interface record (`RepositoryOps`); so are the clock,
-- the identifiers, the mode handlers, the response writer, the JSON of an error and
-- `http.CanonicalHeaderKey` (`Surroundings`). The bus takes the length of `json.Marshal`'s result.
-- Whatever holds a mutex to its end is one step; steps of several callers come in any order. Times
-- are nanoseconds from Go's zero time, so that 0 is `IsZero`. Values are immutable, so the copies
-- that `Clone` makes are the values. A 64-bit counter wraps, and the range of `int64` is written
-- out where the code guards it, and where the limit of a body and one overflow. Recursion is
-- structural. The printing of a decimal takes the number and one as fuel, more than its digits; the
-- reader of `Pages/Walk` takes the number of requests, for which the number of exchanges and one are
-- shown to be enough.
--
-- A listener is the number of its socket, and the file system is what its operations answer.
--
-- Not modelled: the text of an internal failure is the state it met, not `cause.Error()`; what goes
-- over the sockets, TLS, the reading of the configuration's document and of the command line, the
-- SQL statements and the web interface.
mod Base
pub mod Config
pub mod Capture
pub mod Store
pub mod Events
pub mod Sqlite
pub mod Httpapi
pub mod Proxy
pub mod App
