-- ===== src/Lib.antt =====
-- Verification library of cdc-sink, which receives changefeeds and logical replication streams and
-- applies them to a target database. Messages carry stamps; mutations wait in staging tables until a
-- resolved timestamp says that a window of them is complete; a resolver then reads the window in
-- order, and the applier writes it to the target in batches.
--
-- Files and the code that they model (paths from the root of the repository):
-- - Common: names of the libraries, Boolean tests, lists and texts, and the 64-bit integers of Go
--   (`Common.Int`: an integer, with the wrap-around of an int64 written out by `wrap64`).
-- - Hlc: internal/util/hlc, hybrid logical timestamps. `compare` takes the difference of the wall times
--   as the code does, so its sign is the order only between valid times, whose wall time and logical
--   part are not negative.
-- - Stamp, Stamp/Queue: internal/util/stamp/stamp.go and queue.go. A stamp is a type with an equality and
--   a `Less`; `IsStampOrder` is what the queue relies on. A panic of the code is `none`, an error is a
--   value beside the state as the call leaves it.
-- - Types: the mutations of internal/types/types.go.
-- - Msort: internal/util/msort, with the slice that is read and written at once as one list and an index.
-- - Batches: internal/util/batches. The loop takes fuel: one more than the count, since every round takes
--   at least one index.
-- - Cmap: internal/util/cmap, maps whose keys are compared by a canonical form. The hash map inside is a
--   list of entries without two for one canonical key; the mapper and the equality are parameters.
-- - Ident: internal/util/ident, identifiers and their parsers. The parser of dotted names takes fuel: one
--   more than the length of the text, since every part takes at least one character. A text is the list
--   of its code points, and an invalid byte reads as U+FFFD, as a range over a Go string gives it.
-- - Merge: internal/util/merge/bag.go and bag_validate.go. An entry that the code changes through its
--   pointer is stored again under the same canonical key, with the key's spelling kept. The names of an
--   error stand for its text.
-- - Script: internal/script/meta.go.
-- - Cdc/Stamps: internal/source/cdc/resolved_stamp.go, with its transitions as a step relation.
-- - Cdc/Resolver: `process` of internal/source/cdc/resolver.go. What `SelectMany` does is a row of events:
--   mutations, changes of the cursor, a failure. The sink (`logical.Events`, its batches, and `Record`) is a
--   record of operations on a state, each of which may return an error. `Plan` says what is flushed from the
--   events alone; `Refines` and `Windows` prove about it. `Pages` puts `process` together with the loop of
--   `SelectMany`, written as the row of its events because the callback reads the cursor that the loop
--   moves; its children are about the staged rows, which do not change meanwhile. The fuel of that loop is
--   one more than the number of rows, as in Staging.
-- - Cdc/Marks: the table of resolved timestamps in internal/source/cdc/resolver.go. The statements are
--   functions on the list of rows of one schema, and a statement sees the table as a whole.
-- - Cdc/Retire: one round of `retireLoop` of internal/source/cdc/resolver.go.
-- - Sql: comparisons of tuples in SQL statements.
-- - Staging: `SelectMany` of internal/staging/stage/factory.go. The rows of all tables are one list in the
--   order of the outer ORDER BY, a table is its place in the targets, and a page is the first rows that the
--   WHERE clauses take: an inner query's LIMIT is the page's own, so it never hides a row of the page. The
--   loop takes fuel: one more than the number of rows, since every full page holds a row not read before.
--   The answers of the database to the queries are a parameter, one for every round: it refuses the query,
--   returns the page, or returns its first rows only, after which `rows.Next` is false and `rows.Err`, which
--   the code does not ask, has an error. So are the error of a scan, for every row, and `maybeGunzip`.
-- - Staging/Stage: internal/staging/stage/stage.go and gzip.go. The rows of one staging table are a list in the order
--   of its primary key; Retire takes fuel: two more than the number of rows, since every round deletes a row.
-- - Notify: internal/util/notify. Channels are numbers in the order in which they are made.
-- - Leases: internal/staging/leases/leases.go. Times are numbers of nanoseconds, and the rows of the lease
--   table a map by name; the nonce that the database draws is an argument.
-- - Logical/Ordered: internal/source/logical/ordered_events.go. The batch that is wrapped is a record of
--   operations on a state; a schema has at least one level.
-- - Logical/Fan: internal/source/logical/fan_batch.go. The changes under the lock are functions, and a run is a list of
--   events: calls, workers that ask for work, ends of their batches. a round of the loop of `Flush` looks at the state once, and what the
--   `select` takes when both channels are ready is an argument; the context and the appliers are not modelled.
-- - Logical/Points: internal/source/logical/loop.go. The consistent point of a loop is the variable of Notify together with
--   its row of Staging/Memo; whether the database refuses a write is an argument of the call, and a call is one
--   step, although its write comes after the lock of the variable is released.
-- - Staging/Memo and Staging/Version: internal/staging/memo/memo.go and internal/staging/version/versions.go.
-- - Apply: internal/target/apply. `Config` is the configuration of internal/util/applycfg/conf.go; `Mapping`
--   is newColumnMapping, where an index of -1 is `none`; `Columns` is toColumns; `Numbers` is removeExponent; `Args`
--   is upsertArgsLocked; `Batching` is Apply over the two methods that execute a batch; `Deletes` is
--   deleteLocked; `Conflicts` and `Upserts` are upsertBagsLocked, whose call of itself is a function of its own, since it
--   happens once; `Refresh` is validate and refreshUnlocked; `Vars` is Vars of templates.go. A call that may
--   return an error or panic is a `Run` of Common.Results. Statements, JSON, the merge function, the queues, the
--   decimal package and the parse functions of the target drivers are parameters.
--
-- In each part the module of the part's name declares state and operations; the modules below it prove
-- what they are named for; `Tests` runs them on concrete inputs.
--
-- Not modelled: the sources' wire protocols, HTTP, JSON decoding by the standard library, logging and
-- metrics, command lines, user scripts and generated wiring, which are input and output or glue over
-- packages whose code is not in the repository; locks, since every operation modelled here runs under
-- its lock as a whole.
pub mod Common
pub mod Hlc
pub mod Stamp
pub mod Types
pub mod Msort
pub mod Apply
pub mod Batches
pub mod Cmap
pub mod Ident
pub mod Merge
pub mod Notify
pub mod Script
pub mod Sql
pub mod Staging
pub mod Leases
pub mod Logical
pub mod Cdc
