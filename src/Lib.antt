-- ===== src/Lib.antt =====
-- The gate of XDDP: a TCP gate in front of a Minecraft server. It reads the first frames of a
-- connection within byte and time budgets, admits it by address and prefix, and relays it.
--
-- The files, and the code that they model (gate/src):
--   Protocol   protocol.rs: Varint (`varint`, `put_varint`, `frame`), Cursor (the parsers' cursor),
--              Messages (`handshake`, `login`, `status_request`, `ping`, their bounds and
--              `status_handshake`), Reader (`read_bounded`, `read_frame`). Utf8 has what the
--              parsers use of Rust's strings.
--   Limiter    limiter.rs: Address (`normalize`, `subnet`, with Subnets about it), Table (the
--              sharded map), Bucket (the token buckets), State (the records), Accept (`accept`), Tickets (`event`, `sweep`
--              and the methods of `Ticket`, its `drop` among them). Counts says what these do to
--              the counters of the entries. System is the limiter with its live tickets, and the
--              steps that the program takes.
--   Backend    backend.rs: the circuit breaker and the budget of dials. Dials has the live attempts
--              and their steps, and Probes, with Reached and Shut, is about an open circuit.
--   Runtime    runtime.rs: the published policy. Index is the index of networks, with Scan about
--              it; Lease is about generations and leases, Policies about what an address gets, and
--              Modes about the use of a policy by the limiter.
--   IncomingProxy  incoming_proxy.rs: `is_trusted` and `read`. Exact, Deadline and Accepted are
--              about what a read takes, its time and what it has checked, Fields and RoundTrip
--              about `read` after `proxy_header`.
--   Cache      cache.rs: sizes, prepared responses, with Status (the cache and its refresh task) and
--              Header (`proxy_header`); Sizes, Fits, Rounds and Expiry are about what is
--              served.
--   Relay      relay.rs: the upload budget, with Spending about it, and Guard (the stall and idle
--              timers), with Stalls about them.
--   Config     config.rs: the settings in Limits, Protocol, Settings and File; Validate and File have
--              the tests of `Config::validate`, and Promises what they give the other parts.
--   Gate       main.rs: `State`, and the tasks of the connections as the calls that they make. Handle
--              is the accept branch of `run` with `phase` and `handle`, Guards what a connection
--              holds and its drops (`PreloginTime`, `Admission`, `Gauge`) with `record_error`,
--              Perform what a call does, World the live connections with the steps of `run` and
--              its tasks. Resources is about permits and slots, Tickets about the limiter's
--              tickets, and Paths about what every path of a task keeps to.
--   Metrics    metrics.rs: the counters.
--   Net        what is documented of the networks of the ipnet crate.
--   Socket     socket addresses, and numbers in network order.
--   Prelude    shared names, 32-bit numbers, bits, and the operations on f64.
--
-- How the state corresponds. A socket is the list of what will arrive on it, with times; the reader
-- runs on a clock that stands still while the program computes, so that timeouts fire exactly at
-- their deadlines. The state behind a lock is a record, and an operation is a function from the
-- state before to the state after. `accept` and `event` hold the locks of both their shards from
-- beginning to end, so calls are sequential steps; `sweep`, `mark_admitted` and `drop` take the two
-- locks one after the other, and are one step here, the halves of which do not meet. The hash of a table is a parameter, since it is keyed at
-- random. What is written through a reference to a provisional entry is lost unless it is inserted,
-- as in the source. A panic (an index past the multipliers) is a value of `Verdict`.
-- The runtime file is a list of rounds, each with what was found and the times of both clocks. The
-- parsing of JSON is a parameter: a partial function for the runtime document, and the record `Json`
-- for the status. The status cache shares its responses by pointers that nothing writes through, so
-- they are values here.
--
-- A connection is a task: one call of shared state or of its socket, and what follows for every answer.
-- Between two calls other tasks may make theirs, so the interleaving is as fine as the locks and
-- semaphores of the source, except that the accept branch may be interleaved too. A connection
-- holds its permits, gauges and attempt as guards, dropped one at a time as the source's scopes
-- end; an abort unwinds the same guards, and a panic ends the process, as the release profile says, so that
-- no step follows it. `Arc<Metrics>` is shared: it is one field of the
-- state, lent to the limiter and the circuit breaker for a call. What the network answers to a
-- write, a dial or a relay comes from outside, with the time.
--
-- Numbers. usize and u64 counters wrap at 2^64 as a release build's do, and u32 and i32 at 2^32. The
-- f64 operations are a parameter, `Float`, so that nothing rests on how floats round; the instances
-- use whole numbers for them.
--
-- Bounds and fuel. The loop of `varint` has 5 rounds and that of the length prefix has 3, as in the
-- source. `put_varint`, `varint_size`, `read_bounded` and `exact` recurse on what is left to write or
-- to read, so no loop here can run out of fuel. The tasks that never end, `watch` and `refresh`, are
-- functions of the list of their rounds. A step that accepts a connection supposes fewer than 2^64 - 1 live ones.
--
-- Not modelled: the races of `protected_copy` and the copy loop of tokio in the relay, connecting and
-- writing in `poll` (their time counts against the timeout of the round), `Config::load`, the arguments of `main`, the
-- binding of its listeners and the wait of its shutdown, and the text of the metrics page; the
-- controller, the XDP program and the scripts, which are other programs.
pub mod Prelude
pub mod Net
pub mod Socket
pub mod Relay
pub mod Cache
pub mod Gate
pub mod IncomingProxy
pub mod Config
pub mod Metrics
pub mod Backend
pub mod Limiter
pub mod Runtime
pub mod Protocol
