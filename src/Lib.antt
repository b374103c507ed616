-- ===== src/Lib.antt =====
-- The Rust side of endb: the SQL parser, made of the PEG macro of lib/endb_proc_macro, the parse
-- state and the error collection of lib/endb_cst and the grammar in lib/endb_cst/src/sql.rs, with the
-- prompt in lib/endb_cst/examples/sql.rs; the HTTP server of lib/endb_server; the Arrow streams of
-- lib/endb_arrow; and the functions of lib/endb_lib that join them to the engine.
--
-- How the parts work together. `peg!` turns each rule of a grammar into a function on the input, a
-- position and a `ParseState`. The functions append `Open`, `Close`, `Literal` and `Pattern` to the
-- `events`, and, if errors are tracked, `Open`, `Close` and `Error` to the `errors`.
-- `endb_parse_sql_cst` parses once without errors and calls back for each event from the last to the
-- first; if that parse fails it parses again with errors and hands `on_error` the report that
-- `parse_errors_to_string` makes of what `events_to_errors` reads from them. The server turns a
-- request away or makes a `Query` of it, which the closure in `endb_start_server` hands to the engine
-- as C strings; the engine's answer comes back through a one-shot channel as the response, whose body
-- is the chunks that the engine sends after it. On a websocket the engine is called for each message
-- and sends messages of its own.
--
-- Files:
--   Prelude        tests on numbers, lists as vectors, strings as code points with their UTF-8 byte
--                  offsets (`str` slicing, which panics off a character boundary)
--   Cst/Event      lib/endb_cst/src/lib.rs: `Event`, `ParseErrorDescriptor`, `ParseState`,
--                  `ParseErr`, `ParseResult`
--   Cst/Forest     well-nested event sequences
--   Cst/Errors     lib/endb_cst/src/lib.rs: `events_to_errors`; its laws in Laws and Furthest
--   Cst/Report     lib/endb_cst/src/lib.rs: the types of a report and `parse_errors_to_string` up to
--                  the report: the range and the text (Found), the groups of errors (Groups), the
--                  labels of a group (Labels), the whole (Build), sorting (Sorting); in Draw,
--                  `parse_report_to_string` as the calls of the report builder, and its callers
--   Cst/Sexp       lib/endb_cst/src/lib.rs: `events_to_sexp`
--   Macro/Tokens, Macro/Result, Macro/Parse
--                  lib/endb_proc_macro/src/lib.rs: `Parse for PegParser`, `parse_ord`, `Parse for
--                  Rule` and `Parse for Grammar`, on token trees; a printer in Macro/Print
--   Peg/Syntax     lib/endb_proc_macro/src/lib.rs: `PegParser`, `Rule` and `Grammar` as data
--   Peg/Outcome    how a generated function ends: a result and a state, or a panic
--   Peg/Leaf       lib/endb_proc_macro/src/lib.rs: `Pattern` and `Literal`
--   Peg/Machine    lib/endb_proc_macro/src/lib.rs: the other parsers and the function of a rule
--   Peg/Ensures, Peg/Grows, Peg/Tracking, Peg/Fuel, Peg/Restores, Peg/WellFormed, Peg/Progress,
--   Peg/Bounds, Peg/Reported, Peg/Hidden
--                  what holds of every parser, by induction on the fuel
--   Peg/Meaning    what a grammar means: a relation between a parser, a text and what is left of it,
--                  without positions, state or events; the specification of the generated functions
--   Sql            lib/endb_cst/src/sql.rs: the rules (Literals to Statements, in the order of the
--                  source), the grammar, the ranks that bound its left recursion, `sql_stmt_list`;
--                  in Sexp, what it parses as an S-expression; in Meaning, what it means
--   Ffi/ParseSql   lib/endb_lib/src/lib.rs: `endb_parse_sql_cst`, both parses (`parse_or_errors`)
--                  and what the caller sees (`Reply`): the callbacks, the report or a panic of its
--                  `unwrap`; in Calls the callbacks, in Replies the whole call, in Meaning and
--                  Reported the meaning of the grammar and the report of the errors
--   Server/Http    lib/endb_server/src/lib.rs: a request, and the libraries that the service calls
--   Server/Params  lib/endb_server/src/lib.rs: the map of parameters
--   Server/Auth    lib/endb_server/src/lib.rs: `make_basic_auth_header` and the test of a request
--   Server/Response  lib/endb_server/src/lib.rs: `empty_response`, `on_response_init`, `sql_response`
--   Server/Service lib/endb_server/src/lib.rs: `EndbService::call`
--   Server/Websocket  lib/endb_server/src/lib.rs: `serve_websocket`
--   Server/Start   lib/endb_server/src/lib.rs: `CommandLineArguments` and `start_server`
--   Ffi/Query      lib/endb_lib/src/lib.rs: the closure `on_query` of `endb_start_server`
--   Ffi/Conversation  lib/endb_lib/src/lib.rs: the callbacks that the closure `on_query` hands to the
--                  engine, `on_response_send` of lib/endb_server/src/lib.rs, and what a run of the
--                  engine does with them; in Refines and Serve, its summary as in Ffi/Query
--   Ffi/Websocket  lib/endb_lib/src/lib.rs: the closures for a websocket, in the loop of
--                  `serve_websocket`, with `on_websocket_send`
--   Ffi/Start      lib/endb_lib/src/lib.rs: `endb_start_server` and
--                  `endb_parse_command_line_to_json`
--   Ffi/Callback   lib/endb_lib/src/lib.rs: `string_callback`, and the functions that hand a text or
--                  bytes to a callback
--   Arrow, Ffi/Arrow  lib/endb_arrow/src/lib.rs and its callers in lib/endb_lib/src/lib.rs
--   Repl           lib/endb_cst/examples/sql.rs
--   Examples       stand-ins for the regex crate, for Unicode and for the server's libraries, runs,
--                  and the theorems at concrete inputs
--
-- Conventions. A string is a list of code points and a position is a byte offset, as in Rust. A
-- number that the source keeps in a `u32` is a number with the conversion `to_u32` where the source
-- converts, which fails from 2^32 on; `open_idx + 1` wraps. The macro's `look`, `plus` and `opt` are
-- expanded as the macro expands them. A panic is an outcome: `overflow` is the failed conversion of
-- the number of events, `undefined` a call of a rule that the grammar lacks, which does not compile
-- in Rust, and `panic` every other. The regular expressions (the regex crate) and
-- `char::is_alphanumeric` are parameters, `Crates`; the laws `RegexLaws` ask that a match lies in the
-- text it was searched in, on character boundaries, and that the patterns of the grammar that are
-- said not to match the empty string do not.
--
-- The libraries of the server (hyper, mime, serde_json, form_urlencoded, multer, base64) are the
-- record `Libraries` of parameters, and the engine is a function from a query to the response that
-- it begins, if it does; in Ffi/Conversation and Ffi/Websocket it is a tree of its calls, each
-- branching on whether the call made an `on_abort`. Whether a channel takes what is sent is a
-- parameter, with the case that it never does, where the call does not return. The arrow crate is
-- the record `ArrowCrate`, ariadne and serde_json the record `Renderer`, the codecs the record
-- `Codecs`. A hash map is an association list; the server's are read by key only, and those of a
-- report in the order of a parameter, `iter`. The tables of Unicode are parameters too: the record
-- `Unicode` of a report, and `is_uppercase` of the grammar language.
--
-- Fuel. `run` spends one unit for each call. `allowance` bounds what a parser may spend by the rest
-- of the input, the rank of the rule it stands in and its size; `sql_fuel` is that bound for a whole
-- input. The grammar language spends at most four units on a token, so `parse_grammar` takes
-- `4 * size + 5`.
--
-- Not modelled: the text that ariadne draws, splitting the text of a grammar into tokens (rustc), the
-- scheduling of the server's tasks and their connections by tokio and hyper, pointers and lengths of
-- buffers, and C strings that are not UTF-8, at which the functions of lib/endb_lib panic; the example
-- programs lib/endb_arrow/examples/arrow.rs, which prints the debug form of a file, and
-- lib/endb_cst/examples/micro_bench_cst.rs, a timing loop; and the engine, which is written in Lisp.
pub mod Prelude
pub mod Cst
pub mod Peg
pub mod Macro
pub mod Sql
pub mod Ffi
pub mod Server
pub mod Arrow
pub mod Repl
mod Examples
