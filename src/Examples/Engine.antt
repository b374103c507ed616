-- ===== src/Examples/Engine.antt =====
-- The theorems on the exchange with the engine, the start of the server, the Arrow streams and the
-- drawing of reports at inputs that meet their hypotheses.
use mathlib.Core.List.{Memᴰ}
use mathlib.Core.List.Memᴰ.{head}
use endb.Prelude.{
  ℕ, suc, sym, ◌∙◌, Bool, true, false, none, some, List, [], ◌∷◌, ◌++◌, ◌≡◌, refl, ap, ◌==◌,
  if◌then◌else◌, map,
}
use endb.Prelude.Text.{codes}
use endb.Server.Http.{Bytes}
use endb.Server.Auth.{make_basic_auth_header}
use endb.Server.Response.{empty_response}
use endb.Server.Websocket.{data_message, control_message, serve_websocket}
use endb.Server.Start.{
  CommandLineArguments, Connection, Accepted, accepted, accept_error, Host, EndbService,
}
use endb.Ffi.Query.{Served, serve, has_no_nul}
use endb.Ffi.Conversation.{Engaged, taken, refused, Channels, start, returned, converse}
use endb.Ffi.Conversation.Laws.{Explained, converse-Explained}
use endb.Ffi.Conversation.Refines.{Once}
use endb.Ffi.Conversation.Serve.{serve_exchange, answers_of, serve_exchange-Seen}
use endb.Ffi.Query.Laws.{Seen}
use endb.Ffi.Websocket.{Replying, finished, WsEngine, session}
use endb.Ffi.Websocket.Laws.{Scripted, session-Scripted}
use endb.Ffi.Start.{serve_connection, endb_start_server}
use endb.Ffi.Start.Laws.{gated, endb_start_server-gated}
use endb.Arrow.{ArrowResult, ok, err, ArrowCrate}
use endb.Arrow.Laws.{ArrowLaws, ok_injective}
use endb.Ffi.Arrow.{
  exported, on_success, endb_arrow_array_stream_producer, endb_arrow_array_stream_consumer,
}
use endb.Ffi.Arrow.Laws.{produced-consumed}
use endb.Cst.Report.Types.{ParseReport, ParseReportKind, red}
use endb.Cst.Report.Draw.{builder_calls}
use endb.Cst.Report.Draw.Laws.{blank, after_calls, colored, after_calls-builder_calls}
use endb.Examples.Web.{toy_libraries, get_request, anonymous_request}
use endb.Examples.WebWitnesses.{answering}

-- an engine that begins a response and sends two chunks, the second only if the first went out
abbrev two_chunks : Engaged
two_chunks = Engaged.init 200 "text/csv" λ aborted.
    Engaged.send (49 ∷ []) λ aborted'.
      if aborted' then Engaged.done else Engaged.send (50 ∷ []) λ aborted''. Engaged.done

-- a client that goes away after the first chunk
abbrev first_only : Channels
first_only = record { listening = true; feed = λ n. if n == 0 then taken else refused }

converse-Explained_example :
    Explained toy_libraries first_only
      (empty_response 500)
      two_chunks
      (converse toy_libraries first_only two_chunks (start (empty_response 500)))
converse-Explained_example =
    converse-Explained toy_libraries first_only (empty_response 500) two_chunks

two_chunks-converse :
    converse toy_libraries first_only two_chunks (start (empty_response 500))
    ≡ returned (record {
      boxed = none;
      delivered =
          some
            (record { status = 200; headers = ("content-type", "text/csv") ∷ []; streams = false });
      chunks = (49 ∷ []) ∷ [];
      fed = 2;
      aborts = 1;
    })
unfolding converse
two_chunks-converse = refl

after_first :
    (aborted : Bool)
    → Once true (if aborted then Engaged.done else Engaged.send (50 ∷ []) λ aborted'. Engaged.done)
after_first true = Once.done_once
after_first false = Once.send_once λ aborted'. Once.done_once

two_chunks-Once : Once false two_chunks
two_chunks-Once = Once.init_once λ aborted. Once.send_once after_first

serve_exchange-Seen_example :
    (served : Served) × (serve_exchange toy_libraries first_only
        (λ q. two_chunks)
        none
        get_request
        false
      ≡ some served)
    × (served
        ≡ serve toy_libraries (answers_of first_only (λ q. two_chunks)) none get_request false)
    × Seen toy_libraries (answers_of first_only (λ q. two_chunks)) none get_request false served
serve_exchange-Seen_example =
    serve_exchange-Seen toy_libraries first_only refl (λ q. two_chunks) (λ q. two_chunks-Once) none
      get_request false

-- an engine that sends each message back, and counts them
abbrev echo : WsEngine ℕ
echo = record {
  opened = λ addr n. n;
  closed = λ addr n. n;
  message = λ addr m n. Replying.send m λ aborted. finished (suc n);
}

session-Scripted_example :
    Scripted first_only.feed
      (serve_websocket "[::1]:1" (data_message (65 ∷ []) ∷ control_message ∷ []))
      (session first_only.feed echo "[::1]:1" (data_message (65 ∷ []) ∷ control_message ∷ []) 0)
unfolding has_no_nul
session-Scripted_example =
    session-Scripted first_only.feed echo "[::1]:1" (data_message (65 ∷ []) ∷ control_message ∷ [])
      0 refl

abbrev arguments : CommandLineArguments
arguments = record {
  data_directory = "endb_data";
  http_port = 3803;
  username = some "x";
  password = some "y";
}

abbrev toy_host : Host
toy_host = record { build_error = none; bind_error = λ port. none }

-- one request with credentials and one without
abbrev two_requests : Connection
two_requests = record {
  remote_addr = "[::1]:1";
  requests = (get_request, false) ∷ (anonymous_request, false) ∷ [];
}

abbrev connections : List Accepted
connections = accepted two_requests ∷ accept_error "too many open files" ∷ []

abbrev spawned_service : EndbService
spawned_service = record {
  basic_auth = make_basic_auth_header toy_libraries (some "x") (some "y");
  remote_addr = "[::1]:1";
}

spawned :
    Memᴰ
      (spawned_service, two_requests)
      (endb_start_server toy_libraries toy_host arguments connections).0
unfolding endb_start_server
spawned = head refl

endb_start_server-gated_example :
    Memᴰ (accepted two_requests) connections
    × (serve_connection toy_libraries answering (spawned_service, two_requests)
        ≡ map
            (λ (req, upgrades).
              gated toy_libraries
                (some "x")
                (some "y")
                req
                (serve toy_libraries answering none req upgrades))
            two_requests.requests)
endb_start_server-gated_example =
    endb_start_server-gated toy_libraries answering toy_host arguments connections spawned_service
      two_requests spawned

-- a stand-in for the arrow crate: a file is the schema and the batches, each a number
abbrev read_numbers : Bytes → ArrowResult (ℕ × List (ArrowResult ℕ))
read_numbers [] = err "no schema"
read_numbers (schema ∷ batches) = ok (schema, map ok batches)

abbrev toy_arrow : ArrowCrate
toy_arrow = record {
  Schema = ℕ;
  Batch = ℕ;
  Stream = ℕ × List (ArrowResult ℕ);
  Writer = ℕ × List ℕ;
  file_reader = read_numbers;
  export_reader = λ schema batches. (schema, batches);
  from_raw = ok;
  file_writer = λ schema. ok (schema, []);
  write = λ (schema, batches) batch. ok (schema, batches ++ (batch ∷ []));
  finish = ok;
  into_inner = λ (schema, batches). ok (schema ∷ batches);
}

toy_arrow-ArrowLaws : ArrowLaws toy_arrow
toy_arrow-ArrowLaws = record {
  Holds = λ writer schema batches. writer ≡ (schema, batches);
  Finished = λ writer schema batches. writer ≡ (schema, batches);
  exported = λ schema batches. refl;
  writer_holds = λ schema e. sym (ok_injective e);
  write_holds =
      λ schema batches batch h e. sym (ok_injective e) ∙ ap (λ (s, bs). (s, bs ++ (batch ∷ []))) h;
  finish_holds = λ schema batches h e. sym (ok_injective e) ∙ h;
  file_read =
      λ schema batches h e. ap read_numbers (sym (ok_injective e) ∙ ap (λ (s, bs). s ∷ bs) h);
}

abbrev numbers : ℕ × List (ArrowResult ℕ)
numbers = (7, ok 1 ∷ ok 2 ∷ [])

numbers_consumed : endb_arrow_array_stream_consumer toy_arrow numbers ≡ on_success (7 ∷ 1 ∷ 2 ∷ [])
unfolding endb_arrow_array_stream_consumer
numbers_consumed = refl

produced-consumed_example :
    (copy : ℕ × List (ArrowResult ℕ)) × (endb_arrow_array_stream_producer toy_arrow (7 ∷ 1 ∷ 2 ∷ [])
      ≡ exported copy)
    × (toy_arrow.from_raw copy ≡ toy_arrow.from_raw numbers)
produced-consumed_example =
    produced-consumed toy_arrow numbers (7 ∷ 1 ∷ 2 ∷ []) toy_arrow-ArrowLaws numbers_consumed

-- a report with a message, a help text and one label
abbrev small_report : ParseReport
small_report = record {
  kind = ParseReportKind.error;
  code = none;
  msg = some (codes "unexpected EOF");
  note = none;
  help = some (codes "did you mean FROM?");
  location = (codes "/sql", 6);
  labels =
      record {
        filename = codes "/sql";
        start = 6;
        stop = 6;
        msg = some (codes "unexpected EOF");
        color = some red;
        order = 0;
        priority = 0;
      }
      ∷ [];
  source = codes "SELECT";
}

after_calls-builder_calls_example :
    after_calls (blank (codes "SELECT")) (builder_calls small_report)
    ≡ record small_report { labels = map colored small_report.labels }
after_calls-builder_calls_example = after_calls-builder_calls small_report
