-- ===== src/Ffi/Arrow/Laws.antt =====
-- lib/endb_lib/src/lib.rs: a buffer that the engine was given is a stream again.
use endb.Prelude.{◌≡◌, refl}
use endb.Server.Http.{Bytes}
use endb.Arrow.{ArrowResult, ok, err, ArrowCrate, write_arrow_array_stream_to_ipc_buffer}
use endb.Arrow.Laws.{ArrowLaws, read-write_stream}
use endb.Ffi.Arrow.{
  exported, on_success, consumed, endb_arrow_array_stream_producer,
  endb_arrow_array_stream_consumer,
}

consumed-on_success :
    (r : ArrowResult Bytes) {buffer : Bytes} → consumed r ≡ on_success buffer → r ≡ ok buffer
consumed-on_success (ok b) h = cc
consumed-on_success (err e) h = cc

-- Where the consumer calls `on_success` with a buffer, the producer makes a stream of that buffer,
-- with the schema and the batches of the stream that was consumed, if the arrow crate keeps the
-- stated laws.
pub produced-consumed :
    (arrow : ArrowCrate) (stream : arrow.Stream) (buffer : Bytes)
    → ArrowLaws arrow
    → endb_arrow_array_stream_consumer arrow stream ≡ on_success buffer
    → (copy : arrow.Stream) × (endb_arrow_array_stream_producer arrow buffer ≡ exported copy)
      × (arrow.from_raw copy ≡ arrow.from_raw stream)
unfolding endb_arrow_array_stream_producer endb_arrow_array_stream_consumer
produced-consumed arrow stream buffer laws h =
    let (copy, read, same) =
      read-write_stream arrow laws stream
        (consumed-on_success (write_arrow_array_stream_to_ipc_buffer arrow stream) h) in
    (copy, rw read refl, same)
