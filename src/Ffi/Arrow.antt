-- ===== src/Ffi/Arrow.antt =====
-- lib/endb_lib/src/lib.rs: Arrow streams of the engine to and from buffers.
pub mod Laws
use endb.Prelude.Text.{codes}
use endb.Server.Http.{Bytes}
use endb.Arrow.{
  ArrowResult, ok, err, ArrowCrate, read_arrow_array_stream_from_ipc_buffer,
  write_arrow_array_stream_to_ipc_buffer,
}
use endb.Ffi.Callback.{Called, string_callback}

-- the stream that is written through the pointer, or the call of `on_error`
pub data Produced (Stream : Type 0) : Type 0 where
  exported : Stream → Produced Stream
  on_error : Called → Produced Stream

-- the call of `on_success` with the buffer, or of `on_error`
pub data Consumed : Type 0 where
  on_success : Bytes → Consumed
  on_error : Called → Consumed

abbrev pub produced : {Stream : Type 0} → ArrowResult Stream → Produced Stream
produced (ok stream) = exported stream
produced (err e) = on_error (string_callback (codes e))

abbrev pub consumed : ArrowResult Bytes → Consumed
consumed (ok buffer) = on_success buffer
consumed (err e) = on_error (string_callback (codes e))

module _ (arrow : ArrowCrate) where
  unfoldable pub endb_arrow_array_stream_producer : Bytes → Produced arrow.Stream
  unfolding read_arrow_array_stream_from_ipc_buffer string_callback
  endb_arrow_array_stream_producer buffer =
      produced (read_arrow_array_stream_from_ipc_buffer arrow buffer)

  -- for the stream that `on_init_stream` leaves
  unfoldable pub endb_arrow_array_stream_consumer : arrow.Stream → Consumed
  unfolding write_arrow_array_stream_to_ipc_buffer string_callback
  endb_arrow_array_stream_consumer stream =
      consumed (write_arrow_array_stream_to_ipc_buffer arrow stream)
