-- ===== src/Arrow.antt =====
-- lib/endb_arrow/src/lib.rs: Arrow record batches between streams and IPC buffers.
pub mod Laws
use endb.Prelude.{String, List, [], ◌∷◌}
use endb.Server.Http.{Bytes}

-- `arrow::error::Result`, an error by its text
pub data ArrowResult {ℓ} (A : Type ℓ) : Type ℓ where
  ok : A → ArrowResult A
  err : String → ArrowResult A

-- The arrow crate. `try_new` and `collect` of a `FileReader` are `file_reader`: the schema, and what
-- its iterator yields. A stream is exported from a schema and an iterator and read by `from_raw`.
-- The functions of `FileWriter` give the writer that they leave.
pub record ArrowCrate : Type 1 where
  pub Schema : Type 0
  pub Batch : Type 0
  pub Stream : Type 0
  pub Writer : Type 0
  pub file_reader : Bytes → ArrowResult (Schema × List (ArrowResult Batch))
  pub export_reader : Schema → List (ArrowResult Batch) → Stream
  pub from_raw : Stream → ArrowResult (Schema × List (ArrowResult Batch))
  pub file_writer : Schema → ArrowResult Writer
  pub write : Writer → Batch → ArrowResult Writer
  pub finish : Writer → ArrowResult Writer
  pub into_inner : Writer → ArrowResult Bytes

-- `?`
abbrev pub and_then {ℓ κ} :
    {A : Type ℓ} {B : Type κ} → ArrowResult A → (A → ArrowResult B) → ArrowResult B
and_then (ok a) k = k a
and_then (err e) k = err e

module _ (arrow : ArrowCrate) where
  unfoldable pub read_arrow_array_stream_from_ipc_buffer : Bytes → ArrowResult arrow.Stream
  read_arrow_array_stream_from_ipc_buffer buffer =
      and_then (arrow.file_reader buffer)
        λ (schema, batches). ok (arrow.export_reader schema batches)

  -- `for batch in reader { writer.write(&batch?)?; }`
  unfoldable pub write_batches :
      List (ArrowResult arrow.Batch) → arrow.Writer → ArrowResult arrow.Writer
  write_batches [] writer = ok writer
  write_batches (batch ∷ batches) writer =
      and_then batch λ b. and_then (arrow.write writer b) λ writer'. write_batches batches writer'

  unfoldable pub write_arrow_array_stream_to_ipc_buffer : arrow.Stream → ArrowResult Bytes
  unfolding write_batches
  write_arrow_array_stream_to_ipc_buffer stream =
      and_then (arrow.from_raw stream) λ (schema, batches).
        and_then (arrow.file_writer schema) λ writer.
          and_then (write_batches batches writer)
            λ written. and_then (arrow.finish written) λ finished. arrow.into_inner finished
