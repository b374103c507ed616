-- ===== src/Arrow/Laws.antt =====
-- lib/endb_arrow/src/lib.rs: what is written is read back.
use endb.Prelude.{
  List, [], ◌∷◌, ◌++◌, ◌≡◌, refl, ap, sym, subst, ◌∙◌, map, append_assoc, append-nil,
}
use mathlib.Core.Path.{ap₂}
use endb.Server.Http.{Bytes}
use endb.Arrow.{
  ArrowResult, ok, err, ArrowCrate, and_then, read_arrow_array_stream_from_ipc_buffer,
  write_batches, write_arrow_array_stream_to_ipc_buffer,
}

-- What the code relies on: a stream of good batches yields the schema and the batches it was
-- exported from; a writer holds what was written to it, `Holds`, and when it is finished, `Finished`,
-- gives the bytes of a file that the reader reads as just that.
pub record ArrowLaws (arrow : ArrowCrate) : Type 1 where
  pub Holds : arrow.Writer → arrow.Schema → List arrow.Batch → Type 0
  pub Finished : arrow.Writer → arrow.Schema → List arrow.Batch → Type 0
  pub exported :
      (schema : arrow.Schema) (batches : List arrow.Batch)
      → arrow.from_raw (arrow.export_reader schema (map ok batches)) ≡ ok (schema, map ok batches)
  pub writer_holds :
      (schema : arrow.Schema) {writer : arrow.Writer}
      → arrow.file_writer schema ≡ ok writer
      → Holds writer schema []
  pub write_holds :
      (schema : arrow.Schema) (batches : List arrow.Batch) (batch : arrow.Batch)
      {writer writer' : arrow.Writer}
      → Holds writer schema batches
      → arrow.write writer batch ≡ ok writer'
      → Holds writer' schema (batches ++ (batch ∷ []))
  pub finish_holds :
      (schema : arrow.Schema) (batches : List arrow.Batch) {writer writer' : arrow.Writer}
      → Holds writer schema batches
      → arrow.finish writer ≡ ok writer'
      → Finished writer' schema batches
  pub file_read :
      (schema : arrow.Schema) (batches : List arrow.Batch) {writer : arrow.Writer} {buffer : Bytes}
      → Finished writer schema batches
      → arrow.into_inner writer ≡ ok buffer
      → arrow.file_reader buffer ≡ ok (schema, map ok batches)

and_then-ok :
    {A B : Type 0} (r : ArrowResult A) (k : A → ArrowResult B) {b : B}
    → and_then r k ≡ ok b
    → (a : A) × (r ≡ ok a) × (k a ≡ ok b)
and_then-ok (ok a) k h = (a, refl, h)
and_then-ok (err e) k h = cc

value_or : {A : Type 0} → A → ArrowResult A → A
value_or a (ok b) = b
value_or a (err e) = a

pub ok_injective : {A : Type 0} {a b : A} → ok a ≡ ok b → a ≡ b
unfolding value_or
ok_injective {a = a} h = ap (value_or a) h

module _ (arrow : ArrowCrate) (laws : ArrowLaws arrow) where
  -- batches that are all written are good, and the writer holds them after what it held
  write_batches-Holds :
      (batches : List (ArrowResult arrow.Batch)) (schema : arrow.Schema) (held : List arrow.Batch)
      {writer writer' : arrow.Writer}
      → laws.Holds writer schema held
      → write_batches arrow batches writer ≡ ok writer'
      → (good : List arrow.Batch) × (batches ≡ map ok good)
        × laws.Holds writer' schema (held ++ good)
  unfolding write_batches
  write_batches-Holds [] schema held h e = (
    [],
    refl,
    subst (λ w. laws.Holds w schema (held ++ [])) (ok_injective e)
        (subst (laws.Holds _ schema) (sym (append-nil held)) h),
  )
  write_batches-Holds (batch ∷ batches) schema held {writer = writer} h e =
      let (b, good_b, e₁) = and_then-ok batch _ e in
      let (next, written, e₂) = and_then-ok (arrow.write writer b) _ e₁ in
      let (good, same, held_all) =
        write_batches-Holds batches schema _ (laws.write_holds schema held b h written) e₂ in
      (
        b ∷ good,
        ap₂ (λ x l. x ∷ l) good_b same,
        subst (laws.Holds _ schema) (append_assoc held (b ∷ []) good) held_all,
      )

  -- A buffer that a stream is written to is read as a stream of the same schema and batches, if the
  -- arrow crate keeps the stated laws; no batch of the stream was an error.
  pub read-write_stream :
      (stream : arrow.Stream) {buffer : Bytes}
      → write_arrow_array_stream_to_ipc_buffer arrow stream ≡ ok buffer
      → (copy : arrow.Stream) × (read_arrow_array_stream_from_ipc_buffer arrow buffer ≡ ok copy)
        × (arrow.from_raw copy ≡ arrow.from_raw stream)
  unfolding write_arrow_array_stream_to_ipc_buffer read_arrow_array_stream_from_ipc_buffer
  read-write_stream stream e =
      let ((schema, batches), raw, e₁) = and_then-ok (arrow.from_raw stream) _ e in
      let (writer, made, e₂) = and_then-ok (arrow.file_writer schema) _ e₁ in
      let (written, all, e₃) = and_then-ok (write_batches arrow batches writer) _ e₂ in
      let (finished, end, inner) = and_then-ok (arrow.finish written) _ e₃ in
      let (good, same, holds) =
        write_batches-Holds batches schema [] (laws.writer_holds schema made) all in
      let read = laws.file_read schema good (laws.finish_holds schema good holds end) inner in
      (
        arrow.export_reader schema (map ok good),
        rw read refl,
        laws.exported schema good ∙ sym (raw ∙ ap (λ l. ok (schema, l)) same),
      )
