-- ===== src/Arrow/Chunks.antt =====
-- src/snowglobe/arrow_stream.py: `ipc_chunks`, as the chunks that it yields and how it ends.
use snowglobe.Prelude.{ℕ, zero, suc, ◌+◌, List, [], ◌∷◌, ltb, length, if◌then◌else◌}
use snowglobe.Exec.{Result, ok, err, Error, arrow_admission_error}
use snowglobe.Arrow.Types.{Bytes}
use snowglobe.Arrow.Library.{
  PyArrow, Item, batch, not_batch, Items, ChunkSink, empty_sink, write_chunks, drain,
}

pub record Streamed : Type 0 where
  pub chunks : List Bytes
  pub ending : Result (Unit {0})

-- `if chunk: yield chunk`
unfoldable pub yield_chunk : Bytes → Streamed → Streamed
yield_chunk [] rest = rest
yield_chunk (b ∷ bs) rest = record rest { chunks = (b ∷ bs) ∷ rest.chunks }

abbrev pub ended : Result (Unit {0}) → Streamed
ended r = record { chunks = []; ending = r }

module _ (pa : PyArrow) (schema : pa.Schema) (maximum_bytes : ℕ) where
  open pa use {Schema, Writer, equals, new_stream, write_batch, close_writer}

  -- The `finally` of a stream that has not finished: an exception of the writer's `close` takes the
  -- place of the first.
  unfoldable pub fail_closed : Writer → Error → Streamed
  fail_closed w e = elim (close_writer w).result [ err e' ↦ ended (err e') | ok _ ↦ ended (err e) ]

  -- the lines after the loop
  unfoldable pub finish_stream : Writer → ChunkSink → ℕ → Streamed
  finish_stream w sink written =
      let (chunk, _) = drain (write_chunks sink (close_writer w).chunks) in
      elim (close_writer w).result [
        | err e ↦ fail_closed (close_writer w).writer e
        | ok _ ↦
            if ltb maximum_bytes (written + length chunk)
            then ended (err arrow_admission_error)
            else yield_chunk chunk (ended (ok tt))
      ]

  -- The loop over the batches of the source, which ends as the source does.
  unfoldable pub stream_from :
      Writer → ChunkSink → ℕ → List (Item Schema) → Result (Unit {0}) → Streamed
  stream_from w sink written [] (err e) = fail_closed w e
  stream_from w sink written [] (ok _) = finish_stream w sink written
  stream_from w sink written (not_batch ∷ rest) ending = fail_closed w arrow_admission_error
  stream_from w sink written (batch b ∷ rest) ending =
      let out = write_batch w b in
      let (chunk, sink') = drain (write_chunks sink out.chunks) in
      let more = stream_from out.writer sink' (written + length chunk) rest ending in
      let sent : Streamed = elim out.result [
        | err e ↦ fail_closed out.writer e
        | ok _ ↦
            if ltb maximum_bytes (written + length chunk)
            then fail_closed out.writer arrow_admission_error
            else yield_chunk chunk more
      ] in
      if equals b.schema schema then sent else fail_closed w arrow_admission_error

  -- `ipc_chunks`
  unfoldable pub ipc_chunks : Items Schema → Streamed
  ipc_chunks source = elim maximum_bytes [
    | zero ↦ ended (err arrow_admission_error)
    | suc n ↦ elim (new_stream schema).result [
      | err e ↦ ended (err e)
      | ok _ ↦
          stream_from (new_stream schema).writer
            (write_chunks empty_sink (new_stream schema).chunks) 0 source.items source.ending
    ]
  ]
