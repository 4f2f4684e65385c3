-- ===== src/Arrow/Streaming.antt =====
-- `ipc_chunks`: the bytes that it yields, and the streaming of a result that was admitted.
use snowglobe.Prelude.{
  ℕ, zero, suc, ◌+◌, ◌≤◌, ◌<◌, ◌≡◌, ◌∙◌, refl, true, false, List, [], ◌∷◌, ◌++◌, map, arith, length,
  length-append, join, ltb, inl, inr, Bool-cases,
}
use snowglobe.Exec.{Result, ok, err, Error, arrow_admission_error, Result-cases}
use snowglobe.Arrow.Types.{Bytes, RecordBatch, ArrowAdmissionLimits}
use snowglobe.Arrow.Library.{
  PyArrow, Item, batch, not_batch, Items, ChunkSink, write_chunks, empty_sink, drain,
}
use snowglobe.Arrow.Admission.{
  AdmissionState, InMemorySource, admit, admit_all, finish, admit_record_batches,
  drain_within_limit, after_write,
}
use snowglobe.Arrow.Chunks.{
  Streamed, ended, yield_chunk, fail_closed, finish_stream, stream_from, ipc_chunks,
}
use snowglobe.Arrow.Steps.{admit-Admits}
use snowglobe.Arrow.Totals.{admit_all-cons}
use snowglobe.Arrow.Admitted.{admit_record_batches-Returned, admit_record_batches-IsAdmitted}

-- how many bytes a stream has yielded
unfoldable pub yielded : Streamed → ℕ
yielded s = length (join s.chunks)

yielded-yield_chunk : (c : Bytes) (s : Streamed) → yielded (yield_chunk c s) ≡ length c + yielded s
unfolding yielded yield_chunk
yielded-yield_chunk [] s = omega arith
yielded-yield_chunk (b ∷ bs) s = length-append (b ∷ bs) (join s.chunks)

ending-yield_chunk : (c : Bytes) (s : Streamed) → (yield_chunk c s).ending ≡ s.ending
unfolding yield_chunk
ending-yield_chunk [] s = refl
ending-yield_chunk (b ∷ bs) s = refl

yielded-ended : (r : Result (Unit {0})) → yielded (ended r) ≡ 0
unfolding yielded
yielded-ended r = refl

module _ (pa : PyArrow) where
  open pa use {Schema, Writer, equals, new_stream, write_batch, close_writer}

  module _ (schema : Schema) (maximum : ℕ) where
    yielded-fail_closed : (w : Writer) (e : Error) → yielded (fail_closed pa schema maximum w e) ≡ 0
    unfolding fail_closed yielded
    yielded-fail_closed w e = ground arith

    finish_stream-Within :
        (w : Writer) (sink : ChunkSink) (written : ℕ)
        → written ≤ maximum
        → written + yielded (finish_stream pa schema maximum w sink written) ≤ maximum
    unfolding finish_stream
    finish_stream-Within w sink written low =
        let chunk = (drain (write_chunks sink (close_writer w).chunks)).0 in
        elim (Result-cases (close_writer w).result) [
          | inr (e, f) ↦ rw (f, finish_stream, yielded-fail_closed) (omega arith)
          | inl (u, f) ↦ elim (Bool-cases (ltb maximum (written + length chunk))) [
            | inl over ↦ rw (f, over, finish_stream, yielded-ended) (omega arith)
            | inr under ↦
                rw (f, under, finish_stream, yielded-yield_chunk, yielded-ended) (ground arith)
          ]
        ]

    stream_from-Within :
        (w : Writer) (sink : ChunkSink) (written : ℕ) (items : List (Item Schema))
        (ending : Result (Unit {0}))
        → written ≤ maximum
        → written + yielded (stream_from pa schema maximum w sink written items ending) ≤ maximum
    unfolding stream_from yielded
    stream_from-Within w sink written [] (err e) low =
        unfold stream_from in rw (yielded-fail_closed w e) (omega arith)
    stream_from-Within w sink written [] (ok u) low =
        unfold stream_from in finish_stream-Within w sink written low
    stream_from-Within w sink written (not_batch ∷ rest) ending low =
        unfold stream_from in rw (yielded-fail_closed w arrow_admission_error) (omega arith)
    stream_from-Within w sink written (batch b ∷ rest) ending low =
        let out = write_batch w b in
        let (chunk, sink') = drain (write_chunks sink out.chunks) in
        elim (Bool-cases (equals b.schema schema)) [
          | inr other ↦ rw (other, stream_from, yielded-fail_closed) (omega arith)
          | inl same ↦ elim (Result-cases out.result) [
            | inr (e, f) ↦ rw (same, f, stream_from, yielded-fail_closed) (omega arith)
            | inl (u, f) ↦ elim (Bool-cases (ltb maximum (written + length chunk))) [
              | inl over ↦ rw (same, f, over, stream_from, yielded-fail_closed) (omega arith)
              | inr under ↦
                  let later =
                    stream_from-Within out.writer sink' (written + length chunk) rest ending in
                  rw (same, f, under, stream_from, yielded-yield_chunk) (ground arith)
            ]
          ]
        ]

  -- Whatever the source is and however its stream ends, `ipc_chunks` has yielded no more than the
  -- maximum in total.
  pub ipc_chunks-Within :
      (schema : Schema) (maximum : ℕ) (source : Items Schema)
      → length (join (ipc_chunks pa schema maximum source).chunks) ≤ maximum
  unfolding ipc_chunks yielded
  ipc_chunks-Within schema zero source = omega arith
  ipc_chunks-Within schema (suc n) source = elim (Result-cases (new_stream schema).result) [
    | inr (e, f) ↦ rw (f, ipc_chunks) (omega arith)
    | inl (u, f) ↦
        let opened = new_stream schema in
        let within =
          stream_from-Within schema (suc n) opened.writer (write_chunks empty_sink opened.chunks) 0
            source.items source.ending (omega arith) in
        rw (f, ipc_chunks) (ground arith)
  ]

  -- What `finish` has written is what the end of the stream writes.
  finish_stream-Finished :
      (s : AdmissionState pa) (last : Bytes)
      → (finish pa s).0 ≡ ok last
      → (finish_stream pa s.schema s.limits.maximum_arrow_bytes s.writer s.sink
          s.arrow_bytes).ending
        ≡ ok tt
  unfolding finish finish_stream drain_within_limit after_write
  finish_stream-Finished s last h =
      let chunk = (drain (write_chunks s.sink (close_writer s.writer).chunks)).0 in
      elim (Result-cases (close_writer s.writer).result) [
        | inr (e, f) ↦ absurd (ground arith)
        | inl (u, f) ↦
            let under : ltb s.limits.maximum_arrow_bytes (s.arrow_bytes + length chunk) ≡ false =
              ground arith in
            rw (f, under, finish_stream, ending-yield_chunk) refl
      ]

  stream_from-cons :
      (schema : Schema) (maximum written : ℕ) (w : Writer) (sink : ChunkSink)
      (b : RecordBatch Schema) (rest : List (Item Schema)) (ending : Result (Unit {0}))
      → equals b.schema schema ≡ true
      → (write_batch w b).result ≡ ok tt
      → written + length (drain (write_chunks sink (write_batch w b).chunks)).0 ≤ maximum
      → (stream_from pa schema maximum w sink written (batch b ∷ rest) ending).ending
        ≡ (stream_from pa schema maximum
            (write_batch w b).writer
            (drain (write_chunks sink (write_batch w b).chunks)).1
            (written + length (drain (write_chunks sink (write_batch w b).chunks)).0)
            rest
            ending).ending
  unfolding stream_from
  stream_from-cons schema maximum written w sink b rest ending same f low =
      let under : ltb maximum
            (written + length (drain (write_chunks sink (write_batch w b).chunks)).0)
          ≡ false =
        ground arith in
      rw (same, f, under, stream_from, ending-yield_chunk) refl

  -- The stream repeats what the loop of the admission has done with the writer.
  stream_from-Admitted :
      (items : List (Item Schema)) (acc admitted : List (RecordBatch Schema))
      (s : AdmissionState pa) (last : Bytes)
      → (admit_all pa items acc s).0 ≡ ok admitted
      → (finish pa (admit_all pa items acc s).1).0 ≡ ok last
      → (stream_from pa s.schema s.limits.maximum_arrow_bytes s.writer s.sink s.arrow_bytes items
          (ok tt)).ending
        ≡ ok tt
  stream_from-Admitted [] acc admitted s last h f =
      unfold stream_from admit_all in finish_stream-Finished s last f
  stream_from-Admitted (not_batch ∷ rest) acc admitted s last h f =
      absurd (unfold admit_all in cc h)
  stream_from-Admitted (batch b ∷ rest) acc admitted s last h f =
      elim (Result-cases (admit pa (batch b) s).0) [
        | inr (x, e) ↦ absurd (unfold admit_all in cc (rw (e, admit_all) at h))
        | inl (c, e) ↦
            let t = (admit pa (batch b) s).1 in
            let step = admit_all-cons pa b rest acc s c e in
            let a = admit-Admits pa b s c e in
            let later =
              stream_from-Admitted rest (acc ++ b ∷ []) admitted t last (rw step at h)
                (rw step at f) in
            stream_from-cons s.schema s.limits.maximum_arrow_bytes s.arrow_bytes s.writer s.sink b
              rest (ok tt) a.fits_schema a.written (omega (arith, a.arrow_bytes, a.few_arrow))
            ∙ (rw (a.same_schema, a.same_limits, a.writer, a.sink, a.arrow_bytes) at later)
      ]

  ipc_chunks_opened :
      (s : Schema) (maximum : ℕ) (source : Items Schema)
      → 0 < maximum
      → (new_stream s).result ≡ ok tt
      → ipc_chunks pa s maximum source
        ≡ stream_from pa s maximum
            (new_stream s).writer
            (write_chunks empty_sink (new_stream s).chunks)
            0
            source.items
            source.ending
  unfolding ipc_chunks
  ipc_chunks_opened s zero source h f = absurd (omega arith)
  ipc_chunks_opened s (suc n) source h f = rw (f, ipc_chunks) refl

  -- `InMemoryArrowBatchSource.open`
  abbrev pub opened : InMemorySource pa → Items Schema
  opened source = record { items = map batch source.batches; ending = ok tt }

  -- A source that an admission returned streams without an error, under the byte limit of that
  -- admission where it is positive.
  pub ipc_chunks_admitted :
      (s : Schema) (given : Items Schema) (limits : ArrowAdmissionLimits)
      (source : InMemorySource pa)
      → admit_record_batches pa s given limits ≡ ok source
      → 0 < limits.maximum_arrow_bytes
      → (ipc_chunks pa source.schema limits.maximum_arrow_bytes (opened source)).ending ≡ ok tt
  ipc_chunks_admitted s given limits source h positive =
      let r = admit_record_batches-Returned pa s given limits source h in
      let c = r.created in
      let all = admit_record_batches-IsAdmitted pa s given limits source h in
      let later =
        stream_from-Admitted given.items [] source.batches r.state r.finished.last r.finished.loop
          r.finished.finished in
      let here =
        rw (c.schema, c.same_limits, c.writer, c.sink, c.arrow_bytes, all.all_given) at later in
      rw
        (r.schema, ipc_chunks_opened s limits.maximum_arrow_bytes (opened source) positive c.opened)
        here
