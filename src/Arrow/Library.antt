-- ===== src/Arrow/Library.antt =====
-- What src/snowglobe/arrow_stream.py uses of pyarrow that the model leaves to it: schemas and their
-- equality, and the stream writer, which writes chunks of bytes to its sink.
use snowglobe.Prelude.{ℕ, ◌+◌, Bool, false, List, [], ◌∷◌, ◌++◌, length, join}
use snowglobe.Exec.{Result}
use snowglobe.Arrow.Types.{DataType, Bytes, RecordBatch}

-- A call of the writer: what it returns or raises, the writer after it, and the chunks that it has
-- written.
pub record Written (A W : Type 0) : Type 0 where
  pub result : Result A
  pub writer : W
  pub chunks : List Bytes

-- `new_stream`, `write_batch` and `close` of pyarrow's IPC; a schema's field types, and
-- `schema.equals(other, check_metadata=True)`.
pub record PyArrow : Type 1 where
  pub Schema : Type 0
  pub Writer : Type 0
  pub field_types : Schema → List DataType
  pub equals : Schema → Schema → Bool
  pub new_stream : Schema → Written (Unit {0}) Writer
  pub write_batch : Writer → RecordBatch Schema → Written (Unit {0}) Writer
  pub close_writer : Writer → Written (Unit {0}) Writer

-- What an iteration hands over: a record batch, or something else.
pub data Item (Schema : Type 0) : Type 0 where
  batch : RecordBatch Schema → Item Schema
  not_batch : Item Schema

-- An iterable, run to its end: the items, and how it ended.
pub record Items (Schema : Type 0) : Type 0 where
  pub items : List (Item Schema)
  pub ending : Result (Unit {0})

-- `_ChunkSink`
pub record ChunkSink : Type 0 where
  pub chunks : List Bytes
  pub position : ℕ
  pub closed : Bool

abbrev pub empty_sink : ChunkSink
empty_sink = record { chunks = []; position = 0; closed = false }

-- `_ChunkSink.write`, for each chunk in turn
unfoldable pub write_chunk : ChunkSink → Bytes → ChunkSink
write_chunk s c = record s { chunks = s.chunks ++ c ∷ []; position = s.position + length c }

unfoldable pub write_chunks : ChunkSink → List Bytes → ChunkSink
unfolding write_chunk
write_chunks s [] = s
write_chunks s (c ∷ cs) = write_chunks (write_chunk s c) cs

-- `_ChunkSink.drain`
unfoldable pub drain : ChunkSink → Bytes × ChunkSink
drain s = (join s.chunks, record s { chunks = [] })
