-- ===== src/Viewer/Liveness.antt =====
-- A stream that nobody disturbs runs to its end.
use snowglobe.Prelude.{
  ℕ, suc, ◌<◌, ◌≡◌, refl, String, true, some, List, [], ◌∷◌, arith, length, join, All,
}
use mathlib.Core.List.{append-nil}
use snowglobe.Exec.{ok}
use snowglobe.Broker.Records.{
  RequestRecord, SourceRef, complete, is_live, is_complete, lookup, put_record,
}
use snowglobe.Broker.State.{Broker, Environment, expire, locked_record, cancel_optional}
use snowglobe.Broker.Bodies.{completed_source}
use snowglobe.Broker.Lifecycle.{lookup-put_record_self}
use snowglobe.Broker.Access.{open_source-Available}
use snowglobe.Broker.Methods
use snowglobe.Broker.History.{Call, run}
use snowglobe.Arrow.Types.{Bytes}
use snowglobe.Viewer.Frames.{pack_header, arrow_frame, complete_frame, stream_magic, big_endian}
use snowglobe.Viewer.Decoding.{read_frames, read_frames-chunk, read_frames-complete}
use snowglobe.Viewer.Stream.{is_current, last_frame, frames_from, framed_stream}

-- The broker holds this source for a complete request that expires at this time.
pub record Holds (request_id : String) (source : SourceRef) (expiry : ℕ) (b : Broker) : Type 0 where
  pub request : RequestRecord
  pub found : lookup request_id b.records ≡ some request
  pub is_complete : request.status ≡ complete
  pub holds : request.source ≡ some source
  pub expires : request.expires_at ≡ expiry

pack_header-ok :
    (kind size : ℕ)
    → kind < 256
    → size < 18446744073709551616
    → pack_header kind size ≡ ok (kind ∷ big_endian 8 size)
unfolding pack_header
pack_header-ok kind size h k = ground arith

is_current_self : (source : SourceRef) → is_current source (ok source) ≡ true
unfolding is_current
is_current_self source = ground arith

module _ (env : Environment) (request_id : String) (source : SourceRef) (expiry : ℕ)
    (early : (n : ℕ) → ((env.clock n).is_aware ≡ true) × ((env.clock n).instant < expiry)) where
  open_source-records :
      (b : Broker)
      → (h : Holds request_id source expiry b)
      → (Methods.open_source env request_id b).1.records ≡ put_record request_id h.request b.records
  unfolding Methods.open_source locked_record completed_source is_complete expire is_live
      cancel_optional
  open_source-records b h =
      let (aware, low) = early b.reads in ground (arith, h.found, h.is_complete, h.holds, h.expires)

  pub open_source-Holds :
      (b : Broker)
      → Holds request_id source expiry b
      → ((Methods.open_source env request_id b).0 ≡ ok source)
        × Holds request_id source expiry (Methods.open_source env request_id b).1
  open_source-Holds b h =
      let read = early b.reads in
      (
        (open_source-Available env request_id b source).1 (record {
          request = h.request;
          found = h.found;
          is_complete = h.is_complete;
          holds = h.holds;
          aware = read.0;
          in_time = rw h.expires read.1;
        }),
        record {
          request = h.request;
          found =
              rw (open_source-records b h)
                (lookup-put_record_self request_id h.request h.request b.records h.found);
          is_complete = h.is_complete;
          holds = h.holds;
          expires = h.expires;
        },
      )

  module _ (waits : ℕ → List Call)
      (left : (n : ℕ) (b : Broker)
        → Holds request_id source expiry b
        → Holds request_id source expiry (run env (waits n) b)) where
    -- All of these chunks, and the completion frame after them.
    abbrev Whole : ℕ → List Bytes → List Bytes → Type 0
    Whole k chunks frames =
        read_frames k (join frames) ≡ some (record { chunks = chunks; complete = true })

    last_frame-Whole :
        (k : ℕ) (b : Broker)
        → Holds request_id source expiry b
        → Whole (suc k) [] (last_frame env request_id source waits b).0
    unfolding last_frame
    last_frame-Whole k b h =
        let (e, h') = open_source-Holds b h in
        let packed = pack_header-ok complete_frame 0 (omega arith) (omega arith) in
        rw (e, is_current_self source, packed, last_frame)
          (rw append-nil (read_frames-complete k (complete_frame ∷ big_endian 8 0) packed))

    frames_from-Whole :
        (k : ℕ) (chunks : List Bytes) (n : ℕ) (b : Broker)
        → length chunks < k
        → All (λ c. length c < 18446744073709551616) chunks
        → Holds request_id source expiry b
        → Whole k chunks (frames_from env request_id source waits chunks (ok tt) n b).0
    unfolding frames_from
    frames_from-Whole ℕ.zero chunks n b low small h = absurd (omega arith)
    frames_from-Whole (suc k) [] n b low small h =
        last_frame-Whole k (run env (waits n) b) (left n b h)
    frames_from-Whole (suc k) (c ∷ cs) n b low small h =
        let (e, h') = open_source-Holds (run env (waits n) b) (left n b h) in
        let packed = pack_header-ok arrow_frame (length c) (omega arith) small.0 in
        let rest =
          frames_from-Whole k cs (suc n)
            (Methods.open_source env request_id (run env (waits n) b)).1 (omega arith) small.1 h' in
        rw (e, is_current_self source, packed, frames_from)
          (rw (read_frames-chunk k _ c _ packed, rest) refl)

    -- A stream whose chunks come to a good end, each of a length that the header of a frame holds, is sent whole:
    -- a reader of the frames after the magic bytes reads all chunks and meets the completion frame. The
    -- condition is that the broker holds the source for a complete request, that the clock has a time zone and
    -- never reaches the expiry of the request, and that the calls of others leave that request as it is.
    pub framed_stream-Whole :
        (chunks : List Bytes) (b : Broker)
        → All (λ c. length c < 18446744073709551616) chunks
        → Holds request_id source expiry b
        → (frames : List Bytes) × ((framed_stream env request_id source waits
              (record { chunks = chunks; ending = ok tt })
              b).0
            ≡ stream_magic ∷ frames)
          × (read_frames (suc (length chunks)) (join frames)
              ≡ some (record { chunks = chunks; complete = true }))
    unfolding framed_stream
    framed_stream-Whole chunks b small h =
        (_, refl, frames_from-Whole (suc (length chunks)) chunks 0 b (omega arith) small h)
