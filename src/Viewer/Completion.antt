-- ===== src/Viewer/Completion.antt =====
-- What a reader of the viewer's stream may conclude from the completion frame.
use snowglobe.Prelude.{
  ℕ, zero, suc, ◌<◌, ◌≡◌, refl, ap, String, true, false, some, List, [], ◌∷◌, ◌++◌, arith, length,
  join, Bool-cases, inl, inr,
}
use mathlib.Core.List.{append-nil}
use snowglobe.Exec.{Result, ok, err, Result-cases}
use snowglobe.Broker.Records.{SourceRef}
use snowglobe.Broker.State.{Broker, Environment}
use snowglobe.Broker.Methods
use snowglobe.Broker.History.{Call, run}
use snowglobe.Arrow.Types.{Bytes}
use snowglobe.Arrow.Chunks.{Streamed}
use snowglobe.Viewer.Frames.{pack_header, arrow_frame, complete_frame, stream_magic}
use snowglobe.Viewer.Decoding.{Content, read_frames, read_frames-chunk, read_frames-complete}
use snowglobe.Viewer.Stream.{is_current, last_frame, frames_from, framed_stream}

read_frames-nil : (k : ℕ) → read_frames k [] ≡ some (record { chunks = []; complete = false })
unfolding read_frames
read_frames-nil zero = refl
read_frames-nil (suc k) = refl

is_current-eq-ok :
    (source : SourceRef) (r : Result SourceRef) → is_current source r ≡ true → r ≡ ok source
unfolding is_current
is_current-eq-ok source (ok s) h = let same : s ≡ source = ground arith in ap ok same
is_current-eq-ok source (err e) h = absurd (cc h)

module _ (env : Environment) (request_id : String) (source : SourceRef)
    (waits : ℕ → List Call) where
  -- What a reader gets of a stream of these chunks: it reads the first of them; and where it meets the
  -- completion frame, it has read them all, they had come to a good end, and the last thing that was
  -- done is that the broker opened this source under the request id.
  pub record Delivered (k : ℕ) (chunks : List Bytes) (ending : Result (Unit {0}))
      (sent : List Bytes × Broker) : Type 0 where
    pub content : Content
    pub read : read_frames k (join sent.0) ≡ some content
    pub missing : List Bytes
    pub in_order : chunks ≡ content.chunks ++ missing
    pub is_whole : content.complete ≡ true → (missing ≡ []) × (ending ≡ ok tt)
    pub was_open :
        content.complete ≡ true
        → (b : Broker) × ((Methods.open_source env request_id b).0 ≡ ok source)
          × (sent.1 ≡ (Methods.open_source env request_id b).1)

  Delivered-nothing :
      (k : ℕ) (chunks : List Bytes) (ending : Result (Unit {0})) (b : Broker)
      → Delivered k chunks ending ([], b)
  Delivered-nothing k chunks ending b = record {
    content = record { chunks = []; complete = false };
    read = read_frames-nil k;
    missing = chunks;
    in_order = refl;
    is_whole = λ h. absurd (cc h);
    was_open = λ h. absurd (cc h);
  }

  last_frame-Delivered :
      (k : ℕ) (b : Broker) → Delivered (suc k) [] (ok tt) (last_frame env request_id source waits b)
  unfolding last_frame
  last_frame-Delivered k b =
      let (r, b') = Methods.open_source env request_id b in
      elim (Bool-cases (is_current source r)) [
        | inr e ↦ rw (e, last_frame) (Delivered-nothing (suc k) [] (ok tt) b')
        | inl e ↦ elim (Result-cases (pack_header complete_frame 0)) [
          | inr (x, f) ↦ rw (e, f, last_frame) (Delivered-nothing (suc k) [] (ok tt) b')
          | inl (h, f) ↦
              rw (e, f, last_frame)
                (record {
                  content = record { chunks = []; complete = true };
                  read = rw append-nil (read_frames-complete k h f);
                  missing = [];
                  in_order = refl;
                  is_whole = λ _. (refl, refl);
                  was_open = λ _. (b, is_current-eq-ok source r e, refl);
                })
        ]
      ]

  Delivered-cons :
      (k : ℕ) (c h : Bytes) (cs : List Bytes) (ending : Result (Unit {0}))
      (rest : List Bytes × Broker)
      → pack_header arrow_frame (length c) ≡ ok h
      → Delivered k cs ending rest
      → Delivered (suc k) (c ∷ cs) ending ((h ++ c) ∷ rest.0, rest.1)
  Delivered-cons k c h cs ending rest p d = record {
    content = record { chunks = c ∷ d.content.chunks; complete = d.content.complete };
    read = rw (read_frames-chunk k h c (join rest.0) p, d.read) refl;
    missing = d.missing;
    in_order = ap (◌∷◌ c) d.in_order;
    is_whole = d.is_whole;
    was_open = d.was_open;
  }

  frames_from-Delivered :
      (k : ℕ) (chunks : List Bytes) (ending : Result (Unit {0})) (n : ℕ) (b : Broker)
      → length chunks < k
      → Delivered k chunks ending (frames_from env request_id source waits chunks ending n b)
  unfolding frames_from
  frames_from-Delivered zero chunks ending n b low = absurd (omega arith)
  frames_from-Delivered (suc k) [] (err e) n b low = Delivered-nothing (suc k) [] (err e) b
  frames_from-Delivered (suc k) [] (ok _) n b low = last_frame-Delivered k (run env (waits n) b)
  frames_from-Delivered (suc k) (c ∷ cs) ending n b low =
      let (r, b') = Methods.open_source env request_id (run env (waits n) b) in
      let rest = frames_from-Delivered k cs ending (suc n) b' (omega arith) in
      elim (Bool-cases (is_current source r)) [
        | inr e ↦ rw (e, frames_from) (Delivered-nothing (suc k) (c ∷ cs) ending b')
        | inl e ↦ elim (Result-cases (pack_header arrow_frame (length c))) [
          | inr (x, f) ↦ rw (e, f, frames_from) (Delivered-nothing (suc k) (c ∷ cs) ending b')
          | inl (h, f) ↦ rw (e, f, frames_from) (Delivered-cons k c h cs ending _ f rest)
        ]
      ]

  -- The viewer's stream starts with the magic bytes, and a reader of the frames after them reads the
  -- first chunks of the source, in order. If it meets the completion frame, it has read all of them,
  -- they had come to an end without an error, and the last check of the broker opened the source.
  pub framed_stream-Delivered :
      (s : Streamed) (b : Broker)
      → (frames : List Bytes) × ((framed_stream env request_id source waits s b).0
          ≡ stream_magic ∷ frames)
        × Delivered
            (suc (length s.chunks))
            s.chunks
            s.ending
            (frames, (framed_stream env request_id source waits s b).1)
  unfolding framed_stream
  framed_stream-Delivered s b =
      (_, refl, frames_from-Delivered (suc (length s.chunks)) s.chunks s.ending 0 b (omega arith))
