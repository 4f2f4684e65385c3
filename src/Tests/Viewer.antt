-- ===== src/Tests/Viewer.antt =====
-- The viewer's stream on concrete inputs.
use snowglobe.Prelude.{ℕ, zero, suc, ◌<◌, true, some, none, arith, join, ◌≡◌, refl, List, [], ◌∷◌}
use snowglobe.Exec.{ok}
use snowglobe.Python.{pos}
use snowglobe.Broker.State.{Broker, Environment}
use snowglobe.Broker.Records.{complete}
use snowglobe.Broker.Methods
use snowglobe.Broker.History.{Call, cancels, opens, run, step}
use snowglobe.Arrow.Types.{Bytes}
use snowglobe.Arrow.Chunks.{Streamed}
use snowglobe.Viewer.Frames.{big_endian, pack_header, stream_magic}
use snowglobe.Viewer.Stream.{is_current, last_frame, frames_from, framed_stream}
use snowglobe.Viewer.Decoding.{read_frames}
use snowglobe.Viewer.Liveness.{Holds, framed_stream-Whole, open_source-Holds}
use snowglobe.Viewer.Completion.{Delivered, framed_stream-Delivered}
use snowglobe.Tests.Broker.{program, ticking, empty}

unfoldable pub viewer_program : Unit {0}
unfolding program big_endian pack_header is_current last_frame frames_from framed_stream
viewer_program = tt

abbrev pub published : Broker
published = (Methods.publish ticking "t" 6 (Methods.submit ticking (pos 50) empty).1).1

abbrev pub two_chunks : Streamed
two_chunks = record { chunks = (1 ∷ 2 ∷ []) ∷ (3 ∷ []) ∷ []; ending = ok tt }

abbrev pub undisturbed : ℕ → List Call
undisturbed n = []

-- another caller cancels the request after the first chunk
abbrev cancelled_after_one : ℕ → List Call
cancelled_after_one zero = []
cancelled_after_one (suc n) = cancels "t" ∷ []

abbrev first_frame : Bytes
first_frame = 1 ∷ 0 ∷ 0 ∷ 0 ∷ 0 ∷ 0 ∷ 0 ∷ 0 ∷ 2 ∷ 1 ∷ 2 ∷ []

complete_stream :
    (framed_stream ticking "t" 6 undisturbed two_chunks published).0
    ≡ stream_magic
      ∷ first_frame
      ∷ (1 ∷ 0 ∷ 0 ∷ 0 ∷ 0 ∷ 0 ∷ 0 ∷ 0 ∷ 1 ∷ 3 ∷ [])
      ∷ (2 ∷ 0 ∷ 0 ∷ 0 ∷ 0 ∷ 0 ∷ 0 ∷ 0 ∷ 0 ∷ [])
      ∷ []
unfolding viewer_program
complete_stream = refl

cancelled_stream :
    (framed_stream ticking "t" 6 cancelled_after_one two_chunks published).0
    ≡ stream_magic ∷ first_frame ∷ []
unfolding viewer_program
cancelled_stream = refl

framed_stream-Delivered_example :
    (frames : List Bytes) × ((framed_stream ticking "t" 6 cancelled_after_one two_chunks
        published).0
      ≡ stream_magic ∷ frames)
    × Delivered ticking "t" 6 cancelled_after_one 3
        ((1 ∷ 2 ∷ []) ∷ (3 ∷ []) ∷ [])
        (ok tt)
        (frames, (framed_stream ticking "t" 6 cancelled_after_one two_chunks published).1)
framed_stream-Delivered_example =
    framed_stream-Delivered ticking "t" 6 cancelled_after_one two_chunks published

-- a clock that stands
abbrev frozen : Environment
frozen = record ticking { clock = λ n. record { is_aware = true; instant = 1000 } }

abbrev frozen_early :
    (n : ℕ) → ((frozen.clock n).is_aware ≡ true) × ((frozen.clock n).instant < 1050)
frozen_early n = (refl, omega arith)

-- another viewer opens the same source each time
abbrev others_open : ℕ → List Call
others_open n = opens "t" ∷ []

others_open-Holds :
    (n : ℕ) (b : Broker) → Holds "t" 6 1050 b → Holds "t" 6 1050 (run frozen (others_open n) b)
unfolding run step
others_open-Holds n b h = (open_source-Holds frozen "t" 6 1050 frozen_early b h).1

published-Holds : Holds "t" 6 1050 published
unfolding viewer_program
published-Holds = record {
  request = record {
    request_id = "t";
    status = complete;
    expires_at = 1050;
    source = some 6;
    cursor = none;
  };
  found = refl;
  is_complete = refl;
  holds = refl;
  expires = refl;
}

framed_stream-Whole_example :
    (frames : List Bytes) × ((framed_stream frozen "t" 6 others_open two_chunks published).0
      ≡ stream_magic ∷ frames)
    × (read_frames 3 (join frames)
        ≡ some (record { chunks = (1 ∷ 2 ∷ []) ∷ (3 ∷ []) ∷ []; complete = true }))
framed_stream-Whole_example =
    framed_stream-Whole frozen "t" 6 1050 frozen_early others_open others_open-Holds
      ((1 ∷ 2 ∷ []) ∷ (3 ∷ []) ∷ []) published (omega arith, (omega arith, tt)) published-Holds
