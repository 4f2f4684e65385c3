-- ===== src/Viewer/Frames.antt =====
-- src/snowglobe/result_api.py: the bytes of the frames.
use snowglobe.Prelude.{ℕ, zero, suc, ◌/◌, ◌%◌, [], ◌∷◌, ◌++◌, ◌&&◌, ltb, if◌then◌else◌}
use snowglobe.Exec.{Result, ok, err, struct_error}
use snowglobe.Arrow.Types.{Bytes}

-- `STREAM_MAGIC`: "SNOWGLOBE-ARROW-STREAM", and a byte 1
abbrev pub stream_magic : Bytes
stream_magic =
    83 ∷ 78 ∷ 79 ∷ 87 ∷ 71 ∷ 76 ∷ 79 ∷ 66 ∷ 69 ∷ 45 ∷ 65 ∷ 82 ∷ 82 ∷ 79 ∷ 87 ∷ 45 ∷ 83 ∷ 84 ∷ 82
    ∷ 69 ∷ 65 ∷ 77 ∷ 1 ∷ []

abbrev pub arrow_frame : ℕ
arrow_frame = 1

abbrev pub complete_frame : ℕ
complete_frame = 2

-- an unsigned number in `width` bytes, the highest first
unfoldable pub big_endian : ℕ → ℕ → Bytes
big_endian zero n = []
big_endian (suc width) n = big_endian width (n / 256) ++ n % 256 ∷ []

-- `FRAME_HEADER.pack(kind, size)`, of the format `>BQ`
unfoldable pub pack_header : ℕ → ℕ → Result Bytes
pack_header kind size =
    if ltb kind 256 && ltb size 18446744073709551616
    then ok (kind ∷ big_endian 8 size)
    else err struct_error
