-- ===== src/Viewer/Decoding.antt =====
-- A reader of the stream's frames, and that it reads what the frames were made of.
use snowglobe.Prelude.{
  ℕ, zero, suc, ◌+◌, ◌*◌, ◌/◌, ◌%◌, ◌<◌, ◌≡◌, refl, ap, Bool, true, false, Option, none, some, List,
  [], ◌∷◌, ◌++◌, arith, ltb, length, length-append, take, drop, ◌==◌, if◌then◌else◌, ◌&&◌,
}
use mathlib.Core.List.{append_assoc}
use snowglobe.Exec.{ok}
use snowglobe.Arrow.Types.{Bytes}
use snowglobe.Viewer.Frames.{big_endian, pack_header, arrow_frame, complete_frame}

-- What a reader of the stream has read: the chunks, and whether they are all there are.
pub record Content : Type 0 where
  pub chunks : List Bytes
  pub complete : Bool

abbrev pub value : ℕ → Bytes → ℕ
value acc [] = acc
value acc (b ∷ bs) = value (256 * acc + b) bs

abbrev pub with_chunk : Bytes → Option Content → Option Content
with_chunk c none = none
with_chunk c (some content) = some (record content { chunks = c ∷ content.chunks })

-- Reads up to `n` frames.
unfoldable pub read_frames : ℕ → Bytes → Option Content
read_frames n [] = some (record { chunks = []; complete = false })
read_frames zero (kind ∷ more) = none
read_frames (suc n) (kind ∷ more) =
    let body = drop 8 more in
    let size = value 0 (take 8 more) in
    let rest = read_frames n (drop size body) in
    if kind == arrow_frame
    then (if ltb (length body) size then none else with_chunk (take size body) rest)
    else if (kind == complete_frame) && (length more == 8)
    then some (record { chunks = []; complete = true })
    else none

module _ {ℓ} {A : Type ℓ} where
  take-append : (xs ys : List A) → take (length xs) (xs ++ ys) ≡ xs
  take-append [] ys = refl
  take-append (x ∷ xs) ys = ap (◌∷◌ x) (take-append xs ys)

  drop-append : (xs ys : List A) → drop (length xs) (xs ++ ys) ≡ ys
  drop-append [] ys = refl
  drop-append (x ∷ xs) ys = drop-append xs ys

abbrev bound : ℕ → ℕ
bound zero = 1
bound (suc w) = 256 * bound w

value-append : (acc : ℕ) (xs : Bytes) (b : ℕ) → value acc (xs ++ b ∷ []) ≡ 256 * value acc xs + b
value-append acc [] b = refl
value-append acc (x ∷ xs) b = value-append (256 * acc + x) xs b

length-big_endian : (w n : ℕ) → length (big_endian w n) ≡ w
unfolding big_endian
length-big_endian zero n = refl
length-big_endian (suc w) n =
    omega
      (arith, length-append (big_endian w (n / 256)) (n % 256 ∷ []), length-big_endian w (n / 256))

value-big_endian : (w n : ℕ) → n < bound w → value 0 (big_endian w n) ≡ n
unfolding big_endian
value-big_endian zero n h = omega arith
value-big_endian (suc w) n h =
    let high = value-big_endian w (n / 256) (omega arith) in
    omega (arith, high, value-append 0 (big_endian w (n / 256)) (n % 256))

read_body :
    (k : ℕ) (h c rest : Bytes)
    → length h ≡ 8
    → value 0 h ≡ length c
    → read_frames (suc k) (arrow_frame ∷ (h ++ (c ++ rest))) ≡ with_chunk c (read_frames k rest)
unfolding read_frames
read_body k h c rest e v =
    let header : take 8 (h ++ (c ++ rest)) ≡ h = rw e at (take-append h (c ++ rest)) in
    let body : drop 8 (h ++ (c ++ rest)) ≡ c ++ rest = rw e at (drop-append h (c ++ rest)) in
    let fits : ltb (length (c ++ rest)) (length c) ≡ false = ground (arith, length-append c rest) in
    rw (header, body, v, fits, take-append c rest, drop-append c rest, read_frames) refl

packed :
    (kind size : ℕ) (h : Bytes)
    → pack_header kind size ≡ ok h
    → (h ≡ kind ∷ big_endian 8 size) × (size < 18446744073709551616)
unfolding pack_header
packed kind size h p = ground arith

-- A reader that meets a frame of a chunk reads the chunk, then what follows.
pub read_frames-chunk :
    (k : ℕ) (h c rest : Bytes)
    → pack_header arrow_frame (length c) ≡ ok h
    → read_frames (suc k) ((h ++ c) ++ rest) ≡ with_chunk c (read_frames k rest)
read_frames-chunk k h c rest p =
    let (e, low) = packed arrow_frame (length c) h p in
    let sized = value-big_endian 8 (length c) low in
    rw (e, append_assoc (big_endian 8 (length c)) c rest)
      (read_body k (big_endian 8 (length c)) c rest (length-big_endian 8 (length c)) sized)

pub read_frames-complete :
    (k : ℕ) (h : Bytes)
    → pack_header complete_frame 0 ≡ ok h
    → read_frames (suc k) h ≡ some (record { chunks = []; complete = true })
unfolding read_frames big_endian
read_frames-complete k h p = rw (packed complete_frame 0 h p).0 refl
