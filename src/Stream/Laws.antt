-- ===== src/Stream/Laws.antt =====
-- A stream stays inside its buffer, and what is written is read back.
use gsc.Base.{
  ℕ, suc, zero, ◌+◌, ◌-◌, ◌*◌, ◌%◌, ◌≤◌, ◌<◌, false, List, [], ◌∷◌, ◌++◌, ◌≡◌, refl, ap, ◌∙◌, arith,
  ltb, ◌==◌, if◌then◌else◌, take, drop, length, length-append, length-take, length-drop,
}
use Prim.Native.Nat.{min}
use gsc.Base.Word.{word_mod}
use gsc.Base.Int.{ℤ, pos}
use gsc.Stream.{StreamBuffer, Whence, beg, read, write, seek, store, base_of, target}

-- The offset is inside, the buffer holds the bytes that the length says, and these are fewer than
-- 2 ^ 63.
pub record IsValid (s : StreamBuffer) : Type 0 where
  pub inside : s.offset ≤ s.length
  pub whole : s.length ≤ length s.buffer
  pub small : s.length < 9223372036854775808

-- A seek in a valid stream goes to the target, or to the nearer end of the buffer where the target
-- lies outside; the buffer keeps its bytes, and the stream stays valid.
seek-IsValid :
    (s : StreamBuffer) (offset : ℤ) (whence : Whence)
    → IsValid s
    → IsValid (seek s offset whence)
      × ((seek s offset whence).offset ≡ min s.length (target (base_of s whence) offset))
      × ((seek s offset whence).buffer ≡ s.buffer)
unfolding seek
seek-IsValid s offset whence v = (ground arith, ground arith, refl)

-- A read of a valid stream copies as many bytes as are asked for or left, from the offset on, moves
-- behind them and stays inside. It returns 0 exactly where it copies none, and otherwise the full count, also where
-- it was cut. It asks for fewer than 2 ^ 63 bytes.
pub read_lem :
    (s : StreamBuffer) (size nmemb : ℕ)
    → IsValid s
    → size * nmemb < 9223372036854775808
    → let r = read s size nmemb in
      let nb = min (size * nmemb) (s.length - s.offset) in
      (r.bytes ≡ take nb (drop s.offset s.buffer))
      × (length r.bytes ≡ nb)
      × (r.stream ≡ record s { offset = s.offset + nb })
      × (r.count ≡ (if nb == 0 then 0 else nmemb))
      × IsValid r.stream
unfolding read
read_lem s size nmemb v few = (
  ground (arith, ap (λ n. take n rest) cut),
  ground (
    arith,
    length-take (min (size * nmemb) (s.length - s.offset)) rest,
    length-drop s.offset s.buffer,
  ),
  ground arith,
  ground arith,
  ground arith,
)
  where
    rest : List ℕ
    rest = drop s.offset s.buffer

    cut :
        (if ltb s.length (s.offset + size * nmemb % word_mod)
          then s.length - s.offset
          else size * nmemb % word_mod)
        ≡ min (size * nmemb) (s.length - s.offset)
    cut = ground arith

take_back : (bytes rest : List ℕ) → take (length bytes) (take (length bytes) bytes ++ rest) ≡ bytes
take_back [] rest = refl
take_back (b ∷ bytes) rest = ap (λ t. b ∷ t) (take_back bytes rest)

-- What is stored at an offset is read from it.
read_back :
    (o : ℕ) (buffer bytes rest : List ℕ)
    → o ≤ length buffer
    → take (length bytes) (drop o (take o buffer ++ (take (length bytes) bytes ++ rest))) ≡ bytes
read_back zero buffer bytes rest h = take_back bytes rest
read_back (suc o) [] bytes rest h = absurd (omega arith)
read_back (suc o) (c ∷ buffer) bytes rest h = read_back o buffer bytes rest (omega arith)

length-store :
    (s : StreamBuffer) (bytes : List ℕ)
    → IsValid s
    → s.offset + length bytes ≤ s.length
    → s.length ≤ length (store s bytes (length bytes)).buffer
unfolding store
length-store s bytes v fits =
    let n = length bytes in
    omega (
      arith,
      length-append (take s.offset s.buffer) (take n bytes ++ drop (s.offset + n) s.buffer),
      length-append (take n bytes) (drop (s.offset + n) s.buffer),
      length-take s.offset s.buffer,
      length-take n bytes,
      length-drop (s.offset + n) s.buffer,
    )

write-fits :
    (realloc : List ℕ → ℕ → List ℕ) (s : StreamBuffer) (bytes : List ℕ)
    → s.offset + length bytes ≤ s.length
    → s.length < 9223372036854775808
    → write realloc s bytes 1 (length bytes) ≡ (length bytes, store s bytes (length bytes))
unfolding write
write-fits realloc s bytes fits small =
    let one : 1 * length bytes % word_mod ≡ length bytes = omega arith in
    let room : ltb s.length (s.offset + 1 * length bytes % word_mod) ≡ false = ground arith in
    rw (room, one)

store-IsValid :
    (s : StreamBuffer) (bytes : List ℕ)
    → IsValid s
    → s.offset + length bytes ≤ s.length
    → IsValid (store s bytes (length bytes))
unfolding store
store-IsValid s bytes v fits = record {
  inside = fits;
  whole = unfold store in length-store s bytes v fits;
  small = v.small;
}

read-store :
    (s : StreamBuffer) (bytes : List ℕ)
    → IsValid s
    → s.offset + length bytes ≤ s.length
    → (read (seek (store s bytes (length bytes)) (pos s.offset) beg) 1 (length bytes)).bytes ≡ bytes
unfolding seek store
read-store s bytes v fits =
    let s' = store s bytes (length bytes) in
    let (w, at, same) = seek-IsValid s' (pos s.offset) beg (store-IsValid s bytes v fits) in
    let r = read_lem (seek s' (pos s.offset) beg) 1 (length bytes) w (omega (arith, v.small)) in
    let here : (seek s' (pos s.offset) beg).offset ≡ s.offset = at ∙ omega arith in
    let all : min (1 * length bytes) (s.length - (seek s' (pos s.offset) beg).offset)
        ≡ length bytes =
      omega (arith, here) in
    r.0
    ∙ ap (λ n. take n (drop (seek s' (pos s.offset) beg).offset s'.buffer)) all
    ∙ ap (λ o. take (length bytes) (drop o s'.buffer)) here
    ∙ read_back s.offset s.buffer bytes (drop (s.offset + length bytes) s.buffer)
        (omega (arith, v.inside, v.whole))

-- Bytes that are written where they fit are counted, and are what a read of as many bytes gives at
-- the offset where they were written. The stream is valid before and after.
pub read-write :
    (realloc : List ℕ → ℕ → List ℕ) (s : StreamBuffer) (bytes : List ℕ)
    → IsValid s
    → s.offset + length bytes ≤ s.length
    → let (n, s') = write realloc s bytes 1 (length bytes) in
      (n ≡ length bytes)
      × IsValid s'
      × ((read (seek s' (pos s.offset) beg) 1 (length bytes)).bytes ≡ bytes)
read-write realloc s bytes v fits =
    rw (write-fits realloc s bytes fits v.small)
      (refl, store-IsValid s bytes v fits, read-store s bytes v fits)
