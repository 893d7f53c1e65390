-- ===== src/Debugdata.antt =====
-- loader/src/utils/debugdata.cpp and loader/src/config/debugdata.cpp: unpacking .gnu_debugdata. The
-- decoders are parameters: `LzmaDecode`, and the calls of a `xz_dec`.
pub mod Bounds
pub mod Tests
use zygisk_next_next.Base.{
  ℕ, zero, suc, ◌+◌, ◌-◌, ◌*◌, ◌≤◌, ◌<◌, ◌^◌, min, Bool, true, false, not, ◌||◌, ◌&&◌, List, [],
  ◌∷◌, Bytes, length, take, drop, same, codes, c_str, ltb, leb, ◌==◌, if◌then◌else◌, Option, none,
  some,
}

-- kMaxDecompressedSize, kInitialOutputSize
abbrev pub max_decompressed_size : ℕ
max_decompressed_size = 64 * 1024 * 1024

abbrev pub initial_output_size : ℕ
initial_output_size = 256 * 1024

-- kXzMagic
abbrev pub xz_magic : Bytes
xz_magic = 0xfd ∷ b'7' ∷ b'z' ∷ b'X' ∷ b'Z' ∷ 0 ∷ []

-- `Backend`
pub data Backend : Type 0 where
  lzma xz : Backend

-- `isXzStream`
unfoldable pub is_xz_stream : Bytes → Bool
is_xz_stream data_bytes = leb 6 (length data_bytes) && same (take 6 data_bytes) xz_magic

-- The loop over the eight bytes of the declared size.
unfoldable pub little_endian : Bytes → ℕ
little_endian [] = 0
little_endian (c ∷ s) = c + 256 * little_endian s

-- What `LzmaDecode` returns: an error, or its status and the bytes that it wrote.
pub data LzmaResult : Type 0 where
  lzma_error : LzmaResult
  -- LZMA_STATUS_FINISHED_WITH_MARK or LZMA_STATUS_MAYBE_FINISHED_WITHOUT_MARK
  lzma_finished : Bytes → LzmaResult
  lzma_more : LzmaResult

-- `LzmaDecode` for a header of five bytes, a payload, a capacity and the finish mode
-- (LZMA_FINISH_END or not).
abbrev pub LzmaDecode : Type 0
LzmaDecode = Bytes → Bytes → ℕ → Bool → LzmaResult

-- How a round of the loop of `lzmaAlone` ends: with its result, or with the next capacity.
pub data Turn : Type 0 where
  ends : Option Bytes → Turn
  grows : ℕ → Turn

-- The body of the loop of `lzmaAlone`, behind `LzmaDecode`.
unfoldable pub lzma_turn : (sized : Bool) → (capacity : ℕ) → LzmaResult → Turn
lzma_turn sized capacity lzma_error = ends none
lzma_turn sized capacity (lzma_finished out) = ends (some out)
lzma_turn sized capacity lzma_more =
    if sized || leb max_decompressed_size capacity
    then ends none
    else grows (min (capacity * 2) max_decompressed_size)

-- The loop of `lzmaAlone` with `fuel` rounds left, none when they do not suffice.
unfoldable pub lzma_loop :
    LzmaDecode
    → (props payload : Bytes) → (sized : Bool) → (fuel capacity : ℕ) → Option (Option Bytes)
lzma_loop decode props payload sized zero capacity = none
lzma_loop decode props payload sized (suc fuel) capacity =
    elim (lzma_turn sized capacity (decode props payload capacity sized)) [
      | ends result ↦ some result
      | grows next ↦ lzma_loop decode props payload sized fuel next
    ]

-- `declared_size != 0 && declared_size != UINT64_MAX`
abbrev pub is_sized : ℕ → Bool
is_sized declared = not (declared == 0) && not (declared == 2 ^ 64 - 1)

-- `lzmaAlone`, with `fuel` for its loop: its output where it returns true.
unfoldable pub lzma_alone : LzmaDecode → (fuel : ℕ) → Bytes → Option (Option Bytes)
lzma_alone decode fuel data_bytes =
    let declared = little_endian (take 8 (drop 5 data_bytes)) in
    let sized = is_sized declared in
    let capacity = if sized then declared else initial_output_size in
    let result = lzma_loop decode (take 5 data_bytes) (drop 13 data_bytes) sized fuel capacity in
    if ltb (length data_bytes) 13 || is_xz_stream data_bytes
    then some none
    else if sized && ltb max_decompressed_size declared
    then some none
    else result

-- XZ_STREAM_END, XZ_OK and the errors of `xz_dec_run`
pub data XzRet : Type 0 where
  stream_end xz_ok xz_failed : XzRet

-- `xz_buf` less its constant fields: the position in the input, and the bytes written.
pub record XzBuffer : Type 0 where
  pub in_pos : ℕ
  pub written : Bytes

-- `xz_dec_init` with XZ_DYNALLOC and kMaxDictionarySize, and `xz_dec_run` for an input and an
-- `out_size`. `X` is the decoder's own state.
pub record XzDecoder (X : Type 0) : Type 0 where
  pub init : Option X
  pub run : Bytes → ℕ → X → XzBuffer → XzRet × X × XzBuffer

-- How a round of the loop of `xzStream` ends: with its result, or with the next size of the output.
pub data XzTurn : Type 0 where
  xz_ends : Option Bytes → XzTurn
  xz_grows : ℕ → XzTurn

-- The body of the loop of `xzStream`, behind `xz_dec_run`.
unfoldable pub xz_turn : (in_size out_size : ℕ) → XzRet → XzBuffer → XzTurn
xz_turn in_size out_size stream_end buffer = xz_ends (some buffer.written)
xz_turn in_size out_size xz_failed buffer = xz_ends none
xz_turn in_size out_size xz_ok buffer =
    if buffer.in_pos == in_size
    then xz_ends none
    else if ltb (length buffer.written) out_size
    then xz_ends none
    else if leb max_decompressed_size out_size
    then xz_ends none
    else xz_grows (min (out_size * 2) max_decompressed_size)

module _ {X : Type 0} (decoder : XzDecoder X) where
  -- The loop of `xzStream` with `fuel` rounds left, none when they do not suffice.
  unfoldable pub xz_loop : Bytes → (fuel out_size : ℕ) → X → XzBuffer → Option (Option Bytes)
  xz_loop data_bytes zero out_size state buffer = none
  xz_loop data_bytes (suc fuel) out_size state buffer =
      let (result, state', buffer') = decoder.run data_bytes out_size state buffer in
      elim (xz_turn (length data_bytes) out_size result buffer') [
        | xz_ends output ↦ some output
        | xz_grows grown ↦ xz_loop data_bytes fuel grown state' buffer'
      ]

  -- `xzStream`, behind its first test
  unfoldable pub xz_started : (fuel : ℕ) → Bytes → Option X → Option (Option Bytes)
  xz_started fuel data_bytes none = some none
  xz_started fuel data_bytes (some state) =
      xz_loop data_bytes fuel initial_output_size state (record { in_pos = 0; written = [] })

  -- `xzStream`, with `fuel` for its loop
  unfoldable pub xz_stream : (fuel : ℕ) → Bytes → Option (Option Bytes)
  xz_stream fuel data_bytes =
      let result = xz_started fuel data_bytes decoder.init in
      if not (is_xz_stream data_bytes) then some none else result

  module _ (decode : LzmaDecode) where
    -- `tryBackend`
    unfoldable pub try_backend : (fuel : ℕ) → Backend → Bytes → Option (Option Bytes)
    try_backend fuel xz data_bytes = xz_stream fuel data_bytes
    try_backend fuel lzma data_bytes = lzma_alone decode fuel data_bytes

    abbrev pub other : Backend → Backend
    other xz = lzma
    other lzma = xz

    -- The loop of `decompress` over its two candidates, from the first one's result on.
    unfoldable pub second_try :
        (fuel : ℕ) → Backend → Bytes → Option (Option Bytes) → Option (Option Bytes)
    second_try fuel fallback data_bytes none = none
    second_try fuel fallback data_bytes (some (some out)) = some (some out)
    second_try fuel fallback data_bytes (some none) = try_backend fuel fallback data_bytes

    -- `decompress`, with `fuel` for each loop: none where the fuel does not suffice, else the output,
    -- or none for false. `preferred` is `g_backend`, and no data is a null pointer.
    unfoldable pub decompress :
        (fuel : ℕ) → (preferred : Backend) → Option Bytes → Option (Option Bytes)
    decompress fuel preferred none = some none
    decompress fuel preferred (some data_bytes) =
        let result =
          second_try fuel (other preferred) data_bytes (try_backend fuel preferred data_bytes) in
        if length data_bytes == 0 then some none else result

-- `parseBackend` for a name that is no null pointer
unfoldable pub parse_backend : Bytes → Option Backend
parse_backend name =
    if same name (codes "lzma") then some lzma else if same name (codes "xz") then some xz else none

-- `backendName`
unfoldable pub backend_name : Backend → Bytes
backend_name xz = codes "xz"
backend_name lzma = codes "lzma"

abbrev pub parsed_or : Option Backend → Backend → Backend
parsed_or none b = b
parsed_or (some p) b = p

-- `config::resolveDebugDataBackend`: the backend in use behind it.
unfoldable pub resolve_debug_data_backend : Bytes → Backend → Backend
resolve_debug_data_backend name in_use = parsed_or (parse_backend (c_str name)) in_use
