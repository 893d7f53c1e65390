-- ===== src/Debugdata/Tests.antt =====
-- loader/src/utils/debugdata.cpp: the theorems at work on two decoders.
use zygisk_next_next.Base.{ℕ, [], ◌∷◌, Bytes, replicate, some, ltb, if◌then◌else◌}
use zygisk_next_next.Debugdata.{
  xz, LzmaDecode, lzma_finished, lzma_more, XzDecoder, stream_end, decompress,
}
use zygisk_next_next.Debugdata.Bounds.{Ended, decompress-Ended}

-- A decoder that needs 2 MiB, and one that ends at once.
abbrev decode : LzmaDecode
decode = λ props payload capacity finish.
    if ltb capacity 2097152 then lzma_more else lzma_finished (1 ∷ 2 ∷ [])

abbrev decoder : XzDecoder ℕ
decoder = record { init = some 0; run = λ s out_size x b. (stream_end, x, b) }

abbrev lzma_data : Bytes
lzma_data = replicate 20 0

decompress-Ended_example : Ended (decompress decoder decode 9 xz (some lzma_data))
decompress-Ended_example = decompress-Ended decoder decode xz (some lzma_data)
