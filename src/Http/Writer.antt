-- ===== src/Http/Writer.antt =====
-- `HttpResponseWriter` of src/http/http_response_writer.cpp: the bytes of a chunked body.
use oklib.Common.{length, Bytes, codes, [], ◌∷◌, ◌++◌}
use oklib.Http.Numbers.{to_chars}

unfoldable pub encode_chunk : Bytes → Bytes
encode_chunk data_bytes =
    to_chars 16 (length data_bytes) ++ b'\r' ∷ b'\n' ∷ (data_bytes ++ b'\r' ∷ b'\n' ∷ [])

-- The bytes of `write_chunk` on a response whose chunks have begun: an empty chunk is not written.
unfoldable pub write_chunk : Bytes → Bytes
write_chunk [] = []
write_chunk (x ∷ xs) = encode_chunk (x ∷ xs)

-- The bytes of `finish`: the last chunk and no trailers.
unfoldable pub finish : Bytes
finish = codes "0\r\n\r\n"
