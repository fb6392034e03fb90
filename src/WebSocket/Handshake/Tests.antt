-- ===== src/WebSocket/Handshake/Tests.antt =====
-- Runs of the handshake at fixed inputs.
use oklib.WebSocket.Handshake.{
  base64_encode, new_sha1, block_words, extend_words, round_f, sha1_round, sha1_rounds,
  process_block, update_loop, update, final, websocket_accept_key,
}
use oklib.Common.{length, codes, ◌+◌, ◌^◌, ◌<◌, ◌≡◌, refl, ◌++◌, arith}
use oklib.WebSocket.Handshake.Sha1.{update-append}
use oklib.WebSocket.Handshake.Base64.{base64_decode, base64_decode-encode}

-- The example of RFC 6455.
accept_key :
    websocket_accept_key (codes "dGhlIHNhbXBsZSBub25jZQ==") ≡ codes "s3pPLMBiTxaQ9kYGzzhZRbK+xOo="
unfolding websocket_accept_key base64_encode final update new_sha1 update_loop process_block
    sha1_rounds sha1_round round_f extend_words block_words
accept_key = refl

update-append_example :
    (update (codes "ab" ++ codes "c") new_sha1 ≡ update (codes "c") (update (codes "ab") new_sha1))
    × (length (update (codes "ab") new_sha1).block < 64)
unfolding new_sha1
update-append_example = update-append (codes "ab") (codes "c") new_sha1 empty_block small
  where
    empty_block : length new_sha1.block < 64
    empty_block = omega arith

    small : new_sha1.total_bytes + 2 + 1 < 2 ^ 64
    small = omega arith

base64_decode-encode_example : base64_decode (base64_encode (codes "Man!")) ≡ codes "Man!"
base64_decode-encode_example =
    base64_decode-encode (codes "Man!")
      (omega arith, (omega arith, (omega arith, (omega arith, tt))))
