-- ===== src/Http/Url/Decode.antt =====
-- `url_decode` undoes percent encoding.
use oklib.Common.{◌==◌, if◌then◌else◌, Bytes, IsByte, ℕ, ◌/◌, ◌%◌, ◌≢◌, List, [], ◌∷◌, ◌++◌}
use oklib.Http.Numbers.{digit_char}
use oklib.Http.Url.{UrlDecodeMode, percent, form}

-- A character that stands for itself, or a byte that is written as an escape.
pub data Piece : Type 0 where
  raw : ℕ → Piece
  percent_escape : ℕ → Piece

abbrev pub piece_text : Piece → Bytes
piece_text (raw c) = c ∷ []
piece_text (percent_escape byte) = b'%' ∷ digit_char (byte / 16) ∷ digit_char (byte % 16) ∷ []

-- In a form, and only there, a plus sign stands for a space.
abbrev pub piece_value : UrlDecodeMode → Piece → ℕ
piece_value form (raw c) = if c == b'+' then b' ' else c
piece_value percent (raw c) = c
piece_value mode (percent_escape byte) = byte

abbrev pub IsPiece : Piece → Type 0
IsPiece (raw c) = c ≢ b'%'
IsPiece (percent_escape byte) = IsByte byte

abbrev pub encoded : List Piece → Bytes
encoded [] = []
encoded (p ∷ ps) = piece_text p ++ encoded ps
