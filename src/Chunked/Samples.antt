-- ===== src/Chunked/Samples.antt =====
-- A chunked message, and a header parser that knows the empty header block only, for the runs of
-- the decoders.
use async_h.Base.{
  ◌≡◌, ◌≢◌, refl, ap, true, List, [], ◌∷◌, ◌++◌, arith, leb, if◌then◌else◌, length, length-append,
}
use async_h.Base.Bytes.{Bytes, codes}
use async_h.Chunked.Wire.{cr, lf, hex_digit, push_digit, size_value, IsChunked, sized, chunk, last}
use async_h.Chunked.Decoder.{partial, complete, Trailing}
use async_h.Chunked.Decoder.Owes.{IsTrailer, block}

-- Trailers as a list of headers, and a channel with room.
abbrev pub ext : Trailing (List (Bytes × Bytes)) (Unit {0}) (Unit {0})
ext = record {
  new = [];
  insert = λ trailers name value. trailers ++ (name, value) ∷ [];
  from_utf8_lossy = λ bytes. bytes;
  send = λ sender trailers. tt;
  poll = λ sending. (tt, true);
  parse_headers = λ bytes. if leb 2 (length bytes) then complete 2 [] else partial;
}

abbrev pub eol : Bytes
eol = cr ∷ lf ∷ []

before_eol : (a b : Bytes) → eol ≡ a ++ b → a ≢ [] → b ≢ [] → ext.parse_headers a ≡ partial
before_eol [] b e some_read some_left = absurd (some_read refl)
before_eol (x ∷ []) b e some_read some_left = refl
before_eol (x ∷ y ∷ a) [] e some_read some_left = absurd (some_left refl)
before_eol (x ∷ y ∷ a) (z ∷ b) e some_read some_left =
    absurd (omega (arith, ap length e, length-append a (z ∷ b)))

pub eol-IsTrailer : IsTrailer ext eol
eol-IsTrailer = block [] (omega arith) refl before_eol

abbrev pub wire : Bytes
wire = codes "4\r\nWiki\r\n0\r\n\r\n"

pub wire-IsChunked : IsChunked (IsTrailer ext) wire (codes "Wiki")
unfolding size_value push_digit hex_digit
wire-IsChunked = sized (codes "4") (codes "Wiki\r\n0\r\n\r\n") 4 refl refl (
    chunk (codes "Wiki") (codes "0\r\n\r\n") [] refl (omega arith) refl refl
      (sized (codes "0") eol 0 refl refl (last refl refl eol-IsTrailer)))
