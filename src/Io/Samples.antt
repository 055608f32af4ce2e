-- ===== src/Io/Samples.antt =====
-- A reader that is the bytes that it still has, and is never pending: `&[u8]` and `io::Cursor` of
-- the tests in src/.
use async_h.Base.{
  Option, ℕ, zero, suc, ◌<◌, ◌≡◌, refl, sym, [], ◌∷◌, arith, take, drop, length-take,
  take-append-drop,
}
use async_h.Base.Bytes.{Bytes}
use async_h.Io.{ready, Read, Stream}

abbrev pub bytes_io : Read Bytes
bytes_io = record { poll_read = λ bytes n. (drop n bytes, ready (take n bytes)) }

pub take-nil : (n : ℕ) (bytes : Bytes) → take n bytes ≡ [] → 0 < n → bytes ≡ []
take-nil zero bytes e h = absurd (omega arith)
take-nil (suc n) [] e h = refl
take-nil (suc n) (x ∷ bytes) e h = cc

abbrev pub bytes_stream : Stream bytes_io
bytes_stream = record {
  rest = λ bytes. bytes;
  serves = λ bytes n.
      (sym (take-append-drop n bytes), omega (arith, length-take n bytes), take-nil n bytes);
}

-- A body: the length that it declares, and its bytes.
abbrev pub Body : Type 0
Body = Option ℕ × Bytes

abbrev pub body_io : Read Body
body_io = record { poll_read = λ b n. ((b.0, drop n b.1), ready (take n b.1)) }

abbrev pub body_stream : Stream body_io
body_stream = record {
  rest = λ b. b.1;
  serves = λ b n. (sym (take-append-drop n b.1), omega (arith, length-take n b.1), take-nil n b.1);
}
