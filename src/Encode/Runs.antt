-- ===== src/Encode/Runs.antt =====
-- Runs of calls of a reader such as the encoders of src/server/encode.rs and src/client/encode.rs,
-- and the headers of the body that both of them set.
use async_h.Base.{ℕ, ◌≡◌, ◌≢◌, ap, ◌∙◌, arith, [], ◌++◌, Option, none, some, length, take}
use async_h.Base.Bytes.{Bytes, codes}
use async_h.Io.{Poll, ready, pending}
use async_h.Chunked.Encoder.Emits.{Fits}

-- Calls on buffers of at least six and fewer than 2^48 bytes, none of which fails, and all the
-- bytes that they returned.
pub data Returned {E : Type 0} (poll_read : E → Bytes → E × Bytes × Poll ℕ) (e : E)
    : Bytes → E → Type 0 where
  here : Returned poll_read e [] e
  waits :
      {out : Bytes} {e' e'' : E} (buf buf' : Bytes)
      → Returned poll_read e out e'
      → Fits buf
      → poll_read e' buf ≡ (e'', buf', pending)
      → Returned poll_read e out e''
  returns :
      {out all : Bytes} {e' e'' : E} (buf buf' : Bytes) (n : ℕ)
      → Returned poll_read e out e'
      → Fits buf
      → poll_read e' buf ≡ (e'', buf', ready n)
      → all ≡ out ++ take n buf'
      → Returned poll_read e all e''

-- What the documentation of `http_types` says of inserting a header.
pub record Inserts {H : Type 0} (header : H → Bytes → Option Bytes) (insert : H → Bytes → Bytes → H)
    (len : H → Option ℕ) : Type 0 where
  pub inserted :
      (h : H) (name value : Bytes)
      → header h name ≡ none
      → header (insert h name value) name ≡ some value
  pub others :
      (h : H) (name other value : Bytes)
      → name ≢ other
      → header (insert h name value) other ≡ header h other
  pub len_kept : (h : H) (name value : Bytes) → len (insert h name value) ≡ len h

-- The two headers of the body, for a declared length, where `to_string` prints it.
abbrev pub Announces : (ℕ → Bytes) → Option ℕ → Option Bytes → Option Bytes → Type 0
Announces to_string (some n) content_length transfer_encoding =
    (content_length ≡ some (to_string n)) × (transfer_encoding ≡ none)
Announces to_string none content_length transfer_encoding =
    (content_length ≡ none) × (transfer_encoding ≡ some (codes "chunked"))

-- Neither of the two headers.
abbrev pub Unannounced : {H : Type 0} → (H → Bytes → Option Bytes) → H → Type 0
Unannounced header h =
    (header h (codes "content-length") ≡ none) × (header h (codes "transfer-encoding") ≡ none)

abbrev pub Announced :
    {H : Type 0} → (H → Bytes → Option Bytes) → (H → Option ℕ) → (ℕ → Bytes) → Option ℕ → H → Type 0
Announced header len to_string length_is h =
    Announces to_string length_is (header h (codes "content-length"))
      (header h (codes "transfer-encoding"))
    × (len h ≡ length_is)

module _ {H : Type 0} (header : H → Bytes → Option Bytes) (insert : H → Bytes → Bytes → H)
    (len : H → Option ℕ) (map : Inserts header insert len) where
  module _ (to_string : ℕ → Bytes) where
    abbrev with_length : H → Option ℕ → H
    with_length h length_is = elim length_is [
      | some n ↦ insert h (codes "content-length") (to_string n)
      | none ↦ insert h (codes "transfer-encoding") (codes "chunked")
    ]

    pub with_length-Announced :
        (h : H) (length_is : Option ℕ)
        → Unannounced header h
        → len h ≡ length_is
        → Announced header len to_string length_is (with_length h length_is)
    with_length-Announced h (some n) (no_length, no_encoding) e = (
      (
        map.inserted h (codes "content-length") (to_string n) no_length,
        map.others h (codes "content-length") (codes "transfer-encoding") (to_string n)
              (λ s. omega (arith, ap length s))
            ∙ no_encoding,
      ),
      map.len_kept h (codes "content-length") (to_string n) ∙ e,
    )
    with_length-Announced h none (no_length, no_encoding) e = (
      (
        map.others h (codes "transfer-encoding") (codes "content-length") (codes "chunked")
              (λ s. omega (arith, ap length s))
            ∙ no_length,
        map.inserted h (codes "transfer-encoding") (codes "chunked") no_encoding,
      ),
      map.len_kept h (codes "transfer-encoding") (codes "chunked") ∙ e,
    )

  -- Another header changes neither.
  pub insert-kept :
      (h : H) (name value : Bytes)
      → name ≢ codes "content-length"
      → name ≢ codes "transfer-encoding"
      → (header (insert h name value) (codes "content-length") ≡ header h (codes "content-length"))
        × (header (insert h name value) (codes "transfer-encoding")
            ≡ header h (codes "transfer-encoding"))
  insert-kept h name value no_length no_encoding = (
    map.others h name (codes "content-length") value no_length,
    map.others h name (codes "transfer-encoding") value no_encoding,
  )
