-- ===== src/Chunked/UnitTests.antt =====
-- The unit tests in src/chunked: the table of src/chunked/encoder.rs, and the four messages of
-- src/chunked/decoder.rs. Foreign are `read_to_string`, given by the lengths of the buffers that it
-- reads into, the header parser of the trailers, and the logarithm. What the fourth test finds in
-- the trailers is not looked at.
use async_h.Base.{
  ℕ, ◌+◌, ◌-◌, ◌≡◌, refl, Bool, true, false, ◌&&◌, ◌||◌, ◌==◌, List, [], ◌∷◌, ◌++◌, length,
  replicate, if◌then◌else◌,
}
use async_h.Base.Bytes.{Bytes, codes, equal}
use async_h.Io.{Poll, ready}
use async_h.Io.Samples.{bytes_io, bytes_stream}
use async_h.Chunked.Wire.{to_hex}
use async_h.Chunked.Encoder.{max_bytes_to_read}
use async_h.Chunked.Encoder.Log.{ceil_log16, ceil_log16_up_to}
use async_h.Chunked.Decoder.{Parsed, partial, complete, Trailing, State, done, ChunkedDecoder, new}
use async_h.Chunked.Decoder as Decoder
use async_h.Chunked.RoundTrip.{drain}
use async_h.Chunked.Samples.{ext}

abbrev is_ready : ℕ → Poll ℕ → Bool
is_ready n (ready m) = m == n
is_ready n _ = false

abbrev values : List (ℕ × ℕ)
values =
    (6, 1)
    ∷ (7, 2)
    ∷ (20, 15)
    ∷ (21, 15)
    ∷ (22, 16)
    ∷ (23, 17)
    ∷ (260, 254)
    ∷ (261, 254)
    ∷ (262, 255)
    ∷ (263, 256)
    ∷ (4100, 4093)
    ∷ (4101, 4093)
    ∷ (4102, 4094)
    ∷ (4103, 4095)
    ∷ (4104, 4096)
    ∷ []

-- The loop over the table.
check_values : (ℕ → ℕ) → List (ℕ × ℕ) → Bool
unfolding max_bytes_to_read to_hex
check_values log [] = true
check_values log ((input, expected) ∷ rows) =
    let used_bytes = expected + 4 + length (to_hex expected) in
    is_ready expected (max_bytes_to_read log input)
    && (used_bytes == input || used_bytes == input - 1)
    && check_values log rows

simple_check_of_known_values : (ℕ → ℕ) → Bool
unfolding check_values
simple_check_of_known_values log = check_values log values

abbrev is_done : {Sending : Type 0} → State Sending → Bool
is_done done = true
is_done _ = false

module _ {Trailers Sending : Type 0} (trailing : Trailing Trailers (Unit {0}) Sending)
    (lengths : List ℕ) where
  abbrev reads_as : Bytes → ChunkedDecoder Bytes (Unit {0}) Sending × Bytes → Bool
  reads_as expected (d, output) = is_done d.state && equal output expected

  -- `decoder.read_to_string(&mut output).await.unwrap()` and `assert_eq!(output, expected)`
  abbrev decodes_to : Bytes → Bytes → Bool
  decodes_to input expected =
      reads_as expected (drain trailing bytes_io bytes_stream (new input tt) lengths)

  test_chunked_wiki : Bool
  unfolding drain Decoder.decoder equal
  test_chunked_wiki =
      decodes_to (codes "4\r\nWiki\r\n5\r\npedia\r\nE\r\n in\r\n\r\nchunks.\r\n0\r\n\r\n")
        (codes "Wikipedia in\r\n\r\nchunks.")

  test_chunked_big : Bool
  unfolding drain Decoder.decoder equal
  test_chunked_big =
      let expected = replicate 2048 b'X' ++ (replicate 6144 b'Y' ++ replicate 2048 b'Z') in
      (length expected == 10240)
      && decodes_to
          (codes "800\r\n"
            ++ (replicate 2048 b'X'
                ++ (codes "\r\n1800\r\n"
                    ++ (replicate 6144 b'Y'
                        ++ (codes "\r\n800\r\n"
                            ++ (replicate 2048 b'Z' ++ codes "\r\n0\r\n\r\n"))))))
          expected

  test_chunked_mdn : Bool
  unfolding drain Decoder.decoder equal
  test_chunked_mdn =
      decodes_to
        (codes
          "7\r\nMozilla\r\n9\r\nDeveloper\r\n7\r\nNetwork\r\n0\r\nExpires: Wed, 21 Oct 2015 07:28:00 GMT\r\n\r\n")
        (codes "MozillaDeveloperNetwork")

  test_ff7 : Bool
  unfolding drain Decoder.decoder equal
  test_ff7 =
      decodes_to
        (codes "FF7\r\n"
          ++ (replicate 4087 b'X'
              ++ (codes "\r\n4\r\n" ++ (replicate 4 b'Y' ++ codes "\r\n0\r\n\r\n"))))
        (replicate 4087 b'X' ++ replicate 4 b'Y')

-- A header parser that knows the block of the fourth test, too.
abbrev expires : Bytes
expires = codes "Expires: Wed, 21 Oct 2015 07:28:00 GMT\r\n\r\n"

abbrev mdn_ext : Trailing (List (Bytes × Bytes)) (Unit {0}) (Unit {0})
mdn_ext = record ext {
  parse_headers = λ bytes.
      if equal bytes expires
      then complete (length expires) ((codes "Expires", codes "Wed, 21 Oct 2015 07:28:00 GMT") ∷ [])
      else partial;
}

encoder_test_passes : simple_check_of_known_values ceil_log16 ≡ true
unfolding simple_check_of_known_values ceil_log16_up_to
encoder_test_passes = refl

decoder_tests_pass :
    (test_chunked_wiki ext (replicate 8 32) ≡ true)
    × (test_chunked_big ext (replicate 12 1024) ≡ true)
    × (test_chunked_mdn mdn_ext (replicate 8 32) ≡ true)
    × (test_ff7 ext (replicate 8 1024) ≡ true)
unfolding test_chunked_wiki test_chunked_big test_chunked_mdn test_ff7
decoder_tests_pass = (refl, refl, refl, refl)
