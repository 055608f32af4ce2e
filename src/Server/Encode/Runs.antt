-- ===== src/Server/Encode/Runs.antt =====
-- Runs of calls of the response encoder of src/server/encode.rs, and the headers of the body that
-- it sets.
use async_h.Base.{
  ℕ, ◌≡◌, ◌⊎◌, inl, inr, refl, sym, ap, ◌∙◌, subst, arith, [], ◌∷◌, Bool, Option, none, some,
  Result, ok, err, panic, length,
}
use async_h.Base.Int.{ℤ}
use async_h.Base.Bytes.{Bytes, codes}
use async_h.Io.{Read, Stream}
use async_h.Chunked.Wire.{cr, lf}
use async_h.Chunked.Encoder.Frame.{IsExact}
use async_h.Date.Display.{fmt_http_date}
use async_h.Encode.Runs.{
  Returned, here, waits, returns, Inserts, Unannounced, Announced, with_length-Announced,
  insert-kept,
}
use async_h.Server.Encode.{
  Responses, Encoder, new, compute_head, finalize_headers, with_length, with_date, head_text,
  poll_read,
}
use async_h.Server.Encode.Sends.{Sent, Sends, poll_read-Sends}

module _ {Response Body : Type 0} (http : Responses Response Body) (now : ℤ) where
  module _ (ceil_log16 : ℕ → ℕ) (exact : IsExact ceil_log16) {io : Read Body} (stream : Stream io)
      (IsTrailer : Bytes → Type 0) (eol : IsTrailer (cr ∷ lf ∷ [])) (given final : Response)
      (text : Bytes) (declares : http.body_len (http.take_body final).0 ≡ http.len final)
      (is_head : Bool) (computed : compute_head http now given ≡ ok (final, text)) where
    pub Returned-Sent :
        {e : Encoder Response Body} {out : Bytes}
        → Returned (poll_read http now ceil_log16 io) (new given is_head) out e
        → Sent http now ceil_log16 exact stream IsTrailer eol given final text is_head e out
    unfolding new
    Returned-Sent here = ((refl, refl), refl)
    Returned-Sent (waits {out = out} {e' = e'} buf buf' run fits e) =
        subst (Sends http now ceil_log16 exact stream IsTrailer eol given final text is_head out) e
          (poll_read-Sends http now ceil_log16 exact stream IsTrailer eol given final text declares
            is_head out buf e' fits computed (Returned-Sent run))
    Returned-Sent (returns {out = out} {e' = e'} {e'' = e''} buf buf' n run fits e together) =
        let (at, sends) =
          subst (Sends http now ceil_log16 exact stream IsTrailer eol given final text is_head out)
            e
            (poll_read-Sends http now ceil_log16 exact stream IsTrailer eol given final text
              declares is_head out buf e' fits computed (Returned-Sent run)) in
        subst (Sent http now ceil_log16 exact stream IsTrailer eol given final text is_head e'')
          (sym together) (at, sends.0)

  -- The response that is sent is the one with its length, and perhaps a date.
  abbrev Dated : Response → Response → Type 0
  Dated given final =
      (final ≡ with_length http now given)
      ⊎ ((date : Bytes) × (final
            ≡ http.insert_header (with_length http now given) (codes "date") date))

  dated : (given final : Response) → finalize_headers http now given ≡ ok final → Dated given final
  unfolding finalize_headers
  dated given final h = go (http.header (with_length http now given) (codes "date")) h
    where
      from_date :
          (date : Result Bytes)
          → with_date http now (with_length http now given) date ≡ ok final
          → Dated given final
      from_date (ok date) e = inr (date, cc)
      from_date (err why) e = cc
      from_date panic e = cc

      go :
          (o : Option Bytes)
          → ◌≡◌ {A = Result Response}
              (elim o [
                | none ↦ with_date http now (with_length http now given) (fmt_http_date now)
                | some value ↦ ok (with_length http now given)
              ])
              (ok final)
          → Dated given final
      go none e = from_date (fmt_http_date now) e
      go (some value) e = inl (cc)

  compute_head-final :
      (given final : Response) (text : Bytes)
      → compute_head http now given ≡ ok (final, text)
      → finalize_headers http now given ≡ ok final
  unfolding compute_head
  compute_head-final given final text h = go (finalize_headers http now given) h
    where
      go :
          (r : Result Response)
          → ◌≡◌ {A = Result (Response × Bytes)}
              (elim r [
                | ok response' ↦ ok (response', head_text http now (http.status given) response')
                | err e ↦ err e
                | panic ↦ panic
              ])
              (ok (final, text))
          → r ≡ ok final
      go (ok r) e = cc
      go (err why) e = cc
      go panic e = cc

  module _ (map : Inserts http.header http.insert_header http.len) (given final : Response)
      (text : Bytes) (plain : Unannounced http.header given) where
    sized-Announced :
        Announced http.header http.len http.to_string (http.len given) (with_length http now given)
    unfolding with_length
    sized-Announced =
        with_length-Announced http.header http.insert_header http.len map http.to_string given
          (http.len given) plain refl

    -- The response of which the head is made declares what the given one does, and has the headers
    -- of the body for it.
    pub final-Announced :
        compute_head http now given ≡ ok (final, text)
        → Announced http.header http.len http.to_string (http.len given) final
    final-Announced computed =
        elim (dated given final (compute_head-final given final text computed)) [
          | inl e ↦
              subst (Announced http.header http.len http.to_string (http.len given)) (sym e)
                sized-Announced
          | inr (date, e) ↦
              subst (Announced http.header http.len http.to_string (http.len given)) (sym e)
                (dated_kept date)
        ]
      where
        dated_kept :
            (date : Bytes)
            → Announced http.header http.len http.to_string
                (http.len given)
                (http.insert_header (with_length http now given) (codes "date") date)
        dated_kept date =
            let (length_kept, encoding_kept) =
              insert-kept http.header http.insert_header http.len map (with_length http now given)
                (codes "date") date (λ s. omega (arith, ap length s))
                (λ s. omega (arith, ap length s)) in
            (
              rw (length_kept, encoding_kept) sized-Announced.0,
              map.len_kept (with_length http now given) (codes "date") date ∙ sized-Announced.1,
            )
