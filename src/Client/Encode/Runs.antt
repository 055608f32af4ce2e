-- ===== src/Client/Encode/Runs.antt =====
-- Runs of calls of the request encoder of src/client/encode.rs, and the headers of the body that it
-- sets.
use async_h.Base.{
  ℕ, ◌≡◌, ◌≢◌, refl, sym, ap, ◌∙◌, subst, arith, [], ◌∷◌, Bool-cases, inl, inr, Option, none, some,
  length,
}
use async_h.Base.Bytes.{Bytes, codes}
use async_h.Io.{Poll, ready, failed, pending, panic, out_of_fuel, Read, Stream, missing_hostname}
use async_h.Chunked.Wire.{cr, lf}
use async_h.Chunked.Encoder.{◌>>=◌}
use async_h.Chunked.Encoder.Frame.{IsExact}
use async_h.Encode.Runs.{
  Returned, here, waits, returns, Inserts, Unannounced, Announced, with_length-Announced,
  insert-kept,
}
use async_h.Client.Encode.{
  Requests, Encoder, new, ok_or, host_value, target, with_host, with_proxy, with_length,
  finalize_headers, compute_head, poll_read,
}
use async_h.Client.Encode.Sends.{Sent, SendsRequest, poll_read-SendsRequest}

ready-bind :
    {A B : Type 0} (m : Poll A) (f : A → Poll B) (b : B)
    → (m >>= f) ≡ ready b
    → (a : A) × (m ≡ ready a) × (f a ≡ ready b)
ready-bind (ready a) f b e = (a, refl, e)
ready-bind (failed x) f b e = cc
ready-bind pending f b e = cc
ready-bind panic f b e = cc
ready-bind out_of_fuel f b e = cc

ready-injective : {A : Type 0} {a b : A} → ◌≡◌ {A = Poll A} (ready a) (ready b) → a ≡ b
ready-injective e = cc

ready-pair :
    {A B : Type 0} {a c : A} {b d : B}
    → ◌≡◌ {A = Poll (A × B)} (ready (a, b)) (ready (c, d))
    → a ≡ c
ready-pair e = cc

module _ {Request Body : Type 0} (http : Requests Request Body) where
  module _ (ceil_log16 : ℕ → ℕ) (exact : IsExact ceil_log16) {io : Read Body} (stream : Stream io)
      (IsTrailer : Bytes → Type 0) (eol : IsTrailer (cr ∷ lf ∷ [])) (given final : Request)
      (text : Bytes) (declares : http.body_len (http.take_body final).0 ≡ http.len final)
      (computed : compute_head http given ≡ ready (final, text)) where
    pub Returned-Sent :
        {e : Encoder Request Body} {out : Bytes}
        → Returned (poll_read http ceil_log16 io) (new given) out e
        → Sent http ceil_log16 exact stream IsTrailer eol given final text e out
    unfolding new
    Returned-Sent here = (refl, refl)
    Returned-Sent (waits {out = out} {e' = e'} buf buf' run fits e) =
        subst (SendsRequest http ceil_log16 exact stream IsTrailer eol given final text out) e (
          poll_read-SendsRequest http ceil_log16 exact stream IsTrailer eol given final text
            declares out buf e' fits computed (Returned-Sent run))
    Returned-Sent (returns {out = out} {e' = e'} {e'' = e''} buf buf' n run fits e together) =
        let (at, sends) =
          subst (SendsRequest http ceil_log16 exact stream IsTrailer eol given final text out) e (
            poll_read-SendsRequest http ceil_log16 exact stream IsTrailer eol given final text
              declares out buf e' fits computed (Returned-Sent run)) in
        subst (Sent http ceil_log16 exact stream IsTrailer eol given final text e'') (sym together)
          (at, sends.0)

  module _ (map : Inserts http.header http.insert_header http.len) (given : Request)
      (plain : Unannounced http.header given) where
    -- The length of the given request, and neither header.
    abbrev IsPlain : Request → Type 0
    IsPlain r = Unannounced http.header r × (http.len r ≡ http.len given)

    insert-IsPlain :
        (r : Request) (name value : Bytes)
        → name ≢ codes "content-length"
        → name ≢ codes "transfer-encoding"
        → IsPlain r
        → IsPlain (http.insert_header r name value)
    insert-IsPlain r name value no_length no_encoding ((l, t), len) =
        let (length_kept, encoding_kept) =
          insert-kept http.header http.insert_header http.len map r name value no_length
            no_encoding in
        ((length_kept ∙ l, encoding_kept ∙ t), map.len_kept r name value ∙ len)

    with_host-IsPlain : (r : Request) → with_host http given ≡ ready r → IsPlain r
    unfolding with_host
    with_host-IsPlain r h = go (http.header given (codes "host")) (http.host_str given) h
      where
        go :
            (o host_str : Option Bytes)
            → ◌≡◌ {A = Poll Request}
                (elim o [
                  | some value ↦ ready given
                  | none ↦ ok_or host_str missing_hostname >>= λ host. ready (
                      http.insert_header given
                        (codes "host")
                        (host_value http host (http.port given)))
                ])
                (ready r)
            → IsPlain r
        go (some value) host_str e = subst IsPlain (ready-injective e) (plain, refl)
        go none none e = cc
        go none (some host) e = subst IsPlain (ready-injective e) (
            insert-IsPlain given (codes "host") (host_value http host (http.port given))
              (λ s. omega (arith, ap length s)) (λ s. omega (arith, ap length s)) (plain, refl))

    with_proxy-IsPlain : (r : Request) → IsPlain r → IsPlain (with_proxy http r)
    unfolding with_proxy
    with_proxy-IsPlain r h = elim (Bool-cases (http.is_connect r)) [
      | inl e ↦ rw e (
          insert-IsPlain r (codes "proxy-connection") (codes "keep-alive")
            (λ s. omega (arith, ap length s)) (λ s. omega (arith, ap length s)) h)
      | inr e ↦ rw e h
    ]

    -- The request of which the head is made declares what the given one does, and has the headers
    -- of the body for it.
    pub final-Announced :
        (final : Request) (text : Bytes)
        → compute_head http given ≡ ready (final, text)
        → Announced http.header http.len http.to_string (http.len given) final
    unfolding compute_head finalize_headers with_length
    final-Announced final text computed =
        let (line, _, headed) = ready-bind (target http given) _ (final, text) computed in
        let (r, finalized, same) =
          ready-bind (finalize_headers http given) _ (final, text) headed in
        let (hosted, found, sized) = ready-bind (with_host http given) _ r finalized in
        let (unannounced, len) = with_proxy-IsPlain hosted (with_host-IsPlain hosted found) in
        subst (Announced http.header http.len http.to_string (http.len given))
          (ready-injective sized ∙ ready-pair same)
          (subst
            (λ l.
              Announced http.header http.len http.to_string l
                (with_length http (with_proxy http hosted)))
            len
            (with_length-Announced http.header http.insert_header http.len map http.to_string
              (with_proxy http hosted) (http.len (with_proxy http hosted)) unannounced refl))
