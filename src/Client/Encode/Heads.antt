-- ===== src/Client/Encode/Heads.antt =====
-- Which requests the encoder of src/client/encode.rs makes a head for.
use async_h.Base.{◌≡◌, ◌⊎◌, inl, inr, refl, true, false, Option-cases, Bool-cases, arith}
use async_h.Base.Bytes.{codes}
use async_h.Io.{Poll, ready, failed, pending, panic, out_of_fuel, missing_hostname, no_default_port}
use async_h.Chunked.Encoder.{◌>>=◌}
use async_h.Server.Decode.{is_some}
use async_h.Client.Encode.{Requests, target, with_host, finalize_headers, compute_head}

-- The outcome of a step that fails for want of something.
abbrev pub Outcome : {A : Type 0} → Type 0 → Poll A → Type 0
Outcome P (ready a) = P
Outcome P (failed e) = (P → ⊥) × ((e ≡ missing_hostname) ⊎ (e ≡ no_default_port))
Outcome P _ = ⊥

Outcome-bind :
    {A B : Type 0} (P Q : Type 0) (m : Poll A) (f : A → Poll B)
    → Outcome P m
    → ((a : A) → Outcome Q (f a))
    → Outcome (P × Q) (m >>= f)
Outcome-bind {B = B} P Q (ready a) f h k = both (f a) (k a)
  where
    both : (o : Poll B) → Outcome Q o → Outcome (P × Q) o
    both (ready b) q = (h, q)
    both (failed e) q = ((λ x. q.0 x.1), q.1)
    both pending q = q
    both panic q = q
    both out_of_fuel q = q
Outcome-bind P Q (failed e) f h k = ((λ x. h.0 x.0), h.1)
Outcome-bind P Q pending f h k = h
Outcome-bind P Q panic f h k = h
Outcome-bind P Q out_of_fuel f h k = h

Outcome-map :
    {A B : Type 0} (P : Type 0) (m : Poll A) (f : A → B)
    → Outcome P m
    → Outcome P (m >>= λ a. ready (f a))
Outcome-map P (ready a) f h = h
Outcome-map P (failed e) f h = h
Outcome-map P pending f h = h
Outcome-map P panic f h = h
Outcome-map P out_of_fuel f h = h

module _ {Request Body : Type 0} (http : Requests Request Body) (request : Request) where
  -- Where the request is sent: for CONNECT, a host and a port.
  abbrev pub HasTarget : Type 0
  HasTarget =
      (http.is_connect request ≡ false)
      ⊎ ((is_some (http.host_str request) ≡ true)
          × (is_some (http.port_or_known_default request) ≡ true))

  abbrev pub HasHost : Type 0
  HasHost =
      (is_some (http.header request (codes "host")) ≡ true)
      ⊎ (is_some (http.host_str request) ≡ true)

  target-Outcome : Outcome HasTarget (target http request)
  unfolding target
  target-Outcome = elim (Bool-cases (http.is_connect request)) [
    | inl connect ↦ elim (Option-cases (http.host_str request)) [
      | inl no_host ↦ rw (connect, no_host) ((λ p. ground arith), inl refl)
      | inr (host, h) ↦ elim (Option-cases (http.port_or_known_default request)) [
        | inl no_port ↦ rw (connect, h, no_port) ((λ p. ground arith), inr refl)
        | inr (port, p) ↦ rw (connect, h, p) (inr (refl, refl))
      ]
    ]
    | inr other ↦ rw other (inl refl)
  ]

  with_host-Outcome : Outcome HasHost (with_host http request)
  unfolding with_host
  with_host-Outcome = elim (Option-cases (http.header request (codes "host"))) [
    | inl no_header ↦ elim (Option-cases (http.host_str request)) [
      | inl no_host ↦ rw (no_header, no_host, with_host) ((λ p. ground arith), inl refl)
      | inr (host, h) ↦ rw (no_header, h, with_host) (inr refl)
    ]
    | inr (value, h) ↦ rw (h, with_host) (inl refl)
  ]

  -- A head is made exactly where the request has a host, in a Host header or in its URL, and, for
  -- the method CONNECT, its URL has a host and a port. Otherwise the encoder fails for want of one
  -- of the two, and it is never pending and never panics.
  pub compute_head-Outcome : Outcome (HasTarget × HasHost) (compute_head http request)
  unfolding compute_head finalize_headers
  compute_head-Outcome =
      Outcome-bind HasTarget HasHost (target http request) _ target-Outcome λ line.
        Outcome-map HasHost (finalize_headers http request) _
          (Outcome-map HasHost (with_host http request) _ with_host-Outcome)
