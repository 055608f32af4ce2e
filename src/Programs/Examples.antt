-- ===== src/Programs/Examples.antt =====
-- examples/server.rs, what it does with one connection, and examples/client.rs, behind its
-- `connect` to the socket.
use async_h.Base.{ℕ, zero, suc, List, [], ◌∷◌, ◌++◌, Result, ok, err, panic}
use async_h.Base.Int.{ℤ}
use async_h.Base.Act.{Act, ◌>>=◌}
use async_h.Base.Bytes.{Bytes, codes}
use async_h.Head.{BufRead}
use async_h.Server.Body.{BodyReader}
use async_h.Server.Decode as Server
use async_h.Server.Accept.{Calls, Endpoint}
use async_h.Server.Accept as Accept
use async_h.Client.Connect.{connect}
use async_h.Client.Connect as Connect
use async_h.Client.Decode.{Http, Received}

-- `Response::new`, `insert_header` and `set_body`
pub record Builder (Response : Type 0) : Type 0 where
  pub new : ℕ → Response
  pub insert_header : Response → Bytes → Bytes → Response
  pub set_body : Response → Bytes → Response

module _
    {W Request Response Outgoing UpgradeSender Url Method Sender Sending Channel Cell R T : Type 0}
    (http : Server.Http Request Url Method Sender Channel Cell R T) (lines_io : BufRead R)
    (calls : Calls W R Request Response (BodyReader R T Sender Sending) Outgoing UpgradeSender)
    (build : Builder Response) where
  -- The endpoint: the same response to every request.
  unfoldable pub hello : Endpoint W Request Response (BodyReader R T Sender Sending)
  hello req s =
      let res = build.new 200 in
      let res' = build.insert_header res (codes "Content-Type") (codes "text/plain") in
      (s, ok (build.set_body res' (codes "Hello world")))

  -- `stream.peer_addr()?` is for the printing, but may fail.
  unfoldable pub accept : {Addr : Type 0} → (W → Result Addr) → ℕ → W → W × Result (Unit {0})
  unfolding hello
  accept peer_addr fuel stream =
      ((λ w. (w, peer_addr w)) >>= λ addr w. Accept.accept http lines_io calls fuel w hello) stream

-- `Request::new(Method::Get, Url::parse(…).unwrap())`
abbrev pub get_of : {W Url Request : Type 0} → (Url → Request) → Result Url → Act W Request
get_of get (ok url) w = (w, ok (get url))
get_of get (err e) w = (w, panic)
get_of get panic w = (w, panic)

module _ {W Request Outgoing Response StatusCode Sender Sending Url R T : Type 0}
    (http : Http Response StatusCode Sender R T) (lines_io : BufRead R)
    (calls : Connect.Calls W R Request Outgoing) (now : ℤ) (url_parse : Bytes → Result Url)
    (get : Url → Request) where
  -- The loop of `main`, with so many requests to make.
  unfoldable pub requests : Bytes → ℕ → Act W (List (Received Response R T Sender Sending))
  requests peer_addr zero w = (w, ok [])
  requests peer_addr (suc n) w =
      (get_of get (url_parse (codes "http://" ++ peer_addr ++ codes "/foo")) >>= λ req.
      connect http lines_io calls now req >>= λ res.
      requests peer_addr n >>= λ others. λ w'. (w', ok (res ∷ others)))
        w

  -- What `main` does on the stream that `TcpStream::connect` gives.
  unfoldable pub main : (W → Result Bytes) → Act W (List (Received Response R T Sender Sending))
  unfolding requests
  main peer_addr = (λ w. (w, peer_addr w)) >>= λ addr. requests addr 2
