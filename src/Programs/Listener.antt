-- ===== src/Programs/Listener.antt =====
-- examples/server.rs: `main`, which spawns a task for each incoming connection. The listener and
-- its connections are foreign, as the list of what `incoming.next()` gives until it gives none; a
-- task is its connection, with the function that it runs.
use async_h.Base.{
  ◌≡◌, refl, ap, List, [], ◌∷◌, ◌++◌, map, Option, none, some, Error, Result, ok, err, panic,
}

module _ {W : Type 0} where
  abbrev printed : W × Result (Unit {0}) → W × Result (Option Error)
  printed (w, ok done) = (w, ok none)
  printed (w, err e) = (w, ok (some e))
  printed (w, panic) = (w, panic)

  -- `if let Err(err) = accept(stream).await { eprintln!("{}", err); }`: the error that is printed
  unfoldable pub task : (W → W × Result (Unit {0})) → W → W × Result (Option Error)
  task accept stream = printed (accept stream)

-- The connections for which a task is spawned, and how the loop ends.
unfoldable pub incoming : {W : Type 0} → List (Result W) → List W × Result (Unit {0})
incoming [] = ([], ok tt)
incoming (ok stream ∷ streams) = let (spawned, r) = incoming streams in (stream ∷ spawned, r)
incoming (err e ∷ streams) = ([], err e)
incoming (panic ∷ streams) = ([], panic)

module _ {Listener Addr W : Type 0} (local_addr : Listener → Result Addr)
    (streams : Listener → List (Result W)) where
  abbrev listen : Listener → Result Addr → List W × Result (Unit {0})
  listen listener (ok addr) = incoming (streams listener)
  listen listener (err e) = ([], err e)
  listen listener panic = ([], panic)

  -- `bind` is the outcome of `TcpListener::bind`.
  unfoldable pub main : Result Listener → List W × Result (Unit {0})
  unfolding incoming
  main (ok listener) = listen listener (local_addr listener)
  main (err e) = ([], err e)
  main panic = ([], panic)

-- A task is spawned for each connection before the first that fails, in their order, and `main`
-- ends with that failure, or when there are no more connections.
pub incoming-append :
    {W : Type 0} (accepted : List W) (later : List (Result W))
    → incoming (map ok accepted ++ later) ≡ (accepted ++ (incoming later).0, (incoming later).1)
unfolding incoming
incoming-append [] later = refl
incoming-append (stream ∷ accepted) later =
    ap (λ o. (stream ∷ o.0, o.1)) (incoming-append accepted later)
