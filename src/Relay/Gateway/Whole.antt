-- ===== src/Relay/Gateway/Whole.antt =====
-- The reader of Relay.Gateway.Body on the replies that the gateway of Relay.Gateway.Streams puts on its
-- queue.
use chat_x.Prelude.{
  ℕ, ◌≡◌, ◌≢◌, refl, ap, Bool, true, false, ◌||◌, Option, none, some, List, [], ◌∷◌, ◌++◌, Str,
  str_eq, ◌==◌, get, any, is_some, map, arith, if◌then◌else◌, All,
}
use chat_x.Relay.State.{Gateway, includes}
use chat_x.Relay.Gateway.Packets.{Reply}
use chat_x.Relay.Gateway.Body.{Wait, got, closed, timed_out, finished, dropped, read_body}
use chat_x.Relay.Gateway.Streams.{
  GatewayEvent, gateway_run, IsForeign, held, is_end_of, gateway_run-held,
}

-- The replies on one request's queue, in order.
abbrev pub replies_to : Str → List (Option (Str × Reply)) → List Reply
replies_to id [] = []
replies_to id (none ∷ sent) = replies_to id sent
replies_to id (some (j, reply) ∷ sent) =
    let rest = replies_to id sent in if j == id then reply ∷ rest else rest

-- What the reader sees of a queue that is closed then.
abbrev pub waits_of : List Reply → Bool → List Wait
waits_of [] flag = closed flag ∷ []
waits_of (reply ∷ replies) flag = got reply ∷ waits_of replies flag

abbrev is_end : Reply → Bool
is_end Reply.end = true
is_end _ = false

any-replies_to :
    (id : Str) (sent : List (Option (Str × Reply)))
    → any (is_end_of id) sent ≡ any is_end (replies_to id sent)
any-replies_to id [] = refl
any-replies_to id (none ∷ sent) = any-replies_to id sent
any-replies_to id (some (j, Reply.end) ∷ sent) = ground (arith, any-replies_to id sent)
any-replies_to id (some (j, Reply.head _ _) ∷ sent) = ground (arith, any-replies_to id sent)
any-replies_to id (some (j, Reply.chunk _) ∷ sent) = ground (arith, any-replies_to id sent)
any-replies_to id (some (j, Reply.error) ∷ sent) = ground (arith, any-replies_to id sent)
any-replies_to id (some (j, Reply.upload_too_large) ∷ sent) = ground (arith, any-replies_to id sent)
any-replies_to id (some (j, Reply.upload_failed) ∷ sent) = ground (arith, any-replies_to id sent)

read_body-ne-dropped :
    (replies : List Reply) (flag : Bool)
    → (flag || any is_end replies) ≡ true
    → (read_body (waits_of replies flag)).1 ≢ dropped
unfolding read_body
read_body-ne-dropped [] true h e = cc
read_body-ne-dropped [] false h e = cc
read_body-ne-dropped (Reply.chunk bytes ∷ replies) flag h e = read_body-ne-dropped replies flag h e
read_body-ne-dropped (Reply.head _ _ ∷ replies) flag h e = cc
read_body-ne-dropped (Reply.end ∷ replies) flag h e = cc
read_body-ne-dropped (Reply.error ∷ replies) flag h e = cc
read_body-ne-dropped (Reply.upload_too_large ∷ replies) flag h e = cc
read_body-ne-dropped (Reply.upload_failed ∷ replies) flag h e = cc

-- A body is finished only by `End`, and is then just what the chunks before it brought, in order.
pub read_body-finished :
    (waits : List Wait)
    → (read_body waits).1 ≡ finished
    → (rest : List Wait) × (waits
        ≡ map (λ bytes. got (Reply.chunk bytes)) (read_body waits).0 ++ got Reply.end ∷ rest)
unfolding read_body
read_body-finished [] e = cc
read_body-finished (got (Reply.chunk bytes) ∷ waits) e =
    let (rest, whole) = read_body-finished waits e in
    (rest, ap (◌∷◌ (got (Reply.chunk bytes))) whole)
read_body-finished (got (Reply.head _ _) ∷ waits) e = cc
read_body-finished (got Reply.end ∷ waits) e = (waits, refl)
read_body-finished (got Reply.error ∷ waits) e = cc
read_body-finished (got Reply.upload_too_large ∷ waits) e = cc
read_body-finished (got Reply.upload_failed ∷ waits) e = cc
read_body-finished (closed true ∷ waits) e = cc
read_body-finished (closed false ∷ waits) e = cc
read_body-finished (timed_out ∷ waits) e = cc

-- A response is never cut off as if it were whole: where a request waited, and after any events that are
-- not its own reader's it waits no more, so that its queue is closed behind the replies that were put on
-- it, a reader who has taken the head from the queue does not take its closing for the end of the body.
pub gateway_run-read_body :
    (base64_decode : Str → Option Str) (base64_encode : Str → Str) (events : List GatewayEvent)
    (id : Str) (g : Gateway) (status : ℕ) (headers : List (Str × Str)) (body : List Reply)
    → All (IsForeign id) events
    → held id g ≡ true
    → is_some (get id (gateway_run base64_decode base64_encode g events).0.pending) ≡ false
    → replies_to id (gateway_run base64_decode base64_encode g events).1
      ≡ Reply.head status headers ∷ body
    → (read_body (
        waits_of body (includes id (gateway_run base64_decode base64_encode g events).0.errored))).1
      ≢ dropped
gateway_run-read_body base64_decode base64_encode events id g status headers body foreign before
      gone queue =
    let sent = (gateway_run base64_decode base64_encode g events).1 in
    let last = (gateway_run base64_decode base64_encode g events).0 in
    read_body-ne-dropped body (includes id last.errored) (
      ground (
        arith,
        gone,
        any-replies_to id sent,
        ap (any is_end) queue,
        gateway_run-held base64_decode base64_encode events id g foreign before,
      ))
