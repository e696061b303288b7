-- ===== src/Relay/Gateway/Body.antt =====
-- relay-server/src/mcp_gateway.rs: the reader of a request's replies, which are its HTTP response: the
-- head and then the body as a stream, and the upload of a streamed request body.
pub mod Uploads
use chat_x.Prelude.{
  ℕ, ◌+◌, Bool, true, false, Option, none, some, List, [], ◌∷◌, ◌++◌, Str, ltb, if◌then◌else◌,
  length, take, drop, Result, ok, err, zero, suc, saturating_add,
}
use chat_x.Protocol.Stream.{Kind, encode, request_body, max_frame_body, max_request_bytes}
use chat_x.Relay.Gateway.Packets.{Reply}
use chat_x.Relay.Gateway.Requests.{Failure}
use chat_x.Relay.Reply.{upload_exceeds_limit, upload_interrupted, connection_lost, head_timeout}

-- What a wait on the request's queue gives. `closed` has the request's error flag at that time.
pub data Wait : Type 0 where
  got : Reply → Wait
  closed : Bool → Wait
  timed_out : Wait

unfoldable pub read_head : Wait → Result Failure (ℕ × List (Str × Str))
read_head (got (Reply.head status headers)) = ok (status, headers)
read_head (got Reply.upload_too_large) = err (413, upload_exceeds_limit)
read_head (got Reply.upload_failed) = err (400, upload_interrupted)
read_head (got Reply.error) = err (502, connection_lost)
read_head (closed _) = err (502, connection_lost)
read_head _ = err (504, head_timeout)

-- How a body ends for the client: as a whole, or with an error that cuts the response off. `open`: more
-- is waited for. A stream that ended by `end` marks its guard as finished.
pub data BodyEnd : Type 0 where
  finished dropped interrupted open_yet : BodyEnd

unfoldable pub read_body : List Wait → List Str × BodyEnd
read_body [] = ([], open_yet)
read_body (got (Reply.chunk bytes) ∷ waits) = let rest = read_body waits in (bytes ∷ rest.0, rest.1)
read_body (got Reply.end ∷ waits) = ([], finished)
read_body (closed false ∷ waits) = ([], dropped)
read_body (_ ∷ waits) = ([], interrupted)

-- `chunk.chunks(n)`; every round drops `n` bytes, so the length is fuel enough for a positive `n`.
unfoldable pub chunks_loop : ℕ → ℕ → Str → List Str
chunks_loop zero n s = []
chunks_loop (suc fuel) n [] = []
chunks_loop (suc fuel) n (b ∷ s) = take n (b ∷ s) ∷ chunks_loop fuel n (drop n (b ∷ s))

unfoldable pub chunks : ℕ → Str → List Str
unfolding chunks_loop
chunks n s = chunks_loop (length s) n s

-- How an upload ends: with the end packet, with one of the two replies, or silently where a frame cannot
-- be built.
pub data UploadEnd : Type 0 where
  sent_end too_large failed_body stopped : UploadEnd

-- The frames that are sent, and whether every piece had one.
unfoldable pub encode_pieces : Kind → Str → List Str → List Str × Bool
encode_pieces kind id [] = ([], true)
encode_pieces kind id (piece ∷ pieces) =
    let rest = encode_pieces kind id pieces in
    elim (encode kind id piece) [ none ↦ ([], false) | some frame ↦ (frame ∷ rest.0, rest.1) ]

prepend : List Str → List Str × UploadEnd → List Str × UploadEnd
prepend frames (more, end) = (frames ++ more, end)

-- `stream_upload`, on the pieces that the client sends (`none`: the body broke off), while the websocket's
-- queue takes every frame: the frames and the end.
unfoldable pub stream_upload : ℕ → Str → List (Option Str) → List Str × UploadEnd
unfolding encode_pieces prepend chunks
stream_upload total id [] = ([], sent_end)
stream_upload total id (none ∷ incoming) = ([], failed_body)
stream_upload total id (some chunk ∷ incoming) =
    let total' = saturating_add total (length chunk) in
    let rest = stream_upload total' id incoming in
    if ltb max_request_bytes total'
    then ([], too_large)
    else (let pieces = encode_pieces request_body id (chunks max_frame_body chunk) in
        if pieces.1 then prepend pieces.0 rest else (pieces.0, stopped))
