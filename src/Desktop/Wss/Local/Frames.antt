-- ===== src/Desktop/Wss/Local/Frames.antt =====
-- The frames in which a response of the local bridge goes to the relay, in version 2 of the protocol.
use chat_x.Prelude.{
  ℕ, ◌+◌, ◌≤◌, ◌≡◌, refl, ap, ◌∙◌, Bool, true, false, Option, some, List, [], ◌∷◌, ◌++◌, Str, ltb,
  length, map, arith, saturating_add, length-append,
}
use chat_x.Protocol.Stream.{response_body, max_response_bytes, max_frame_body}
use chat_x.Relay.Gateway.Body.{chunks, encode_pieces}
use chat_x.Relay.Gateway.Body.Uploads.{
  Carries, Carries-append, concat, concat-append, chunks_loop_lem, encode_pieces-Carries,
}
use chat_x.Desktop.Wss.{WssPacket, head, end, binary, is_request_id}
use chat_x.Desktop.Wss.Local.{
  LocalCall, LocalResponse, responds, Libraries, local_call, pieces_of, goes_on, body_loop,
  closing_packet, respond, answer_with, with_id, local_request, response_headers,
}

binaries-append : (xs ys : List Str) → map binary (xs ++ ys) ≡ map binary xs ++ map binary ys
binaries-append [] ys = refl
binaries-append (x ∷ xs) ys = ap (◌∷◌ (binary x)) (binaries-append xs ys)

module _ (lib : Libraries) (id : Str) (good : is_request_id id ≡ true) where
  body_loop-Carries :
      (sent : ℕ) (body : List Str)
      → sent + length (concat body) ≤ max_response_bytes
      → (frames pieces : List Str) × (body_loop lib 2 id sent (map some body)
          ≡ (map binary frames, true))
        × Carries response_body id frames pieces
        × (concat pieces ≡ concat body)
  unfolding body_loop pieces_of goes_on chunks
  body_loop-Carries sent [] fits = ([], [], refl, tt, refl)
  body_loop-Carries sent (bytes ∷ body) fits =
      let sent' = saturating_add sent (length bytes) in
      let cut = chunks max_frame_body bytes in
      let size = length-append bytes (concat body) in
      let (whole, small) =
        chunks_loop_lem (length bytes) max_frame_body bytes (omega arith) (omega arith) in
      let (every, carried) =
        encode_pieces-Carries id (ground arith) (ground arith) response_body cut small in
      let (frames, pieces, passed, rest, same) =
        body_loop-Carries sent' body (ground (arith, size)) in
      let room : ltb max_response_bytes sent' ≡ false = ground (arith, size) in
      let here = (encode_pieces response_body id cut).0 in
      (
        here ++ frames,
        cut ++ pieces,
        rw (room, every, passed, binaries-append here frames) refl,
        Carries-append response_body id here frames cut pieces carried rest,
        concat-append cut pieces ∙ cc (whole, same),
      )

  -- The whole response of the bridge reaches the relay: for a call in version 2 whose response the bridge
  -- sends within `MAX_RESPONSE_BYTES` and to its end, the packets are the head, frames and the end; each frame
  -- decodes to the request's id and a piece of the body, and the pieces in order are the body.
  pub local_request-Carries :
      (bridge : LocalCall → LocalResponse) (local_port : ℕ) (has_upload : Bool) (packet : WssPacket)
      (call : LocalCall) (status : ℕ) (headers : List (Str × Option Str)) (body : List Str)
      → packet.request_id ≡ some id
      → local_call lib local_port 2 has_upload id packet ≡ some call
      → bridge call ≡ responds status headers (map some body)
      → length (concat body) ≤ max_response_bytes
      → (frames pieces : List Str) × (local_request lib bridge local_port 2 has_upload packet
          ≡ head id status (response_headers lib headers []) ∷ map binary frames ++ end id ∷ [])
        × Carries response_body id frames pieces
        × (concat pieces ≡ concat body)
  unfolding local_request with_id answer_with respond closing_packet
  local_request-Carries bridge local_port has_upload packet call status headers body named made
        responded fits =
      let (frames, pieces, passed, carried, same) = body_loop-Carries 0 body (omega arith) in
      (
        frames,
        pieces,
        ap (with_id lib bridge local_port 2 has_upload packet) named
            ∙ ap (answer_with lib bridge 2 id) made
            ∙ ap (respond lib 2 id) responded
            ∙ rw passed refl,
        carried,
        same,
      )
