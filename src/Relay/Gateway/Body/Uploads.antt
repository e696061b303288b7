-- ===== src/Relay/Gateway/Body/Uploads.antt =====
-- The frames of a streamed request body: `stream_upload` of relay-server/src/mcp_gateway.rs.
use chat_x.Prelude.{
  ltb, ℕ, zero, suc, ◌+◌, ◌≤◌, ◌<◌, ◌≡◌, refl, sym, ap, ◌∙◌, true, false, some, List, [], ◌∷◌, ◌++◌,
  Str, length, take, drop, take-append-drop, length-take, length-drop, length-append, map, all,
  arith, All, saturating_add,
}
use mathlib.Core.List.{append_assoc}
use chat_x.Text.{is_ascii_hexdigit, to_ascii_lowercase}
use chat_x.Protocol.Stream.{
  Kind, request_body, decode, decode-encode, max_frame_body, max_request_bytes,
}
use chat_x.Relay.Gateway.Body.{chunks, chunks_loop, encode_pieces, prepend, sent_end, stream_upload}

abbrev pub concat : List Str → Str
concat [] = []
concat (s ∷ ss) = s ++ concat ss

pub concat-append : (xs ys : List Str) → concat (xs ++ ys) ≡ concat xs ++ concat ys
concat-append [] ys = refl
concat-append (x ∷ xs) ys =
    ap (◌++◌ x) (concat-append xs ys) ∙ sym (append_assoc x (concat xs) (concat ys))

-- The frames of one request that carry these pieces of its body, one each.
abbrev pub Carries : Kind → Str → List Str → List Str → Type 0
Carries kind id [] [] = Unit
Carries kind id (frame ∷ frames) (piece ∷ pieces) =
    (decode frame ≡ some (kind, to_ascii_lowercase id, piece)) × Carries kind id frames pieces
Carries kind id _ _ = ⊥

pub Carries-append :
    (kind : Kind) (id : Str) (frames frames' pieces pieces' : List Str)
    → Carries kind id frames pieces
    → Carries kind id frames' pieces'
    → Carries kind id (frames ++ frames') (pieces ++ pieces')
Carries-append kind id [] frames' [] pieces' c c' = c'
Carries-append kind id [] frames' (piece ∷ pieces) pieces' c c' = absurd c
Carries-append kind id (frame ∷ frames) frames' [] pieces' c c' = absurd c
Carries-append kind id (frame ∷ frames) frames' (piece ∷ pieces) pieces' c c' =
    (c.0, Carries-append kind id frames frames' pieces pieces' c.1 c')

-- `chunks` cuts a text into pieces of at most `n` bytes and loses nothing.
pub chunks_loop_lem :
    (fuel n : ℕ) (s : Str)
    → 0 < n
    → length s ≤ fuel
    → (concat (chunks_loop fuel n s) ≡ s) × All (λ piece. length piece ≤ n) (chunks_loop fuel n s)
unfolding chunks_loop
chunks_loop_lem zero n [] pos enough = (refl, tt)
chunks_loop_lem zero n (b ∷ s) pos enough = absurd (omega arith)
chunks_loop_lem (suc fuel) n [] pos enough = (refl, tt)
chunks_loop_lem (suc fuel) n (b ∷ s) pos enough =
    let (whole, small) =
      chunks_loop_lem fuel n (drop n (b ∷ s)) pos (omega (arith, length-drop n (b ∷ s))) in
    (
      ap (◌++◌ (take n (b ∷ s))) whole ∙ take-append-drop n (b ∷ s),
      (omega (arith, length-take n (b ∷ s)), small),
    )

module _ (id : Str) (len : length id ≡ 32) (digits : all is_ascii_hexdigit id ≡ true) where
  pub encode_pieces-Carries :
      (kind : Kind) (pieces : List Str)
      → All (λ piece. length piece ≤ max_frame_body) pieces
      → ((encode_pieces kind id pieces).1 ≡ true)
        × Carries kind id (encode_pieces kind id pieces).0 pieces
  unfolding encode_pieces
  encode_pieces-Carries kind [] small = (refl, tt)
  encode_pieces-Carries kind (piece ∷ pieces) small =
      let (frame, encoded, _, decoded) = decode-encode kind id piece len digits small.0 in
      let (every, carried) = encode_pieces-Carries kind pieces small.1 in
      rw (encoded, encode_pieces) (every, (decoded, carried))

  -- While the client sends at most `MAX_REQUEST_BYTES` and the websocket's queue takes the frames, every
  -- byte reaches the desktop: the upload ends with the end packet, each frame decodes to the request's id
  -- and a piece of the body, and the pieces in order are the body.
  pub stream_upload-Carries :
      (incoming : List Str) (total : ℕ)
      → total + length (concat incoming) ≤ max_request_bytes
      → ((stream_upload total id (map some incoming)).1 ≡ sent_end)
        × ((pieces : List Str) × Carries request_body id
              (stream_upload total id (map some incoming)).0
              pieces
            × (concat pieces ≡ concat incoming))
  unfolding stream_upload prepend chunks
  stream_upload-Carries [] total fits = (refl, ([], tt, refl))
  stream_upload-Carries (chunk ∷ incoming) total fits =
      let total' = saturating_add total (length chunk) in
      let cut = chunks max_frame_body chunk in
      let size = length-append chunk (concat incoming) in
      let (whole, small) =
        chunks_loop_lem (length chunk) max_frame_body chunk (omega arith) (omega arith) in
      let (every, carried) = encode_pieces-Carries request_body cut small in
      let (ends, (pieces, rest, same)) =
        stream_upload-Carries incoming total' (ground (arith, size)) in
      let room : ltb max_request_bytes total' ≡ false = ground (arith, size) in
      rw (room, every)
        (
          ends,
          (
            cut ++ pieces,
            Carries-append request_body id (encode_pieces request_body id cut).0 _ cut pieces
                carried rest,
            concat-append cut pieces ∙ cc (whole, same),
          ),
        )
