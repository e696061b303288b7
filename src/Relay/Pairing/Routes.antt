-- ===== src/Relay/Pairing/Routes.antt =====
-- The pairing routes and the sockets on them: relay-server/src/pairing_session.rs.
use chat_x.Prelude.{
  ℕ, ◌≤◌, ◌≡◌, refl, Bool, true, false, Option, none, some, [], ◌∷◌, Str, get, insert, retain, ◌==◌,
  str_eq, pair_eq, str_beq_iff, pair_beq_iff, if◌then◌else◌, length, ok, arith, get-insert,
  get-remove, get-retain_kept, length-insert, length-retain, Option-cases, Bool-cases, Result-cases,
  inl, inr, ltb, leb,
}
use chat_x.Protocol.Messages.{PairingRouteOpenRequest, EncryptedPairingPayload, pair_result}
use chat_x.Text.{to_ascii_lowercase}
use chat_x.Relay.Registry.{hash_matches}
use chat_x.Relay.State.{AppState, PairingRoute, max_pairing_routes}
use chat_x.Relay.Reply.{no_content, upgraded, bearer, failed, pairing_route_not_found}
use chat_x.Relay.Pairing.{
  Routes, is_live, is_other, prepare_pairing_route_insert, open_pairing_route, check_open,
  insert_route, pairing_ws, finish_pairing, admit_route,
}

module _ (desktop_id : Str) where
  get-retain_other :
      (pairing_id : Str) (m : Routes)
      → get (desktop_id, pairing_id) (retain (is_other desktop_id) m) ≡ none
  unfolding get retain
  get-retain_other pairing_id [] = refl
  get-retain_other pairing_id (((candidate, id), route) ∷ m) = ground (
    arith,
    get-retain_other pairing_id m,
    pair_beq_iff (candidate, id) (desktop_id, pairing_id),
    str_beq_iff candidate desktop_id,
  )

module _ (digest : Str → Str) (now : ℕ) (desktop_id pairing_id : Str) (authorization : Option Str)
    (payload : PairingRouteOpenRequest) where
  abbrev opened : PairingRoute
  opened = record {
    token_hash = to_ascii_lowercase payload.token_hash;
    expires_at = payload.expires_at;
  }

  -- An opened route takes the place of every other route of its desktop: the lookup of any pairing id
  -- of this desktop finds the new route under the id just opened and nothing under another.
  pub open_pairing_route-supersedes :
      (s : AppState)
      → check_open digest now s desktop_id pairing_id authorization payload ≡ ok tt
      → (open_pairing_route digest now s desktop_id pairing_id authorization payload).1 ≡ no_content
      → (other : Str)
      → get
          (desktop_id, other)
          (open_pairing_route digest now s desktop_id pairing_id authorization
            payload).0.pairing_routes
        ≡ (if pairing_id == other
            then some (record {
              token_hash = to_ascii_lowercase payload.token_hash;
              expires_at = payload.expires_at;
            })
            else none)
  unfolding open_pairing_route insert_route prepare_pairing_route_insert
  open_pairing_route-supersedes s c e other =
      let left = retain (is_other desktop_id) (retain (is_live now) s.pairing_routes) in
      elim (Bool-cases (leb max_pairing_routes (length left))) [
        | inl f ↦ ground (arith, c, f, e)
        | inr f ↦ ground (
          arith,
          c,
          f,
          get-insert (desktop_id, pairing_id) (desktop_id, other) opened left,
          get-retain_other desktop_id other (retain (is_live now) s.pairing_routes),
          str_beq_iff pairing_id other,
          str_beq_iff desktop_id desktop_id,
          pair_beq_iff (desktop_id, pairing_id) (desktop_id, other),
        )
      ]

  -- Whatever the request, the answer and the state before, a live route of another desktop is found
  -- afterwards as it was before.
  pub open_pairing_route-others :
      (s : AppState) (other id : Str) (route : PairingRoute)
      → get (other, id) s.pairing_routes ≡ some route
      → ltb now route.expires_at ≡ true
      → (other == desktop_id) ≡ false
      → get
          (other, id)
          (open_pairing_route digest now s desktop_id pairing_id authorization
            payload).0.pairing_routes
        ≡ some route
  unfolding open_pairing_route insert_route prepare_pairing_route_insert
  open_pairing_route-others s other id route g l d =
      let live = retain (is_live now) s.pairing_routes in
      let left = retain (is_other desktop_id) live in
      let kept = get-retain_kept (is_live now) (other, id) route s.pairing_routes g l in
      let kept_again =
        get-retain_kept (is_other desktop_id) (other, id) route live kept (ground (arith, d)) in
      let set = get-insert (desktop_id, pairing_id) (other, id) opened left in
      let different = pair_beq_iff (desktop_id, pairing_id) (other, id) in
      elim (Result-cases (check_open digest now s desktop_id pairing_id authorization payload)) [
        | inl (response, c) ↦ rw (c, open_pairing_route, g) refl
        | inr (u, c) ↦ elim (Bool-cases (leb max_pairing_routes (length left))) [
          | inl full ↦
              rw (c, full, open_pairing_route, insert_route, prepare_pairing_route_insert)
                kept_again
          | inr room ↦
              let found : get (other, id) (insert (desktop_id, pairing_id) opened left)
                  ≡ some route =
                ground (arith, set, d, different, kept_again, str_beq_iff other desktop_id) in
              rw (c, room, open_pairing_route, insert_route) found
        ]
      ]

  -- Opening a route keeps the number of routes within `MAX_PAIRING_ROUTES`, on every branch.
  pub open_pairing_route-capacity :
      (s : AppState)
      → length s.pairing_routes ≤ max_pairing_routes
      → length
          (open_pairing_route digest now s desktop_id pairing_id authorization
            payload).0.pairing_routes
        ≤ max_pairing_routes
  unfolding open_pairing_route insert_route prepare_pairing_route_insert
  open_pairing_route-capacity s e =
      let live = retain (is_live now) s.pairing_routes in
      let left = retain (is_other desktop_id) live in
      let kept = length-retain (is_live now) s.pairing_routes in
      let kept_again = length-retain (is_other desktop_id) live in
      let set = length-insert (desktop_id, pairing_id) opened left in
      elim (Result-cases (check_open digest now s desktop_id pairing_id authorization payload)) [
        | inl (response, c) ↦ rw (c, open_pairing_route, length) e
        | inr (u, c) ↦ elim (Bool-cases (leb max_pairing_routes (length left))) [
          | inl full ↦
              rw (c, full, open_pairing_route, insert_route, prepare_pairing_route_insert, length)
                (omega (arith, kept, kept_again, e))
          | inr room ↦
              let bound : length (insert (desktop_id, pairing_id) opened left)
                  ≤ max_pairing_routes =
                ground (arith, room, set) in
              rw (c, room, open_pairing_route, insert_route) bound
        ]
      ]

module _ (digest : Str → Str) where
  -- A socket is upgraded only if a bearer token came, the route is open under exactly this desktop and
  -- pairing id, it is unexpired, and the token's hash matches; the state is then unchanged.
  pub pairing_ws-guard :
      (now : ℕ) (permit : Bool) (s : AppState) (desktop_id pairing_id : Str)
      (authorization : Option Str)
      → (pairing_ws digest now permit s desktop_id pairing_id authorization).1 ≡ upgraded
      → (token : Str) × (route : PairingRoute) × (bearer authorization ≡ some token)
        × (get (desktop_id, pairing_id) s.pairing_routes ≡ some route)
        × (now ≤ route.expires_at)
        × (hash_matches digest token route.token_hash ≡ true)
        × ((pairing_ws digest now permit s desktop_id pairing_id authorization).0 ≡ s)
  unfolding pairing_ws admit_route
  pairing_ws-guard now permit s desktop_id pairing_id authorization e =
      elim (Option-cases (bearer authorization)) [
        | inl none_given ↦ ground (arith)
        | inr (token, t) ↦ elim (Option-cases (get (desktop_id, pairing_id) s.pairing_routes)) [
          | inl no_route ↦ ground arith
          | inr (route, r) ↦ (token, route, t, r, ground arith, ground arith, ground arith)
        ]
      ]

  -- A pairing succeeds once: after the desktop's result is passed on, the next socket on that route is
  -- told that there is none, whatever token it has.
  pub finish_pairing-pairing_ws :
      (now : ℕ) (permit : Bool) (s : AppState) (desktop_id pairing_id connection_id id token : Str)
      (payload : EncryptedPairingPayload) (authorization : Option Str)
      → bearer authorization ≡ some token
      → (pairing_ws digest now permit
          (finish_pairing s desktop_id pairing_id connection_id (some (pair_result id payload))).0
          desktop_id
          pairing_id
          authorization).1
        ≡ failed 404 pairing_route_not_found
  unfolding pairing_ws admit_route finish_pairing
  finish_pairing-pairing_ws now permit s desktop_id pairing_id connection_id id token payload
        authorization b =
      ground (
        arith,
        get-remove (desktop_id, pairing_id) (desktop_id, pairing_id) s.pairing_routes,
        pair_beq_iff (desktop_id, pairing_id) (desktop_id, pairing_id),
      )
