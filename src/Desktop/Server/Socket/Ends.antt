-- ===== src/Desktop/Server/Socket/Ends.antt =====
-- The ends of a phone's websocket to the desktop: a phone that is silent, and one that was revoked.
use chat_x.Prelude.{
  ℕ, ◌-◌, ◌≡◌, ◌≢◌, ◌⊎◌, refl, ◌∙◌, Bool, true, false, not, none, some, List, [], ◌∷◌, Str, all,
  any, ltb, arith, if◌then◌else◌, &&-split, Bool-cases, inl, inr, codes, str_eq,
}
use chat_x.Protocol.Messages.{DeviceWsMessage, DeviceServerMessage}
use chat_x.Desktop.Server.Requests.{MonitorHandlers}
use chat_x.Desktop.Server.Socket.{
  Frame, ping, pong, text, closing, other, quiet, broken, timed_out, device_revoked, Session, Stage,
  Round, and_then, send, send_last, push_snapshot, round, rounds, idle_stage, auth_stage,
  snapshot_stage, ping_stage, frame_stage, with_auth, with_snapshot, idle_timeout_ms,
}

-- Whether a frame shows that the phone is there.
unfoldable pub is_activity : Frame DeviceWsMessage → Bool
is_activity ping = true
is_activity pong = true
is_activity (text _ _) = true
is_activity closing = false
is_activity other = false
is_activity quiet = false
is_activity broken = false

-- A stage leaves the time of the last activity as it was.
abbrev Still {ℓ} : {W : Type ℓ} → Session W → Stage W → Type 0
Still s st = st.0.last_activity ≡ s.last_activity

and_then-Still {ℓ} :
    {W : Type ℓ} (s : Session W) (st : Stage W) (next : Session W → Stage W)
    → Still s st
    → ((t : Session W) → Still t (next t))
    → Still s (and_then st next)
unfolding and_then
and_then-Still s (t, sent, some reason) next h more = h
and_then-Still s (t, sent, none) next h more = more t ∙ h

-- A stage that ended is not gone on from.
and_then-ends {ℓ} :
    {W : Type ℓ} (st : Stage W) (next : Session W → Stage W) → st.2 ≢ none → (and_then st next) ≡ st
unfolding and_then
and_then-ends (t, sent, some reason) next h = refl
and_then-ends (t, sent, none) next h = absurd (h refl)

and_then-ne_none {ℓ} :
    {W : Type ℓ} (st : Stage W) (next : Session W → Stage W)
    → (next st.0).2 ≢ none
    → (and_then st next).2 ≢ none
unfolding and_then
and_then-ne_none (t, sent, some reason) next h = λ e. cc
and_then-ne_none (t, sent, none) next h = h

module _ {ℓ} {W : Type ℓ} (handlers : MonitorHandlers W) (device_id token session_id : Str) where
  auth_stage-Still :
      (r : Round) (s : Session W) → Still s (auth_stage handlers device_id token session_id r s)
  unfolding auth_stage with_auth send_last
  auth_stage-Still r s = ground arith

  ping_stage-Still :
      (r : Round) (s : Session W) → Still s (ping_stage handlers device_id token session_id r s)
  unfolding ping_stage
  ping_stage-Still r s = ground arith

  push_snapshot-Still :
      (clock : ℕ) (sends : Bool) (s : Session W)
      → Still s (push_snapshot handlers device_id token session_id clock sends s)
  unfolding push_snapshot with_snapshot send
  push_snapshot-Still clock sends s = ground arith

  snapshot_stage-Still :
      (r : Round) (s : Session W) → Still s (snapshot_stage handlers device_id token session_id r s)
  unfolding snapshot_stage and_then
  snapshot_stage-Still r s = ground (arith, push_snapshot-Still r.clock r.snapshot_sent s)

  frame_stage-Still :
      (r : Round) (f : Frame DeviceWsMessage) (s : Session W)
      → is_activity f ≡ false
      → Still s (frame_stage handlers device_id token session_id r f s)
  unfolding frame_stage is_activity
  frame_stage-Still r ping s h = cc
  frame_stage-Still r pong s h = cc
  frame_stage-Still r (text _ _) s h = cc
  frame_stage-Still r closing s h = refl
  frame_stage-Still r other s h = refl
  frame_stage-Still r quiet s h = refl
  frame_stage-Still r broken s h = refl

  round-Still :
      (r : Round) (s : Session W)
      → is_activity r.frame ≡ false
      → Still s (round handlers device_id token session_id r s)
  unfolding round
  round-Still r s silent =
      let idle = idle_stage handlers device_id token session_id r s in
      let auth = auth_stage handlers device_id token session_id r in
      let push = snapshot_stage handlers device_id token session_id r in
      let beat = ping_stage handlers device_id token session_id r in
      let frame = frame_stage handlers device_id token session_id r r.frame in
      and_then-Still s (and_then (and_then (and_then idle auth) push) beat) frame
        (and_then-Still s (and_then (and_then idle auth) push) beat
          (and_then-Still s (and_then idle auth) push
            (and_then-Still s idle auth (unfold idle_stage in refl) (auth_stage-Still r))
            (snapshot_stage-Still r))
          (ping_stage-Still r))
        (λ t. frame_stage-Still r r.frame t silent)

  -- A round that begins too long after the last activity ends the connection, and does nothing else.
  round-idle :
      (r : Round) (s : Session W)
      → ltb idle_timeout_ms (r.now - s.last_activity) ≡ true
      → round handlers device_id token session_id r s ≡ (s, [], some timed_out)
  unfolding round idle_stage and_then
  round-idle r s late = rw late refl

  idle_since :
      (since : ℕ) (rs : List Round) (s : Session W)
      → s.last_activity ≡ since
      → all (λ r. not (is_activity r.frame)) rs ≡ true
      → any (λ r. ltb idle_timeout_ms (r.now - since)) rs ≡ true
      → (rounds handlers device_id token session_id rs s).2 ≢ none
  unfolding rounds
  idle_since since [] s at silent late = λ e. cc
  idle_since since (r ∷ rs) s at silent late =
      let here = round handlers device_id token session_id r s in
      let (quiet_now, quiet_later) =
        &&-split (not (is_activity r.frame)) (all (λ q. not (is_activity q.frame)) rs) silent in
      let still = round-Still r s (ground arith) in
      elim (Bool-cases (ltb idle_timeout_ms (r.now - since))) [
        | inl over ↦ rw (round-idle r s (rw at over)) (unfold and_then in λ e. cc)
        | inr early ↦
            and_then-ne_none here (rounds handlers device_id token session_id rs)
              (idle_since since rs here.0 (still ∙ at) quiet_later (ground arith))
      ]

  -- A phone that is silent for more than `IDLE_TIMEOUT` is let go: whatever the rounds do, if none of them
  -- brings a ping, a pong or a text and one begins that long after the last activity, the loop ends.
  pub rounds-idle :
      (rs : List Round) (s : Session W)
      → all (λ r. not (is_activity r.frame)) rs ≡ true
      → any (λ r. ltb idle_timeout_ms (r.now - s.last_activity)) rs ≡ true
      → (rounds handlers device_id token session_id rs s).2 ≢ none
  rounds-idle rs s = idle_since s.last_activity rs s refl

  -- The check of a round, before anything else that the phone could reach.
  pub round-denied :
      (r : Round) (s : Session W)
      → (handlers.auth_checker device_id token s.world).1 ≡ false
      → (round handlers device_id token session_id r s ≡ (s, [], some timed_out))
        ⊎ (round handlers device_id token session_id r s ≡ (
          record s { world = (handlers.auth_checker device_id token s.world).0 },
          (if r.reply_sent then DeviceServerMessage.error (codes "device revoked") ∷ [] else []),
          some device_revoked,
        ))
  unfolding round idle_stage auth_stage with_auth send_last and_then
  round-denied r s no_longer = elim (Bool-cases (ltb idle_timeout_ms (r.now - s.last_activity))) [
    | inl late ↦ inl (rw late refl)
    | inr early ↦ inr (rw (early, no_longer) refl)
  ]
