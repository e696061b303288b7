-- ===== src/Desktop/Server/Socket/Order.antt =====
-- The snapshots of a phone's websocket to the desktop, and their numbers.
use chat_x.Prelude.{
  ℕ, zero, suc, ◌+◌, ◌-◌, ◌≤◌, ◌<◌, ◌≡◌, refl, ap, ap₂, sym, ◌∙◌, Bool, true, false, Option, none,
  some, List, [], ◌∷◌, ◌++◌, Str, length, Result, ok, err, saturating_add, u64_max, arith,
  Bool-cases, inl, inr, ltb, leb,
}
use chat_x.Protocol.Messages.{EncryptedSnapshot, DeviceWsMessage, DeviceServerMessage}
use chat_x.Desktop.Server.Requests.{MonitorHandlers}
use chat_x.Desktop.Server.Socket.{
  Frame, ping, pong, text, closing, other, quiet, broken, Session, Stage, Round, max_ws_text_bytes,
  snapshot_interval_ms, too_large, and_then, send, send_last, push_snapshot, round, rounds,
  idle_stage, auth_stage, snapshot_stage, ping_stage, frame_stage, with_auth, with_snapshot,
  message_stage, with_control, with_revoke,
}

-- The numbers of the snapshots among messages.
unfoldable pub numbers : List DeviceServerMessage → List ℕ
numbers [] = []
numbers (DeviceServerMessage.snapshot _ x ∷ ms) = x.sequence ∷ numbers ms
numbers (_ ∷ ms) = numbers ms

-- `n`, `n + 1` and so on, `k` numbers.
unfoldable pub count_from : ℕ → ℕ → List ℕ
count_from n zero = []
count_from n (suc k) = n ∷ count_from (suc n) k

numbers-append : (ms ns : List DeviceServerMessage) → numbers (ms ++ ns) ≡ numbers ms ++ numbers ns
unfolding numbers
numbers-append [] ns = refl
numbers-append (DeviceServerMessage.snapshot at x ∷ ms) ns =
    ap (◌∷◌ x.sequence) (numbers-append ms ns)
numbers-append (DeviceServerMessage.hello_ack _ _ _ _ ∷ ms) ns = numbers-append ms ns
numbers-append (DeviceServerMessage.pong _ ∷ ms) ns = numbers-append ms ns
numbers-append (DeviceServerMessage.desktop_presence _ _ ∷ ms) ns = numbers-append ms ns
numbers-append (DeviceServerMessage.revoked _ ∷ ms) ns = numbers-append ms ns
numbers-append (DeviceServerMessage.control_result _ ∷ ms) ns = numbers-append ms ns
numbers-append (DeviceServerMessage.error _ ∷ ms) ns = numbers-append ms ns

count_from-append :
    (n k m p q : ℕ) → p ≡ n + k → q ≡ k + m → count_from n q ≡ count_from n k ++ count_from p m
unfolding count_from
count_from-append n zero m p q hp hq =
    let at : p ≡ n = omega arith in let long : q ≡ m = omega arith in rw (at, long) refl
count_from-append n (suc k) m p zero hp hq = absurd (omega arith)
count_from-append n (suc k) m p (suc q) hp hq =
    ap (◌∷◌ n) (count_from-append (suc n) k m p q (omega arith) (omega arith))

-- A stage that may send `b` snapshots at most: they have the next numbers.
abbrev pub Counts {ℓ} : {W : Type ℓ} → ℕ → Session W → Stage W → Type 0
Counts b s st =
    (k : ℕ) × (numbers st.1 ≡ count_from (suc s.sequence) k)
    × (k ≤ b)
    × (st.2 ≡ none → st.0.sequence ≡ s.sequence + k)

pub and_then-Counts {ℓ} :
    {W : Type ℓ} (b c d : ℕ) (s : Session W) (st : Stage W) (next : Session W → Stage W)
    → b + c ≤ d
    → Counts b s st
    → ((t : Session W) → t.sequence ≤ s.sequence + b → Counts c t (next t))
    → Counts d s (and_then st next)
unfolding and_then
and_then-Counts b c d s (t, sent, some reason) next fits (k, same, small, goes) more =
    (k, same, omega arith, λ e. cc)
and_then-Counts b c d s (t, sent, none) next fits (k, same, small, goes) more =
    let (m, same', small', goes') = more t (omega (arith, goes refl)) in
    (
      k + m,
      numbers-append sent (next t).1
          ∙ ap₂ ◌++◌ same same'
          ∙ sym (
              count_from-append (suc s.sequence) k m (suc t.sequence) (k + m)
                (omega (arith, goes refl)) refl),
      omega arith,
      λ e. omega (arith, goes refl, goes' e),
    )

pub plain-Counts {ℓ} :
    {W : Type ℓ} (s : Session W) (st : Stage W)
    → numbers st.1 ≡ []
    → st.0.sequence ≡ s.sequence
    → Counts 0 s st
plain-Counts s st none_sent same =
    (0, unfold count_from in none_sent, omega arith, λ e. omega arith)

-- The provider puts the number that it is asked for into its snapshots.
abbrev pub Numbers {ℓ} : {W : Type ℓ} → MonitorHandlers W → Type ℓ
Numbers {W} handlers =
    (d i : Str) (n : ℕ) (w : W) (x : EncryptedSnapshot)
    → (handlers.snapshot_provider d i n w).1 ≡ ok x
    → x.sequence ≡ n

module _ {ℓ} {W : Type ℓ} (handlers : MonitorHandlers W) (device_id token session_id : Str) where
  idle_stage-Counts :
      (r : Round) (s : Session W) → Counts 0 s (idle_stage handlers device_id token session_id r s)
  unfolding idle_stage numbers
  idle_stage-Counts r s =
      plain-Counts s (idle_stage handlers device_id token session_id r s) refl refl

  auth_stage-Counts :
      (r : Round) (s : Session W) → Counts 0 s (auth_stage handlers device_id token session_id r s)
  unfolding auth_stage with_auth send_last numbers
  auth_stage-Counts r s =
      plain-Counts s (auth_stage handlers device_id token session_id r s) (ground arith)
        (ground arith)

  ping_stage-Counts :
      (r : Round) (s : Session W) → Counts 0 s (ping_stage handlers device_id token session_id r s)
  unfolding ping_stage numbers
  ping_stage-Counts r s =
      plain-Counts s (ping_stage handlers device_id token session_id r s) (ground arith)
        (ground arith)

  message_stage-Counts :
      (r : Round) (m : Option DeviceWsMessage) (s : Session W)
      → Counts 0 s (message_stage handlers device_id token session_id r m s)
  unfolding message_stage with_control with_revoke send send_last numbers
  message_stage-Counts r m s =
      plain-Counts s (message_stage handlers device_id token session_id r m s) (ground arith)
        (ground arith)

  frame_stage-Counts :
      (r : Round) (f : Frame DeviceWsMessage) (s : Session W)
      → Counts 0 s (frame_stage handlers device_id token session_id r f s)
  unfolding frame_stage numbers
  frame_stage-Counts r ping s =
      plain-Counts s (frame_stage handlers device_id token session_id r ping s) refl refl
  frame_stage-Counts r pong s =
      plain-Counts s (frame_stage handlers device_id token session_id r pong s) refl refl
  frame_stage-Counts r closing s =
      plain-Counts s (frame_stage handlers device_id token session_id r closing s) refl refl
  frame_stage-Counts r other s =
      plain-Counts s (frame_stage handlers device_id token session_id r other s) refl refl
  frame_stage-Counts r quiet s =
      plain-Counts s (frame_stage handlers device_id token session_id r quiet s) refl refl
  frame_stage-Counts r broken s =
      plain-Counts s (frame_stage handlers device_id token session_id r broken s) refl refl
  frame_stage-Counts r (text length message) s = elim (Bool-cases (ltb max_ws_text_bytes length)) [
    | inl long ↦
        rw long
          (plain-Counts s (record s { last_activity = r.read_at }, [], some too_large) refl refl)
    | inr short ↦ rw short (message_stage-Counts r message (record s { last_activity = r.read_at }))
  ]

  with_snapshot-Counts :
      (clock : ℕ) (sends : Bool) (s t : Session W) (given : W × Result Str EncryptedSnapshot)
      → ((x : EncryptedSnapshot) → given.1 ≡ ok x → x.sequence ≡ suc s.sequence)
      → t.sequence ≡ suc s.sequence
      → Counts 1 s (with_snapshot handlers device_id token session_id clock sends t given)
  unfolding with_snapshot send numbers count_from
  with_snapshot-Counts clock sends s t (w, err e) numbered next = (0, refl, omega arith, λ h. cc)
  with_snapshot-Counts clock true s t (w, ok x) numbered next =
      (1, ap (λ n. n ∷ []) (numbered x refl), omega arith, λ h. omega arith)
  with_snapshot-Counts clock false s t (w, ok x) numbered next = (0, refl, omega arith, λ h. cc)

  pub push_snapshot-Counts :
      Numbers handlers
      → (clock : ℕ) (sends : Bool) (s : Session W) → s.sequence < u64_max
      → Counts 1 s (push_snapshot handlers device_id token session_id clock sends s)
  unfolding push_snapshot
  push_snapshot-Counts numbered clock sends s room =
      let next : saturating_add s.sequence 1 ≡ suc s.sequence = ground arith in
      with_snapshot-Counts clock sends s (record s { sequence = saturating_add s.sequence 1 })
        (handlers.snapshot_provider device_id session_id (saturating_add s.sequence 1) s.world)
        (λ x h. numbered device_id session_id (saturating_add s.sequence 1) s.world x h ∙ next) next

  snapshot_stage-Counts :
      Numbers handlers
      → (r : Round) (s : Session W) → s.sequence < u64_max
      → Counts 1 s (snapshot_stage handlers device_id token session_id r s)
  unfolding snapshot_stage numbers count_from
  snapshot_stage-Counts numbered r s room =
      elim (Bool-cases (leb snapshot_interval_ms (r.now - s.last_snapshot))) [
        | inl due ↦ rw due (
            and_then-Counts 1 0 1 s
              (push_snapshot handlers device_id token session_id r.clock r.snapshot_sent s)
              (λ t. (record t { last_snapshot = r.pushed_at }, [], none)) (omega arith)
              (push_snapshot-Counts numbered r.clock r.snapshot_sent s room)
              (λ t h.
                plain-Counts t (record t { last_snapshot = r.pushed_at }, [], none) refl refl))
        | inr early ↦ rw early (0, refl, omega arith, λ h. omega arith)
      ]

  -- A round sends one snapshot at most.
  round-Counts :
      Numbers handlers
      → (r : Round) (s : Session W) → s.sequence < u64_max
      → Counts 1 s (round handlers device_id token session_id r s)
  unfolding round
  round-Counts numbered r s room =
      let idle = idle_stage handlers device_id token session_id r s in
      let auth = auth_stage handlers device_id token session_id r in
      let push = snapshot_stage handlers device_id token session_id r in
      let beat = ping_stage handlers device_id token session_id r in
      let frame = frame_stage handlers device_id token session_id r r.frame in
      and_then-Counts 1 0 1 s (and_then (and_then (and_then idle auth) push) beat) frame
        (omega arith)
        (and_then-Counts 1 0 1 s (and_then (and_then idle auth) push) beat (omega arith)
          (and_then-Counts 0 1 1 s (and_then idle auth) push (omega arith)
            (and_then-Counts 0 0 0 s idle auth (omega arith) (idle_stage-Counts r s)
              (λ t h. auth_stage-Counts r t))
            (λ t h. snapshot_stage-Counts numbered r t (omega arith)))
          (λ t h. ping_stage-Counts r t))
        (λ t h. frame_stage-Counts r r.frame t)

  pub rounds-Counts :
      Numbers handlers
      → (rs : List Round) (s : Session W) → s.sequence + length rs ≤ u64_max
      → Counts (length rs) s (rounds handlers device_id token session_id rs s)
  unfolding rounds numbers
  rounds-Counts numbered [] s room = plain-Counts s (s, [], none) refl refl
  rounds-Counts numbered (r ∷ rs) s room =
      and_then-Counts 1 (length rs) (suc (length rs)) s
        (round handlers device_id token session_id r s)
        (rounds handlers device_id token session_id rs) (omega arith)
        (round-Counts numbered r s (omega arith)) (λ t h. rounds-Counts numbered rs t (omega arith))
