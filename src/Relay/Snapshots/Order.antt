-- ===== src/Relay/Snapshots/Order.antt =====
-- The snapshot cache of Relay.Snapshots over many publications: order, age and other devices.
use chat_x.Prelude.{
  ℕ, ◌-◌, ◌<◌, ◌≡◌, All, ◌≢◌, ◌⊎◌, Bool, true, false, Option, none, some, List, [], ◌∷◌, Str, get,
  RouteKey, str_eq, pair_eq, pair_beq, pair_beq_iff, if◌then◌else◌, leb, Result, ok, err,
  get-remove, arith,
}
use chat_x.Protocol.Messages.{EncryptedSnapshot}
use chat_x.Relay.State.{AppState, SnapshotRecord, snapshot_ttl_ms}
use chat_x.Relay.Reply.{Refusal}
use chat_x.Relay.Snapshots.{cache_snapshot, latest_snapshot}

-- A cached snapshot as long as it is fresh.
abbrev pub fresh : ℕ → Option SnapshotRecord → Option SnapshotRecord
fresh now none = none
fresh now (some r) = if leb (now - r.received_at) snapshot_ttl_ms then some r else none

-- `latest_snapshot` returns the snapshot that is cached under its key if it is at most the lifetime
-- old, and nothing otherwise; afterwards the cache holds just that under the key, and what it held
-- under every other key.
pub latest_snapshot-fresh :
    (now : ℕ) (s : AppState) (desktop_id device_id : Str) (key : RouteKey)
    → ((latest_snapshot now s desktop_id device_id).1
        ≡ fresh now (get (desktop_id, device_id) s.snapshots))
      × (get key (latest_snapshot now s desktop_id device_id).0.snapshots ≡ (
          if pair_beq (desktop_id, device_id) key
          then fresh now (get (desktop_id, device_id) s.snapshots)
          else get key s.snapshots))
unfolding latest_snapshot
latest_snapshot-fresh now s desktop_id device_id key =
    let k : RouteKey = (desktop_id, device_id) in
    (
      ground (arith, get-remove k k s.snapshots, pair_beq_iff k k),
      ground (arith, get-remove k key s.snapshots, pair_beq_iff k key),
    )

-- A snapshot that may follow the one cached before.
abbrev pub Follows : Option EncryptedSnapshot → EncryptedSnapshot → Type 0
Follows none x = Unit
Follows (some y) x = (y.session_id ≢ x.session_id) ⊎ (y.sequence < x.sequence)

abbrev pub IncreasingFrom : Option EncryptedSnapshot → List EncryptedSnapshot → Type 0
IncreasingFrom before [] = Unit
IncreasingFrom before (x ∷ xs) = Follows before x × IncreasingFrom (some x) xs

abbrev cached : Option SnapshotRecord → Option EncryptedSnapshot
cached none = none
cached (some r) = some r.snapshot

-- A publication: the time, the desktop, the device and the snapshot.
abbrev pub Publication : Type 0
Publication = ℕ × Str × Str × EncryptedSnapshot

abbrev received : Bool → EncryptedSnapshot → List EncryptedSnapshot → List EncryptedSnapshot
received true x xs = x ∷ xs
received false x xs = xs

-- Whether a call was for the device of the key and was accepted.
abbrev goes_to {ℓ} : {A : Type ℓ} → RouteKey → RouteKey → Result Refusal A → Bool
goes_to key target (ok _) = pair_beq target key
goes_to key target (err e) = false

-- The snapshots that the cache takes for one device while the desktops publish, each under the cache's lock:
-- in the order of the caching.
unfoldable pub accepted_for : RouteKey → AppState → List Publication → List EncryptedSnapshot
accepted_for key s [] = []
accepted_for key s ((now, desktop_id, device_id, snapshot) ∷ rest) =
    let (s', outcome) = cache_snapshot now s desktop_id device_id snapshot in
    received (goes_to key (desktop_id, device_id) outcome) snapshot (accepted_for key s' rest)

-- The snapshot that the cache holds, in front.
unfoldable pub after_cached :
    Option SnapshotRecord → List EncryptedSnapshot → List EncryptedSnapshot
after_cached none xs = xs
after_cached (some r) xs = r.snapshot ∷ xs

-- Every snapshot of the stretch has a larger sequence number than all that come before it there.
abbrev pub AreIncreasing : List EncryptedSnapshot → Type 0
AreIncreasing [] = Unit
AreIncreasing (x ∷ xs) = All (λ y. x.sequence < y.sequence) xs × AreIncreasing xs

abbrev AreOf : Str → List EncryptedSnapshot → Type 0
AreOf session = All (λ x. x.session_id ≡ session)
