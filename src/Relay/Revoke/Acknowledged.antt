-- ===== src/Relay/Revoke/Acknowledged.antt =====
-- A device's revocation of itself with and without its desktop's acknowledgement: Relay.Revoke.
use chat_x.Prelude.{◌≡◌, Bool, Option, some, Str, str_eq, pair_eq, triple_eq, Result, err, arith}
use chat_x.Relay.State.{AppState, SameRegistration}
use chat_x.Relay.Reply.{Refusal, desktop_says, revoke_timeout}
use chat_x.Relay.Revoke.{begin_revoke, route_revoke, enter_revoke}

-- Before the desktop answers, a revocation touches the list of waiting requests and the next channel's
-- number alone: the registry in memory and the one saved last, the snapshots and the channels are as before.
pub begin_revoke-registry :
    (listens : Bool) (random : Option Str) (s : AppState) (desktop_id device_id : Str)
    → SameRegistration s (begin_revoke listens random s desktop_id device_id).0
      × ((begin_revoke listens random s desktop_id device_id).0.snapshots ≡ s.snapshots)
      × ((begin_revoke listens random s desktop_id device_id).0.device_channels ≡ s.device_channels)
unfolding begin_revoke route_revoke enter_revoke
begin_revoke-registry listens random s desktop_id device_id = (
  (ground arith, ground arith, ground arith, ground arith, ground arith, ground arith),
  ground arith,
  ground arith,
)

-- The refusal that an answer stands for: the desktop's own words, or that none came.
unfoldable pub refusal_of : Option (Result Str (Unit {0})) → Refusal
refusal_of (some (err message)) = desktop_says message
refusal_of _ = revoke_timeout
