-- ===== src/Relay/Enrollment.antt =====
-- One-time enrollment codes of relay-server/src/registry_routes.rs: the state
-- after a registration, and a code that is used again.
pub mod Reuse
use chat_x.Prelude.{
  ℕ, ◌≡◌, ◌≢◌, ◌≤◌, ◌<◌, refl, ap, ◌∙◌, Bool, true, Option, none, some, List, [], ◌∷◌, Str, Dict,
  get, insert, retain, ltb, str_eq, str_beq, str_beq_iff, if◌then◌else◌, All, ok, get-insert,
  get-retain_kept, get-retain_absent, get-remove, remove, arith, Option-cases, Bool-cases,
  Result-cases, inl, inr,
}
use chat_x.Relay.Platform.{Platform}
use chat_x.Relay.Registry.{DesktopRecord, hash_matches, hash_matches_iff}
use chat_x.Relay.State.{AppState}
use chat_x.Relay.Gateway.{revoke_desktop}
use chat_x.Relay.Gateway.Revoked.{IsRevoked, revoke_desktop-IsRevoked}
use chat_x.Protocol.Messages.{DesktopRegisterRequest}
use chat_x.Relay.Reply.{code_already_used, failed, registered}
use chat_x.Relay.Devices.{
  RegisterCall, register_desktop, check_registration, commit_registration, created_or, devices_of,
  use_invite, desktop_registration_record,
}
use chat_x.Relay.Grants.{authorize_device, revoke_device, commit_devices, forget_device}
use chat_x.Relay.Transactions.{Request, register, authorize, revoke, handle, serve}

-- A record that stands for a desktop after a registration at a time, told by what stood there before.
abbrev pub Succeeds : ℕ → Option DesktopRecord → DesktopRecord → Type 0
Succeeds now none r = (r.created_at ≡ now) × (r.devices ≡ [])
Succeeds now (some old) r = (r.created_at ≡ old.created_at) × (r.devices ≡ old.devices)

module _ (p : Platform) where
  use_invite-get :
      (now : ℕ) (id : Str) (expires : ℕ) (invite : Option (Str × ℕ)) (used used' : Dict Str ℕ)
      → use_invite p now invite used ≡ some used'
      → get id used ≡ some expires
      → now < expires
      → get id used' ≡ some expires
  unfolding use_invite
  use_invite-get now id expires none used used' h g l = ground arith
  use_invite-get now id expires (some (new, e)) used used' h g l = ground (
    arith,
    str_beq_iff new id,
    get-insert new id e (retain (λ _ expiry. ltb now expiry) used),
    get-retain_kept (λ _ expiry. ltb now expiry) id expires used g,
  )

  module _ (s : AppState) (call : RegisterCall) where
    -- The codes in use after a registration, whatever became of it.
    commit-invites :
        (invite : Option (Str × ℕ)) (desktop_id token id : Str) (expires : ℕ)
        → get id s.registry.used_registration_invites ≡ some expires
        → call.pruned_at < expires
        → get id
            (commit_registration p s call invite desktop_id
              token).0.registry.used_registration_invites
          ≡ some expires
    unfolding commit_registration
    commit-invites invite desktop_id token id expires g l =
        elim (Option-cases
          (use_invite p call.pruned_at invite s.registry.used_registration_invites)) [
            | inl taken ↦ rw (taken, commit_registration) g
            | inr (used, fresh) ↦
                let kept = use_invite-get call.pruned_at id expires invite _ used fresh g l in
                elim (Bool-cases call.saved) [
                  | inl saved ↦ rw (fresh, saved, commit_registration) kept
                  | inr lost ↦ rw (fresh, lost, commit_registration) g
                ]
          ]

  -- A request that drops no code which expires at the time or later.
  abbrev pub PrunesBefore : ℕ → Request → Type 0
  PrunesBefore expires (register call) = call.pruned_at < expires
  PrunesBefore expires _ = Unit

  handle-invites :
      (s : AppState) (request : Request) (id : Str) (expires : ℕ)
      → get id s.registry.used_registration_invites ≡ some expires
      → PrunesBefore expires request
      → get id (handle p s request).0.registry.used_registration_invites ≡ some expires
  unfolding handle register_desktop authorize_device revoke_device commit_devices forget_device
  handle-invites s (register call) id expires g l =
      elim (Result-cases (check_registration p s call)) [
        | inl (r, refused) ↦ rw (refused, register_desktop) g
        | inr ((invite, desktop_id, token), passed) ↦
            rw (passed, register_desktop)
              (commit-invites s call invite desktop_id token id expires g l)
      ]
  handle-invites s (authorize saved now desktop_id device_id authorization hash) id expires g l =
      ground arith
  handle-invites s (revoke saved desktop_id device_id authorization) id expires g l = ground arith

  serve-invites :
      (s : AppState) (requests : List Request) (id : Str) (expires : ℕ)
      → get id s.registry.used_registration_invites ≡ some expires
      → All (PrunesBefore expires) requests
      → get id (serve p s requests).registry.used_registration_invites ≡ some expires
  unfolding serve
  serve-invites s [] id expires g l = g
  serve-invites s (request ∷ requests) id expires g l =
      serve-invites (handle p s request).0 requests id expires
        (handle-invites s request id expires g l.0) l.1

  refused_lem :
      (s : AppState) (call : RegisterCall) (id desktop_id token : Str) (expires e : ℕ)
      → get id s.registry.used_registration_invites ≡ some expires
      → check_registration p s call ≡ ok (some (id, e), desktop_id, token)
      → register_desktop p s call ≡ (s, failed 401 code_already_used)
  unfolding register_desktop commit_registration use_invite
  refused_lem s call id desktop_id token expires e g h = rw (h, register_desktop) (ground arith)

  use_invite-own :
      (now : ℕ) (id : Str) (expires : ℕ) (used used' : Dict Str ℕ)
      → use_invite p now (some (id, expires)) used ≡ some used'
      → get id used' ≡ some expires
  unfolding use_invite
  use_invite-own now id expires used used' h = ground (
    arith,
    str_beq_iff id id,
    get-insert id id expires (retain (λ _ expiry. ltb now expiry) used),
  )

  -- A registration that goes through: the save worked, and this is the registry then.
  commit-registered :
      (s s' : AppState) (call : RegisterCall) (invite : Option (Str × ℕ))
      (d t desktop_id token : Str)
      → commit_registration p s call invite d t ≡ (s', registered desktop_id token)
      → (desktop_id ≡ d)
        × (token ≡ t)
        × (use_invite p call.pruned_at invite s.registry.used_registration_invites
            ≡ some s'.registry.used_registration_invites)
        × (s'.registry.desktops
            ≡ insert d
                (desktop_registration_record p call.created_at
                  (get d s.registry.desktops)
                  t
                  call.payload)
                s.registry.desktops)
        × (s'.mcp_gateway ≡ revoke_desktop d s.mcp_gateway)
  unfolding commit_registration
  commit-registered s s' call invite d t desktop_id token c = ground arith

  remembers :
      (s s' : AppState) (call : RegisterCall) (id desktop_id token d t : Str) (expires : ℕ)
      → check_registration p s call ≡ ok (some (id, expires), d, t)
      → register_desktop p s call ≡ (s', registered desktop_id token)
      → get id s'.registry.used_registration_invites ≡ some expires
  unfolding register_desktop
  remembers s s' call id desktop_id token d t expires h r =
      let c : commit_registration p s call (some (id, expires)) d t
          ≡ (s', registered desktop_id token) =
        rw (h, register_desktop) at r in
      use_invite-own call.pruned_at id expires _ _
        (commit-registered s s' call (some (id, expires)) d t desktop_id token c).2

  -- A one-time code serves once: after a registration with it, and after any requests that prune
  -- the used codes before it expires, every further registration with it is refused, with the state
  -- left alone.
  pub register_desktop_once :
      (s s' : AppState) (call later : RegisterCall) (requests : List Request)
      (id d t d' t' desktop_id token : Str) (expires e : ℕ)
      → check_registration p s call ≡ ok (some (id, expires), d, t)
      → register_desktop p s call ≡ (s', registered desktop_id token)
      → All (PrunesBefore expires) requests
      → check_registration p (serve p s' requests) later ≡ ok (some (id, e), d', t')
      → register_desktop p (serve p s' requests) later
        ≡ (serve p s' requests, failed 401 code_already_used)
  register_desktop_once s s' call later requests id d t d' t' desktop_id token expires e h r l h' =
      refused_lem (serve p s' requests) later id d' t' expires e
        (serve-invites s' requests id expires
          (remembers s s' call id desktop_id token d t expires h r) l)
        h'

  record-Succeeds :
      (now : ℕ) (existing : Option DesktopRecord) (token : Str) (payload : DesktopRegisterRequest)
      → Succeeds now existing (desktop_registration_record p now existing token payload)
  unfolding desktop_registration_record created_or devices_of
  record-Succeeds now none token payload = (refl, refl)
  record-Succeeds now (some old) token payload = (refl, refl)

  -- A registration that answers with a token has put under the desktop's id a record that the token
  -- matches; where a record stood there, its creation time and its devices are those of that one, else
  -- the time of the request and none; every other desktop's record is as it was; and where the gateway is
  -- that desktop's no session of it is active and no request of the session that was waits.
  pub register_desktop-registered :
      (s s' : AppState) (call : RegisterCall) (desktop_id token other : Str)
      → register_desktop p s call ≡ (s', registered desktop_id token)
      → (r : DesktopRecord) × (get other s'.registry.desktops
          ≡ (if str_beq desktop_id other then some r else get other s.registry.desktops))
        × (hash_matches p.digest token r.token_hash ≡ true)
        × Succeeds call.created_at (get desktop_id s.registry.desktops) r
        × IsRevoked desktop_id s.mcp_gateway s'.mcp_gateway
  unfolding register_desktop
  register_desktop-registered s s' call desktop_id token other h =
      elim (Result-cases (check_registration p s call)) [
        | inl (r, refused) ↦ absurd (unfold check_registration in ground arith)
        | inr ((invite, d, t), passed) ↦
            let (same, own, used, desktops, gateway) =
              commit-registered s s' call invite d t desktop_id token
                (rw (passed, register_desktop) at h) in
            let r =
              desktop_registration_record p call.created_at (get d s.registry.desktops) t
                call.payload in
            rw (same, own, gateway)
              (
                r,
                ap (get other) desktops ∙ get-insert d other r s.registry.desktops,
                (hash_matches_iff p.digest t r.token_hash).1
                    (unfold desktop_registration_record in refl),
                record-Succeeds call.created_at (get d s.registry.desktops) t call.payload,
                revoke_desktop-IsRevoked d s.mcp_gateway,
              )
      ]
