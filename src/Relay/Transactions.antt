-- ===== src/Relay/Transactions.antt =====
-- The registry in memory and the one that was saved last, through the requests of
-- relay-server/src/registry_routes.rs, with saves that fail.
use chat_x.Prelude.{
  ℕ, ◌≡◌, refl, sym, ap, ◌∙◌, Bool, true, false, Option, none, some, List, [], ◌∷◌, Str, Dict, get,
  insert, remove, RouteKey, str_eq, str_beq_iff, err, get-insert, get-remove, arith, Option-cases,
  Bool-cases, Result-cases, inl, inr,
}
use chat_x.Relay.Platform.{Platform}
use chat_x.Relay.Registry.{Registry, DesktopRecord, DeviceRecord}
use chat_x.Relay.State.{AppState}
use chat_x.Relay.Reply.{Response, failed}
use chat_x.Relay.Devices.{
  RegisterCall, register_desktop, check_registration, commit_registration, use_invite,
}
use chat_x.Relay.Grants.{
  authorize_device, revoke_device, commit_devices, commit_response, forget_device, check_desktop,
  check_authorize, check_revoke,
}

-- The same records under every key: `HashMap`'s equality.
pub record SameRegistry (a b : Registry) : Type 0 where
  pub desktops : (id : Str) → get id a.desktops ≡ get id b.desktops
  pub invites : (id : Str) → get id a.used_registration_invites ≡ get id b.used_registration_invites

-- A response that is a failure comes with the records as they were and no save that returned `Ok`, any
-- other with the registry in memory saved.
abbrev pub IsTransaction : AppState → AppState → Response → Type 0
IsTransaction s s' (failed status e) =
    SameRegistry s'.registry s.registry × (s'.last_saved ≡ s.last_saved)
IsTransaction s s' _ = s'.last_saved ≡ s'.registry

abbrev is_failure : Response → Bool
is_failure (failed status e) = true
is_failure _ = false

SameRegistry-refl : (r : Registry) → SameRegistry r r
SameRegistry-refl r = record { desktops = λ id. refl; invites = λ id. refl }

-- A failure that touched nothing.
untouched : (s : AppState) (r : Response) → is_failure r ≡ true → IsTransaction s s r
untouched s (failed status e) h = (SameRegistry-refl s.registry, refl)
untouched s _ h = cc

-- A key's value, put back where it stood.
put_back :
    (k j : Str) (new old : DesktopRecord) (m : Dict Str DesktopRecord)
    → get k m ≡ some old
    → get j (insert k old (insert k new m)) ≡ get j m
put_back k j new old m h =
    ground (arith, get-insert k j old (insert k new m), get-insert k j new m, str_beq_iff k j)

taken_back :
    (k j : Str) (new : DesktopRecord) (m : Dict Str DesktopRecord)
    → get k m ≡ none
    → get j (remove k (insert k new m)) ≡ get j m
taken_back k j new m h =
    ground (arith, get-remove k j (insert k new m), get-insert k j new m, str_beq_iff k j)

module _ (p : Platform) (s : AppState) (call : RegisterCall) where
  -- Every refusal before the lock is a failure.
  check_registration-failed :
      (r : Response) → check_registration p s call ≡ err r → is_failure r ≡ true
  unfolding check_registration
  check_registration-failed r h = ground arith

  commit_registration-IsTransaction :
      (invite : Option (Str × ℕ)) (desktop_id desktop_token : Str)
      → IsTransaction s
          (commit_registration p s call invite desktop_id desktop_token).0
          (commit_registration p s call invite desktop_id desktop_token).1
  unfolding commit_registration
  commit_registration-IsTransaction invite desktop_id desktop_token =
      elim (Option-cases
        (use_invite p call.pruned_at invite s.registry.used_registration_invites)) [
          | inl taken ↦ rw (taken, commit_registration) (SameRegistry-refl s.registry, refl)
          | inr (used, fresh) ↦ elim (Bool-cases call.saved) [
            | inl saved ↦ rw (fresh, saved, commit_registration) refl
            | inr lost ↦ elim (Option-cases (get desktop_id s.registry.desktops)) [
              | inl missing ↦
                  rw (fresh, lost, missing, commit_registration)
                    (
                      record {
                        desktops = λ id. taken_back desktop_id id _ s.registry.desktops missing;
                        invites = λ id. refl;
                      },
                      refl,
                    )
              | inr (old, there) ↦
                  rw (fresh, lost, there, commit_registration)
                    (
                      record {
                        desktops = λ id. put_back desktop_id id _ old s.registry.desktops there;
                        invites = λ id. refl;
                      },
                      refl,
                    )
            ]
          ]
        ]

  register_desktop-IsTransaction :
      IsTransaction s (register_desktop p s call).0 (register_desktop p s call).1
  unfolding register_desktop
  register_desktop-IsTransaction = elim (Result-cases (check_registration p s call)) [
    | inl (r, refused) ↦
        rw (refused, register_desktop) (untouched s r (check_registration-failed r refused))
    | inr ((invite, desktop_id, desktop_token), passed) ↦
        rw (passed, register_desktop)
          (commit_registration-IsTransaction invite desktop_id desktop_token)
  ]

module _ (s : AppState) (desktop_id : Str) (desktop : DesktopRecord) where
  commit_devices-IsTransaction :
      (saved : Bool) (devices : Dict Str DeviceRecord)
      → get desktop_id s.registry.desktops ≡ some desktop
      → IsTransaction s (commit_devices saved desktop_id desktop devices s) (commit_response saved)
  unfolding commit_devices
  commit_devices-IsTransaction true devices h = refl
  commit_devices-IsTransaction false devices h = (
    record {
      desktops = λ id. put_back desktop_id id _ desktop s.registry.desktops h;
      invites = λ id. refl;
    },
    refl,
  )

forgets :
    (saved : Bool) (key : RouteKey) (s t : AppState)
    → IsTransaction s t (commit_response saved)
    → IsTransaction s (forget_device saved key t) (commit_response saved)
unfolding forget_device
forgets true key s t h = h
forgets false key s t h = h

module _ (digest : Str → Str) (saved : Bool) (s : AppState) (desktop_id device_id : Str)
    (authorization : Option Str) where
  authorize_device-IsTransaction :
      (now : ℕ) (hash : Str)
      → IsTransaction s
          (authorize_device digest saved now s desktop_id device_id authorization hash).0
          (authorize_device digest saved now s desktop_id device_id authorization hash).1
  unfolding authorize_device
  authorize_device-IsTransaction now hash =
      elim (Result-cases (check_authorize digest s desktop_id authorization hash)) [
        | inl (r, refused) ↦
            rw (refused, authorize_device)
              (untouched s r (unfold check_authorize check_desktop in ground arith))
        | inr (desktop, passed) ↦
            rw (passed, authorize_device)
              (commit_devices-IsTransaction s desktop_id desktop saved _
                (unfold check_authorize in ground arith))
      ]

  revoke_device-IsTransaction :
      IsTransaction s
        (revoke_device digest saved s desktop_id device_id authorization).0
        (revoke_device digest saved s desktop_id device_id authorization).1
  unfolding revoke_device
  revoke_device-IsTransaction =
      elim (Result-cases (check_revoke digest s desktop_id authorization)) [
        | inl (r, refused) ↦
            rw (refused, revoke_device)
              (untouched s r (unfold check_revoke check_desktop in ground arith))
        | inr (desktop, passed) ↦
            rw (passed, revoke_device)
              (forgets saved (desktop_id, device_id) s _
                (commit_devices-IsTransaction s desktop_id desktop saved _
                  (unfold check_revoke in ground arith)))
      ]

-- The requests that change the registry. A `Bool` says whether the save succeeds.
pub data Request : Type 0 where
  register : RegisterCall → Request
  authorize : Bool → ℕ → Str → Str → Option Str → Str → Request
  revoke : Bool → Str → Str → Option Str → Request

module _ (p : Platform) where
  unfoldable pub handle : AppState → Request → AppState × Response
  handle s (register call) = register_desktop p s call
  handle s (authorize saved now desktop_id device_id authorization hash) =
      authorize_device p.digest saved now s desktop_id device_id authorization hash
  handle s (revoke saved desktop_id device_id authorization) =
      revoke_device p.digest saved s desktop_id device_id authorization

  unfoldable pub serve : AppState → List Request → AppState
  serve s [] = s
  serve s (request ∷ requests) = serve (handle s request).0 requests

  -- A request that answers with a failure, for whatever reason and wherever it stops, leaves every record
  -- in memory as it was, and the registry that was saved last is the same; after one that answers with
  -- success the registry that was saved last is the one in memory.
  pub handle-IsTransaction :
      (s : AppState) (request : Request) → IsTransaction s (handle s request).0 (handle s request).1
  unfolding handle
  handle-IsTransaction s (register call) = register_desktop-IsTransaction p s call
  handle-IsTransaction s (authorize saved now desktop_id device_id authorization hash) =
      authorize_device-IsTransaction p.digest saved s desktop_id device_id authorization now hash
  handle-IsTransaction s (revoke saved desktop_id device_id authorization) =
      revoke_device-IsTransaction p.digest saved s desktop_id device_id authorization

  in_sync :
      (s s' : AppState) (r : Response)
      → IsTransaction s s' r
      → SameRegistry s.last_saved s.registry
      → SameRegistry s'.last_saved s'.registry
  in_sync s s' (failed status e) (back, same) h = record {
    desktops = λ id.
        ap (λ (r : Registry). get id r.desktops) same ∙ h.desktops id ∙ sym (back.desktops id);
    invites = λ id.
        ap (λ (r : Registry). get id r.used_registration_invites) same
        ∙ h.invites id
        ∙ sym (back.invites id);
  }
  in_sync s s' _ t h = record {
    desktops = λ id. ap (λ (r : Registry). get id r.desktops) t;
    invites = λ id. ap (λ (r : Registry). get id r.used_registration_invites) t;
  }

  -- After any requests, whichever of them fail, the registry that was saved last, by a save that
  -- returned `Ok`, has the same records as the one in memory.
  pub serve-SameRegistry :
      (s : AppState) (requests : List Request)
      → SameRegistry s.last_saved s.registry
      → SameRegistry (serve s requests).last_saved (serve s requests).registry
  unfolding serve
  serve-SameRegistry s [] h = h
  serve-SameRegistry s (request ∷ requests) h =
      serve-SameRegistry (handle s request).0 requests
        (in_sync s (handle s request).0 (handle s request).1 (handle-IsTransaction s request) h)
