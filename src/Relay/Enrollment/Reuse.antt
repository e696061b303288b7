-- ===== src/Relay/Enrollment/Reuse.antt =====
-- An enrollment code across its expiry, in `register_desktop` of relay-server/src/registry_routes.rs.
use chat_x.Prelude.{
  ℕ, ◌≡◌, ◌≢◌, ◌≤◌, refl, Bool, true, Option, none, some, Str, Dict, get, insert, retain, ltb,
  str_eq, str_beq_iff, ok, get-insert, get-retain_absent, get-remove, remove, arith,
}
use chat_x.Relay.Platform.{Platform}
use chat_x.Relay.State.{AppState}
use chat_x.Relay.Reply.{registered}
use chat_x.Relay.Devices.{RegisterCall, check_registration, commit_registration, use_invite}

module _ (p : Platform) where
  abbrev in_date : ℕ → Str → ℕ → Bool
  in_date now _ expiry = ltb now expiry

  pruned :
      (now : ℕ) (id : Str) (expires : ℕ) (used : Dict Str ℕ)
      → expires ≤ now
      → get id (retain (in_date now) (insert id expires used)) ≡ none
  unfolding insert retain
  pruned now id expires used l = ground (
    arith,
    get-retain_absent (in_date now) id (remove id used),
    get-remove id id used,
    str_beq_iff id id,
  )

  use_invite-pruned :
      (now : ℕ) (id id' : Str) (expires expires' : ℕ) (used : Dict Str ℕ)
      → id' ≢ id
      → get id' used ≡ none
      → expires ≤ now
      → (used' : Dict Str ℕ) × (use_invite p now (some (id', expires')) (insert id expires used)
          ≡ some used')
        × (get id used' ≡ none)
  unfolding use_invite
  use_invite-pruned now id id' expires expires' used ne g l =
      let rest = retain (in_date now) (insert id expires used) in
      (
        insert id' expires' rest,
        ground (arith, get-insert id id' expires used, str_beq_iff id id'),
        ground (
          arith,
          get-insert id' id expires' rest,
          str_beq_iff id' id,
          pruned now id expires used l,
        ),
      )

  use_invite-new :
      (now : ℕ) (id : Str) (expires : ℕ) (used : Dict Str ℕ)
      → get id used ≡ none
      → (used' : Dict Str ℕ) × (use_invite p now (some (id, expires)) used ≡ some used')
  unfolding use_invite
  use_invite-new now id expires used g = (insert id expires (retain (in_date now) used), rw g refl)

  -- A registration with a code that is not in use goes through if it is saved.
  commit-goes_through :
      (s : AppState) (call : RegisterCall) (invite : Option (Str × ℕ)) (d t : Str)
      (used' : Dict Str ℕ)
      → use_invite p call.pruned_at invite s.registry.used_registration_invites ≡ some used'
      → call.saved ≡ true
      → ((commit_registration p s call invite d t).1 ≡ registered d t)
        × ((commit_registration p s call invite d t).0.registry.used_registration_invites ≡ used')
  unfolding commit_registration
  commit-goes_through s call invite d t used' h saved = ground arith

  -- A code that has served can serve again across its expiry: a request that found it in date, and
  -- waits for the lock while another registration prunes the used codes at a time when it has
  -- expired, is not refused.
  pub commit_registration-reuse :
      (s : AppState) (first late : RegisterCall) (used : Dict Str ℕ) (id id' d t d' t' : Str)
      (expires expires' : ℕ)
      → s.registry.used_registration_invites ≡ insert id expires used
      → check_registration p s late ≡ ok (some (id, expires), d', t')
      → id' ≢ id
      → get id' used ≡ none
      → expires ≤ first.pruned_at
      → first.saved ≡ true
      → late.saved ≡ true
      → (commit_registration p
          (commit_registration p s first (some (id', expires')) d t).0
          late
          (some (id, expires))
          d'
          t').1
        ≡ registered d' t'
  commit_registration-reuse s first late used id id' d t d' t' expires expires' u h ne g l f w =
      let (used₁, taken, gone) =
        use_invite-pruned first.pruned_at id id' expires expires' used ne g l in
      let (_, left) = commit-goes_through s first (some (id', expires')) d t used₁ (rw u taken) f in
      let (used₂, free) = use_invite-new late.pruned_at id expires used₁ gone in
      (commit-goes_through _ late (some (id, expires)) d' t' used₂ (rw left free) w).0
