-- ===== src/Desktop/Monitor/Pairings.antt =====
-- The pairing of a phone, on success and on failure: src-tauri/src/monitor_manager.rs.
use chat_x.Prelude.{
  ℕ, ◌<◌, ◌≤◌, ◌≡◌, ◌⊎◌, refl, sym, ap, Option, none, some, [], ◌∷◌, ◌++◌, Str, ltb, length, ok,
  err, arith, Option-cases, Bool-cases, Result-cases, inl, inr,
}
use chat_x.Relay.Registry.{token_hash, constant_time_hex_eq_iff}
use chat_x.Desktop.Monitor.{
  Devices, MonitorPairingGrant, MonitorState, MonitorError, lost, PairingCall, loaded, after_save,
  store_devices, claim_pairing_grant, restore_pairing_grant, given, device_name, check_pairing,
  new_device, complete_claimed, finish_pairing_call, complete_monitor_pairing,
}

module _ (digest : Str → Str) where
  claim_pairing_grant-ok :
      (code : Str) (now : ℕ) (slot : Option MonitorPairingGrant) (grant : MonitorPairingGrant)
      → (claim_pairing_grant digest code now slot).1 ≡ ok grant
      → (slot ≡ some grant)
        × (now ≤ grant.expires_at)
        × (token_hash digest code ≡ grant.code_hash)
        × ((claim_pairing_grant digest code now slot).0 ≡ none)
  unfolding claim_pairing_grant
  claim_pairing_grant-ok code now none grant e = cc
  claim_pairing_grant-ok code now (some own) grant e =
      let test = constant_time_hex_eq_iff (token_hash digest code) own.code_hash in
      let same : own ≡ grant = ground (arith, e) in
      (ap some same, ground (arith, e, same), ground (arith, e, same, test), ground (arith, e))

  check_pairing-ok :
      (call : PairingCall) (devices : Devices) (id token : Str)
      → check_pairing call devices ≡ ok (id, token)
      → (length devices < 32) × (call.direct_token id ≡ some token)
  unfolding check_pairing
  check_pairing-ok call devices id token e = elim (Option-cases call.random) [
    | inl missing ↦ absurd (ground (arith, e, missing))
    | inr (random, drawn) ↦ (ground (arith, e, drawn), ground (arith, e, drawn))
  ]

  complete_claimed-ok :
      (call : PairingCall) (name id token : Str) (s s' : MonitorState)
      → complete_claimed digest call name s ≡ (s', ok (id, token))
      → (devices : Devices) × (loaded s ≡ ok devices)
        × (length devices < 32)
        × (call.direct_token id ≡ some token)
        × (s' ≡ record s {
          devices = some (devices ++ new_device digest call name id token ∷ []);
          stored = ok (devices ++ new_device digest call name id token ∷ []);
        })
  unfolding complete_claimed check_pairing store_devices after_save
  complete_claimed-ok call name id token s s' e = elim (Result-cases (loaded s)) [
    | inl (_, bad) ↦ absurd (ground (arith, e, bad))
    | inr (devices, good) ↦ elim (Result-cases (check_pairing call devices)) [
      | inl (_, refused) ↦ absurd (ground (arith, e, good, refused))
      | inr ((own, drawn), passed) ↦
          let same : own ≡ id = ground (arith, e, good, passed) in
          let same' : drawn ≡ token = ground (arith, e, good, passed) in
          let (room, derived) = check_pairing-ok call devices own drawn passed in
          let derived' : call.direct_token id ≡ some token = rw (same, same') at derived in
          (devices, good, room, derived', ground (arith, e, good, passed))
    ]
  ]

  complete_claimed-failed :
      (call : PairingCall) (name : Str) (s s' : MonitorState) (e : MonitorError)
      → complete_claimed digest call name s ≡ (s', err e)
      → (loaded s' ≡ loaded s)
        × ((s'.stored ≡ s.stored) ⊎ (call.saving ≡ lost))
        × (s'.pairing ≡ s.pairing)
  unfolding complete_claimed store_devices after_save loaded
  complete_claimed-failed call name s s' e h = elim (Result-cases (loaded s)) [
    | inl (_, bad) ↦ (ground (arith, h, bad), ground (arith, h, bad), ground (arith, h, bad))
    | inr (devices, good) ↦ elim (Result-cases (check_pairing call devices)) [
      | inl (_, refused) ↦ (
        ground (arith, h, good, refused),
        ground (arith, h, good, refused),
        ground (arith, h, good, refused),
      )
      | inr (_, passed) ↦ (
        ground (arith, h, good, passed),
        ground (arith, h, good, passed),
        ground (arith, h, good, passed),
      )
    ]
  ]

  claim_pairing_grant-failed :
      (code : Str) (now : ℕ) (slot : Option MonitorPairingGrant) (e : MonitorError)
      → (claim_pairing_grant digest code now slot).1 ≡ err e
      → ((claim_pairing_grant digest code now slot).0 ≡ slot)
        ⊎ ((grant : MonitorPairingGrant) × (slot ≡ some grant)
            × ((claim_pairing_grant digest code now slot).0 ≡ none)
            × (grant.expires_at < now))
  unfolding claim_pairing_grant
  claim_pairing_grant-failed code now none e h = inl refl
  claim_pairing_grant-failed code now (some grant) e h =
      elim (Bool-cases (ltb grant.expires_at now)) [
        | inl late ↦ inr (grant, refl, ground (arith, late), ground (arith, late))
        | inr fresh ↦ inl (ground (arith, h, fresh))
      ]

  -- A pairing that succeeds had an unexpired grant, whose code hashes as the code that the phone sent; the
  -- grant is spent. The desktop had fewer than 32 phones, in memory and in the file it now has one more, last,
  -- with the hash of the token that the phone gets.
  pub complete_monitor_pairing-ok :
      (call : PairingCall) (s s' : MonitorState) (id token : Str)
      → complete_monitor_pairing digest call s ≡ (s', ok (id, token))
      → (grant : MonitorPairingGrant) × (code : Str) × (devices : Devices) × (given call.code
          ≡ some code)
        × (s.pairing ≡ some grant)
        × (call.claimed_at ≤ grant.expires_at)
        × (token_hash digest code ≡ grant.code_hash)
        × (loaded s ≡ ok devices)
        × (length devices < 32)
        × (call.direct_token id ≡ some token)
        × (s' ≡ record {
          pairing = none;
          devices =
              some
                (devices ++ new_device digest call (device_name (given call.name)) id token ∷ []);
          stored =
              ok (devices ++ new_device digest call (device_name (given call.name)) id token ∷ []);
        })
  unfolding complete_monitor_pairing finish_pairing_call loaded
  complete_monitor_pairing-ok call s s' id token e = elim (Option-cases (given call.code)) [
    | inl missing ↦ absurd (ground (arith, e, missing))
    | inr (code, sent) ↦
        let claim = claim_pairing_grant digest code call.claimed_at s.pairing in
        elim (Result-cases claim.1) [
          | inl (_, bad) ↦ absurd (ground (arith, e, sent, bad))
          | inr (grant, good) ↦
              let (held, fresh, hash, spent) =
                claim_pairing_grant-ok code call.claimed_at s.pairing grant good in
              let left : MonitorState = record s { pairing = claim.0 } in
              let name = device_name (given call.name) in
              elim (Result-cases (complete_claimed digest call name left).1) [
                | inl (_, failed) ↦ absurd (ground (arith, e, sent, good, failed))
                | inr (pair, done) ↦
                    let (devices, before, room, derived, after) =
                      complete_claimed-ok call name id token left s'
                        (ground (arith, e, sent, good, done)) in
                    (
                      grant,
                      code,
                      devices,
                      sent,
                      held,
                      fresh,
                      hash,
                      before,
                      room,
                      derived,
                      ground (arith, after, spent),
                    )
              ]
        ]
  ]

  -- A pairing that fails leaves the phones in memory as they were, and in the file if it is still there; and
  -- the grant, unless it is expired by then.
  pub complete_monitor_pairing-failed :
      (call : PairingCall) (s s' : MonitorState) (e : MonitorError)
      → complete_monitor_pairing digest call s ≡ (s', err e)
      → (loaded s' ≡ loaded s)
        × ((s'.stored ≡ s.stored) ⊎ (call.saving ≡ lost))
        × ((s'.pairing ≡ s.pairing)
            ⊎ ((grant : MonitorPairingGrant) × (s.pairing ≡ some grant)
                × (s'.pairing ≡ none)
                × ((grant.expires_at < call.claimed_at) ⊎ (grant.expires_at < call.restored_at))))
  unfolding complete_monitor_pairing finish_pairing_call restore_pairing_grant loaded
  complete_monitor_pairing-failed call s s' e h = elim (Option-cases (given call.code)) [
    | inl missing ↦
        (ground (arith, h, missing), ground (arith, h, missing), ground (arith, h, missing))
    | inr (code, sent) ↦
        let claim = claim_pairing_grant digest code call.claimed_at s.pairing in
        elim (Result-cases claim.1) [
          | inl (_, bad) ↦
              let left : MonitorState = record s { pairing = claim.0 } in
              let state : left ≡ s' = ground (arith, h, sent, bad) in
              rw (sym state) (
                refl,
                inl refl,
                elim (claim_pairing_grant-failed code call.claimed_at s.pairing _ bad) [
                  | inl same ↦ inl same
                  | inr (grant, held, gone, late) ↦ inr (grant, held, gone, inl late)
                ],
              )
          | inr (grant, good) ↦
              let (held, fresh, hash, spent) =
                claim_pairing_grant-ok code call.claimed_at s.pairing grant good in
              let left : MonitorState = record s { pairing = claim.0 } in
              let name = device_name (given call.name) in
              let done = complete_claimed digest call name left in
              elim (Result-cases done.1) [
                | inr (_, worked) ↦ absurd (ground (arith, h, sent, good, worked))
                | inl (e', failed) ↦
                    let (same, file, slot) =
                      complete_claimed-failed call name left done.0 e' (ground (arith, failed)) in
                    let state : record done.0 {
                      pairing = restore_pairing_grant grant call.restored_at done.0.pairing;
                    }
                        ≡ s' =
                      ground (arith, h, sent, good, failed) in
                    rw (sym state) (
                      same,
                      file,
                      elim (Bool-cases (ltb grant.expires_at call.restored_at)) [
                        | inl late ↦ inr (
                          grant,
                          held,
                          ground (arith, late, slot, spent),
                          inr (ground (arith, late)),
                        )
                        | inr early ↦ inl (ground (arith, early, slot, spent, held))
                      ],
                    )
              ]
        ]
  ]
