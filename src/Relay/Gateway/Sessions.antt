-- ===== src/Relay/Gateway/Sessions.antt =====
-- The gateway's sessions and their credential: `install`, `recheck` and `disconnect` of
-- relay-server/src/mcp_gateway.rs.
use chat_x.Prelude.{
  ℕ, ◌≡◌, true, false, not, Option, none, some, [], ◌∷◌, Str, Dict, get, retain, str_eq,
  str_beq_iff, ◌==◌, arith, get-retain_kept, Option-cases, Bool-cases, inl, inr,
}
use chat_x.Relay.Registry.{DesktopRecord}
use chat_x.Relay.State.{AppState, Gateway, Active, Pending}
use chat_x.Relay.Reply.{registered}
use chat_x.Relay.Platform.{Platform}
use chat_x.Relay.Devices.{RegisterCall, commit_registration, use_invite}
use chat_x.Relay.Gateway.{
  fail_session, disconnect, install, recheck, revoke_desktop, retire, is_selected, is_current,
  retire_previous, is_credential, selected_record, selected_or_empty,
}

get-fail_session :
    (session_id id : Str) (item : Pending) (pending : Dict Str Pending)
    → get id (retain (λ _ item. not (item.session_id == session_id)) pending) ≡ some item
    → (item.session_id == session_id) ≡ false
unfolding get retain
get-fail_session session_id id item [] e = ground arith
get-fail_session session_id id item ((j, v) ∷ pending) e =
    ground (arith, e, get-fail_session session_id id item pending)

-- When a session ends, none of its requests waits any more and it is not the active session.
pub disconnect-failed :
    (session_id id : Str) (g : Gateway) (item : Pending)
    → get id (disconnect session_id g).pending ≡ some item
    → ((item.session_id == session_id) ≡ false)
      × (is_current session_id (disconnect session_id g).active ≡ false)
unfolding disconnect fail_session is_current
disconnect-failed session_id id g item e = elim (Bool-cases (is_current session_id g.active)) [
  | inl current ↦ (
    get-fail_session session_id id item g.pending (ground (arith, e, current)),
    ground (arith, current),
  )
  | inr older ↦ (
    get-fail_session session_id id item g.pending (ground (arith, e, older)),
    ground (arith, older),
  )
]

-- A newer session that is active stays, and every request of another session waits as before.
pub disconnect-others :
    (session_id id : Str) (g : Gateway) (item : Pending) (active : Active)
    → get id g.pending ≡ some item
    → (item.session_id == session_id) ≡ false
    → g.active ≡ some active
    → (active.session_id == session_id) ≡ false
    → ((disconnect session_id g).active ≡ some active)
      × (get id (disconnect session_id g).pending ≡ some item)
unfolding disconnect fail_session is_current
disconnect-others session_id id g item active found other current newer =
    let kept =
      get-retain_kept (λ _ item. not (item.session_id == session_id)) id item g.pending found
        (ground (arith, other)) in
    (ground (arith, current, newer), ground (arith, current, newer, kept))

-- A session that the second test lets go on has the credential that is registered at that time for the
-- gateway's own desktop, and the test changes nothing then.
pub recheck-registered :
    (credential_hash : Str) (s : AppState)
    → (recheck credential_hash s).1 ≡ true
    → (id : Str) × (desktop : DesktopRecord) × (s.mcp_gateway.desktop_id ≡ some id)
      × (get id s.registry.desktops ≡ some desktop)
      × (desktop.token_hash ≡ credential_hash)
      × ((recheck credential_hash s).0 ≡ s)
unfolding recheck is_credential selected_record
recheck-registered credential_hash s e = elim (Option-cases s.mcp_gateway.desktop_id) [
  | inl unset ↦ ground (arith, unset, e)
  | inr (id, selected) ↦ elim (Option-cases (get id s.registry.desktops)) [
    | inl absent ↦ ground (arith, selected, absent, e)
    | inr (desktop, found) ↦ (
      id,
      desktop,
      selected,
      found,
      (str_beq_iff desktop.token_hash credential_hash).0 (ground (arith, selected, found, e)),
      ground (arith, selected, found, e),
    )
  ]
]

-- A session that it does not let go on is not active afterwards, and none is: no request can be sent
-- with a credential that was rotated during the handshake.
pub recheck-refused :
    (active : Active) (g : Gateway) (s : AppState) (id : Str)
    → g.desktop_id ≡ some id
    → (recheck active.credential_hash (record s { mcp_gateway = install active g })).1 ≡ false
    → (recheck active.credential_hash
        (record s { mcp_gateway = install active g })).0.mcp_gateway.active
      ≡ none
unfolding recheck is_credential selected_record selected_or_empty install retire_previous
    revoke_desktop retire is_selected fail_session
recheck-refused active g s id selected e = ground (arith, selected, e, str_beq_iff id id)

-- A desktop whose credential was just registered anew has no active gateway session left: the sessions
-- with the old credential are closed.
pub commit_registration-gateway :
    (p : Platform) (s : AppState) (call : RegisterCall) (invite : Option (Str × ℕ))
    (desktop_id desktop_token id token : Str)
    → s.mcp_gateway.desktop_id ≡ some desktop_id
    → (commit_registration p s call invite desktop_id desktop_token).1 ≡ registered id token
    → (commit_registration p s call invite desktop_id desktop_token).0.mcp_gateway.active ≡ none
unfolding commit_registration use_invite revoke_desktop retire is_selected fail_session
commit_registration-gateway p s call invite desktop_id desktop_token id token selected e =
    ground (arith, selected, e, str_beq_iff desktop_id desktop_id)

-- A test that refuses one session also ends a newer one: where a session with the registered credential
-- was installed after an older one and the older one's test comes last, no session is active.
pub recheck-newer :
    (older newer : Active) (s : AppState) (id : Str)
    → s.mcp_gateway.desktop_id ≡ some id
    → (recheck newer.credential_hash s).1 ≡ true
    → (older.credential_hash == newer.credential_hash) ≡ false
    → let installed : AppState = record s {
      mcp_gateway = install newer (install older s.mcp_gateway);
    } in
      ((recheck newer.credential_hash installed).1 ≡ true)
      × ((recheck newer.credential_hash installed).0.mcp_gateway.active ≡ some newer)
      × ((recheck older.credential_hash
            (recheck newer.credential_hash installed).0).0.mcp_gateway.active
          ≡ none)
unfolding recheck is_credential selected_record selected_or_empty install retire_previous
    revoke_desktop retire is_selected fail_session
recheck-newer older newer s id selected e different =
    let itself = str_beq_iff id id in
    elim (Option-cases (get id s.registry.desktops)) [
      | inl absent ↦ ground (arith, selected, absent, e)
      | inr (desktop, found) ↦ elim (Option-cases s.mcp_gateway.active) [
        | inl idle ↦ (
          ground (arith, selected, found, e, idle),
          ground (arith, selected, found, e, idle),
          ground (
            arith,
            selected,
            found,
            e,
            idle,
            different,
            itself,
            str_beq_iff desktop.token_hash newer.credential_hash,
            str_beq_iff desktop.token_hash older.credential_hash,
            str_beq_iff older.credential_hash newer.credential_hash,
          ),
        )
        | inr (first, busy) ↦ (
          ground (arith, selected, found, e, busy),
          ground (arith, selected, found, e, busy),
          ground (
            arith,
            selected,
            found,
            e,
            busy,
            different,
            itself,
            str_beq_iff desktop.token_hash newer.credential_hash,
            str_beq_iff desktop.token_hash older.credential_hash,
            str_beq_iff older.credential_hash newer.credential_hash,
          ),
        )
      ]
    ]
