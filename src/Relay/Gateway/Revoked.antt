-- ===== src/Relay/Gateway/Revoked.antt =====
-- The gateway after the revocation of a desktop: `revoke_desktop` of relay-server/src/mcp_gateway.rs.
use chat_x.Prelude.{
  ◌≡◌, ◌≢◌, ◌⊎◌, refl, ap, true, false, not, Option, none, some, [], ◌∷◌, Str, Dict, retain, ◌==◌,
  str_eq, str_beq, str_beq_iff, All, arith, Bool-cases, inl, inr,
}
use chat_x.Relay.State.{Gateway, Active, Pending}
use chat_x.Relay.Gateway.{revoke_desktop, retire, fail_session, is_selected}

-- The gateway of another desktop is as it was, and so is one with no session; else the session is closed,
-- none is active, and no request of it waits.
abbrev pub IsRevoked : Str → Gateway → Gateway → Type 0
IsRevoked id g after =
    ((g.desktop_id ≢ some id) × (after ≡ g))
    ⊎ (((g.desktop_id ≡ some id) × (g.active ≡ none) × (after ≡ g))
        ⊎ ((active : Active) × (g.desktop_id ≡ some id)
            × (g.active ≡ some active)
            × (after.active ≡ none)
            × (after.closed ≡ active.session_id ∷ g.closed)
            × All (λ entry. entry.1.session_id ≢ active.session_id) after.pending))

none_waits :
    (session_id : Str) (pending : Dict Str Pending)
    → All
        (λ entry. entry.1.session_id ≢ session_id)
        (retain (λ _ (item : Pending). not (item.session_id == session_id)) pending)
unfolding retain
none_waits session_id [] = tt
none_waits session_id ((id, item) ∷ pending) =
    let rest = none_waits session_id pending in
    elim (Bool-cases (str_beq item.session_id session_id)) [
      | inl same ↦ rw same rest
      | inr differ ↦
          rw differ ((λ e. ground (arith, differ, str_beq_iff item.session_id session_id, e)), rest)
    ]

is_selected_iff :
    (id : Str) (selected : Option Str) → (is_selected id selected ≡ true) → selected ≡ some id
unfolding is_selected
is_selected_iff id none h = cc
is_selected_iff id (some d) h = ap some ((str_beq_iff d id).0 h)

is_selected-none :
    (id : Str) (selected : Option Str) → (is_selected id selected ≡ false) → selected ≢ some id
unfolding is_selected
is_selected-none id none h e = cc
is_selected-none id (some d) h e = ground (arith, h, e, str_beq_iff d id)

retire-IsRevoked :
    (id : Str) (g : Gateway) (session : Option Active)
    → g.desktop_id ≡ some id
    → g.active ≡ session
    → IsRevoked id g (retire g session)
unfolding retire fail_session
retire-IsRevoked id g none own idle = inr (inl (own, idle, refl))
retire-IsRevoked id g (some active) own busy =
    inr (inr (active, own, busy, refl, refl, none_waits active.session_id g.pending))

pub revoke_desktop-IsRevoked : (id : Str) (g : Gateway) → IsRevoked id g (revoke_desktop id g)
unfolding revoke_desktop
revoke_desktop-IsRevoked id g = elim (Bool-cases (is_selected id g.desktop_id)) [
  | inr other ↦ rw other (inl (is_selected-none id g.desktop_id other, refl))
  | inl own ↦ rw own (retire-IsRevoked id g g.active (is_selected_iff id g.desktop_id own) refl)
]
