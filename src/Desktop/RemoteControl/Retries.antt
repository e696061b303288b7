-- ===== src/Desktop/RemoteControl/Retries.antt =====
-- Control requests that are sent again, and the requests that the desktop and the relay find valid:
-- `handle_control` and `validate_request` of src-tauri/src/monitor_control.rs.
use chat_x.Prelude.{
  ℕ, ◌≤◌, ◌⊎◌, ◌≡◌, ◌↔◌, Bool, true, false, Option, none, some, List, [], ◌∷◌, Str, get, retain,
  str_eq, str_beq_iff, Result, ok, err, All, arith, get-insert, get-retain_kept, Option-cases,
  Result-cases, inl, inr,
}
use chat_x.Protocol.Messages.{EncryptedControlPayload}
use chat_x.Relay.Control.{valid_control_id, valid_control_time}
use chat_x.Desktop.RemoteControl.{
  CacheEntry, ControlCache, ControlError, cache_key, is_kept, cached_of, differs, cached_response,
  entry_of, remember, validate_request, Tunnel, Answer, ControlCall, RemoteState, check_call,
  perform, perform_new, answer_call, handle_control,
}

-- A request is valid for the desktop exactly where the relay, at the same time, finds it valid.
pub validate_request-valid :
    (now : ℕ) (request : EncryptedControlPayload)
    → (validate_request now request ≡ ok tt)
      ↔ ((valid_control_id request.request_id ≡ true) × (valid_control_time now request ≡ true))
unfolding validate_request valid_control_id valid_control_time
validate_request-valid now request =
    (λ h. (ground (arith, h), ground (arith, h)), λ h. ground (arith, h.0, h.1))

module _ (open_request : Str → EncryptedControlPayload → Option Str)
    (seal : Str → EncryptedControlPayload → Answer → Option EncryptedControlPayload)
    (fresh_payload : Tunnel → Tunnel × Bool) where
  abbrev handled :
      ControlCall → RemoteState → RemoteState × Result ControlError EncryptedControlPayload
  handled = handle_control open_request seal fresh_payload

  -- What a look into the cache finds.
  cached_of-found :
      (request response : EncryptedControlPayload) (entry : CacheEntry)
      → cached_of request (some entry) ≡ ok (some response)
      → entry ≡ entry_of request response
  unfolding cached_of differs
  cached_of-found request response entry e =
      let same : differs request entry ≡ false = ground (arith, e) in
      let nonce = str_beq_iff entry.nonce request.nonce in
      let ciphertext = str_beq_iff entry.ciphertext request.ciphertext in
      let issued : entry.issued_at ≡ request.issued_at = ground (arith, same) in
      let expires : entry.expires_at ≡ request.expires_at = ground (arith, same) in
      let own_nonce : entry.nonce ≡ request.nonce = ground (arith, same, nonce) in
      let own_text : entry.ciphertext ≡ request.ciphertext = ground (arith, same, ciphertext) in
      let own_response : entry.response ≡ response = ground (arith, same, e) in
      cc (issued, expires, own_nonce, own_text, own_response)

  cached_of-own :
      (request response : EncryptedControlPayload)
      → cached_of request (some (entry_of request response)) ≡ ok (some response)
  unfolding cached_of differs
  cached_of-own request response = ground (
    arith,
    str_beq_iff request.nonce request.nonce,
    str_beq_iff request.ciphertext request.ciphertext,
  )

  module _ (call : ControlCall) (s : RemoteState) where
    abbrev own_key : Str
    own_key = cache_key call.device_id call.request

    abbrev kept : ControlCache
    kept = retain (is_kept call.now) s.cache

    -- A call is refused with the state as it was, looked up, or new.
    handle_control-cases :
        ((e : ControlError) × (handled call s ≡ (s, err e)))
        ⊎ (((old : CacheEntry) × (get own_key kept ≡ some old)
              × ((handled call s).0 ≡ record s { cache = kept })
              × ((response : EncryptedControlPayload)
                  → (handled call s).1 ≡ ok response
                  → old ≡ entry_of call.request response))
            ⊎ ((action : Str) × (get own_key kept ≡ none)
                × (handled call s
                    ≡ perform_new open_request seal fresh_payload call action kept s.tunnel)))
    unfolding handle_control answer_call cached_response
    handle_control-cases = elim (Result-cases (check_call open_request seal fresh_payload call)) [
      | inl (e, bad) ↦ inl (e, ground (arith, bad))
      | inr (action, good) ↦ elim (Option-cases (get own_key kept)) [
        | inl new ↦ inr (inr (action, new, ground (arith, good, new)))
        | inr (old, there) ↦ inr (
            inl (
              old,
              there,
              ground (arith, good, there),
              λ response e.
                  cached_of-found call.request response old (ground (arith, e, good, there)),
            ))
      ]
    ]

    -- An answer that was given is in the cache.
    handle_control-remembers :
        (s' : RemoteState) (response : EncryptedControlPayload)
        → handled call s ≡ (s', ok response)
        → get own_key s'.cache ≡ some (entry_of call.request response)
    unfolding perform_new remember
    handle_control-remembers s' response e = elim handle_control-cases [
      | inl (_, bad) ↦ absurd (ground (arith, e, bad))
      | inr (inl (old, there, state, same)) ↦ ground (arith, e, there, state, same response)
      | inr (inr (action, new, does)) ↦ ground (
        arith,
        e,
        does,
        str_beq_iff own_key own_key,
        get-insert own_key own_key (entry_of call.request response) kept,
      )
    ]

    -- It stays there, whatever is asked, as long as it is not out of date.
    handle_control-keeps :
        (key : Str) (entry : CacheEntry)
        → get key s.cache ≡ some entry
        → call.now ≤ entry.expires_at
        → get key (handled call s).0.cache ≡ some entry
    unfolding perform_new remember
    handle_control-keeps key entry found fresh =
        let stays = get-retain_kept (is_kept call.now) key entry s.cache found (ground arith) in
        elim handle_control-cases [
          | inl (_, bad) ↦ ground (arith, bad)
          | inr (inl (old, there, state, same)) ↦ ground (arith, state, stays)
          | inr (inr (action, new, does)) ↦
              let answer = (perform open_request seal fresh_payload call action s.tunnel).1 in
              elim (Option-cases (seal call.device_id call.request answer)) [
                | inl lost ↦ ground (arith, does, lost, stays)
                | inr (response, sealed) ↦ ground (
                  arith,
                  does,
                  sealed,
                  stays,
                  new,
                  str_beq_iff own_key key,
                  get-insert own_key key (entry_of call.request response) kept,
                )
              ]
        ]

    -- A request that is in the cache is answered from it.
    handle_control-again :
        (action : Str) (response : EncryptedControlPayload)
        → check_call open_request seal fresh_payload call ≡ ok action
        → get own_key s.cache ≡ some (entry_of call.request response)
        → call.now ≤ call.request.expires_at
        → ((handled call s).1 ≡ ok response) × ((handled call s).0.tunnel ≡ s.tunnel)
    unfolding handle_control answer_call cached_response
    handle_control-again action response good there fresh =
        let stays =
          get-retain_kept (is_kept call.now) own_key (entry_of call.request response) s.cache there
            (ground arith) in
        let own = cached_of-own call.request response in
        (ground (arith, good, stays, own), ground (arith, good, stays, own))

  unfoldable pub handle_all : List ControlCall → RemoteState → RemoteState
  handle_all [] s = s
  handle_all (call ∷ calls) s =
      handle_all calls (handle_control open_request seal fresh_payload call s).0

  handle_all-keeps :
      (calls : List ControlCall) (s : RemoteState) (key : Str) (entry : CacheEntry)
      → get key s.cache ≡ some entry
      → All (λ call. call.now ≤ entry.expires_at) calls
      → get key (handle_all calls s).cache ≡ some entry
  unfolding handle_all
  handle_all-keeps [] s key entry found fresh = found
  handle_all-keeps (call ∷ calls) s key entry found fresh =
      handle_all-keeps calls (handled call s).0 key entry
        (handle_control-keeps call s key entry found fresh.0) fresh.1

  -- A request that was answered, and is sent again before it expires, is answered just as before, and no
  -- action is performed for it, whatever requests of whatever phones came in between.
  pub handle_control_retried :
      (call retry : ControlCall) (between : List ControlCall) (s s' : RemoteState)
      (response : EncryptedControlPayload) (action : Str)
      → handled call s ≡ (s', ok response)
      → All (λ other. other.now ≤ call.request.expires_at) between
      → retry.device_id ≡ call.device_id
      → retry.request ≡ call.request
      → check_call open_request seal fresh_payload retry ≡ ok action
      → retry.now ≤ call.request.expires_at
      → ((handled retry (handle_all between s')).1 ≡ ok response)
        × ((handled retry (handle_all between s')).0.tunnel ≡ (handle_all between s').tunnel)
  handle_control_retried call retry between s s' response action first fresh device same good
        in_time =
      let there =
        handle_all-keeps between s' (cache_key call.device_id call.request)
          (entry_of call.request response) (handle_control-remembers call s s' response first)
          fresh in
      handle_control-again retry (handle_all between s') action response good
        (rw (device, same) there) (rw same in_time)
