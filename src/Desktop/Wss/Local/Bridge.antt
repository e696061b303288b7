-- ===== src/Desktop/Wss/Local/Bridge.antt =====
-- What reaches the local bridge, and what of its response reaches the relay: `local_request`.
use chat_x.Prelude.{
  ℕ, zero, suc, ◌≡◌, refl, ap, take, Bool, true, false, Option, none, some, List, [], ◌∷◌, Str,
  codes, str_eq, str_beq_iff, All, arith, Bool-cases, Option-cases, inl, inr,
}
use mathlib.Core.List.{Memᴰ}
use chat_x.Protocol.Http.{allowed_path, allowed_request_header}
use chat_x.Desktop.Wss.{WssPacket, Outgoing, head, chunk, end, error, binary}
use chat_x.Desktop.Wss.Local.{
  Url, LocalBody, LocalCall, Libraries, is_method, is_target, is_local, local_headers, add_header,
  body_of, target_of, call_with, local_call, is_text, is_number,
}

-- A packet that ends its request.
unfoldable pub is_final : Outgoing → Bool
is_final (end id) = true
is_final (error id) = true
is_final (head _ _ _) = false
is_final (chunk _ _) = false
is_final (binary _) = false

abbrev AreNotFinal : List Outgoing → Type 0
AreNotFinal = All (λ packet. is_final packet ≡ false)

is_text-some : (h : Option Str) (t : Str) → is_text h t ≡ true → h ≡ some t
is_text-some none t e = cc
is_text-some (some s) t e = ap some ((str_beq_iff s t).0 e)

is_number-some : (n : Option ℕ) (m : ℕ) → is_number n m ≡ true → n ≡ some m
is_number-some none m e = cc
is_number-some (some n) m e = ground arith

module _ (lib : Libraries) where
  all-cut : (k : ℕ) (front : List Outgoing) → AreNotFinal front → AreNotFinal (take k front)
  all-cut zero front h = tt
  all-cut (suc k) [] h = tt
  all-cut (suc k) (x ∷ front) h = (h.0, all-cut k front h.1)

  -- Where a header that is passed on comes from: one of the packet's, with a name that the policy allows.
  abbrev pub IsAllowed : List (Str × Option Str) → Str × Str → Type 0
  IsAllowed headers header =
      (name : Str) × (value : Str) × Memᴰ (name, some value) headers
      × (allowed_request_header name ≡ true)
      × (lib.header_name name ≡ some header.0)
      × (lib.header_value value ≡ some header.1)

  -- One more header of the packet in front.
  more_headers :
      (h : Str × Option Str) (headers : List (Str × Option Str)) (passed : List (Str × Str))
      → All (IsAllowed headers) passed
      → All (IsAllowed (h ∷ headers)) passed
  more_headers h headers [] a = tt
  more_headers h headers (p ∷ passed) ((name, value, there, good, n, v), a) =
      ((name, value, Memᴰ.tail there, good, n, v), more_headers h headers passed a)

  add_header-IsAllowed :
      (all_of : List (Str × Option Str)) (name value : Str) (n v : Option Str)
      (rest : List (Str × Str))
      → Memᴰ (name, some value) all_of
      → allowed_request_header name ≡ true
      → lib.header_name name ≡ n
      → lib.header_value value ≡ v
      → All (IsAllowed all_of) rest
      → All (IsAllowed all_of) (add_header lib n v rest)
  unfolding add_header
  add_header-IsAllowed all_of name value (some n) (some v) rest there ok_ same_n same_v h =
      ((name, value, there, ok_, same_n, same_v), h)
  add_header-IsAllowed all_of name value (some n) none rest there ok_ same_n same_v h = h
  add_header-IsAllowed all_of name value none v rest there ok_ same_n same_v h = h

  local_headers-IsAllowed :
      (headers : List (Str × Option Str)) → All (IsAllowed headers) (local_headers lib headers)
  unfolding local_headers
  local_headers-IsAllowed [] = tt
  local_headers-IsAllowed ((name, none) ∷ headers) =
      more_headers (name, none) headers (local_headers lib headers)
        (local_headers-IsAllowed headers)
  local_headers-IsAllowed ((name, some value) ∷ headers) =
      let rest =
        more_headers (name, some value) headers (local_headers lib headers)
          (local_headers-IsAllowed headers) in
      elim (Bool-cases (allowed_request_header name)) [
        | inl allowed ↦ rw allowed (
            add_header-IsAllowed ((name, some value) ∷ headers) name value (lib.header_name name)
              (lib.header_value value) (local_headers lib headers) (Memᴰ.head refl) allowed refl
              refl rest)
        | inr left_out ↦ rw left_out rest
      ]

  target_of-some :
      (local_port : ℕ) (path : Option Str) (url : Url)
      → target_of lib local_port path ≡ some url
      → (p : Str) × (path ≡ some p)
        × (is_target p ≡ true)
        × (lib.parse_url local_port p ≡ some url)
        × (is_local local_port url ≡ true)
  unfolding target_of
  target_of-some local_port none url e = cc
  target_of-some local_port (some p) url e = elim (Option-cases (lib.parse_url local_port p)) [
    | inl bad ↦ absurd (ground (arith, e, bad))
    | inr (u, parsed) ↦
        (p, refl, ground (arith, e, parsed), ground (arith, e, parsed), ground (arith, e, parsed))
  ]

  call_with-some :
      (method : Option Str) (url : Option Url) (body : Option LocalBody) (packet : WssPacket)
      (call : LocalCall)
      → call_with lib method url body packet ≡ some call
      → (is_method call.method ≡ true)
        × (url ≡ some call.url)
        × (call.headers ≡ local_headers lib packet.headers)
  unfolding call_with
  call_with-some none url body packet call e = cc
  call_with-some (some m) none body packet call e = cc
  call_with-some (some m) (some u) none packet call e = cc
  call_with-some (some m) (some u) (some b) packet call e =
      (ground (arith, e), ground (arith, e), ground (arith, e))

  -- A call of the local bridge has one of the five methods, goes to 127.0.0.1 and the bridge's own port,
  -- at a path of the policy that is read from the packet's, and has no header but those that the policy
  -- allows of the packet.
  pub local_call-local :
      (local_port version : ℕ) (has_upload : Bool) (id : Str) (packet : WssPacket)
      (call : LocalCall)
      → local_call lib local_port version has_upload id packet ≡ some call
      → (is_method call.method ≡ true)
        × (call.url.host ≡ some (codes "127.0.0.1"))
        × (call.url.port ≡ some local_port)
        × (allowed_path call.url.path ≡ true)
        × ((path : Str) × (packet.path ≡ some path)
            × (lib.parse_url local_port path ≡ some call.url))
        × All (IsAllowed packet.headers) call.headers
  unfolding local_call is_local
  local_call-local local_port version has_upload id packet call e =
      let made : call_with lib packet.method (target_of lib local_port packet.path)
            (body_of lib version has_upload packet) packet
          ≡ some call =
        ground (arith, e) in
      let parts =
        call_with-some packet.method (target_of lib local_port packet.path)
          (body_of lib version has_upload packet) packet call made in
      let (path, given, good, parsed, inside) =
        target_of-some local_port packet.path call.url parts.1 in
      (
        parts.0,
        is_text-some call.url.host (codes "127.0.0.1") (ground (arith, inside)),
        is_number-some call.url.port local_port (ground (arith, inside)),
        ground (arith, inside),
        (path, given, parsed),
        rw parts.2 (local_headers-IsAllowed packet.headers),
      )
