-- ===== src/Desktop/Wss/Taken/Counted.antt =====
-- How the uploads of the desktop's MCP websocket count what their channels took: Desktop.Wss.
use chat_x.Prelude.{
  ℕ, ◌+◌, ◌≤◌, ◌<◌, ◌≡◌, ◌⊎◌, refl, sym, ◌∙◌, some, List, [], ◌∷◌, Str, Dict, get, insert, remove,
  str_eq, str_beq, str_beq_iff, nat_beq, if◌then◌else◌, length, arith, Bool-cases, inl, inr,
  get-insert, get-remove, ap, subst,
}
use chat_x.Protocol.Stream.{max_request_bytes}
use chat_x.Desktop.Wss.{Upload}

-- The bytes that a channel took.
unfoldable pub bytes_taken : ℕ → List (ℕ × Str) → ℕ
bytes_taken tx [] = 0
bytes_taken tx ((channel, bytes) ∷ fed) =
    let rest = bytes_taken tx fed in if nat_beq channel tx then length bytes + rest else rest

-- How the uploads count what their channels took.
pub record IsCounted (uploads : Dict Str Upload) (fed : List (ℕ × Str)) (next : ℕ) : Type 0 where
  pub bounded : (tx : ℕ) → bytes_taken tx fed ≤ max_request_bytes
  pub unused : (tx : ℕ) → next ≤ tx → bytes_taken tx fed ≡ 0
  pub counted :
      (i : Str) (u : Upload)
      → get i uploads ≡ some u
      → (bytes_taken u.tx fed ≤ u.bytes) × (u.tx < next)
  pub own :
      (i j : Str) (u v : Upload)
      → get i uploads ≡ some u
      → get j uploads ≡ some v
      → u.tx ≡ v.tx
      → i ≡ j

-- Uploads that are among those before.
pub fewer-IsCounted :
    (uploads fewer : Dict Str Upload) (fed : List (ℕ × Str)) (next : ℕ)
    → ((i : Str) (u : Upload) → get i fewer ≡ some u → get i uploads ≡ some u)
    → IsCounted uploads fed next
    → IsCounted fewer fed next
fewer-IsCounted uploads fewer fed next among h = record {
  bounded = h.bounded;
  unused = h.unused;
  counted = λ i u e. h.counted i u (among i u e);
  own = λ i j u v e f same. h.own i j u v (among i u e) (among j v f) same;
}

get-remove-some :
    (id i : Str) (u : Upload) (uploads : Dict Str Upload)
    → get i (remove id uploads) ≡ some u
    → get i uploads ≡ some u
get-remove-some id i u uploads e = ground (arith, e, get-remove id i uploads)

pub remove-IsCounted :
    (id : Str) (uploads : Dict Str Upload) (fed : List (ℕ × Str)) (next : ℕ)
    → IsCounted uploads fed next
    → IsCounted (remove id uploads) fed next
remove-IsCounted id uploads fed next h =
    fewer-IsCounted uploads (remove id uploads) fed next (λ i u e. get-remove-some id i u uploads e)
      h

-- What is found after an insertion.
get-insert-some :
    (id i : Str) (u found : Upload) (uploads : Dict Str Upload)
    → get i (insert id u uploads) ≡ some found
    → ((id ≡ i) × (found ≡ u)) ⊎ (get i uploads ≡ some found)
get-insert-some id i u found uploads e = elim (Bool-cases (str_beq id i)) [
  | inl same ↦ inl ((str_beq_iff id i).0 same, ground (arith, e, get-insert id i u uploads, same))
  | inr differ ↦ inr (ground (arith, e, get-insert id i u uploads, differ))
]

pub later-IsCounted :
    (uploads : Dict Str Upload) (fed : List (ℕ × Str)) (next : ℕ)
    → IsCounted uploads fed next
    → IsCounted uploads fed (next + 1)
later-IsCounted uploads fed next h = record {
  bounded = h.bounded;
  unused = λ tx e. h.unused tx (omega (arith, e));
  counted = λ i u e. ((h.counted i u e).0, omega (arith, (h.counted i u e).1));
  own = h.own;
}

abbrev pub new_upload : ℕ → Upload
new_upload next = record { tx = next; bytes = 0 }

pub spawned-IsCounted :
    (id : Str) (uploads : Dict Str Upload) (fed : List (ℕ × Str)) (next : ℕ)
    → IsCounted uploads fed next
    → IsCounted (insert id (record { tx = next; bytes = 0 }) uploads) fed (next + 1)
spawned-IsCounted id uploads fed next h = record {
  bounded = h.bounded;
  unused = λ tx e. h.unused tx (omega (arith, e));
  counted = λ i u e. elim (get-insert-some id i (new_upload next) u uploads e) [
    | inl (_, same) ↦ rw same (omega (arith, h.unused next (omega arith)), omega arith)
    | inr old ↦ ((h.counted i u old).0, omega (arith, (h.counted i u old).1))
  ];
  own = λ i j u v e f same. elim (get-insert-some id i (new_upload next) u uploads e) [
    | inl (one, u_new) ↦ elim (get-insert-some id j (new_upload next) v uploads f) [
      | inl (two, _) ↦ sym one ∙ two
      | inr old ↦
          absurd (omega (arith, (h.counted j v old).1, same, ap (λ (x : Upload). x.tx) u_new))
    ]
    | inr old_u ↦ elim (get-insert-some id j (new_upload next) v uploads f) [
      | inl (_, v_new) ↦
          absurd (omega (arith, (h.counted i u old_u).1, same, ap (λ (x : Upload). x.tx) v_new))
      | inr old_v ↦ h.own i j u v old_u old_v same
    ]
  ];
}

bytes_taken-own :
    (tx : ℕ) (bytes : Str) (fed : List (ℕ × Str))
    → bytes_taken tx ((tx, bytes) ∷ fed) ≡ length bytes + bytes_taken tx fed
unfolding bytes_taken
bytes_taken-own tx bytes fed = ground arith

bytes_taken-cons :
    (tx channel : ℕ) (bytes : Str) (fed : List (ℕ × Str))
    → (channel ≡ tx) ⊎ (bytes_taken tx ((channel, bytes) ∷ fed) ≡ bytes_taken tx fed)
unfolding bytes_taken
bytes_taken-cons tx channel bytes fed = elim (Bool-cases (nat_beq channel tx)) [
  | inl same ↦ inl (ground (arith, same))
  | inr differ ↦ inr (rw differ refl)
]

module _ (id bytes : Str) (u : Upload) (uploads : Dict Str Upload) (fed : List (ℕ × Str)) (next : ℕ)
    (there : get id uploads ≡ some u) (fits : u.bytes + length bytes ≤ max_request_bytes)
    (h : IsCounted uploads fed next) where
  abbrev pub grown : Upload
  grown = record u { bytes = u.bytes + length bytes }

  own_channel : bytes_taken u.tx ((u.tx, bytes) ∷ fed) ≤ u.bytes + length bytes
  own_channel = omega (arith, bytes_taken-own u.tx bytes fed, (h.counted id u there).0)

  taken-bounded : (tx : ℕ) → bytes_taken tx ((u.tx, bytes) ∷ fed) ≤ max_request_bytes
  taken-bounded tx = elim (bytes_taken-cons tx u.tx bytes fed) [
    | inl same ↦
        subst (λ n. bytes_taken n ((u.tx, bytes) ∷ fed) ≤ max_request_bytes) same
          (omega (arith, own_channel, fits))
    | inr apart ↦ rw apart (h.bounded tx)
  ]

  taken-unused : (tx : ℕ) → next ≤ tx → bytes_taken tx ((u.tx, bytes) ∷ fed) ≡ 0
  taken-unused tx e = elim (bytes_taken-cons tx u.tx bytes fed) [
    | inl same ↦ absurd (omega (arith, same, e, (h.counted id u there).1))
    | inr apart ↦ apart ∙ h.unused tx e
  ]

  taken-counted :
      (i : Str) (v : Upload)
      → get i (insert id grown uploads) ≡ some v
      → (bytes_taken v.tx ((u.tx, bytes) ∷ fed) ≤ v.bytes) × (v.tx < next)
  taken-counted i v e = elim (Bool-cases (str_beq id i)) [
    | inl same ↦
        let found : v ≡ grown = ground (arith, e, get-insert id i grown uploads, same) in
        rw found (own_channel, (h.counted id u there).1)
    | inr differ ↦
        let found : get i uploads ≡ some v =
          ground (arith, e, get-insert id i grown uploads, differ) in
        elim (bytes_taken-cons v.tx u.tx bytes fed) [
          | inl same ↦
              absurd (ground (arith, differ, str_beq_iff id i, h.own id i u v there found same))
          | inr apart ↦ rw apart (h.counted i v found)
        ]
  ]

  taken-own :
      (i j : Str) (v w : Upload)
      → get i (insert id grown uploads) ≡ some v
      → get j (insert id grown uploads) ≡ some w
      → v.tx ≡ w.tx
      → i ≡ j
  taken-own i j v w e f same = elim (get-insert-some id i grown v uploads e) [
    | inl (one, v_new) ↦ elim (get-insert-some id j grown w uploads f) [
      | inl (two, _) ↦ sym one ∙ two
      | inr old ↦ sym one ∙ h.own id j u w there old (sym (ap (λ (x : Upload). x.tx) v_new) ∙ same)
    ]
    | inr old_v ↦ elim (get-insert-some id j grown w uploads f) [
      | inl (two, w_new) ↦ h.own i id v u old_v there (same ∙ ap (λ (x : Upload). x.tx) w_new) ∙ two
      | inr old_w ↦ h.own i j v w old_v old_w same
    ]
  ]

  pub taken-IsCounted : IsCounted (insert id grown uploads) ((u.tx, bytes) ∷ fed) next
  taken-IsCounted = record {
    bounded = taken-bounded;
    unused = taken-unused;
    counted = taken-counted;
    own = taken-own;
  }
