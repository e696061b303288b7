-- ===== src/Protocol/Registration/Split.antt =====
-- `split` and the joining of its parts.
use chat_x.Prelude.{
  ◌≡◌, refl, ap, ◌∙◌, Bool, true, ◌&&◌, ◌||◌, List, [], ◌∷◌, ◌++◌, ℕ, Str, nat_beq, all, arith,
  Bool-cases, inl, inr, nat_beq_iff, some,
}
use chat_x.Text.{split, attach, strip_prefix}

unfoldable pub join : ℕ → List Str → Str
join sep [] = []
join sep (w ∷ []) = w
join sep (w ∷ x ∷ ws) = w ++ sep ∷ join sep (x ∷ ws)

join-attach : (sep c : ℕ) (ws : List Str) → join sep (attach c ws) ≡ c ∷ join sep ws
unfolding join attach
join-attach sep c [] = refl
join-attach sep c (w ∷ []) = refl
join-attach sep c (w ∷ x ∷ ws) = refl

attach_cons : (c : ℕ) (ws : List Str) → (w : Str) × (vs : List Str) × (attach c ws ≡ w ∷ vs)
unfolding attach
attach_cons c [] = (c ∷ [], [], refl)
attach_cons c (w ∷ ws) = (c ∷ w, ws, refl)

split_cons : (sep : ℕ) (s : Str) → (w : Str) × (ws : List Str) × (split sep s ≡ w ∷ ws)
unfolding split
split_cons sep [] = ([], [], refl)
split_cons sep (c ∷ s) = elim (Bool-cases (nat_beq c sep)) [
  | inl e ↦ rw e ([], split sep s, refl)
  | inr e ↦ rw e (attach_cons c (split sep s))
]

join_nil : (sep : ℕ) (s : Str) → join sep ([] ∷ split sep s) ≡ sep ∷ join sep (split sep s)
unfolding join
join_nil sep s = let (w, ws, e) = split_cons sep s in rw e refl

pub join-split : (sep : ℕ) (s : Str) → join sep (split sep s) ≡ s
unfolding split join
join-split sep [] = refl
join-split sep (c ∷ s) = elim (Bool-cases (nat_beq c sep)) [
  | inl e ↦ rw e (join_nil sep s ∙ cc (join-split sep s, (nat_beq_iff c sep).0 e))
  | inr e ↦ rw e (join-attach sep c (split sep s) ∙ ap (◌∷◌ c) (join-split sep s))
]

-- What holds of the bytes of every part holds of the text's, but for the separators.
abbrev pub or_sep : (ℕ → Bool) → ℕ → ℕ → Bool
or_sep p sep b = p b || nat_beq b sep

module _ (p : ℕ → Bool) (sep : ℕ) where
  all-attach :
      (c : ℕ) (ws : List Str) → all (all p) (attach c ws) ≡ true → (p c && all (all p) ws) ≡ true
  unfolding attach
  all-attach c [] h = ground arith
  all-attach c (w ∷ ws) h = ground arith

  pub all-split : (s : Str) → all (all p) (split sep s) ≡ true → all (or_sep p sep) s ≡ true
  unfolding split
  all-split [] h = refl
  all-split (c ∷ s) h = ground (arith, all-attach c (split sep s), all-split s)

pub all_mono :
    (p q : Str → Bool)
    → ((w : Str) → p w ≡ true → q w ≡ true)
    → (ws : List Str) → all p ws ≡ true
    → all q ws ≡ true
all_mono p q f [] h = refl
all_mono p q f (w ∷ ws) h = ground (arith, f w, all_mono p q f ws)

-- `strip_prefix` takes off just the prefix.
pub strip_prefix_lem : (p s r : Str) → strip_prefix p s ≡ some r → s ≡ p ++ r
unfolding strip_prefix
strip_prefix_lem [] s r h = cc
strip_prefix_lem (c ∷ p) [] r h = cc
strip_prefix_lem (c ∷ p) (d ∷ s) r h = ground (arith, strip_prefix_lem p s r)
