-- ===== src/Oauth/Syntax/Scopes.antt =====
-- What `canonical_scopes` accepts.
use moesegfault_indentity.Base.{
  ℕ, ◌≤◌, ◌≡◌, refl, sym, ap, ap₂, ◌∙◌, Bool, true, false, not, ◌&&◌, ◌||◌, some, List, [], ◌∷◌,
  ◌++◌, any, all, ltb, ◌==◌, arith, Bool-cases, Option-cases, inl, inr,
}
use moesegfault_indentity.Base.Text.{Text, eq_text, byte_len, split, prepend}
use moesegfault_indentity.Oauth.Syntax.{is_scope, collect_scopes, join, canonical_scopes}

not_or : (a b : Bool) → (not a || b) ≡ false → a ≡ true
not_or true b h = refl
not_or false b h = cc

join-prepend : (x : ℕ) (w : Text) (ws : List Text) → join (prepend x (w ∷ ws)) ≡ x ∷ join (w ∷ ws)
unfolding join
join-prepend x w [] = refl
join-prepend x w (v ∷ ws) = refl

split-some : (s : Text) → (w : Text) × (ws : List Text) × (split b' ' s ≡ w ∷ ws)
unfolding split
split-some [] = ([], [], refl)
split-some (x ∷ s) =
    let (w, ws, e) = split-some s in
    elim (Bool-cases (x == b' ')) [
      | inl k ↦ ([], w ∷ ws, rw (k, e) refl)
      | inr k ↦ (x ∷ w, ws, rw (k, e) refl)
    ]

join-split : (s : Text) → join (split b' ' s) ≡ s
unfolding split join
join-split [] = refl
join-split (x ∷ s) =
    let (w, ws, e) = split-some s in
    let back : join (w ∷ ws) ≡ s = ap join (sym e) ∙ join-split s in
    elim (Bool-cases (x == b' ')) [
      | inl k ↦ ground (arith, k, e, back)
      | inr k ↦ ground (arith, k, e, back, join-prepend x w ws)
    ]

append_nil : (vs : List Text) → vs ++ [] ≡ vs
append_nil [] = refl
append_nil (v ∷ vs) = ap (λ (ws : List Text). v ∷ ws) (append_nil vs)

append_one : (values vs : List Text) (v : Text) → (values ++ v ∷ []) ++ vs ≡ values ++ v ∷ vs
append_one [] vs v = refl
append_one (w ∷ values) vs v = ap (λ (ws : List Text). w ∷ ws) (append_one values vs v)

collect_scopes-all :
    (values vs out : List Text)
    → collect_scopes values vs ≡ some out
    → (out ≡ values ++ vs) × (all is_scope vs ≡ true)
unfolding collect_scopes
collect_scopes-all values [] out h = (ground (arith, append_nil values), refl)
collect_scopes-all values (v ∷ vs) out h =
    elim (Bool-cases (not (is_scope v) || any (λ w. eq_text w v) values)) [
      | inl e ↦ absurd (ground (arith, e))
      | inr e ↦
          let rest : collect_scopes (values ++ v ∷ []) vs ≡ some out = ground (arith, e) in
          let (same, good) = collect_scopes-all (values ++ v ∷ []) vs out rest in
          let fine : is_scope v ≡ true = not_or (is_scope v) _ e in
          (same ∙ append_one values vs v, ap₂ (λ (a b : Bool). a && b) fine good)
    ]

-- Scopes that are accepted are returned as they were written: at most 1024 bytes, split at single spaces
-- into scopes that are not empty and have the permitted characters only.
pub canonical_scopes_lem :
    (s v : Text)
    → canonical_scopes s ≡ some v
    → (v ≡ s) × (byte_len s ≤ 1024) × (all is_scope (split b' ' s) ≡ true)
unfolding canonical_scopes
canonical_scopes_lem s v h = elim (Bool-cases (ltb 1024 (byte_len s))) [
  | inl e ↦ absurd (ground (arith, e))
  | inr e ↦ elim (Option-cases (collect_scopes [] (split b' ' s))) [
    | inl k ↦ absurd (ground (arith, e, k))
    | inr (out, k) ↦
        let (same, good) = collect_scopes-all [] (split b' ' s) out k in
        (ground (arith, e, k, same, join-split s), ground (arith, e), good)
  ]
]
