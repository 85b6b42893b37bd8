-- ===== src/Oauth/Codes/Phase.antt =====
-- The abstract view of an authorization code: absent, redeemable or spent.
use moesegfault_indentity.Base.{
  ℕ, ◌≡◌, refl, sym, ap, ◌∙◌, Bool, true, false, not, ◌&&◌, some, List, [], ◌∷◌, ◌++◌, any, find,
  if◌then◌else◌, arith, Bool-cases, ||-eq-false, any-append, inl, inr,
}
use moesegfault_indentity.Base.Text.{Text, eq_text}
use moesegfault_indentity.Base.Text.Ascii.{eq_text_iff, eq_text_sym}
use moesegfault_indentity.Secret.{Digest, ct_eq}
use moesegfault_indentity.Store.Codes.{Code}
use moesegfault_indentity.Store.Sql.{
  update, any_imp, any_narrow, any-update_none, any-update_same, any-append_one,
}
use moesegfault_indentity.Oauth.Codes.{code_clashes, is_presented}
use moesegfault_indentity.Oauth.Codes.Consume.{spend}

pub data Phase : Type 0 where
  absent redeemable spent : Phase

unfoldable pub holds : Digest → Code → Bool
holds digest c = ct_eq c.digest digest

unfoldable pub phase : Digest → List Code → Phase
phase digest codes =
    if any (is_presented digest) codes
    then redeemable
    else if any (holds digest) codes
    then spent
    else absent

-- The life of a code: it appears once, and is spent once.
pub data Advance : Phase → Phase → Type 0 where
  stay : (p : Phase) → Advance p p
  issue : Advance absent redeemable
  redeem : Advance redeemable spent

-- What an exchange may do to a code.
pub data Spending : Phase → Phase → Type 0 where
  unmoved : (p : Phase) → Spending p p
  spends : Spending redeemable spent

pub Spending-Advance : {p q : Phase} → Spending p q → Advance p q
Spending-Advance (unmoved p) = stay p
Spending-Advance spends = redeem

-- The primary key and the UNIQUE columns hold among the rows.
abbrev pub Distinct : List Code → Type 0
Distinct [] = Unit {0}
Distinct (c ∷ cs) = (any (code_clashes c) cs ≡ false) × Distinct cs

pub is_presented-holds : (d : Digest) (c : Code) → is_presented d c ≡ true → holds d c ≡ true
unfolding is_presented holds
is_presented-holds d c h = ground arith

-- Rows that hold one digest clash.
pub holds-clashes :
    (d : Digest) (c r : Code) → holds d c ≡ true → holds d r ≡ true → code_clashes c r ≡ true
unfolding holds code_clashes
holds-clashes d c r h k =
    let same : r.digest ≡ c.digest =
      (eq_text_iff r.digest d).0 k ∙ sym ((eq_text_iff c.digest d).0 h) in
    ground (arith, (eq_text_iff r.digest c.digest).1 same)

code_clashes-sym : (a b : Code) → code_clashes a b ≡ code_clashes b a
unfolding code_clashes
code_clashes-sym a b = ground (
  arith,
  eq_text_sym a.id b.id,
  eq_text_sym a.digest b.digest,
  eq_text_sym a.transaction_id b.transaction_id,
)

pub Distinct-append :
    (cs : List Code) (c : Code)
    → Distinct cs
    → any (code_clashes c) cs ≡ false
    → Distinct (cs ++ c ∷ [])
Distinct-append [] c u h = (refl, tt)
Distinct-append (x ∷ cs) c u h =
    let parts = ||-eq-false (code_clashes c x) (any (code_clashes c) cs) h in
    (
      any-append (code_clashes x) cs (c ∷ []) ∙ ground (arith, u.0, code_clashes-sym x c, parts.0),
      Distinct-append cs c u.1 parts.1,
    )

module _ (id : Text) (now : ℕ) where
  pub any-spend :
      (q : Code → Bool) (cs : List Code)
      → ((c : Code) → q (record c { consumed_at = some now }) ≡ q c)
      → any q (spend id now cs) ≡ any q cs
  unfolding spend
  any-spend q cs h = any-update_same _ _ q cs h

  pub Distinct-spend : (cs : List Code) → Distinct cs → Distinct (spend id now cs)
  unfolding spend update code_clashes
  Distinct-spend [] u = tt
  Distinct-spend (c ∷ cs) u = elim (Bool-cases (eq_text c.id id)) [
    | inl e ↦ rw e (any-spend (code_clashes c) cs (λ r. refl) ∙ u.0, Distinct-spend cs u.1)
    | inr e ↦ rw e (any-spend (code_clashes c) cs (λ r. refl) ∙ u.0, Distinct-spend cs u.1)
  ]

  pub any_presented-spend :
      (d : Digest) (cs : List Code)
      → any (is_presented d) cs ≡ false
      → any (is_presented d) (spend id now cs) ≡ false
  unfolding spend is_presented
  any_presented-spend d cs h = any-update_none _ _ _ cs (λ r e. ground arith) h

  -- Whatever row is spent, each digest stays where it is, or goes from redeemable to spent.
  pub Spending-spend :
      (d : Digest) (cs : List Code) → Spending (phase d cs) (phase d (spend id now cs))
  unfolding phase
  Spending-spend d cs =
      let same : any (holds d) (spend id now cs) ≡ any (holds d) cs =
        unfold holds in any-spend (holds d) cs (λ r. refl) in
      elim (Bool-cases (any (is_presented d) cs)) [
        | inl p ↦
            let there : any (holds d) cs ≡ true =
              any_imp _ _ cs (λ r e. is_presented-holds d r e) p in
            elim (Bool-cases (any (is_presented d) (spend id now cs))) [
              | inl q ↦ rw (p, q) (unmoved _)
              | inr q ↦ rw (p, q, same, there) spends
            ]
        | inr p ↦ rw (p, any_presented-spend d cs p, same) (unmoved _)
      ]

  -- The first row after it is spent.
  spend_head :
      (d : Digest) (x : Code) (cs : List Code)
      → (is_presented d x && not (eq_text x.id id)) ≡ false
      → any (is_presented d) (spend id now cs) ≡ false
      → any (is_presented d) (spend id now (x ∷ cs)) ≡ false
  unfolding spend update is_presented
  spend_head d x cs h k = elim (Bool-cases (eq_text x.id id)) [
    | inl e ↦ rw (e, k) (ground arith)
    | inr e ↦ rw (e, k) (ground (arith, e))
  ]

  -- The row that a presented digest finds is the only one that holds it: spending it leaves none.
  pub spend-found :
      (d : Digest) (cs : List Code) (c : Code)
      → Distinct cs
      → find (is_presented d) cs ≡ some c
      → c.id ≡ id
      → any (is_presented d) (spend id now cs) ≡ false
  spend-found d [] c u h e = absurd (ground arith)
  spend-found d (x ∷ cs) c u h e = elim (Bool-cases (is_presented d x)) [
    | inl p ↦
        let first : x ≡ c = ground (arith, p) in
        let rest : any (is_presented d) cs ≡ false =
          any_narrow _ (code_clashes x) cs
            (λ r q. holds-clashes d x r (is_presented-holds d x p) (is_presented-holds d r q))
            u.0 in
        spend_head d x cs
          (ground (arith, p, (eq_text_iff x.id id).1 (ap (λ (r : Code). r.id) first ∙ e)))
          (any_presented-spend d cs rest)
    | inr p ↦ spend_head d x cs (ground (arith, p)) (spend-found d cs c u.1 (ground (arith, p)) e)
  ]

-- A row that clashes with none is added: its digest advances, and every other stays.
pub Advance-append :
    (d : Digest) (cs : List Code) (c : Code)
    → any (code_clashes c) cs ≡ false
    → (is_presented d c ≡ holds d c)
    → Advance (phase d cs) (phase d (cs ++ c ∷ []))
unfolding phase
Advance-append d cs c h fresh = elim (Bool-cases (holds d c)) [
  | inl e ↦
      let none_held : any (holds d) cs ≡ false =
        any_narrow _ (code_clashes c) cs (λ r q. holds-clashes d c r e q) h in
      let none_presented : any (is_presented d) cs ≡ false =
        any_narrow _ (holds d) cs (λ r q. is_presented-holds d r q) none_held in
      let now_presented : any (is_presented d) (cs ++ c ∷ []) ≡ true =
        any-append_one _ cs c (fresh ∙ e) in
      rw (none_presented, none_held, now_presented) issue
  | inr e ↦
      let same_presented : any (is_presented d) (cs ++ c ∷ []) ≡ any (is_presented d) cs =
        any-append _ cs (c ∷ []) ∙ ground (arith, fresh, e) in
      let same_held : any (holds d) (cs ++ c ∷ []) ≡ any (holds d) cs =
        any-append _ cs (c ∷ []) ∙ ground (arith, e) in
      rw (same_presented, same_held) (stay _)
]
