-- ===== src/Store/Sql.antt =====
-- The statements of the program as operations on a table.
use moesegfault_indentity.Base.{
  ℕ, ◌≡◌, refl, ap, ◌∙◌, Bool, true, false, List, [], ◌∷◌, ◌++◌, none, some, any, find, leb,
  if◌then◌else◌, arith, Bool-cases, inl, inr,
}

module _ {ℓ} {A : Type ℓ} where
  -- `UPDATE ... SET f WHERE p`
  unfoldable pub update : (A → Bool) → (A → A) → List A → List A
  update p f [] = []
  update p f (r ∷ rs) = (if p r then f r else r) ∷ update p f rs

  -- `DELETE ... WHERE p`
  unfoldable pub delete : (A → Bool) → List A → List A
  delete p [] = []
  delete p (r ∷ rs) = let rest = delete p rs in if p r then rest else r ∷ rest

  -- `ORDER BY key`
  insert_by : (A → ℕ) → A → List A → List A
  insert_by key x [] = x ∷ []
  insert_by key x (r ∷ rs) =
      let rest = insert_by key x rs in if leb (key x) (key r) then x ∷ r ∷ rs else r ∷ rest

  unfoldable pub order_by : (A → ℕ) → List A → List A
  unfolding insert_by
  order_by key [] = []
  order_by key (r ∷ rs) = insert_by key r (order_by key rs)

  -- `INSERT ... SELECT r WHERE b`
  abbrev pub insert_if : Bool → A → List A → List A
  insert_if true r rs = rs ++ r ∷ []
  insert_if false r rs = rs

module _ {ℓ} {A : Type ℓ} where
  -- An update that meets no row changes nothing.
  pub update_none : (p : A → Bool) (f : A → A) (rs : List A) → any p rs ≡ false → update p f rs ≡ rs
  unfolding update
  update_none p f [] h = refl
  update_none p f (r ∷ rs) h = ground (arith, update_none p f rs)

  -- A test that every updated row passes, and that no other row passed before.
  pub any-update-false :
      (p : A → Bool) (f : A → A) (q : A → Bool) (rs : List A)
      → ((r : A) → p r ≡ true → q (f r) ≡ false)
      → ((r : A) → p r ≡ false → q r ≡ false)
      → any q (update p f rs) ≡ false
  unfolding update
  any-update-false p f q [] h k = refl
  any-update-false p f q (r ∷ rs) h k = ground (arith, h r, k r, any-update-false p f q rs h k)

  pub any-update-true :
      (p : A → Bool) (f : A → A) (q : A → Bool) (rs : List A)
      → ((r : A) → p r ≡ true → q (f r) ≡ true)
      → any p rs ≡ true
      → any q (update p f rs) ≡ true
  unfolding update
  any-update-true p f q [] h k = cc
  any-update-true p f q (r ∷ rs) h k = ground (arith, h r, any-update-true p f q rs h)

  pub any_never : (p : A → Bool) (rs : List A) → ((r : A) → p r ≡ false) → any p rs ≡ false
  any_never p [] h = refl
  any_never p (r ∷ rs) h = rw (h r, any_never p rs h)

  pub any_imp :
      (p q : A → Bool) (rs : List A)
      → ((r : A) → p r ≡ true → q r ≡ true)
      → any p rs ≡ true
      → any q rs ≡ true
  any_imp p q [] h k = cc
  any_imp p q (r ∷ rs) h k = ground (arith, h r, any_imp p q rs h)

  -- What a row that passes a test shows, if it does not name the row.
  pub any_elim {κ} :
      {B : Type κ} (p : A → Bool) (rs : List A) → ((r : A) → p r ≡ true → B) → any p rs ≡ true → B
  any_elim p [] h k = cc
  any_elim p (r ∷ rs) h k = elim (Bool-cases (p r)) [
    | inl e ↦ h r e
    | inr e ↦ any_elim p rs h (ground arith)
  ]

  pub any-append_one :
      (p : A → Bool) (rs : List A) (r : A) → p r ≡ true → any p (rs ++ r ∷ []) ≡ true
  any-append_one p [] r h = rw h
  any-append_one p (x ∷ rs) r h = ground (arith, any-append_one p rs r h)

  -- A test that no updated row passes, and no row passed before.
  pub any-update_none :
      (p : A → Bool) (f : A → A) (q : A → Bool) (rs : List A)
      → ((r : A) → p r ≡ true → q (f r) ≡ false)
      → any q rs ≡ false
      → any q (update p f rs) ≡ false
  unfolding update
  any-update_none p f q [] h k = refl
  any-update_none p f q (r ∷ rs) h k = ground (arith, h r, any-update_none p f q rs h)

  -- A test that an update does not touch.
  pub any-update_same :
      (p : A → Bool) (f : A → A) (q : A → Bool) (rs : List A)
      → ((r : A) → q (f r) ≡ q r)
      → any q (update p f rs) ≡ any q rs
  unfolding update
  any-update_same p f q [] h = refl
  any-update_same p f q (r ∷ rs) h = ground (arith, h r, any-update_same p f q rs h)

  pub any-update_if :
      (p : A → Bool) (f : A → A) (q : A → Bool) (rs : List A)
      → ((r : A) → p r ≡ true → q (f r) ≡ q r)
      → any q (update p f rs) ≡ any q rs
  unfolding update
  any-update_if p f q [] h = refl
  any-update_if p f q (r ∷ rs) h = ground (arith, h r, any-update_if p f q rs h)

  pub any_narrow :
      (p q : A → Bool) (rs : List A)
      → ((r : A) → p r ≡ true → q r ≡ true)
      → any q rs ≡ false
      → any p rs ≡ false
  any_narrow p q [] h k = refl
  any_narrow p q (r ∷ rs) h k = ground (arith, h r, any_narrow p q rs h)

  pub find-update :
      (p : A → Bool) (f : A → A) (q : A → Bool) (rs : List A)
      → ((r : A) → q (f r) ≡ q r)
      → find q (update p f rs)
        ≡ (elim (find q rs) [ none ↦ none | some r ↦ some (if p r then f r else r) ])
  unfolding update
  find-update p f q [] h = refl
  find-update p f q (r ∷ rs) h = ground (arith, h r, find-update p f q rs h)

  pub find-append_some :
      (q : A → Bool) (rs : List A) (x r : A) → find q rs ≡ some r → find q (rs ++ x ∷ []) ≡ some r
  find-append_some q [] x r h = cc
  find-append_some q (y ∷ rs) x r h = ground (arith, find-append_some q rs x r)

  -- What holds of no row does not hold of the one that a search finds.
  pub any-find :
      (p q : A → Bool) (rs : List A) (r : A) → any p rs ≡ false → find q rs ≡ some r → p r ≡ false
  any-find p q [] r h k = cc
  any-find p q (y ∷ rs) r h k = ground (arith, any-find p q rs r)

  pub find-update_if :
      (p : A → Bool) (f : A → A) (q : A → Bool) (rs : List A)
      → ((r : A) → p r ≡ true → q (f r) ≡ q r)
      → find q (update p f rs)
        ≡ (elim (find q rs) [ none ↦ none | some r ↦ some (if p r then f r else r) ])
  unfolding update
  find-update_if p f q [] h = refl
  find-update_if p f q (r ∷ rs) h = ground (arith, h r, find-update_if p f q rs h)

  -- What a search finds passes its test.
  pub found : (q : A → Bool) (rs : List A) (r : A) → find q rs ≡ some r → q r ≡ true
  found q [] r h = cc
  found q (y ∷ rs) r h = ground (arith, found q rs r)

  pub find-append_new :
      (q : A → Bool) (rs : List A) (x : A)
      → find q rs ≡ none
      → q x ≡ true
      → find q (rs ++ x ∷ []) ≡ some x
  find-append_new q [] x h k = ground (arith, k)
  find-append_new q (y ∷ rs) x h k = ground (arith, k, find-append_new q rs x)

  -- A row that a search finds is among the rows.
  pub any-found :
      (p q : A → Bool) (rs : List A) (r : A) → find q rs ≡ some r → p r ≡ true → any p rs ≡ true
  any-found p q [] r h k = cc
  any-found p q (y ∷ rs) r h k = elim (Bool-cases (q y)) [
    | inl e ↦
        let first : y ≡ r = ground (arith, e) in let mine : p y ≡ true = ap p first ∙ k in rw mine
    | inr e ↦ ground (arith, any-found p q rs r (ground (arith, e)) k)
  ]

  pub find-none : (q : A → Bool) (rs : List A) → any q rs ≡ false → find q rs ≡ none
  find-none q [] h = refl
  find-none q (y ∷ rs) h = ground (arith, find-none q rs)
