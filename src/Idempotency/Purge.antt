-- ===== src/Idempotency/Purge.antt =====
-- crates/identity-worker/src/idempotency.rs: `purge_expired` and its statement.
use moesegfault_indentity.Base.{
  ℕ, ◌≡◌, refl, Bool, true, false, not, ◌&&◌, ◌||◌, some, List, [], ◌∷◌, find, any, all, keep, take,
  ltb, leb, ◌==◌, min, max, ◌-◌, zero, suc, length, if◌then◌else◌, arith, inl, inr, Bool-cases,
}
use moesegfault_indentity.Base.Text.{eq_text}
use moesegfault_indentity.Store.Sql.{delete}
use moesegfault_indentity.Idempotency.{Record, Claim, is_claim}

-- the order of texts as bytes
unfoldable pub text_before : List ℕ → List ℕ → Bool
text_before [] [] = false
text_before [] (y ∷ ys) = true
text_before (x ∷ xs) [] = false
text_before (x ∷ xs) (y ∷ ys) = ltb x y || (x == y && text_before xs ys)

-- `ORDER BY expires_at,idempotency_record_id`
unfoldable pub expires_before : Record → Record → Bool
expires_before a b =
    ltb a.expires_at b.expires_at
    || (a.expires_at == b.expires_at && text_before a.record_id b.record_id)

unfoldable pub insert_record : Record → List Record → List Record
insert_record r [] = r ∷ []
insert_record r (x ∷ xs) =
    let rest = insert_record r xs in if expires_before x r then x ∷ rest else r ∷ x ∷ xs

unfoldable pub by_expiry : List Record → List Record
by_expiry [] = []
by_expiry (r ∷ rs) = insert_record r (by_expiry rs)

-- The records that one purge deletes: a page of at least one and at most a thousand.
unfoldable pub purged : List Record → ℕ → ℕ → List Record
purged rows now limit =
    take (max 1 (min limit 1000)) (by_expiry (keep (λ r. leb r.expires_at now) rows))

-- The records that are left, and the number of those that are deleted.
unfoldable pub purge_expired : List Record → ℕ → ℕ → List Record × ℕ
purge_expired rows now limit =
    let page = purged rows now limit in
    let rows' = delete (λ r. any (λ p. eq_text p.record_id r.record_id) page) rows in
    (rows', length rows - length rows')

module _ (p : Record → Bool) where
  all-keep :
      (q : Record → Bool) (rows : List Record)
      → all (λ x. not (q x && p x)) rows ≡ true
      → all (λ x. not (p x)) (keep q rows) ≡ true
  all-keep q [] h = refl
  all-keep q (r ∷ rows) h = elim (Bool-cases (q r)) [
    | inl e ↦ ground (arith, e, all-keep q rows (ground (arith, e)))
    | inr e ↦ ground (arith, e, all-keep q rows (ground (arith, e)))
  ]

  all-insert :
      (r : Record) (rows : List Record)
      → p r ≡ false
      → all (λ x. not (p x)) rows ≡ true
      → all (λ x. not (p x)) (insert_record r rows) ≡ true
  unfolding insert_record
  all-insert r [] k h = ground (arith, k)
  all-insert r (x ∷ rows) k h = elim (Bool-cases (expires_before x r)) [
    | inl e ↦ ground (arith, e, all-insert r rows k (ground arith))
    | inr e ↦ ground (arith, e, k, h)
  ]

  all-by_expiry :
      (rows : List Record)
      → all (λ x. not (p x)) rows ≡ true
      → all (λ x. not (p x)) (by_expiry rows) ≡ true
  unfolding by_expiry
  all-by_expiry [] h = refl
  all-by_expiry (r ∷ rows) h =
      all-insert r (by_expiry rows) (ground arith) (all-by_expiry rows (ground arith))

  none-take :
      (n : ℕ) (rows : List Record) → all (λ x. not (p x)) rows ≡ true → any p (take n rows) ≡ false
  none-take zero rows h = refl
  none-take (suc n) [] h = refl
  none-take (suc n) (r ∷ rows) h = ground (arith, none-take n rows (ground arith))

  find-delete :
      (q : Record → Bool) (rows : List Record) (r : Record)
      → q r ≡ false
      → find p rows ≡ some r
      → find p (delete q rows) ≡ some r
  unfolding delete
  find-delete q [] r k h = cc
  find-delete q (x ∷ rows) r k h = elim (Bool-cases (p x)) [
    | inl e ↦ let same : x ≡ r = ground (arith, e) in ground (arith, e, same, k)
    | inr e ↦ elim (Bool-cases (q x)) [
      | inl m ↦ ground (arith, m, find-delete q rows r k (ground (arith, e)))
      | inr m ↦ ground (arith, e, m, find-delete q rows r k (ground (arith, e)))
    ]
  ]

-- A purge keeps the record of a claim, if no record that has expired by its time has the same identifier.
pub purge_expired-keeps :
    (rows : List Record) (c : Claim) (r : Record) (now limit : ℕ)
    → find (is_claim c) rows ≡ some r
    → all (λ x. not (leb x.expires_at now && eq_text x.record_id r.record_id)) rows ≡ true
    → find (is_claim c) (purge_expired rows now limit).0 ≡ some r
unfolding purge_expired purged
purge_expired-keeps rows c r now limit there apart =
    let same_id : Record → Bool = λ x. eq_text x.record_id r.record_id in
    let expired = keep (λ x. leb x.expires_at now) rows in
    find-delete (is_claim c)
      (λ x. any (λ p. eq_text p.record_id x.record_id) (purged rows now limit)) rows r
      (none-take same_id (max 1 (min limit 1000)) (by_expiry expired)
        (all-by_expiry same_id expired (all-keep same_id (λ x. leb x.expires_at now) rows apart)))
      there
