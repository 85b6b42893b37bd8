-- ===== src/Device/Throttle.antt =====
-- The attempt counters of `reserve_attempt`.
use moesegfault_indentity.Base.{
  ℕ, ◌+◌, ◌-◌, ◌≤◌, ◌≡◌, refl, sym, ap, ◌∙◌, inl, inr, Bool, true, false, ◌&&◌, Option, none, some,
  List, [], ◌∷◌, ◌++◌, ltb, ◌==◌, min, find, if◌then◌else◌, arith, Bool-cases, Option-cases,
}
use moesegfault_indentity.Base.Text.Ascii.{eq_text_iff}
use moesegfault_indentity.Secret.{Digest, ct_eq}
use moesegfault_indentity.Store.{DeviceAttempt}
use moesegfault_indentity.Store.Sql.{update}
use moesegfault_indentity.Device.Repository.{is_bucket, count_attempt}

-- A bucket and the start of its window.
abbrev pub Key : Type 0
Key = Digest × ℕ

abbrev pub same_key : Key → Key → Bool
same_key k j = ct_eq k.0 j.0 && k.1 == j.1

abbrev row_key : DeviceAttempt → Key
row_key a = (a.bucket_digest, a.bucket_start)

same_key_refl : (k : Key) → same_key k k ≡ true
same_key_refl (b, s) = ground (arith, eq_text_iff b b)

eq_of_same_key : (k j : Key) → same_key k j ≡ true → k ≡ j
eq_of_same_key (b, s) (b', s') h = ground (arith, eq_text_iff b b')

abbrev pub count_of : Option DeviceAttempt → ℕ
count_of none = 0
count_of (some a) = a.attempt_count

-- The rows after a sequence of attempts on any keys, and how many of those on `k` were granted.
unfoldable pub granted : List DeviceAttempt → Key → ℕ → List Key → ℕ
granted rows k limit [] = 0
granted rows k limit (j ∷ js) =
    let (rows', reserved) = count_attempt rows j.0 j.1 limit in
    (if same_key j k && reserved then 1 else 0) + granted rows' k limit js

unfoldable pub requested : Key → List Key → ℕ
requested k [] = 0
requested k (j ∷ js) = (if same_key j k then 1 else 0) + requested k js

-- A row that is counted up keeps its key.
abbrev counted : DeviceAttempt → DeviceAttempt
counted r = record r { attempt_count = r.attempt_count + 1 }

abbrev pub holds : Key → DeviceAttempt → Bool
holds k a = is_bucket k.0 k.1 a

holds_lem : (k : Key) (a : DeviceAttempt) → holds k a ≡ same_key (row_key a) k
unfolding is_bucket
holds_lem (b, s) a = refl

holds-counted : (k : Key) (a : DeviceAttempt) → holds k (counted a) ≡ holds k a
unfolding is_bucket
holds-counted k a = refl

holds_same : (k j : Key) (a : DeviceAttempt) → same_key j k ≡ true → holds j a ≡ holds k a
holds_same k j a h = ap (λ (l : Key). holds l a) (eq_of_same_key j k h)

holds_other :
    (k j : Key) (a : DeviceAttempt) → same_key j k ≡ false → holds j a ≡ true → holds k a ≡ false
holds_other k j a h q = elim (Bool-cases (holds k a)) [
  | inl p ↦
      let is_j = eq_of_same_key (row_key a) j (sym (holds_lem j a) ∙ q) in
      let is_k = eq_of_same_key (row_key a) k (sym (holds_lem k a) ∙ p) in
      cc (h, ap (λ (l : Key). same_key j l) (sym is_j ∙ is_k), same_key_refl j)
  | inr p ↦ p
]

abbrev pub stored : List DeviceAttempt → Key → ℕ
stored rows k = count_of (find (holds k) rows)

stored_update_other :
    (k j : Key) (rows : List DeviceAttempt)
    → same_key j k ≡ false
    → find (holds k) (update (holds j) counted rows) ≡ find (holds k) rows
unfolding update
stored_update_other k j [] h = refl
stored_update_other k j (r ∷ rows) h =
    ground (arith, holds-counted k r, holds_other k j r h, stored_update_other k j rows h)

stored_update_same :
    (k j : Key) (rows : List DeviceAttempt) (a : DeviceAttempt)
    → same_key j k ≡ true
    → find (holds j) rows ≡ some a
    → find (holds k) (update (holds j) counted rows) ≡ some (counted a)
unfolding update
stored_update_same k j [] a h q = cc
stored_update_same k j (r ∷ rows) a h q =
    ground (arith, holds-counted k r, holds_same k j r h, stored_update_same k j rows a h)

find-append :
    (p : DeviceAttempt → Bool) (rows : List DeviceAttempt) (x : DeviceAttempt)
    → find p (rows ++ x ∷ [])
      ≡ (elim (find p rows) [ none ↦ if p x then some x else none | some a ↦ some a ])
find-append p [] x = ground arith
find-append p (r ∷ rows) x = ground (arith, find-append p rows x)

abbrev one_if : Bool → ℕ
one_if true = 1
one_if false = 0

-- An attempt is granted while the key has some left.
reserved_lem :
    (rows : List DeviceAttempt) (j : Key) (limit : ℕ)
    → 1 ≤ limit
    → (count_attempt rows j.0 j.1 limit).1 ≡ ltb (stored rows j) limit
unfolding count_attempt
reserved_lem rows j limit h = ground arith

-- It counts for its own key, if it is granted, and for no other.
stored-count_attempt :
    (rows : List DeviceAttempt) (k j : Key) (limit : ℕ)
    → stored (count_attempt rows j.0 j.1 limit).0 k
      ≡ stored rows k + one_if (same_key j k && (count_attempt rows j.0 j.1 limit).1)
unfolding count_attempt
stored-count_attempt rows k j limit =
    let fresh : DeviceAttempt = record {
      bucket_digest = j.0;
      bucket_start = j.1;
      attempt_count = 1;
    } in
    elim (Option-cases (find (holds j) rows)) [
      | inl missing ↦ elim (Bool-cases (same_key j k)) [
        | inl same ↦ ground (
          arith,
          missing,
          same,
          find-append (holds k) rows fresh,
          holds_lem k fresh,
          ap (λ (l : Key). find (holds l) rows) (eq_of_same_key j k same),
        )
        | inr other ↦
            ground (arith, missing, other, find-append (holds k) rows fresh, holds_lem k fresh)
      ]
      | inr (a, found) ↦ elim (Bool-cases (same_key j k)) [
        | inl same ↦ ground (
          arith,
          found,
          same,
          stored_update_same k j rows a same found,
          ap (λ (l : Key). find (holds l) rows) (eq_of_same_key j k same),
        )
        | inr other ↦ ground (arith, found, other, stored_update_other k j rows other)
      ]
    ]

-- With a limit of at least one: of a sequence of attempts on any keys, those on one key are
-- granted up to the limit, as many as were requested or as many as were left, whichever is less.
pub granted_lem :
    (rows : List DeviceAttempt) (k : Key) (limit : ℕ) (js : List Key)
    → 1 ≤ limit
    → granted rows k limit js ≡ min (requested k js) (limit - stored rows k)
unfolding granted requested
granted_lem rows k limit [] h = omega arith
granted_lem rows k limit (j ∷ js) h = ground (
  arith,
  stored-count_attempt rows k j limit,
  reserved_lem rows j limit h,
  granted_lem (count_attempt rows j.0 j.1 limit).0 k limit js h,
  ap (stored rows) {x = j} {y = k},
  eq_of_same_key j k,
)
