-- ===== src/Idempotency/Hashing/Framing.antt =====
-- What is hashed of a request determines it.
use moesegfault_indentity.Base.{
  ℕ, zero, suc, ◌+◌, ◌/◌, ◌%◌, ◌≤◌, ◌<◌, ◌≡◌, refl, sym, ◌∙◌, Option, none, some, List, [], ◌∷◌,
  ◌++◌, ltb, length, length-append, if◌then◌else◌, ok, err, inl, inr, arith, Bool-cases,
  Option-cases,
}
use mathlib.Core.List.{append_assoc, append-nil}
use moesegfault_indentity.Base.Text.{Text, text, bytes, trim, to_ascii_lowercase}
use moesegfault_indentity.Secret.{Crypto}
use moesegfault_indentity.Guard.{or_else}
use moesegfault_indentity.Idempotency.Hashing.{
  be_bytes, to_be_bytes, frame, request_frames, digest_domain, feed, too_large, Incoming,
  digest_request, is_declared_large, declared_length, resource_of, max_request_bytes,
}

length-be_bytes : (k n : ℕ) → length (be_bytes k n) ≡ k
unfolding be_bytes
length-be_bytes zero n = refl
length-be_bytes (suc k) n =
    length-append (be_bytes k (n / 256)) (n % 256 ∷ []) ∙ omega (arith, length-be_bytes k (n / 256))

append-injective :
    (us vs x y : List ℕ) → length us ≡ length vs → us ++ x ≡ vs ++ y → (us ≡ vs) × (x ≡ y)
append-injective [] [] x y h e = (refl, e)
append-injective [] (v ∷ vs) x y h e = absurd (omega arith)
append-injective (u ∷ us) [] x y h e = absurd (omega arith)
append-injective (u ∷ us) (v ∷ vs) x y h e =
    let r = append-injective us vs x y (omega arith) (ground (arith, e)) in
    (ground (arith, e, r.0), r.1)

-- What is left of a number without its last `k` bytes.
abbrev high : ℕ → ℕ → ℕ
high zero n = n
high (suc k) n = high k (n / 256)

be_bytes-injective : (k n m : ℕ) → be_bytes k n ≡ be_bytes k m → high k n ≡ high k m → n ≡ m
unfolding be_bytes
be_bytes-injective zero n m e h = h
be_bytes-injective (suc k) n m e h =
    let parts =
      append-injective (be_bytes k (n / 256)) (be_bytes k (m / 256)) (n % 256 ∷ []) (m % 256 ∷ [])
        (length-be_bytes k (n / 256) ∙ sym (length-be_bytes k (m / 256))) e in
    let top = be_bytes-injective k (n / 256) (m / 256) parts.0 h in
    let low : n % 256 ≡ m % 256 = ground (arith, parts.1) in omega (arith, top, low)

to_be_bytes-injective :
    (n m : ℕ)
    → n < 18446744073709551616
    → m < 18446744073709551616
    → to_be_bytes n ≡ to_be_bytes m
    → n ≡ m
to_be_bytes-injective n m hn hm e = be_bytes-injective 8 n m e (omega arith)

-- A frame is read off the front of a text in one way.
frame-injective :
    (a b x y : List ℕ)
    → length a < 18446744073709551616
    → length b < 18446744073709551616
    → frame a ++ x ≡ frame b ++ y
    → (a ≡ b) × (x ≡ y)
unfolding frame
frame-injective a b x y ha hb e =
    let split =
      append-injective (to_be_bytes (length a)) (to_be_bytes (length b)) (a ++ x) (b ++ y)
        (length-be_bytes 8 (length a) ∙ sym (length-be_bytes 8 (length b)))
        (sym (append_assoc (to_be_bytes (length a)) a x)
          ∙ e
          ∙ append_assoc (to_be_bytes (length b)) b y) in
    append-injective a b x y (to_be_bytes-injective (length a) (length b) ha hb split.0) split.1

regroup : (d a b c x : List ℕ) → (((d ++ a) ++ b) ++ c) ++ x ≡ d ++ (a ++ (b ++ (c ++ x)))
regroup d a b c x = simp append_assoc

abbrev IsFramed : List ℕ → Type 0
IsFramed v = length v < 18446744073709551616

-- Two requests that feed the same bytes to the hasher have the same method, the same resource, the same
-- normalized content type and the same body, in bytes: no part runs over into another.
pub request_frames-injective :
    (method method' resource resource' content_type content_type' : Text) (body body' : List ℕ)
    → IsFramed (bytes method)
    → IsFramed (bytes method')
    → IsFramed (bytes resource)
    → IsFramed (bytes resource')
    → IsFramed (bytes (to_ascii_lowercase (trim content_type)))
    → IsFramed (bytes (to_ascii_lowercase (trim content_type')))
    → request_frames method resource content_type ++ body
      ≡ request_frames method' resource' content_type' ++ body'
    → (bytes method ≡ bytes method')
      × (bytes resource ≡ bytes resource')
      × (bytes (to_ascii_lowercase (trim content_type))
          ≡ bytes (to_ascii_lowercase (trim content_type')))
      × (body ≡ body')
unfolding request_frames
request_frames-injective m m' r r' c c' body body' hm hm' hr hr' hc hc' e =
    let t = bytes (to_ascii_lowercase (trim c)) in
    let t' = bytes (to_ascii_lowercase (trim c')) in
    let flat =
      sym (regroup digest_domain (frame (bytes m)) (frame (bytes r)) (frame t) body)
      ∙ e
      ∙ regroup digest_domain (frame (bytes m')) (frame (bytes r')) (frame t') body' in
    let one = append-injective digest_domain digest_domain _ _ refl flat in
    let two = frame-injective (bytes m) (bytes m') _ _ hm hm' one.1 in
    let three = frame-injective (bytes r) (bytes r') _ _ hr hr' two.1 in
    let four = frame-injective t t' body body' hc hc' three.1 in (two.0, three.0, four.0, four.1)

-- A body as one piece, if every chunk can be read.
unfoldable pub whole : List (Option (List ℕ)) → Option (List ℕ)
whole [] = some []
whole (none ∷ chunks) = none
whole (some c ∷ chunks) = elim (whole chunks) [ none ↦ none | some rest ↦ some (c ++ rest) ]

-- The loop over the chunks against the body as one piece.
feed-whole :
    (fed body : List ℕ) (total : ℕ) (chunks : List (Option (List ℕ)))
    → total ≤ max_request_bytes
    → whole chunks ≡ some body
    → feed fed total chunks
      ≡ (if ltb max_request_bytes (total + length body) then err too_large else ok (fed ++ body))
unfolding feed whole
feed-whole fed body total [] h e =
    let empty : body ≡ [] = ground (arith, e) in rw empty (ground (arith, append-nil fed))
feed-whole fed body total (none ∷ chunks) h e = absurd (ground arith)
feed-whole fed body total (some c ∷ chunks) h e = elim (Option-cases (whole chunks)) [
  | inl k ↦ absurd (ground (arith, k))
  | inr (rest, k) ↦
      let all : body ≡ c ++ rest = ground (arith, k) in
      elim (Bool-cases (ltb max_request_bytes (total + length c))) [
        | inl m ↦ rw (all, feed, m) (ground (arith, m, length-append c rest))
        | inr m ↦
            let next = feed-whole (fed ++ c) rest (total + length c) chunks (ground (arith, m)) k in
            rw all (ground (arith, m, next, length-append c rest, append_assoc fed c rest))
      ]
]

abbrev pub frames_of : Incoming → List ℕ
frames_of r =
    request_frames r.method (resource_of r.path r.query)
      (or_else (r.header (text "content-type")) [])

-- However a readable body is cut into chunks, the digest of a request is that of its parts and the body as
-- one piece, unless the declared length or the body's own length is over the limit; then the request is
-- refused as too large.
pub digest_request-whole :
    (crypto : Crypto) (r : Incoming) (body : List ℕ)
    → whole r.chunks ≡ some body
    → digest_request crypto r ≡ (
        if is_declared_large (declared_length (r.header (text "content-length")))
        then err too_large
        else if ltb max_request_bytes (length body)
        then err too_large
        else ok (crypto.sha256 (frames_of r ++ body)))
unfolding digest_request
digest_request-whole crypto r body e =
    let fed = feed-whole (frames_of r) body 0 r.chunks (omega arith) e in
    let start : 0 + length body ≡ length body = omega arith in
    elim (Bool-cases (ltb max_request_bytes (length body))) [
      | inl m ↦ rw (fed, start, m) refl
      | inr m ↦ rw (fed, start, m) refl
    ]
