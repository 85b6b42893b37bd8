-- ===== src/Guard/Cookies.antt =====
-- Reading a Cookie header.
use moesegfault_indentity.Base.{
  ◌≡◌, refl, ap, ◌∙◌, true, false, not, Option, none, some, List, [], ◌∷◌, ◌++◌, all, all-append,
  if◌then◌else◌, arith,
}
use mathlib.Core.List.{append-nil}
use moesegfault_indentity.Base.Text.{
  Text, eq_text, has_char, is_whitespace, trim, split, split_once, trim_start_if, trim_end_if,
}
use moesegfault_indentity.Base.Text.Split.{
  has_char-append, split_of_absent, split-append, split_once-append,
}
use moesegfault_indentity.Base.Text.Trim.{trim_of_all}
use moesegfault_indentity.Guard.{named_value, find_map, cookie_in}

-- A cookie as a browser sends it: no white space, no `;`, and no `=` in the name.
pub record IsCookie (c : Text × Text) : Type 0 where
  pub name_end : has_char b'=' c.0 ≡ false
  pub name_one : has_char b';' c.0 ≡ false
  pub value_one : has_char b';' c.1 ≡ false
  pub name_solid : all (λ x. not (is_whitespace x)) c.0 ≡ true
  pub value_solid : all (λ x. not (is_whitespace x)) c.1 ≡ true

abbrev pub AllCookies : List (Text × Text) → Type 0
AllCookies [] = Unit
AllCookies (c ∷ cs) = IsCookie c × AllCookies cs

abbrev pub item : Text × Text → Text
item c = c.0 ++ b'=' ∷ c.1

abbrev render_tail : List (Text × Text) → Text
render_tail [] = []
render_tail (c ∷ cs) = b';' ∷ 0x20 ∷ (item c ++ render_tail cs)

-- `name=value` items joined by `; `, as RFC 6265 has a browser write the header.
abbrev pub render : List (Text × Text) → Text
render [] = []
render (c ∷ cs) = item c ++ render_tail cs

abbrev pub lookup : Text → List (Text × Text) → Option Text
lookup name [] = none
lookup name (c ∷ cs) = if eq_text c.0 name then some c.1 else lookup name cs

abbrev spaced : List (Text × Text) → List Text
spaced [] = []
spaced (c ∷ cs) = (0x20 ∷ item c) ∷ spaced cs

item_one : (c : Text × Text) → IsCookie c → has_char b';' (item c) ≡ false
item_one (k, v) h = ground (arith, has_char-append b';' k (b'=' ∷ v), h.name_one, h.value_one)

split-render_tail :
    (s : Text) (cs : List (Text × Text))
    → has_char b';' s ≡ false
    → AllCookies cs
    → split b';' (s ++ render_tail cs) ≡ s ∷ spaced cs
split-render_tail s [] h _ = rw append-nil (split_of_absent b';' s h)
split-render_tail s (c ∷ cs) h (k, ks) =
    split-append b';' s (0x20 ∷ (item c ++ render_tail cs)) h
    ∙ ap (λ (r : List Text). s ∷ r) (split-render_tail (0x20 ∷ item c) cs (item_one c k) ks)

trim-item : (c : Text × Text) → IsCookie c → trim (item c) ≡ item c
unfolding is_whitespace
trim-item (k, v) h = trim_of_all (item (k, v)) (
    ground
      (arith, all-append (λ x. not (is_whitespace x)) k (b'=' ∷ v), h.name_solid, h.value_solid))

named_value-item :
    (name : Text) (c : Text × Text)
    → IsCookie c
    → named_value name (item c) ≡ (if eq_text c.0 name then some c.1 else none)
unfolding named_value
named_value-item name c h = ground (arith, trim-item c h, split_once-append b'=' c.0 c.1 h.name_end)

named_value-space : (name s : Text) → named_value name (0x20 ∷ s) ≡ named_value name s
unfolding named_value trim_start_if is_whitespace
named_value-space name s = refl

find_map-spaced :
    (name : Text) (cs : List (Text × Text))
    → AllCookies cs
    → find_map (named_value name) (spaced cs) ≡ lookup name cs
find_map-spaced name [] _ = refl
find_map-spaced name (c ∷ cs) (k, ks) =
    ground (
      arith,
      named_value-space name (item c),
      named_value-item name c k,
      find_map-spaced name cs ks,
    )

-- From a header that a browser wrote, the value of the first cookie of exactly that name is read, and
-- nothing when there is none.
pub cookie_in-render :
    (name : Text) (cs : List (Text × Text))
    → AllCookies cs
    → cookie_in (render cs) name ≡ lookup name cs
unfolding cookie_in split split_once trim_start_if trim_end_if
cookie_in-render name [] _ = refl
cookie_in-render name (c ∷ cs) (k, ks) =
    rw (split-render_tail (item c) cs (item_one c k) ks)
      (ground (arith, named_value-item name c k, find_map-spaced name cs ks))
