-- ===== src/Guard/Tests.antt =====
-- Runs of the boundary checks on sample requests.
use moesegfault_indentity.Base.{◌≡◌, refl, some, none, [], ◌∷◌, if◌then◌else◌}
use moesegfault_indentity.Base.Text.{text, eq_text, is_whitespace}
use moesegfault_indentity.Secret.{Crypto}
use moesegfault_indentity.Guard.{Headers, Env, cookie_in}
use moesegfault_indentity.Guard.Cookies.{render, cookie_in-render}

abbrev deployment : Env
deployment = record { var = λ _. none; secret = λ _. none }

abbrev headers : Headers
headers name =
    if eq_text name (text "origin")
    then some (text "https://login.moesegfault.dev")
    else if eq_text name (text "content-type")
    then some (text "application/json")
    else if eq_text name (text "x-moesegfault-csrf")
    then some (text "t")
    else if eq_text name (text "cookie")
    then some (text "__Host-identity_browser=b")
    else none

cookie_in-render_example :
    cookie_in (render ((text "a", text "1") ∷ (text "b", text "2") ∷ [])) (text "b")
    ≡ some (text "2")
unfolding is_whitespace
cookie_in-render_example =
    cookie_in-render (text "b") ((text "a", text "1") ∷ (text "b", text "2") ∷ []) (
      record {
        name_end = refl;
        name_one = refl;
        value_one = refl;
        name_solid = refl;
        value_solid = refl;
      },
      (
        record {
          name_end = refl;
          name_one = refl;
          value_one = refl;
          name_solid = refl;
          value_solid = refl;
        },
        tt,
      ),
    )

-- A stand-in for the keyed digest.
abbrev stand_in : Crypto
stand_in = record {
  hmac_sha256 = λ k m. text "01234567890123456789012345678901";
  sha256 = λ m. m;
  encode = λ b. b;
  decode = λ b. some b;
}
