-- ===== src/Agent/Token/Laws.antt =====
-- Which tokens pass `reviewToken`, and that their signatures were checked.
use mathlib.Core.Option.{none-ne-some}
use universal_crossplane.Base.{
  ℕ, ◌+◌, String, ◌≡◌, refl, sym, ◌∙◌, ◌↔◌, ◌⊎◌, inl, inr, Bool, true, false, Option, none, some,
  Error, new, Result, ok, err, panic, arith, ◌==◌, if◌then◌else◌, Bool-cases, Option-cases,
  text-cases,
}
use universal_crossplane.Base.Text.{trim_space, split}
use universal_crossplane.Jwt.{ParseError, validation, other_error, Parsed}
use universal_crossplane.Agent.Header.{Header, get}
use universal_crossplane.Agent.Config.{Config, TokenClaims}
use universal_crossplane.Agent.Token.{
  Jwt, bearer_token, key_func, review_invalid, review_parsed, review_bearer, review_token, unix,
  clock_skew_tolerance, err_missing_auth_header, err_missing_bearer,
}

-- The token of the authorization header, if there is one.
abbrev pub presented : Header → Option String
presented headers = bearer_token (split b' ' (trim_space (get "Authorization" headers)))

presented-empty : bearer_token (split b' ' "") ≡ none
unfolding bearer_token split
presented-empty = refl

-- The error is a validation error with this bit field.
abbrev pub IsOnly : ℕ → Option ParseError → Type 0
IsOnly bit none = ⊥
IsOnly bit (some (validation bits e)) = bits ≡ bit
IsOnly bit (some (other_error e)) = ⊥

-- The error for a header without a bearer token.
abbrev pub missing_error : Header → Error
missing_error headers = new (
    if trim_space (get "Authorization" headers) == ""
    then err_missing_auth_header
    else err_missing_bearer)

module _ (jwt : Jwt) (now : ℕ) where
  open jwt use {StandardClaims, verify_issued_at, issued_at_error}

  -- The parser found nothing wrong, or only that the token is issued at most two minutes later.
  abbrev pub Passes : Parsed (TokenClaims StandardClaims) → Type 0
  Passes p =
      (p.token ≡ some true)
      ⊎ ((p.token ≡ some false)
          × IsOnly issued_at_error p.error
          × (verify_issued_at p.claims.standard_claims (unix (now + clock_skew_tolerance)) true
              ≡ true))

  review_invalid_iff :
      (claims c : TokenClaims StandardClaims) (error : Option ParseError)
      → (review_invalid jwt now claims error ≡ ok (some c))
        ↔ (Passes (record { token = some false; claims = claims; error = error }) × (claims ≡ c))
  unfolding review_invalid
  review_invalid_iff claims c none = ground arith
  review_invalid_iff claims c (some (other_error e)) = ground arith
  review_invalid_iff claims c (some (validation bits e)) = ground arith

  review_parsed_iff :
      (claims c : TokenClaims StandardClaims) (token : Option Bool) (error : Option ParseError)
      → (review_parsed jwt now claims token error ≡ ok (some c))
        ↔ (Passes (record { token = token; claims = claims; error = error }) × (claims ≡ c))
  unfolding review_parsed
  review_parsed_iff claims c none error = ground arith
  review_parsed_iff claims c (some true) error = ground arith
  review_parsed_iff claims c (some false) error = review_invalid_iff claims c error

  review_parsed-panic_iff :
      (claims : TokenClaims StandardClaims) (token : Option Bool) (error : Option ParseError)
      → (review_parsed jwt now claims token error ≡ panic) ↔ (token ≡ none)
  unfolding review_parsed
  review_parsed-panic_iff claims none error = ground arith
  review_parsed-panic_iff claims (some true) error = ground arith
  review_parsed-panic_iff claims (some false) none = ground arith
  review_parsed-panic_iff claims (some false) (some (validation bits e)) = ground arith
  review_parsed-panic_iff claims (some false) (some (other_error e)) = ground arith

module _ (jwt : Jwt) {CertPool : Type 0} (config : Config jwt.PublicKey CertPool) (now : ℕ) where
  open jwt use {PublicKey, StandardClaims, parse_with_claims, verify_issued_at, issued_at_error}

  abbrev pub parse : String → Parsed (TokenClaims StandardClaims)
  parse s = parse_with_claims now s (key_func jwt config)

  -- What the headers present, and what the parser made of it, where a token is accepted.
  pub record IsAccepted (headers : Header) (c : TokenClaims StandardClaims) : Type 0 where
    pub token : String
    pub given : presented headers ≡ some token
    pub passes : Passes jwt now (parse token)
    pub claims : (parse token).claims ≡ c

  abbrev outcome : String → Result (Option (TokenClaims StandardClaims))
  outcome token = review_parsed jwt now (parse token).claims (parse token).token (parse token).error

  -- The review of a presented token is the review of what the parser made of it.
  pub review_token-given :
      (headers : Header) (token : String)
      → presented headers ≡ some token
      → review_token jwt config now headers ≡ outcome token
  unfolding review_token review_bearer
  review_token-given headers token given =
      elim (text-cases (trim_space (get "Authorization" headers)) "") [
        | inl (_, empty) ↦ absurd (none-ne-some token (sym presented-empty ∙ rw empty at given))
        | inr (other, _) ↦ rw (other, given)
      ]

  -- Without a token the answer is one of the two errors for that.
  pub review_token-missing :
      (headers : Header)
      → presented headers ≡ none
      → review_token jwt config now headers ≡ err (missing_error headers)
  unfolding review_token review_bearer
  review_token-missing headers absent =
      elim (Bool-cases (trim_space (get "Authorization" headers) == "")) [
        | inl empty ↦ rw empty
        | inr other ↦ rw (other, absent)
      ]

  pub review_token_sound :
      (headers : Header) (c : TokenClaims StandardClaims)
      → review_token jwt config now headers ≡ ok (some c)
      → IsAccepted headers c
  review_token_sound headers c h = elim (Option-cases (presented headers)) [
    | inl absent ↦ absurd (cc (review_token-missing headers absent))
    | inr (token, given) ↦
        let (passes, claims) =
          (review_parsed_iff jwt now _ c _ _).0
            (sym (review_token-given headers token given) ∙ h) in
        record { token = token; given = given; passes = passes; claims = claims }
  ]

  pub review_token_complete :
      (headers : Header) (c : TokenClaims StandardClaims)
      → IsAccepted headers c
      → review_token jwt config now headers ≡ ok (some c)
  review_token_complete headers c a =
      review_token-given headers a.token a.given
      ∙ (review_parsed_iff jwt now _ c _ _).1 (a.passes, a.claims)

  -- A review gives claims exactly where the authorization header presents a bearer token that the
  -- parser found nothing wrong with, or only its time of issue, which then is at most two minutes
  -- after now; and they are the claims that the parser read.
  pub review_token_iff :
      (headers : Header) (c : TokenClaims StandardClaims)
      → (review_token jwt config now headers ≡ ok (some c)) ↔ IsAccepted headers c
  review_token_iff headers c = (review_token_sound headers c, review_token_complete headers c)

  -- A parse without a token makes the review panic, and nothing else does.
  pub review_token-panic_iff :
      (headers : Header)
      → (review_token jwt config now headers ≡ panic)
        ↔ ((token : String) × (presented headers ≡ some token) × ((parse token).token ≡ none))
  review_token-panic_iff headers = elim (Option-cases (presented headers)) [
    | inl absent ↦
        (λ h. absurd (cc (review_token-missing headers absent)), λ (token, given, _). absurd (cc))
    | inr (token, given) ↦ (
      λ h. (
        token,
        given,
        (review_parsed-panic_iff jwt now _ _ _).0
            (sym (review_token-given headers token given) ∙ h),
      ),
      λ (other, same, nil).
          review_token-given headers other same ∙ (review_parsed-panic_iff jwt now _ _ _).1 nil,
    )
  ]
