-- ===== src/Controllers/Billing/Marketplace/Laws.antt =====
-- Registration and verification with AWS Marketplace.
use universal_crossplane.Base.{
  String, ◌≡◌, ◌≢◌, refl, ◌↔◌, ◌⊎◌, inl, inr, Bool, true, false, Option, none, some, Error, ok,
  wrap_nil, arith, eq_iff, text-cases,
}
use universal_crossplane.Base.Dict.{Dict, lookup, get_text, get_text-insert_self, insert}
use universal_crossplane.Jwt.{ParseError, Parsed, Claim, str, num, other}
use universal_crossplane.Controllers.Kube.{Secret, entries}
use universal_crossplane.Controllers.Billing.Marketplace.{
  Metering, is_text, is_number, check_claims, verify_parsed, verify, register, save_signature,
  marketplace_product_code, marketplace_public_key_version, secret_key_aws_metering_signature,
}

wrap_nil-eq_none : (msg : String) (e : Option Error) → wrap_nil msg e ≡ none → e ≡ none
wrap_nil-eq_none msg none h = refl
wrap_nil-eq_none msg (some e) h = absurd (cc)

module _ (A : Metering) where
  is_text_iff :
      (c : Option (Claim A.Float)) (t : String) → (is_text A c t ≡ true) ↔ (c ≡ some (str t))
  is_text_iff none t = ground arith
  is_text_iff (some (str s)) t = ground (arith, eq_iff s t)
  is_text_iff (some (num n)) t = ground arith
  is_text_iff (some other) t = ground arith

  -- The claims that AWS signs for this product and this cluster.
  pub record IsEntitled (claims : Dict (Claim A.Float)) (uid : String) : Type 0 where
    pub product_code : lookup "productCode" claims ≡ some (str marketplace_product_code)
    pub nonce : lookup "nonce" claims ≡ some (str uid)
    pub version :
        is_number A (lookup "publicKeyVersion" claims) (A.float_of marketplace_public_key_version)
        ≡ true

  check_claims-eq_true :
      (claims : Dict (Claim A.Float)) (uid : String)
      → check_claims A claims uid ≡ ok true
      → IsEntitled claims uid
  unfolding check_claims
  check_claims-eq_true claims uid h =
      let tests : (is_text A (lookup "productCode" claims) marketplace_product_code ≡ true)
          × (is_text A (lookup "nonce" claims) uid ≡ true)
          × (is_number A (lookup "publicKeyVersion" claims)
                (A.float_of marketplace_public_key_version)
              ≡ true) =
        ground arith in
      record {
        product_code = (is_text_iff _ _).0 tests.0;
        nonce = (is_text_iff _ _).0 tests.1;
        version = tests.2;
      }

  check_claims-IsEntitled :
      (claims : Dict (Claim A.Float)) (uid : String)
      → IsEntitled claims uid
      → check_claims A claims uid ≡ ok true
  unfolding check_claims
  check_claims-IsEntitled claims uid e =
      let product : is_text A (lookup "productCode" claims) marketplace_product_code ≡ true =
        (is_text_iff _ _).1 e.product_code in
      let nonce : is_text A (lookup "nonce" claims) uid ≡ true = (is_text_iff _ _).1 e.nonce in
      rw (product, nonce, e.version)

  -- What the parser made of the token.
  abbrev pub parse : String → String → Parsed (Dict (Claim A.Float))
  parse public_key token = A.parse_with_claims token (A.parse_rsa_public_key_from_pem public_key)

  -- The parser took the token without an error, and its claims are those of the product.
  pub record IsConfirmed (public_key token uid : String) : Type 0 where
    pub accepted : (parse public_key token).token ≡ some true
    pub no_error : (parse public_key token).error ≡ none
    pub entitled : IsEntitled (parse public_key token).claims uid

  verify_parsed-eq_true :
      (t : Option Bool) (e : Option ParseError) (claims : Dict (Claim A.Float)) (uid : String)
      → verify_parsed A t e claims uid ≡ ok true
      → (t ≡ some true) × (e ≡ none) × (check_claims A claims uid ≡ ok true)
  unfolding verify_parsed
  verify_parsed-eq_true t (some e) claims uid h = absurd (cc)
  verify_parsed-eq_true none none claims uid h = absurd (cc)
  verify_parsed-eq_true (some false) none claims uid h = ground arith
  verify_parsed-eq_true (some true) none claims uid h = (refl, refl, h)

  -- The marketplace verifies a token for a UID exactly where the parser accepted it under the
  -- public key without an error, and its claims are the product code and the UID as texts and the
  -- version of the key as a number.
  pub verify_iff :
      (public_key token uid : String)
      → (verify A public_key token uid ≡ ok true) ↔ IsConfirmed public_key token uid
  unfolding verify verify_parsed
  verify_iff public_key token uid = (
    λ h.
        let (accepted, no_error, checked) =
          verify_parsed-eq_true (parse public_key token).token (parse public_key token).error _ uid
            h in
        record {
          accepted = accepted;
          no_error = no_error;
          entitled = check_claims-eq_true _ uid checked;
        },
    λ c. rw (c.accepted, c.no_error) (check_claims-IsEntitled _ uid c.entitled),
  )

  abbrev pub signature_of : Secret → String
  signature_of s = get_text secret_key_aws_metering_signature (entries s.contents)

  pub register-registered :
      (s : Secret) (uid : String) (w : A.World)
      → signature_of s ≢ ""
      → register A s uid w ≡ record { token = signature_of s; error = none; secret = s; world = w }
  unfolding register
  register-registered s uid w given = elim (text-cases (signature_of s) "") [
    | inl (_, empty) ↦ absurd (given empty)
    | inr (present, _) ↦ rw present
  ]

  save_signature-secret :
      (s : Secret) (answer : Error ⊎ String) (w : A.World)
      → (save_signature A s answer w).token ≢ ""
      → signature_of (save_signature A s answer w).secret ≡ (save_signature A s answer w).token
  unfolding save_signature
  save_signature-secret s (inl e) w given = absurd (given refl)
  save_signature-secret s (inr signature) w given =
      get_text-insert_self secret_key_aws_metering_signature signature (entries s.contents)

  pub register-secret :
      (s : Secret) (uid : String) (w : A.World)
      → (register A s uid w).token ≢ ""
      → signature_of (register A s uid w).secret ≡ (register A s uid w).token
  unfolding register
  register-secret s uid w given = elim (text-cases (signature_of s) "") [
    | inl (empty, _) ↦ rw empty (save_signature-secret s _ _ (rw empty at given))
    | inr (present, _) ↦ rw present
  ]

  -- A registration that gave a signature which is not empty, asked for again with the secret that
  -- it left, at any time and for any UID, gives the same signature without an error, leaves the
  -- secret and calls nothing.
  pub register_again :
      (s : Secret) (uid uid' : String) (w w' : A.World)
      → (register A s uid w).token ≢ ""
      → register A (register A s uid w).secret uid' w' ≡ record {
        token = (register A s uid w).token;
        error = none;
        secret = (register A s uid w).secret;
        world = w';
      }
  register_again s uid uid' w w' given =
      let same = register-secret s uid w given in
      rw same at (register-registered (register A s uid w).secret uid' w' (rw same given))

  -- The secret with a signature in it.
  abbrev pub signed : String → Secret → Secret
  signed signature s = record s {
    contents = some (insert secret_key_aws_metering_signature signature (entries s.contents));
  }

  -- Where the token of a registration comes from: it is stored in the secret, or the secret has
  -- none, and it was given for the UID as the nonce and was then applied.
  pub data IsRegistered (s : Secret) (uid : String) (w : A.World) (token : String) : Type 0 where
    stored : signature_of s ≢ "" → token ≡ signature_of s → IsRegistered s uid w token
    given :
        {w1 w2 : A.World}
        → signature_of s ≡ ""
        → A.register_usage
            (record {
              product_code = marketplace_product_code;
              public_key_version = marketplace_public_key_version;
              nonce = uid;
            })
            w
          ≡ (inr token, w1)
        → A.apply (signed token s) w1 ≡ (none, w2)
        → IsRegistered s uid w token

  save_signature-IsRegistered :
      (s : Secret) (uid : String) (w : A.World) (o : (Error ⊎ String) × A.World)
      → signature_of s ≡ ""
      → A.register_usage
          (record {
            product_code = marketplace_product_code;
            public_key_version = marketplace_public_key_version;
            nonce = uid;
          })
          w
        ≡ o
      → (save_signature A s o.0 o.1).error ≡ none
      → IsRegistered s uid w (save_signature A s o.0 o.1).token
  unfolding save_signature
  save_signature-IsRegistered s uid w (inl e, w1) blank called h = absurd (cc)
  save_signature-IsRegistered s uid w (inr token, w1) blank called h =
      given blank called (λ i. (wrap_nil-eq_none _ _ h i, (A.apply (signed token s) w1).1))

  -- A registration without an error has a token that was stored, or given and applied.
  pub register-IsRegistered :
      (s : Secret) (uid : String) (w : A.World)
      → (register A s uid w).error ≡ none
      → IsRegistered s uid w (register A s uid w).token
  unfolding register
  register-IsRegistered s uid w h = elim (text-cases (signature_of s) "") [
    | inl (empty, blank) ↦
        rw empty (save_signature-IsRegistered s uid w _ blank refl (rw empty at h))
    | inr (present, ne) ↦ rw present (stored ne refl)
  ]
