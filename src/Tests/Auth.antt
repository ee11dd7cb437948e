-- ===== src/Tests/Auth.antt =====
-- A pool with one key, and a token that it signed.
use aelora.Prelude.{
  ℕ, ◌≡◌, refl, sym, ◌∙◌, String, ◌==◌, Bool, true, ◌&&◌, none, some, List, [], ◌∷◌, eqb, arith,
  contains, trim_space, if◌then◌else◌,
}
use aelora.Domain.{Result, ok, err}
use aelora.Call.{Call, handle, fail, pure, read, lift, modify}
use aelora.Call.Post.{Post, Post-handle, Post-fail, Post-pure, Post-at}
use aelora.Auth.{
  Identity, PublicKey, Fields, Token, CognitoValidator, new_cognito_validator, Session, Platform,
  validate_token,
}
use mathlib.Core.Option.{some-injective}
use aelora.Auth.Keys.{none_yet}
use aelora.Auth.Tokens.{Reading, Verifies, Authentic, validate_token-Authentic}

abbrev header : Fields
header name = if name == "alg" then some "RS256" else if name == "kid" then some "k1" else none

abbrev claims : Fields
claims name =
    if name == "iss"
    then some "https://cognito-idp.r.amazonaws.com/p"
    else if name == "client_id"
    then some "app"
    else if name == "token_use"
    then some "access"
    else if name == "sub"
    then some "alice"
    else none

abbrev signed : PublicKey → Bool
signed key = eqb key.n 5

abbrev token : List String → PublicKey → Token
token methods key = record { valid = signed key && contains "RS256" methods; claims = some claims }

abbrev pub platform : Platform ℕ
platform = record {
  now = λ w. w;
  get = λ url. pure (record { status_code = 200; body = url });
  decode_jwks = λ body. ok (record { kty = "RSA"; kid = "k1"; n = "n"; e = "e" } ∷ []);
  decode_base64 = λ text. if text == "n" then ok (5 ∷ []) else ok (1 ∷ 0 ∷ 1 ∷ []);
  parse = λ raw keys methods. handle (keys header) fail λ key. pure (token methods key);
}

-- What is known of a token that the parser answers with the keys `keys`.
Shown :
    (Fields → Call (Session ℕ) PublicKey)
    → List String
    → Session ℕ
    → Result Token
    → Session ℕ
    → Type 0
Shown keys methods s (err e) s' = Unit
Shown keys methods s (ok t) s' =
    t.valid ≡ true
    → (key : PublicKey) × (contains "RS256" methods ≡ true)
      × (keys header s ≡ (ok key, s'))
      × (signed key ≡ true)

parse-Post :
    (keys : Fields → Call (Session ℕ) PublicKey) (methods : List String) (s : Session ℕ)
    → Post (Shown keys methods s) (handle (keys header) fail λ key. pure (token methods key)) s
unfolding Shown
parse-Post keys methods s =
    Post-handle (keys header) s (λ e s' h. Post-fail tt)
      λ key s' h. Post-pure λ valid. (key, ground arith, h, ground arith)

-- Every text stands for the one token.
abbrev reading : Reading
reading = record {
  has_header = λ raw h. h ≡ header;
  has_claims = λ raw c. c ≡ claims;
  signed_by = λ key raw. signed key ≡ true;
}

-- The claims of what the parser answers.
HasClaims : Result Token → Session ℕ → Type 0
HasClaims (err e) s = Unit
HasClaims (ok t) s = t.claims ≡ some claims

claims-Post :
    (keys : Fields → Call (Session ℕ) PublicKey) (methods : List String) (s : Session ℕ)
    → Post HasClaims (handle (keys header) fail λ key. pure (token methods key)) s
unfolding HasClaims
claims-Post keys methods s =
    Post-handle (keys header) s (λ e s' h. Post-fail tt) λ key s' h. Post-pure refl

verifies : Verifies platform reading
unfolding Shown HasClaims
verifies = record {
  verified = λ raw keys methods s s' t h valid.
      let (key, method, found, good) =
        Post-at {Q = Shown keys methods s} (ok t) s' (parse-Post keys methods s) h valid in
      (header, key, refl, method, found, good);
  claimed = λ raw keys methods s s' t c h has.
      some-injective _ _
        (sym has ∙ Post-at {Q = HasClaims} (ok t) s' (claims-Post keys methods s) h);
}

abbrev pub validator : CognitoValidator
validator = record {
  issuer = "https://cognito-idp.r.amazonaws.com/p";
  app_client = "app";
  jwks_url = "https://cognito-idp.r.amazonaws.com/p/.well-known/jwks.json";
}

new_validator : new_cognito_validator "r" "p" "app" ≡ validator
unfolding new_cognito_validator
new_validator = refl

abbrev pub session : ℕ → List (String × PublicKey) → ℕ → Session ℕ
session time keys fetched_at = record { keys = keys; fetched_at = fetched_at; world = time }

-- The keys are read on the first use.
after : Session ℕ
after = session 1000000000000 (("k1", record { n = 5; e = 65537 }) ∷ []) 1000000000000

abbrev alice : Identity
alice = record { user_id = "alice"; username = ""; device_id = "d1" }

validate_token_run :
    validate_token platform validator "Bearer x.y.z" "d1" (session 1000000000000 [] 0)
    ≡ (ok alice, after)
unfolding validate_token trim_space read lift modify after
validate_token_run = refl

validate_token-Authentic_example :
    Authentic platform reading validator "Bearer x.y.z" "d1" alice after
validate_token-Authentic_example =
    validate_token-Authentic platform reading verifies validator "Bearer x.y.z" "d1" alice
      (session 1000000000000 [] 0) after (none_yet refl) validate_token_run
