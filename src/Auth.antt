-- ===== src/Auth.antt =====
-- internal/platform/auth/cognito.go: the keys of the user pool, and the check of a bearer token.
-- The HTTP client, the JSON and base64 decoders and package jwt are parameters.
pub mod Keys
pub mod Tokens
use aelora.Prelude.{
  ℕ, ◌+◌, ◌*◌, ◌%◌, ◌^◌, String, ◌==◌, Bool, true, false, not, ◌&&◌, ◌||◌, Option, none, some, List,
  [], ◌∷◌, ltb, eqb, is_nil, lookup, insert, trim_space, trim_prefix, or_else, concat,
  if◌then◌else◌,
}
use aelora.Domain.{Error, unauthorized, other, Result, ok, err}
use aelora.Call.{Call, pure, fail, lift, read, modify, handle, given, ◌>>=◌, ◌>>◌}

pub record Identity : Type 0 where
  pub user_id : String
  pub username : String
  pub device_id : String

-- An exponent is a Go `int`, kept as its 64 bits.
pub record PublicKey : Type 0 where
  pub n : ℕ
  pub e : ℕ

pub record Jwk : Type 0 where
  pub kty : String
  pub kid : String
  pub n : String
  pub e : String

pub record Response : Type 0 where
  pub status_code : ℕ
  pub body : String

-- The string values of a token's header or claims: `x, _ := fields[name].(string)`.
abbrev pub Fields : Type 0
Fields = String → Option String

abbrev pub text_of : String → Fields → String
text_of name fields = or_else (fields name) ""

pub record Token : Type 0 where
  pub valid : Bool
  pub claims : Option Fields

pub record CognitoValidator : Type 0 where
  pub issuer : String
  pub app_client : String
  pub jwks_url : String

unfoldable pub new_cognito_validator : String → String → String → CognitoValidator
new_cognito_validator region user_pool_id app_client_id =
    let issuer =
      concat "https://cognito-idp." (concat region (concat ".amazonaws.com/" user_pool_id)) in
    record {
      issuer = issuer;
      app_client = app_client_id;
      jwks_url = concat issuer "/.well-known/jwks.json";
    }

-- What the mutex guards, and the world in which requests are made. Times count nanoseconds.
pub record Session (W : Type 0) : Type 0 where
  pub keys : List (String × PublicKey)
  pub fetched_at : ℕ
  pub world : W

-- `parse token keyfunc methods` is `jwt.Parse` with `WithValidMethods(methods)`: `keyfunc` takes the
-- header of the token.
pub record Platform (W : Type 0) : Type 0 where
  pub now : W → ℕ
  pub get : String → Call W Response
  pub decode_jwks : String → Result (List Jwk)
  pub decode_base64 : String → Result (List ℕ)
  pub parse : String → (Fields → Call (Session W) PublicKey) → List String → Call (Session W) Token

abbrev pub key_ttl : ℕ
key_ttl = 600000000000

-- `new(big.Int).SetBytes(bytes)`
big_endian : ℕ → List ℕ → ℕ
big_endian n [] = n
big_endian n (b ∷ rest) = big_endian (n * 256 + b) rest

exponent : ℕ → List ℕ → ℕ
exponent e [] = e
exponent e (b ∷ rest) = exponent ((e * 256 + b) % 2 ^ 64) rest

key_of_bytes : List ℕ → List ℕ → Result PublicKey
unfolding big_endian exponent
key_of_bytes n_bytes e_bytes =
    let n = big_endian 0 n_bytes in
    let e = exponent 0 e_bytes in
    if eqb n 0 || eqb e 0 then err (other "invalid rsa jwk") else ok (record { n = n; e = e })

key_of_parts : Result (List ℕ) → Result (List ℕ) → Result PublicKey
unfolding key_of_bytes
key_of_parts (err e) exponent_bytes = err e
key_of_parts (ok n_bytes) (err e) = err e
key_of_parts (ok n_bytes) (ok e_bytes) = key_of_bytes n_bytes e_bytes

-- Whether the claims are an access token's of this pool and this client.
unfoldable pub check_claims : CognitoValidator → String → Fields → Result Identity
check_claims v device_id claims =
    if not (text_of "iss" claims == v.issuer)
    then err unauthorized
    else if not (v.app_client == "")
        && not (text_of "aud" claims == v.app_client)
        && not (text_of "client_id" claims == v.app_client)
    then err unauthorized
    else if not (text_of "token_use" claims == "access")
    then err unauthorized
    else if text_of "sub" claims == ""
    then err unauthorized
    else ok (record {
      user_id = text_of "sub" claims;
      username = text_of "cognito:username" claims;
      device_id = device_id;
    })

check_token : CognitoValidator → String → Token → Result Identity
unfolding check_claims
check_token v device_id parsed = if not parsed.valid then err unauthorized else elim parsed.claims [
  | none ↦ err unauthorized
  | some claims ↦ check_claims v device_id claims
]

abbrev pub bearer : String → String
bearer raw_token = trim_space (trim_prefix raw_token "Bearer ")

module _ {W : Type 0} (p : Platform W) where
  unfoldable pub rsa_key_from_jwk : String → String → Result PublicKey
  unfolding key_of_parts
  rsa_key_from_jwk n_b64 e_b64 = key_of_parts (p.decode_base64 n_b64) (p.decode_base64 e_b64)

  add_key : Jwk → Result PublicKey → List (String × PublicKey) → List (String × PublicKey)
  add_key k (err e) next = next
  add_key k (ok pub_key) next = insert k.kid pub_key next

  -- The loop over the keys of the response.
  unfoldable pub collect_keys : List Jwk → List (String × PublicKey) → List (String × PublicKey)
  unfolding rsa_key_from_jwk add_key
  collect_keys [] next = next
  collect_keys (k ∷ rest) next =
      if not (k.kty == "RSA") || (k.kid == "")
      then collect_keys rest next
      else collect_keys rest (add_key k (rsa_key_from_jwk k.n k.e) next)

  -- A request, made in the world of the session.
  fetch : String → Call (Session W) Response
  fetch url s = let (r, w) = p.get url s.world in (r, record s { world = w })

  set_keys : List (String × PublicKey) → Session W → Session W
  set_keys next s = record s { keys = next; fetched_at = p.now s.world }

  unfoldable pub refresh_keys : CognitoValidator → Call (Session W) (Unit {0})
  unfolding collect_keys fetch set_keys
  refresh_keys v = do
    resp ← fetch v.jwks_url
    if not (eqb resp.status_code 200) then fail unauthorized else do
      payload ← lift (p.decode_jwks resp.body)
      let next = collect_keys payload []
      if is_nil next then fail unauthorized else modify (set_keys next)

  -- `v.keys[kid]`, where the keys are younger than ten minutes.
  unfoldable pub fresh_key : String → Session W → Option PublicKey
  fresh_key kid s = elim (lookup kid s.keys) [
    | none ↦ none
    | some key ↦ if ltb (p.now s.world) (s.fetched_at + key_ttl) then some key else none
  ]

  read_key : String → Call (Session W) PublicKey
  read_key kid = do found ← read (λ s. lookup kid s.keys); given found (fail unauthorized) pure

  unfoldable pub lookup_key : CognitoValidator → String → Call (Session W) PublicKey
  unfolding fresh_key read_key refresh_keys
  lookup_key v kid = do
    found ← read (fresh_key kid)
    given found (refresh_keys v >> read_key kid) pure

  -- The function that is passed to `jwt.Parse`.
  unfoldable pub keyfunc : CognitoValidator → Fields → Call (Session W) PublicKey
  unfolding lookup_key
  keyfunc v header =
      let kid = text_of "kid" header in if kid == "" then fail unauthorized else lookup_key v kid

  -- Every failure of the parser is answered as unauthorized.
  unfoldable pub validate_token : CognitoValidator → String → String → Call (Session W) Identity
  unfolding keyfunc check_token
  validate_token v raw_token device_id =
      let token = bearer raw_token in
      if token == ""
      then fail unauthorized
      else if trim_space device_id == ""
      then fail unauthorized
      else handle (p.parse token (keyfunc v) ("RS256" ∷ [])) (λ e. fail unauthorized)
          λ parsed. lift (check_token v device_id parsed)
