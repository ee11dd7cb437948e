-- ===== src/Auth/Tokens.antt =====
-- cognito.go: what a token has shown when ValidateToken accepts it.
use aelora.Prelude.{
  ◌≡◌, refl, ◌≢◌, ◌⊎◌, String, ◌==◌, eq_iff, Bool, true, false, not, Option, none, some, List, [],
  ◌∷◌, contains, trim_space, arith, if◌then◌else◌,
}
use aelora.Domain.{unauthorized, Result, ok, err}
use aelora.Call.{Call, lift}
use aelora.Call.Post.{Post, Post-if, Post-fail, Post-at, Post-handle}
use aelora.Auth.{
  Identity, PublicKey, Fields, text_of, Token, CognitoValidator, Session, Platform, keyfunc,
  check_claims, bearer, validate_token, check_token,
}
use aelora.Auth.Keys.{Young, keyfunc-Young, Pooled, keyfunc-keys}

-- The claims of an access token of the validator's pool and client.
pub record Claimed (v : CognitoValidator) (device : String) (claims : Fields) (id : Identity)
    : Type 0 where
  pub issued : text_of "iss" claims ≡ v.issuer
  pub addressed :
      (v.app_client ≡ "")
      ⊎ (text_of "aud" claims ≡ v.app_client)
      ⊎ (text_of "client_id" claims ≡ v.app_client)
  pub used : text_of "token_use" claims ≡ "access"
  pub subject : text_of "sub" claims ≡ id.user_id
  pub user_id : id.user_id ≢ ""
  pub device_id : id.device_id ≡ device

-- What the text of a token says: its header, its claims, and by which key it is signed.
pub record Reading : Type 1 where
  pub has_header : String → Fields → Type 0
  pub has_claims : String → Fields → Type 0
  pub signed_by : PublicKey → String → Type 0

-- What package jwt documents: the claims of a token that is parsed without an error are those of its
-- text; and where it is valid, its header names one of the methods, and it was signed with the key
-- that the key function answered for its header.
pub record Verifies {W : Type 0} (p : Platform W) (reading : Reading) : Type 0 where
  pub verified :
      (token : String) (keys : Fields → Call (Session W) PublicKey) (methods : List String)
      (s s' : Session W) (t : Token)
      → p.parse token keys methods s ≡ (ok t, s')
      → t.valid ≡ true
      → (header : Fields) × (key : PublicKey) × reading.has_header token header
        × (contains (text_of "alg" header) methods ≡ true)
        × (keys header s ≡ (ok key, s'))
        × reading.signed_by key token
  pub claimed :
      (token : String) (keys : Fields → Call (Session W) PublicKey) (methods : List String)
      (s s' : Session W) (t : Token) (claims : Fields)
      → p.parse token keys methods s ≡ (ok t, s')
      → t.claims ≡ some claims
      → reading.has_claims token claims

check_claims-Claimed :
    (v : CognitoValidator) (device_id : String) (claims : Fields) (id : Identity)
    → check_claims v device_id claims ≡ ok id
    → Claimed v device_id claims id
unfolding check_claims
check_claims-Claimed v device_id claims id h = ground (
  arith,
  eq_iff (text_of "iss" claims) v.issuer,
  eq_iff v.app_client "",
  eq_iff (text_of "aud" claims) v.app_client,
  eq_iff (text_of "client_id" claims) v.app_client,
  eq_iff (text_of "token_use" claims) "access",
  eq_iff (text_of "sub" claims) "",
)

module _ {W : Type 0} (p : Platform W) where
  -- A token that was accepted: who it names, and the key that it was signed with.
  pub record Authentic (reading : Reading) (v : CognitoValidator) (raw_token device : String)
      (id : Identity) (s : Session W) : Type 0 where
    pub device_named : trim_space device ≢ ""
    pub header : Fields
    pub key : PublicKey
    pub claims : Fields
    pub its_header : reading.has_header (bearer raw_token) header
    pub its_claims : reading.has_claims (bearer raw_token) claims
    pub algorithm : contains (text_of "alg" header) ("RS256" ∷ []) ≡ true
    pub kid : text_of "kid" header ≢ ""
    pub held : Young p (text_of "kid" header) key s
    pub pool : Pooled p v s.keys
    pub signed : reading.signed_by key (bearer raw_token)
    pub claimed : Claimed v device claims id

  token-Claimed :
      (v : CognitoValidator) (device : String) (t : Token) (valid : Bool) (claims : Option Fields)
      → t.valid ≡ valid
      → (id : Identity)
      → (if not valid
          then err unauthorized
          else elim claims [ none ↦ err unauthorized | some c ↦ check_claims v device c ])
        ≡ ok id
      → (t.valid ≡ true) × (c : Fields) × (claims ≡ some c) × Claimed v device c id
  token-Claimed v device t false claims p id h = cc
  token-Claimed v device t true none p id h = cc
  token-Claimed v device t true (some c) p id h = (p, c, refl, check_claims-Claimed v device c id h)

  check_token-Claimed :
      (v : CognitoValidator) (device : String) (t : Token) (id : Identity)
      → check_token v device t ≡ ok id
      → (t.valid ≡ true) × (claims : Fields) × (t.claims ≡ some claims) × Claimed v device claims id
  unfolding check_token
  check_token-Claimed v device t id h = token-Claimed v device t t.valid t.claims refl id h

  Accepted : Reading → CognitoValidator → String → String → Result Identity → Session W → Type 0
  Accepted reading v raw_token device (ok id) s = Authentic reading v raw_token device id s
  Accepted reading v raw_token device (err e) s = Unit

  accept :
      (reading : Reading) (verifies : Verifies p reading) (v : CognitoValidator)
      (raw_token device : String) (s s' : Session W) (t : Token) (r : Result Identity)
      → Pooled p v s.keys
      → trim_space device == "" ≡ false
      → p.parse (bearer raw_token) (keyfunc p v) ("RS256" ∷ []) s ≡ (ok t, s')
      → check_token v device t ≡ r
      → Accepted reading v raw_token device r s'
  unfolding Accepted
  accept reading verifies v raw_token device s s' t (err e) k b h c = tt
  accept reading verifies v raw_token device s s' t (ok id) k b h c =
      let (valid, claims, has, claimed) = check_token-Claimed v device t id c in
      let (header, key, its_header, algorithm, found, signed) =
        verifies.verified _ _ _ s s' t h valid in
      let (kid, held) = keyfunc-Young p v header key s s' found in
      record {
        device_named = λ e. ground (arith, eq_iff (trim_space device) "");
        header = header;
        key = key;
        claims = claims;
        its_header = its_header;
        its_claims = verifies.claimed _ _ _ s s' t claims h has;
        algorithm = algorithm;
        kid = kid;
        held = held;
        pool = keyfunc-keys p v header key s s' k found;
        signed = signed;
        claimed = claimed;
      }

  validate_token-Post :
      (reading : Reading) (verifies : Verifies p reading) (v : CognitoValidator)
      (raw_token device : String) (s : Session W)
      → Pooled p v s.keys
      → Post (Accepted reading v raw_token device) (validate_token p v raw_token device) s
  unfolding validate_token Accepted lift
  validate_token-Post reading verifies v raw_token device s k =
      Post-if (bearer raw_token == "") (λ b. Post-fail tt)
        λ b.
          Post-if (trim_space device == "") (λ b. Post-fail tt)
            λ d.
              Post-handle (p.parse (bearer raw_token) (keyfunc p v) ("RS256" ∷ [])) s
                (λ e s' h. Post-fail tt)
                λ t s' h. record {
                  holds =
                      accept reading verifies v raw_token device s s' t (check_token v device t) k d
                        h refl;
                }

  Nonempty : Result Identity → Session W → Type 0
  Nonempty (ok id) s = id.user_id ≢ ""
  Nonempty (err e) s = Unit

  check_token-Nonempty :
      (v : CognitoValidator) (device : String) (t : Token) (r : Result Identity) (s : Session W)
      → check_token v device t ≡ r
      → Nonempty r s
  unfolding Nonempty
  check_token-Nonempty v device t (ok id) s h =
      let (valid, claims, found, claimed) = check_token-Claimed v device t id h in claimed.user_id
  check_token-Nonempty v device t (err e) s h = tt

  -- Whatever the parser does, a user that is answered has a name.
  pub validate_token-Nonempty :
      (v : CognitoValidator) (raw_token device : String) (id : Identity) (s s' : Session W)
      → validate_token p v raw_token device s ≡ (ok id, s')
      → id.user_id ≢ ""
  unfolding Nonempty validate_token lift
  validate_token-Nonempty v raw_token device id s s' h =
      Post-at {Q = Nonempty} (ok id) s'
        (Post-if (bearer raw_token == "") (λ b. Post-fail tt)
          λ b.
            Post-if (trim_space device == "") (λ b. Post-fail tt)
              λ d.
                Post-handle (p.parse (bearer raw_token) (keyfunc p v) ("RS256" ∷ [])) s
                  (λ e s1 g. Post-fail tt)
                  λ t s1 g. record {
                    holds = check_token-Nonempty v device t (check_token v device t) s1 refl;
                  })
        h

  -- Where the keys in the cache are those of an answer of the pool's address, or there are none yet,
  -- a call that accepts a token has found all of it in order: a device is named; a key that the
  -- token's header names, has signed the token with RS256, stands in the cache, was read less than ten
  -- minutes ago, and the cache's keys are still those of such an answer; and the token's own claims
  -- are those of an access token of this pool and client whose subject, which is not empty, is the
  -- user.
  pub validate_token-Authentic :
      (reading : Reading) (verifies : Verifies p reading) (v : CognitoValidator)
      (raw_token device : String) (id : Identity) (s s' : Session W)
      → Pooled p v s.keys
      → validate_token p v raw_token device s ≡ (ok id, s')
      → Authentic reading v raw_token device id s'
  unfolding Accepted
  validate_token-Authentic reading verifies v raw_token device id s s' k h =
      Post-at {Q = Accepted reading v raw_token device} (ok id) s'
        (validate_token-Post reading verifies v raw_token device s k) h
