-- ===== src/Auth/Keys.antt =====
-- cognito.go: what a refresh leaves, and the age of a key that is found.
use aelora.Prelude.{
  ◌+◌, ◌<◌, ◌≡◌, refl, ap, ◌∙◌, ◌≢◌, String, ◌==◌, eq_iff, false, not, some, List, [], is_nil, eqb,
  eqb_iff, lookup, arith,
}
use aelora.Domain.{Result, ok, err}
use aelora.Call.{modify}
use aelora.Call.Post.{
  Post, Post-bind, Post-read, Post-weaken, Post-given, Post-if, Post-fail, Post-lift, Post-pure,
  Post-then, Post-at,
}
use aelora.Auth.{
  PublicKey, Fields, text_of, Response, Jwk, CognitoValidator, Session, Platform, key_ttl,
  collect_keys, refresh_keys, fresh_key, lookup_key, keyfunc, fetch, set_keys, read_key,
}

-- The key of a validator that is younger than ten minutes.
module _ {W : Type 0} (p : Platform W) where
  pub record Young (kid : String) (key : PublicKey) (s : Session W) : Type 0 where
    pub kept : lookup kid s.keys ≡ some key
    pub young : p.now s.world < s.fetched_at + key_ttl

module _ {W : Type 0} (p : Platform W) where
  -- The usable keys of an answer from the pool, which were read just now.
  pub record Renewed (v : CognitoValidator) (s s' : Session W) : Type 0 where
    pub resp : Response
    pub payload : List Jwk
    pub answered : (p.get v.jwks_url s.world).0 ≡ ok resp
    pub status : resp.status_code ≡ 200
    pub decoded : p.decode_jwks resp.body ≡ ok payload
    pub keys : s'.keys ≡ collect_keys p payload []
    pub some_key : is_nil s'.keys ≡ false
    pub time : s'.fetched_at ≡ p.now s'.world

  pub Refreshed : CognitoValidator → Session W → Result (Unit {0}) → Session W → Type 0
  Refreshed v s (ok done) s' = Renewed v s s'
  Refreshed v s (err e) s' = (s'.keys ≡ s.keys) × (s'.fetched_at ≡ s.fetched_at)

  -- A refresh fails and leaves the keys and their time as they were, or the pool has answered 200
  -- with keys of which at least one is usable, and the usable ones stand in place of all earlier
  -- keys, with the time of now.
  pub refresh_keys-Post :
      (v : CognitoValidator) (s : Session W) → Post (Refreshed v s) (refresh_keys p v) s
  unfolding refresh_keys Refreshed fetch set_keys modify
  refresh_keys-Post v s =
      Post-bind (fetch p v.jwks_url) s (λ e s1 h. (cc, cc))
        λ resp s1 h.
          Post-if (not (eqb resp.status_code 200)) (λ b. Post-fail (cc, cc))
            λ b.
              Post-lift (p.decode_jwks resp.body) (λ e d. (cc, cc))
                λ payload d.
                  Post-if (is_nil (collect_keys p payload [])) (λ n. Post-fail (cc, cc))
                    λ n. record {
                      holds = record {
                        resp = resp;
                        payload = payload;
                        answered = ap (λ x. x.0) h;
                        status = ground (arith, eqb_iff resp.status_code 200);
                        decoded = d;
                        keys = refl;
                        some_key = n;
                        time = refl;
                      };
                    }

  -- The keys are the usable ones of an answer of the pool's address, or there are none yet.
  pub data Pooled (v : CognitoValidator) (keys : List (String × PublicKey)) : Type 0 where
    none_yet : keys ≡ [] → Pooled v keys
    of_pool :
        (resp : Response) (payload : List Jwk) (w : W)
        → (p.get v.jwks_url w).0 ≡ ok resp
        → resp.status_code ≡ 200
        → p.decode_jwks resp.body ≡ ok payload
        → keys ≡ collect_keys p payload []
        → Pooled v keys

  Refreshed-Pooled :
      (v : CognitoValidator) (s : Session W) (r : Result (Unit {0})) (s' : Session W)
      → Pooled v s.keys
      → Refreshed v s r s'
      → Pooled v s'.keys
  unfolding Refreshed
  Refreshed-Pooled v s (ok done) s' k q =
      of_pool q.resp q.payload s.world q.answered q.status q.decoded q.keys
  Refreshed-Pooled v s (err e) s' k q = rw q.0 k

  Held : String → Result PublicKey → Session W → Type 0
  Held kid (ok key) s = Young p kid key s
  Held kid (err e) s = Unit

  fresh_key-Young :
      (kid : String) (key : PublicKey) (s : Session W)
      → fresh_key p kid s ≡ some key
      → Young p kid key s
  unfolding fresh_key
  fresh_key-Young kid key s h = ground (arith, lookup kid s.keys)

  read_key-Post :
      (kid : String) (s : Session W)
      → s.fetched_at ≡ p.now s.world
      → Post (Held kid) (read_key p kid) s
  unfolding read_key Held
  read_key-Post kid s h =
      Post-read (λ s. lookup kid s.keys)
        λ found f.
          Post-given found (λ n. Post-fail tt)
            λ key k. Post-pure (record { kept = f ∙ k; young = omega arith })

  -- A key that is found stands in the cache, which was read less than ten minutes ago.
  lookup_key-Post :
      (v : CognitoValidator) (kid : String) (s : Session W) → Post (Held kid) (lookup_key p v kid) s
  unfolding lookup_key Held Refreshed
  lookup_key-Post v kid s = Post-read (fresh_key p kid) λ found f.
      Post-given found
        (λ n.
          Post-then (refresh_keys-Post v s) (λ e s1 q. tt) λ u s1 h q. read_key-Post kid s1 q.time)
        λ key g. Post-pure (fresh_key-Young kid key s (f ∙ g))

  KeepsPooled : CognitoValidator → {A : Type 0} → Result A → Session W → Type 0
  KeepsPooled v r s = Pooled v s.keys

  read_key-Pooled :
      (v : CognitoValidator) (kid : String) (s : Session W)
      → Pooled v s.keys
      → Post (KeepsPooled v) (read_key p kid) s
  unfolding read_key KeepsPooled
  read_key-Pooled v kid s k =
      Post-read (λ s. lookup kid s.keys)
        λ found f. Post-given found (λ n. Post-fail k) λ key g. Post-pure k

  keyfunc-Pooled :
      (v : CognitoValidator) (header : Fields) (s : Session W)
      → Pooled v s.keys
      → Post (KeepsPooled v) (keyfunc p v header) s
  unfolding keyfunc lookup_key KeepsPooled
  keyfunc-Pooled v header s k =
      Post-if (text_of "kid" header == "") (λ b. Post-fail k)
        λ b. Post-read (fresh_key p (text_of "kid" header)) λ found f.
          Post-given found
            (λ n.
              Post-then (refresh_keys-Post v s) (λ e s1 q. Refreshed-Pooled v s (err e) s1 k q)
                λ u s1 h q.
                  read_key-Pooled v (text_of "kid" header) s1 (Refreshed-Pooled v s (ok u) s1 k q))
            λ key g. Post-pure k

  Named : Fields → Result PublicKey → Session W → Type 0
  Named header (ok key) s = (text_of "kid" header ≢ "") × Young p (text_of "kid" header) key s
  Named header (err e) s = Unit

  named :
      (header : Fields) (r : Result PublicKey) (s : Session W)
      → text_of "kid" header == "" ≡ false
      → Held (text_of "kid" header) r s
      → Named header r s
  unfolding Held Named
  named header (ok key) s b h = (λ e. ground (arith, eq_iff (text_of "kid" header) ""), h)
  named header (err e) s b h = tt

  keyfunc-Post :
      (v : CognitoValidator) (header : Fields) (s : Session W)
      → Post (Named header) (keyfunc p v header) s
  unfolding keyfunc Named
  keyfunc-Post v header s =
      Post-if (text_of "kid" header == "") (λ b. Post-fail tt)
        λ b.
          Post-weaken (λ r s' h. named header r s' b h) (lookup_key-Post v (text_of "kid" header) s)

  -- The key that a token's header asks for has a name and is young.
  pub keyfunc-Young :
      (v : CognitoValidator) (header : Fields) (key : PublicKey) (s s' : Session W)
      → keyfunc p v header s ≡ (ok key, s')
      → (text_of "kid" header ≢ "") × Young p (text_of "kid" header) key s'
  unfolding Named
  keyfunc-Young v header key s s' h =
      Post-at {Q = Named header} (ok key) s' (keyfunc-Post v header s) h

  -- A call for a key leaves keys of the pool, if there were no others before.
  pub keyfunc-keys :
      (v : CognitoValidator) (header : Fields) (key : PublicKey) (s s' : Session W)
      → Pooled v s.keys
      → keyfunc p v header s ≡ (ok key, s')
      → Pooled v s'.keys
  unfolding KeepsPooled
  keyfunc-keys v header key s s' k h =
      Post-at {Q = KeepsPooled v} (ok key) s' (keyfunc-Pooled v header s k) h
