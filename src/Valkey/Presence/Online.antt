-- ===== src/Valkey/Presence/Online.antt =====
-- presence_repo.go: a user is online while one of the user's devices is.
use aelora.Prelude.{
  ℕ, String, ◌≡◌, sym, ap, ◌∙◌, Bool, true, false, ◌||◌, Option, List, [], ◌∷◌, ltb, or_else, arith,
}
use aelora.Domain.{Result, ok, err}
use aelora.Call.{pure, handle}
use aelora.Call.Post.{
  Post, Post-pure, Post-if, Post-bind, Post-handle, Post-then, Post-weaken, Post-at,
}
use aelora.Valkey.{Client, presence_key, presence_devices_key}
use aelora.Valkey.Presence.{Repository, scan_devices, is_online}

-- What Valkey documents: `live s key` says whether the text under a key is there and has not
-- expired, and `members s key` what the set under a key holds. Commands on sets leave the texts alone.
pub record PresenceLaws {S : Type 0} (client : Client S) (live : S → String → Bool)
    (members : S → String → List String) : Type 0 where
  pub smembers_reads :
      (key : String) (found : Option (List String)) (s s' : S)
      → client.smembers key s ≡ (ok found, s')
      → (or_else found [] ≡ members s key) × (live s' ≡ live s)
  pub exists_reads :
      (key : String) (n : ℕ) (s s' : S)
      → client.exists key s ≡ (ok n, s')
      → (ltb 0 n ≡ live s key) × (live s' ≡ live s)
  pub srem_keeps :
      (key member : String) (r : Result (Unit {0})) (s s' : S)
      → client.srem key member s ≡ (r, s')
      → live s' ≡ live s

-- Whether one of the devices has a live key.
abbrev pub any_live : (String → Bool) → String → List String → Bool
any_live live user [] = false
any_live live user (device ∷ rest) = live (presence_key user device) || any_live live user rest

module _ {S : Type 0} (r : Repository S) (live : S → String → Bool)
    (members : S → String → List String) (laws : PresenceLaws r.client live members) where
  Seen : (String → Bool) → String → Bool → List String → Result Bool → S → Type 0
  Seen now user online devices (ok b) s = b ≡ online || any_live now user devices
  Seen now user online devices (err e) s = Unit

  one_more :
      (now : String → Bool) (user device : String) (online found : Bool) (rest : List String)
      → now (presence_key user device) ≡ found
      → (o : Result Bool) (s : S) → Seen now user (found || online) rest o s
      → Seen now user online (device ∷ rest) o s
  unfolding Seen
  one_more now user device online found rest e (ok b) s h = ground arith
  one_more now user device online found rest e (err x) s h = tt

  -- The member of a device that is not live is dropped, or the error is.
  drop-Post :
      (now : String → Bool) (user device : String) (s : S)
      → live s ≡ now
      → Post
          (λ o s'. live s' ≡ now)
          (handle (r.client.srem (presence_devices_key user) device) (λ e. pure tt) pure)
          s
  drop-Post now user device s e =
      Post-handle (r.client.srem (presence_devices_key user) device) s
        (λ x s1 h. Post-pure (laws.srem_keeps _ _ _ s s1 h ∙ e))
        λ u s1 h. Post-pure (laws.srem_keeps _ _ _ s s1 h ∙ e)

  scan_devices-Post :
      (now : String → Bool) (user : String) (online : Bool) (devices : List String) (s : S)
      → live s ≡ now
      → Post (Seen now user online devices) (scan_devices r user online devices) s
  unfolding scan_devices Seen
  scan_devices-Post now user online [] s e = Post-pure (ground arith)
  scan_devices-Post now user online (device ∷ rest) s e =
      Post-bind (r.client.exists (presence_key user device)) s (λ x s1 h. tt)
        λ n s1 h.
          let (reads, kept) = laws.exists_reads (presence_key user device) n s s1 h in
          let key = ap (λ f. f (presence_key user device)) (sym e) ∙ sym reads in
          Post-if (ltb 0 n)
            (λ b.
              Post-weaken (one_more now user device online true rest (key ∙ b))
                (scan_devices-Post now user true rest s1 (kept ∙ e)))
            λ b.
              Post-then (drop-Post now user device s1 (kept ∙ e)) (λ x s2 q. tt)
                λ u s2 g q.
                  Post-weaken (one_more now user device online false rest (key ∙ b))
                    (scan_devices-Post now user online rest s2 q)

  Answer : String → S → Result Bool → S → Type 0
  Answer user s (ok b) s' = b ≡ any_live (live s) user (members s (presence_devices_key user))
  Answer user s (err e) s' = Unit

  answered :
      (user : String) (s : S) (found : Option (List String))
      → or_else found [] ≡ members s (presence_devices_key user)
      → (o : Result Bool) (s' : S) → Seen (live s) user false (or_else found []) o s'
      → Answer user s o s'
  unfolding Seen Answer
  answered user s found e (ok b) s' h = h ∙ ap (any_live (live s) user) e
  answered user s found e (err x) s' h = tt

  is_online-Post : (user : String) (s : S) → Post (Answer user s) (is_online r user) s
  unfolding is_online Answer
  is_online-Post user s =
      Post-bind (r.client.smembers (presence_devices_key user)) s (λ x s1 h. tt)
        λ found s1 h.
          let (reads, kept) = laws.smembers_reads (presence_devices_key user) found s s1 h in
          Post-weaken (answered user s found reads)
            (scan_devices-Post (live s) user false (or_else found []) s1 kept)

  -- The answer on a user is whether one of the devices in the user's set has a live key, whatever
  -- becomes of the members that the call drops on its way.
  pub is_online_any :
      (user : String) (online : Bool) (s s' : S)
      → is_online r user s ≡ (ok online, s')
      → online ≡ any_live (live s) user (members s (presence_devices_key user))
  unfolding Answer
  is_online_any user online s s' h =
      Post-at {Q = Answer user s} (ok online) s' (is_online-Post user s) h
