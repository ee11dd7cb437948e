-- ===== src/Valkey/PushTokens/Find.antt =====
-- push_token_repo.go: the value of a token is read back, and found under its device.
use Prim.Native.String.append.{nil, cons}
use aelora.Prelude.{
  String, ◌==◌, eq_iff, ◌≡◌, ◌≢◌, refl, sym, ◌∙◌, ◌⊎◌, inl, inr, false, Option, none, some, List,
  [], ◌∷◌, insert, concat, Bool-cases, arith, if◌then◌else◌,
}
use mathlib.Core.Path.{subst}
use aelora.Ports.{PushToken}
use aelora.Valkey.PushTokens.{split_token, onto, tokens_of}

-- The token of a device.
abbrev pub find_device : String → List PushToken → Option PushToken
find_device device [] = none
find_device device (token ∷ rest) =
    let later = find_device device rest in if token.device_id == device then some token else later

split_token-android :
    (token : String)
    → token ≢ ""
    → split_token (concat (concat "android" "|") token) ≡ some ("android", token)
unfolding split_token
split_token-android token h =
    rw
      (
        cons "a" "ndroid|" token,
        cons "n" "droid|" token,
        cons "d" "roid|" token,
        cons "r" "oid|" token,
        cons "o" "id|" token,
        cons "i" "d|" token,
        cons "d" "|" token,
        cons "|" "" token,
        nil token,
      )
      (ground (arith, eq_iff token ""))

split_token-ios :
    (token : String)
    → token ≢ ""
    → split_token (concat (concat "ios" "|") token) ≡ some ("ios", token)
unfolding split_token
split_token-ios token h =
    rw (cons "i" "os|" token, cons "o" "s|" token, cons "s" "|" token, cons "|" "" token, nil token)
      (ground (arith, eq_iff token ""))

abbrev pub made : String → String → Option (String × String) → Option PushToken
made user device none = none
made user device (some (platform, token)) =
    some (record { user_id = user; device_id = device; platform = platform; token = token })

skip_other :
    (user device first : String) (parts : Option (String × String)) (rest : List PushToken)
    → first ≢ device
    → find_device device (onto user first parts rest) ≡ find_device device rest
skip_other user device first none rest n = refl
skip_other user device first (some (platform, token)) rest n = ground (arith, eq_iff first device)

same_first :
    (user device first : String) (parts : Option (String × String)) (rest rest' : List PushToken)
    → find_device device rest ≡ find_device device rest'
    → find_device device (onto user first parts rest)
      ≡ find_device device (onto user first parts rest')
same_first user device first none rest rest' e = e
same_first user device first (some (platform, token)) rest rest' e = rw e refl

find_made :
    (user device asked : String) (parts : Option (String × String)) (token : PushToken)
    (rest : List PushToken)
    → made user device parts ≡ some token
    → token.device_id ≡ device
    → find_device asked (onto user device parts rest)
      ≡ (if asked == device then some token else find_device asked rest)
find_made user device asked none token rest m d = cc
find_made user device asked (some (platform, text)) token rest m d =
    ground (arith, eq_iff device asked, eq_iff asked device)

module _ (user device raw : String) (token : PushToken) where
  replaced :
      made user device (split_token raw) ≡ some token
      → token.device_id ≡ device
      → (asked first old : String) (others : List (String × String)) → device ≡ first
      → find_device asked (onto user first (split_token raw) (tokens_of user others)) ≡ (
          if asked == device
          then some token
          else find_device asked (onto user first (split_token old) (tokens_of user others)))
  replaced m d asked first old others e = elim (Bool-cases (asked == device)) [
    | inl b ↦ rw b (
        subst
          (λ x.
            find_device asked (onto user x (split_token raw) (tokens_of user others)) ≡ some token)
          e
          (find_made user device asked (split_token raw) token (tokens_of user others) m d
            ∙ rw b refl))
    | inr b ↦
        let other : first ≢ asked = λ f. ground (arith, eq_iff asked device, sym f, sym e) in
        rw b (
          skip_other user asked first (split_token raw) (tokens_of user others) other
          ∙ sym (skip_other user asked first (split_token old) (tokens_of user others) other))
  ]

  behind :
      (asked first old : String) (others : List (String × String))
      → find_device asked (tokens_of user (insert device raw others))
        ≡ (if asked == device then some token else find_device asked (tokens_of user others))
      → device == first ≡ false
      → find_device asked
          (onto user first (split_token old) (tokens_of user (insert device raw others)))
        ≡ (if asked == device
            then some token
            else find_device asked (onto user first (split_token old) (tokens_of user others)))
  behind asked first old others ih b = elim (Bool-cases (asked == device)) [
    | inl a ↦
        let other : first ≢ asked =
          λ f. ground (arith, eq_iff asked device, eq_iff device first, sym f) in
        rw a (skip_other user asked first (split_token old) _ other ∙ ih ∙ rw a refl)
    | inr a ↦ rw a (same_first user asked first (split_token old) _ _ (ih ∙ rw a refl))
  ]

  -- The device's entry is what was written, every other as it was.
  pub find_inserted :
      made user device (split_token raw) ≡ some token
      → token.device_id ≡ device
      → (asked : String) (fields : List (String × String))
      → find_device asked (tokens_of user (insert device raw fields))
        ≡ (if asked == device then some token else find_device asked (tokens_of user fields))
  unfolding tokens_of
  find_inserted m d asked [] = find_made user device asked (split_token raw) token [] m d
  find_inserted m d asked ((first, old) ∷ others) = elim (Bool-cases (device == first)) [
    | inl b ↦ let e = (eq_iff device first).0 b in rw b (replaced m d asked first old others e)
    | inr b ↦ let ih = find_inserted m d asked others in rw b (behind asked first old others ih b)
  ]

-- The value of a token on a known platform.
pub split_value :
    (platform token : String)
    → (platform ≡ "android") ⊎ (platform ≡ "ios")
    → token ≢ ""
    → split_token (concat (concat platform "|") token) ≡ some (platform, token)
split_value platform token (inl e) n = rw e (split_token-android token n)
split_value platform token (inr e) n = rw e (split_token-ios token n)
