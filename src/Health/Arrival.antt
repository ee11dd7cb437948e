-- ===== src/Health/Arrival.antt =====
-- service.go: the report does not depend on the order in which the checks' results arrive.
use aelora.Prelude.{
  ℕ, String, ◌==◌, eq_iff, eq_refl, ◌≡◌, refl, sym, ap, ◌∙◌, ◌≢◌, inl, inr, Bool, true, false, not,
  ◌||◌, Option, none, some, List, [], ◌∷◌, lookup, insert, lookup-insert, contains, Bool-cases,
  arith, if◌then◌else◌,
}
use mathlib.Core.Path.{subst}
use aelora.Health.{
  CheckError, DependencyStatus, Report, Outcome, check_status, status_of, receive, check,
}

-- What a check finds: how long it runs, and its error.
abbrev pub Finding : Type 0
Finding = ℕ × Option CheckError

-- The results of the checks with these names, in this order, where `found` tells what each finds.
abbrev pub results : (String → Finding) → List String → List Outcome
results found [] = []
results found (name ∷ rest) =
    record { name = name; duration_ms = (found name).0; error = (found name).1 }
    ∷ results found rest

module _ (found : String → Finding) where
  abbrev pub is_down : String → Bool
  is_down name = not (check_status (found name).1 == "ok")

  any_down : List String → Bool
  any_down [] = false
  any_down (name ∷ rest) = is_down name || any_down rest

  found_status : String → DependencyStatus
  found_status name =
      status_of (record { name = name; duration_ms = (found name).0; error = (found name).1 })

  -- The report behind one more result.
  with_result : Report → String → Report
  unfolding found_status
  with_result report name = record {
    status = if is_down name then "degraded" else report.status;
    dependencies = insert name (found_status name) report.dependencies;
  }

  receive-status :
      (report : Report) (names : List String)
      → (receive report (results found names)).status
        ≡ (if any_down names then "degraded" else report.status)
  unfolding receive any_down with_result found_status
  receive-status report [] = refl
  receive-status report (name ∷ rest) =
      ground (arith, receive-status (with_result report name) rest)

  receive-lookup :
      (report : Report) (names : List String) (name : String)
      → lookup name (receive report (results found names)).dependencies ≡ (
          if contains name names then some (found_status name) else lookup name report.dependencies)
  unfolding receive found_status with_result
  receive-lookup report [] name = refl
  receive-lookup report (first ∷ rest) name = ground (
    arith,
    receive-lookup (with_result report first) rest name,
    lookup-insert name first (found_status first) report.dependencies,
    eq_iff name first,
    eq_iff first name,
  )

  contains-down :
      (names : List String) (name : String)
      → contains name names ≡ true
      → is_down name ≡ true
      → any_down names ≡ true
  unfolding any_down
  contains-down [] name h d = cc
  contains-down (first ∷ rest) name h d = ground (arith, contains-down rest name, eq_iff first name)

  down_name :
      (names : List String)
      → any_down names ≡ true
      → (name : String) × (contains name names ≡ true) × (is_down name ≡ true)
  unfolding any_down
  down_name [] h = cc
  down_name (first ∷ rest) h = elim (Bool-cases (is_down first)) [
    | inl d ↦ (first, ground (arith, eq_refl first), d)
    | inr d ↦ let (name, c, e) = down_name rest (ground arith) in (name, ground arith, e)
  ]

  no_down :
      (names : List String)
      → ((name : String) → contains name names ≡ true → check_status (found name).1 ≡ "ok")
      → any_down names ≡ false
  no_down names h = elim (Bool-cases (any_down names)) [
    | inl d ↦
        let (name, c, e) = down_name names d in
        ground (arith, h name c, eq_iff (check_status (found name).1) "ok")
    | inr d ↦ d
  ]

  -- The report on checks with these names: it is `ok` exactly when every check is, and under the
  -- name of each check, and no other, stands what that check has found.
  pub record Reported (names : List String) (r : Report) : Type 0 where
    pub all_ok :
        r.status ≡ "ok"
        → (name : String) → contains name names ≡ true
        → check_status (found name).1 ≡ "ok"
    pub ok_all :
        ((name : String) → contains name names ≡ true → check_status (found name).1 ≡ "ok")
        → r.status ≡ "ok"
    pub degraded : r.status ≢ "ok" → r.status ≡ "degraded"
    pub named :
        (name : String)
        → lookup name r.dependencies ≡ (
            if contains name names
            then some (
                status_of
                  (record { name = name; duration_ms = (found name).0; error = (found name).1 }))
            else none)

  started : Report
  started = record { status = "ok"; dependencies = [] }

  check-started :
      (names : List String) → check (results found names) ≡ receive started (results found names)
  unfolding check receive started
  check-started [] = refl
  check-started (name ∷ rest) = refl

  all_ok_of :
      (names : List String)
      → (receive started (results found names)).status ≡ "ok"
      → (name : String) → contains name names ≡ true
      → check_status (found name).1 ≡ "ok"
  unfolding started
  all_ok_of names h name c = elim (Bool-cases (is_down name)) [
    | inl d ↦
        let down =
          sym h
          ∙ receive-status started names
          ∙ ap (λ b. if b then "degraded" else "ok") (contains-down names name c d) in
        cc
    | inr d ↦ ground (arith, eq_iff (check_status (found name).1) "ok")
  ]

  receive-Reported : (names : List String) → Reported names (receive started (results found names))
  unfolding started found_status
  receive-Reported names = record {
    all_ok = λ h name c. all_ok_of names h name c;
    ok_all = λ h. ground (arith, receive-status started names, no_down names h);
    degraded = λ h. ground (arith, receive-status started names);
    named = receive-lookup started names;
  }

  -- Whatever checks there are and in whatever order their results arrive, the report is `ok` exactly
  -- when every check is, else `degraded`, and names what each check has found.
  pub check-Reported : (names : List String) → Reported names (check (results found names))
  check-Reported names = subst (Reported names) (sym (check-started names)) (receive-Reported names)
