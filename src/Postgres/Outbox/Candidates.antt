-- ===== src/Postgres/Outbox/Candidates.antt =====
-- What a claim takes of the rows that wait.
use aelora.Prelude.{
  ℕ, zero, suc, ◌-◌, ◌≤◌, ◌≡◌, refl, ap, ◌∙◌, Bool, true, false, not, ◌&&◌, ◌||◌, String, eq_iff,
  Option, none, some, List, [], ◌∷◌, contains, take, length, is_some, arith, if◌then◌else◌,
}
use aelora.Postgres.{OutboxRow}
use aelora.Postgres.Outbox.{
  insert_by_time, by_time, waiting, is_free, free_rows, ids_of, candidates, claim_rows,
}
use aelora.Postgres.Outbox.Waiting.{left, Clear}

-- The ids of the rows that a claim returns.
abbrev pub claimed_ids : List String → List OutboxRow → List String
claimed_ids ids [] = []
claimed_ids ids (r ∷ rest) =
    if contains r.message_id ids then r.message_id ∷ claimed_ids ids rest else claimed_ids ids rest

-- A row whose id is in the first list has it in the second.
abbrev Covers : List String → List String → List OutboxRow → Type 0
Covers ids more [] = Unit {0}
Covers ids more (r ∷ rest) =
    (contains r.message_id ids ≡ true → contains r.message_id more ≡ true) × Covers ids more rest

add-Covers :
    (b : Bool) (id : String) (ids more : List String) (rows : List OutboxRow)
    → Covers ids more rows
    → Covers ids (if b then id ∷ more else more) rows
add-Covers b id ids more [] c = tt
add-Covers b id ids more (r ∷ rest) c =
    (λ h. ground (arith, c.0 h), add-Covers b id ids more rest c.1)

claimed_ids-Covers :
    (ids : List String) (rows : List OutboxRow) → Covers ids (claimed_ids ids rows) rows
claimed_ids-Covers ids [] = tt
claimed_ids-Covers ids (r ∷ rest) = (
  λ h. rw h (rw ((eq_iff r.message_id r.message_id).1 refl) refl),
  add-Covers (contains r.message_id ids) r.message_id ids (claimed_ids ids rest) rest
      (claimed_ids-Covers ids rest),
)

left-le :
    (ids more : List String) (rows : List OutboxRow)
    → Covers ids more rows
    → left more rows ≤ left ids rows
left-le ids more [] c = omega arith
left-le ids more (r ∷ rest) c = ground (arith, left-le ids more rest c.1, c.0)

claim_rows-Clear_by :
    (ids more : List String) (consumer : String) (until : ℕ) (rows : List OutboxRow)
    → Covers ids more rows
    → Clear [] rows
    → Clear more (claim_rows ids consumer until rows)
unfolding claim_rows
claim_rows-Clear_by ids more consumer until [] c h = tt
claim_rows-Clear_by ids more consumer until (r ∷ rest) c h =
    (ground (arith, c.0), claim_rows-Clear_by ids more consumer until rest c.1 h.1)

-- A claim leases only the rows that it returns.
pub claim_rows-Clear :
    (ids : List String) (consumer : String) (until : ℕ) (rows : List OutboxRow)
    → Clear [] rows
    → Clear (claimed_ids ids rows) (claim_rows ids consumer until rows)
claim_rows-Clear ids consumer until rows h =
    claim_rows-Clear_by ids (claimed_ids ids rows) consumer until rows (claimed_ids-Covers ids rows)
      h

-- The rows whose id is not in the list.
abbrev missing : List String → List OutboxRow → ℕ
missing ids [] = 0
missing ids (r ∷ rest) =
    if contains r.message_id ids then missing ids rest else suc (missing ids rest)

free_by :
    (now : ℕ) (r : OutboxRow) (free wait : List OutboxRow) (until : Option ℕ) (dispatched : Bool)
    → free ≡ wait
    → (dispatched || not (is_some until) || false) ≡ true
    → (if not dispatched && is_free now until then r ∷ free else free)
      ≡ (if dispatched then wait else r ∷ wait)
free_by now r free wait until true same e = same
free_by now r free wait none false same e = ap (λ l. r ∷ l) same
free_by now r free wait (some t) false same e = cc

free-all : (now : ℕ) (rows : List OutboxRow) → Clear [] rows → free_rows now rows ≡ waiting rows
free-all now [] h = refl
free-all now (r ∷ rest) h =
    free_by now r (free_rows now rest) (waiting rest) r.claimed_until r.dispatched
      (free-all now rest h.1) h.0

missing-insert_by_time :
    (ids : List String) (r : OutboxRow) (rows : List OutboxRow)
    → missing ids (insert_by_time r rows) ≡ missing ids (r ∷ rows)
unfolding insert_by_time
missing-insert_by_time ids r [] = refl
missing-insert_by_time ids r (q ∷ rest) = ground (arith, missing-insert_by_time ids r rest)

missing-by_time :
    (ids : List String) (rows : List OutboxRow) → missing ids (by_time rows) ≡ missing ids rows
unfolding by_time
missing-by_time ids [] = refl
missing-by_time ids (r ∷ rest) =
    ground (arith, missing-insert_by_time ids r (by_time rest), missing-by_time ids rest)

length-missing : (rows : List OutboxRow) → missing [] rows ≡ length rows
length-missing [] = refl
length-missing (r ∷ rest) = omega (arith, length-missing rest)

missing-le : (ids : List String) (rows : List OutboxRow) → missing ids rows ≤ length rows
missing-le ids [] = omega arith
missing-le ids (r ∷ rest) = ground (arith, missing-le ids rest)

missing-add :
    (id : String) (ids : List String) (rows : List OutboxRow)
    → missing (id ∷ ids) rows ≤ missing ids rows
missing-add id ids [] = omega arith
missing-add id ids (r ∷ rest) = ground (arith, missing-add id ids rest)

missing-take :
    (n : ℕ) (rows : List OutboxRow) → missing (ids_of (take n rows)) rows ≤ length rows - n
missing-take zero rows = let all = missing-le [] rows in omega arith
missing-take (suc n) [] = omega arith
missing-take (suc n) (r ∷ rest) = ground (
  arith,
  eq_iff r.message_id r.message_id,
  missing-add r.message_id (ids_of (take n rest)) rest,
  missing-take n rest,
)

left-missing :
    (ids : List String) (rows : List OutboxRow) → left ids rows ≡ missing ids (waiting rows)
left-missing ids [] = refl
left-missing ids (r ∷ rest) = ground (arith, left-missing ids rest)

left-candidates :
    (limit now : ℕ) (rows : List OutboxRow)
    → Clear [] rows
    → left (candidates limit now rows) rows ≤ left [] rows - limit
unfolding candidates
left-candidates limit now rows h = rw (free-all now rows h) (
    omega (
      arith,
      left-missing (ids_of (take limit (by_time (waiting rows)))) rows,
      left-missing [] rows,
      missing-by_time (ids_of (take limit (by_time (waiting rows)))) (waiting rows),
      missing-by_time [] (waiting rows),
      length-missing (by_time (waiting rows)),
      missing-take limit (by_time (waiting rows)),
    ))

-- Where no row is leased, a claim takes as many of the rows that wait as its limit allows.
pub left-claimed_ids :
    (limit now : ℕ) (rows : List OutboxRow)
    → Clear [] rows
    → left (claimed_ids (candidates limit now rows) rows) rows ≤ left [] rows - limit
left-claimed_ids limit now rows h =
    let ids = candidates limit now rows in
    omega (
      arith,
      left-le ids (claimed_ids ids rows) rows (claimed_ids-Covers ids rows),
      left-candidates limit now rows h,
    )

-- Every id of the first list is in the second.
abbrev pub Present : List String → List String → Type 0
Present [] ids = Unit {0}
Present (k ∷ ks) ids = (contains k ids ≡ true) × Present ks ids

widen-Present : (x : String) (ks ids : List String) → Present ks ids → Present ks (x ∷ ids)
widen-Present x [] ids p = tt
widen-Present x (k ∷ ks) ids p = let there = p.0 in (ground arith, widen-Present x ks ids p.1)

add-Present :
    (b : Bool) (id : String) (ks ids : List String)
    → contains id ids ≡ true
    → Present ks ids
    → Present (if b then id ∷ ks else ks) ids
add-Present true id ks ids h p = (h, p)
add-Present false id ks ids h p = p

pub claimed_ids-Present :
    (ids : List String) (rows : List OutboxRow) → Present (claimed_ids ids rows) (ids_of rows)
claimed_ids-Present ids [] = tt
claimed_ids-Present ids (r ∷ rest) =
    add-Present (contains r.message_id ids) r.message_id _ _
      (rw ((eq_iff r.message_id r.message_id).1 refl) refl)
      (widen-Present r.message_id _ _ (claimed_ids-Present ids rest))

pub left-waiting : (rows : List OutboxRow) → left [] rows ≡ length (waiting rows)
left-waiting rows = left-missing [] rows ∙ length-missing (waiting rows)
