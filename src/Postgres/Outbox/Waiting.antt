-- ===== src/Postgres/Outbox/Waiting.antt =====
-- How many rows of the outbox still wait, and which of them a claim may take.
use aelora.Prelude.{
  ℕ, suc, ◌≤◌, ◌≡◌, refl, true, not, ◌&&◌, ◌||◌, String, eq_iff, List, [], ◌∷◌, contains, is_some,
  arith, Bool-cases, inl, inr, if◌then◌else◌,
}
use aelora.Postgres.{OutboxRow}
use aelora.Postgres.Outbox.{waiting, ids_of, claim_rows, update_rows, dispatch_row, dispatch_rows}

-- The rows that wait and whose id is not in the list.
abbrev pub left : List String → List OutboxRow → ℕ
left ids [] = 0
left ids (r ∷ rest) =
    if not r.dispatched && not (contains r.message_id ids)
    then suc (left ids rest)
    else left ids rest

-- Only rows whose id is in the list are leased.
abbrev pub Clear : List String → List OutboxRow → Type 0
Clear ids [] = Unit {0}
Clear ids (r ∷ rest) =
    ((r.dispatched || not (is_some r.claimed_until) || contains r.message_id ids) ≡ true)
    × Clear ids rest

pub left-dispatch_rows :
    (id : String) (ids : List String) (rows : List OutboxRow)
    → left ids (dispatch_rows id rows) ≡ left (id ∷ ids) rows
unfolding dispatch_rows update_rows dispatch_row
left-dispatch_rows id ids [] = refl
left-dispatch_rows id ids (r ∷ rest) =
    ground (arith, left-dispatch_rows id ids rest, eq_iff r.message_id id, eq_iff id r.message_id)

pub dispatch_rows-Clear :
    (id : String) (ids : List String) (rows : List OutboxRow)
    → Clear (id ∷ ids) rows
    → Clear ids (dispatch_rows id rows)
unfolding dispatch_rows update_rows dispatch_row
dispatch_rows-Clear id ids [] c = tt
dispatch_rows-Clear id ids (r ∷ rest) c = (
  ground (arith, eq_iff r.message_id id, eq_iff id r.message_id),
  dispatch_rows-Clear id ids rest c.1,
)

abbrev pub with_payload : String → OutboxRow → OutboxRow
with_payload payload r = record r { payload = payload }

pub left-update_rows :
    (payload id : String) (ids : List String) (rows : List OutboxRow)
    → left ids (update_rows (with_payload payload) id rows) ≡ left ids rows
unfolding update_rows
left-update_rows payload id ids [] = refl
left-update_rows payload id ids (r ∷ rest) = ground (arith, left-update_rows payload id ids rest)

pub update_rows-Clear :
    (payload id : String) (ids : List String) (rows : List OutboxRow)
    → Clear ids rows
    → Clear ids (update_rows (with_payload payload) id rows)
unfolding update_rows
update_rows-Clear payload id ids [] c = tt
update_rows-Clear payload id ids (r ∷ rest) c =
    (ground arith, update_rows-Clear payload id ids rest c.1)

pub ids_of-dispatch_rows :
    (id : String) (rows : List OutboxRow) → ids_of (dispatch_rows id rows) ≡ ids_of rows
unfolding dispatch_rows update_rows dispatch_row
ids_of-dispatch_rows id [] = refl
ids_of-dispatch_rows id (r ∷ rest) = ground (arith, ids_of-dispatch_rows id rest)

pub ids_of-update_rows :
    (payload id : String) (rows : List OutboxRow)
    → ids_of (update_rows (with_payload payload) id rows) ≡ ids_of rows
unfolding update_rows
ids_of-update_rows payload id [] = refl
ids_of-update_rows payload id (r ∷ rest) = ground (arith, ids_of-update_rows payload id rest)

pub ids_of-claim_rows :
    (ids : List String) (consumer : String) (until : ℕ) (rows : List OutboxRow)
    → ids_of (claim_rows ids consumer until rows) ≡ ids_of rows
unfolding claim_rows
ids_of-claim_rows ids consumer until [] = refl
ids_of-claim_rows ids consumer until (r ∷ rest) =
    ground (arith, ids_of-claim_rows ids consumer until rest)

pub left-claim_rows :
    (done ids : List String) (consumer : String) (until : ℕ) (rows : List OutboxRow)
    → left done (claim_rows ids consumer until rows) ≡ left done rows
unfolding claim_rows
left-claim_rows done ids consumer until [] = refl
left-claim_rows done ids consumer until (r ∷ rest) =
    ground (arith, left-claim_rows done ids consumer until rest)

pub waiting-nil : (rows : List OutboxRow) → left [] rows ≤ 0 → waiting rows ≡ []
waiting-nil [] h = refl
waiting-nil (r ∷ rest) h = elim (Bool-cases r.dispatched) [
  | inl d ↦ rw d (waiting-nil rest (rw d at h))
  | inr d ↦ absurd (let n = rw d at h in omega arith)
]
