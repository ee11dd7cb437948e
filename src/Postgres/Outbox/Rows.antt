-- ===== src/Postgres/Outbox/Rows.antt =====
-- outbox_repo.go: what the statements leave true of the rows of one message.
use mathlib.Core.Bool.{false≢true}
use aelora.Prelude.{
  ℕ, suc, zero, ◌≡◌, refl, sym, ap, ◌∙◌, Bool, true, false, not, ◌&&◌, ◌||◌, String, ◌==◌, eq_iff,
  List, [], ◌∷◌, contains, take, arith, Bool-cases, inl, inr, ltb, if◌then◌else◌,
}
use aelora.Postgres.{OutboxRow}
use aelora.Postgres.Outbox.{
  insert_by_time, by_time, is_free, free_rows, ids_of, candidates, claim_rows, update_rows,
}

contains-insert_by_time :
    (id : String) (r : OutboxRow) (rows : List OutboxRow)
    → contains id (ids_of (insert_by_time r rows))
      ≡ (r.message_id == id) || contains id (ids_of rows)
unfolding insert_by_time
contains-insert_by_time id r [] = refl
contains-insert_by_time id r (q ∷ rest) = elim (Bool-cases (ltb q.created_at r.created_at)) [
  | inl before ↦ rw before (ground (arith, contains-insert_by_time id r rest))
  | inr after ↦ rw after refl
]

contains-by_time :
    (id : String) (rows : List OutboxRow)
    → contains id (ids_of (by_time rows)) ≡ contains id (ids_of rows)
unfolding by_time
contains-by_time id [] = refl
contains-by_time id (r ∷ rest) =
    contains-insert_by_time id r (by_time rest)
    ∙ ap (λ b. (r.message_id == id) || b) (contains-by_time id rest)

contains-take :
    (id : String) (n : ℕ) (rows : List OutboxRow)
    → contains id (ids_of rows) ≡ false
    → contains id (ids_of (take n rows)) ≡ false
contains-take id zero rows h = refl
contains-take id (suc n) [] h = refl
contains-take id (suc n) (r ∷ rest) h = ground (arith, contains-take id n rest)

candidates-free :
    (id : String) (limit now : ℕ) (rows : List OutboxRow)
    → contains id (ids_of (free_rows now rows)) ≡ false
    → contains id (candidates limit now rows) ≡ false
unfolding candidates
candidates-free id limit now rows h =
    contains-take id limit (by_time (free_rows now rows))
      (contains-by_time id (free_rows now rows) ∙ h)

keep_absent :
    (b : Bool) (id : String) (r : OutboxRow) (rows : List OutboxRow)
    → (r.message_id == id) ≡ false
    → contains id (ids_of rows) ≡ false
    → contains id (ids_of (if b then r ∷ rows else rows)) ≡ false
keep_absent true id r rows other h = rw other h
keep_absent false id r rows other h = h

module _ (id : String) (Q : OutboxRow → Type 0) where
  -- What is true of every row of the message.
  abbrev pub AllOf : List OutboxRow → Type 0
  AllOf [] = Unit
  AllOf (r ∷ rest) = ((r.message_id == id) ≡ true → Q r) × AllOf rest

  pub candidates-AllOf :
      (limit now : ℕ) (rows : List OutboxRow)
      → ((r : OutboxRow) → Q r → (not r.dispatched && is_free now r.claimed_until) ≡ false)
      → AllOf rows
      → contains id (candidates limit now rows) ≡ false
  candidates-AllOf limit now rows taken all = candidates-free id limit now rows (absent rows all)
    where
      absent :
          (rows : List OutboxRow) → AllOf rows → contains id (ids_of (free_rows now rows)) ≡ false
      absent [] all = refl
      absent (r ∷ rest) (q, all) = elim (Bool-cases (r.message_id == id)) [
        | inl same ↦ rw (taken r (q same)) (absent rest all)
        | inr other ↦
            keep_absent (not r.dispatched && is_free now r.claimed_until) id r _ other
              (absent rest all)
      ]

  pub claim_rows-AllOf :
      (ids : List String) (consumer : String) (until : ℕ) (rows : List OutboxRow)
      → contains id ids ≡ false
      → AllOf rows
      → AllOf (claim_rows ids consumer until rows)
  unfolding claim_rows
  claim_rows-AllOf ids consumer until [] out all = tt
  claim_rows-AllOf ids consumer until (r ∷ rest) out (q, all) =
      let later = claim_rows-AllOf ids consumer until rest out all in
      elim (Bool-cases (contains r.message_id ids)) [
        | inl chosen ↦ rw chosen (
          (λ same. absurd (
              false≢true (
                sym out
                ∙ ap (λ x. contains x ids) (sym ((eq_iff r.message_id id).0 same))
                ∙ chosen))),
          later,
        )
        | inr other ↦ rw other (q, later)
      ]

  pub update_rows-AllOf :
      (f : OutboxRow → OutboxRow) (k : String) (rows : List OutboxRow)
      → ((r : OutboxRow) → (f r).message_id ≡ r.message_id)
      → ((r : OutboxRow) → Q r → Q (f r))
      → AllOf rows
      → AllOf (update_rows f k rows)
  unfolding update_rows
  update_rows-AllOf f k [] same_id kept all = tt
  update_rows-AllOf f k (r ∷ rest) same_id kept (q, all) =
      let later = update_rows-AllOf f k rest same_id kept all in
      elim (Bool-cases (r.message_id == k)) [
        | inl here ↦ rw here ((λ same. kept r (q (rw (← same_id r) same))), later)
        | inr there ↦ rw there (q, later)
      ]
