-- ===== src/Postgres/Outbox/Claims.antt =====
-- Which messages a relay may claim.
use mathlib.Core.Bool.{false≢true}
use aelora.Prelude.{
  ℕ, ◌+◌, ◌≤◌, ◌≡◌, refl, sym, ◌∙◌, ap, ◌⊎◌, inl, inr, true, false, String, ◌==◌, eq_iff, some,
  List, [], ◌∷◌, contains, arith, Bool-cases,
}
use aelora.Prelude.Int.{ℤ}
use aelora.Domain.{Message, Result, ok}
use aelora.Call.Post.{Post-at}
use aelora.Ports.{OutboxMessage}
use aelora.Postgres.{OutboxRow, Server}
use aelora.Postgres.Statement.{exec-Post}
use aelora.Postgres.Outbox.{
  candidates, claim_rows, claim_pending, decode_all, payloads_of, dispatch_row, dispatch_rows,
  release_row, or_default, mark_dispatched, on_rows, update_rows,
}
use aelora.Postgres.Outbox.Rows.{AllOf, candidates-AllOf}
use aelora.Postgres.Outbox.Later.{
  Step, enqueued, listed, claimed, marked_appended, marked_dispatched, released, elsewhere, Steps,
  here, then_step, IsWithin, AreWithin, IsKept, Steps-Keeps, claim_pending-IsClaim,
}

-- The row is dispatched, or leased to a consumer.
abbrev pub IsHeld : String → ℕ → OutboxRow → Type 0
IsHeld holder until r =
    (r.dispatched ≡ true) ⊎ ((r.claimed_by ≡ some holder) × (r.claimed_until ≡ some until))

abbrev IsDispatched : OutboxRow → Type 0
IsDispatched r = r.dispatched ≡ true

IsHeld-release :
    (holder : String) (until : ℕ) (consumer : String) (r : OutboxRow)
    → (holder == consumer) ≡ false
    → IsHeld holder until r
    → IsHeld holder until (release_row consumer r)
unfolding release_row
IsHeld-release holder until consumer r other h = ground (arith, other, h)

IsDispatched-release :
    (consumer : String) (r : OutboxRow) → IsDispatched r → IsDispatched (release_row consumer r)
unfolding release_row
IsDispatched-release consumer r h = ground (arith, r.claimed_by, h)

-- A lease is kept by all but a release by its holder, while it runs.
IsHeld-IsKept :
    (holder : String) (until : ℕ)
    → IsKept (λ now. now ≤ until) (λ consumer. (holder == consumer) ≡ false) (IsHeld holder until)
unfolding dispatch_row
IsHeld-IsKept holder until = record {
  payload = λ r next h. h;
  dispatch = λ r h. inl refl;
  release = λ consumer r other h. IsHeld-release holder until consumer r other h;
  not_free = λ now r running h. ground (arith, running, h);
}

IsDispatched-IsKept : IsKept (λ now. Unit {0}) (λ consumer. Unit {0}) IsDispatched
unfolding dispatch_row
IsDispatched-IsKept = record {
  payload = λ r next h. h;
  dispatch = λ r h. refl;
  release = λ consumer r any h. IsDispatched-release consumer r h;
  not_free = λ now r any h. rw h refl;
}

claim_rows-IsHeld :
    (id consumer : String) (until : ℕ) (ids : List String) (rows : List OutboxRow)
    → contains id ids ≡ true
    → AllOf id (IsHeld consumer until) (claim_rows ids consumer until rows)
unfolding claim_rows
claim_rows-IsHeld id consumer until ids [] chosen = tt
claim_rows-IsHeld id consumer until ids (r ∷ rest) chosen =
    let later = claim_rows-IsHeld id consumer until ids rest chosen in
    elim (Bool-cases (contains r.message_id ids)) [
      | inl taken ↦ rw taken ((λ same. inr (refl, refl)), later)
      | inr other ↦ rw other (
        (λ same. absurd (
            false≢true
              (sym other ∙ ap (λ x. contains x ids) ((eq_iff r.message_id id).0 same) ∙ chosen))),
        later,
      )
    ]

dispatch_rows-IsDispatched :
    (id : String) (rows : List OutboxRow) → AllOf id IsDispatched (dispatch_rows id rows)
unfolding dispatch_rows update_rows dispatch_row
dispatch_rows-IsDispatched id [] = tt
dispatch_rows-IsDispatched id (r ∷ rest) =
    let later = dispatch_rows-IsDispatched id rest in
    elim (Bool-cases (r.message_id == id)) [
      | inl named ↦ rw named ((λ same. refl), later)
      | inr there ↦ rw there ((λ same. absurd (false≢true (sym there ∙ same))), later)
    ]

module _ (marshal : OutboxMessage → Result String) (unmarshal : String → Result OutboxMessage)
    (unmarshal_message : String → Result Message) where
  -- What a claim answers are the payloads of rows among which the message's are not.
  pub record IsLeftOut (id : String) (s : Server) (items : List OutboxMessage) : Type 0 where
    pub ids : List String
    pub left_out : contains id ids ≡ false
    pub answered :
        items ≡ decode_all marshal unmarshal unmarshal_message (payloads_of ids s.db.message_outbox)

  any_step :
      {s s' : Server} (t : Step marshal unmarshal unmarshal_message s s')
      → IsWithin marshal unmarshal unmarshal_message (λ now. Unit {0}) (λ consumer. Unit {0}) t
  any_step (enqueued msg appended) = tt
  any_step (listed limit) = tt
  any_step (claimed consumer limit lease) = tt
  any_step (marked_appended id) = tt
  any_step (marked_dispatched id) = tt
  any_step (released consumer id) = tt
  any_step (elsewhere s' same) = tt

  any_steps :
      {s s' : Server} (steps : Steps marshal unmarshal unmarshal_message s s')
      → AreWithin marshal unmarshal unmarshal_message (λ now. Unit {0}) (λ consumer. Unit {0}) steps
  any_steps here = tt
  any_steps (then_step before t) = (any_steps before, any_step t)

  module _ (id consumer : String) (limit lease : ℤ) (s s1 s2 s3 : Server)
      (items items2 : List OutboxMessage) where
    -- While a lease runs, no later claim is given a message that a claim was given, whoever asks and
    -- whatever was called in between, except where the holder of the lease releases a message.
    pub claims_disjoint :
        (consumer2 : String) (limit2 lease2 : ℤ)
        → claim_pending marshal unmarshal unmarshal_message consumer limit lease s ≡ (ok items, s1)
        → contains id (candidates (or_default limit 100) s.server_now s.db.message_outbox) ≡ true
        → (steps : Steps marshal unmarshal unmarshal_message s1 s2)
        → AreWithin marshal unmarshal unmarshal_message
            (λ now. now ≤ s.app_now + or_default lease 30000000000)
            (λ releaser. (consumer == releaser) ≡ false)
            steps
        → s2.server_now ≤ s.app_now + or_default lease 30000000000
        → claim_pending marshal unmarshal unmarshal_message consumer2 limit2 lease2 s2
          ≡ (ok items2, s3)
        → IsLeftOut id s2 items2
    claims_disjoint consumer2 limit2 lease2 first chosen steps within running second =
        let until = s.app_now + or_default lease 30000000000 in
        let kept = IsHeld-IsKept consumer until in
        let claim = claim_pending-IsClaim marshal unmarshal unmarshal_message _ _ _ s s1 _ first in
        let later =
          claim_pending-IsClaim marshal unmarshal unmarshal_message _ _ _ s2 s3 _ second in
        let held : AllOf id (IsHeld consumer until) s1.db.message_outbox = rw claim.marked (
          claim_rows-IsHeld id consumer until
            (candidates (or_default limit 100) s.server_now s.db.message_outbox) s.db.message_outbox
            chosen) in
        record {
          ids = candidates (or_default limit2 100) s2.server_now s2.db.message_outbox;
          left_out =
              candidates-AllOf id (IsHeld consumer until) (or_default limit2 100) s2.server_now
                s2.db.message_outbox (λ r h. kept.not_free s2.server_now r running h)
                (Steps-Keeps marshal unmarshal unmarshal_message _ _ id (IsHeld consumer until) kept
                  steps within held);
          answered = later.answered;
        }

  -- Once a message is marked as dispatched, no later claim is given it, whatever was called in
  -- between by whom.
  pub dispatched_not_claimed :
      (id consumer : String) (limit lease : ℤ) (s s1 s2 s3 : Server) (items : List OutboxMessage)
      → mark_dispatched marshal unmarshal unmarshal_message id s ≡ (ok tt, s1)
      → Steps marshal unmarshal unmarshal_message s1 s2
      → claim_pending marshal unmarshal unmarshal_message consumer limit lease s2 ≡ (ok items, s3)
      → IsLeftOut id s2 items
  unfolding mark_dispatched
  dispatched_not_claimed id consumer limit lease s s1 s2 s3 items marked steps given =
      let done = Post-at (ok tt) s1 (exec-Post (on_rows (dispatch_rows id)) s) marked in
      let claim = claim_pending-IsClaim marshal unmarshal unmarshal_message _ _ _ s2 s3 _ given in
      let all : AllOf id IsDispatched s1.db.message_outbox =
        rw (← ap (λ x. x.1.message_outbox) done)
          (dispatch_rows-IsDispatched id s.db.message_outbox) in
      record {
        ids = candidates (or_default limit 100) s2.server_now s2.db.message_outbox;
        left_out =
            candidates-AllOf id IsDispatched (or_default limit 100) s2.server_now
              s2.db.message_outbox (λ r h. IsDispatched-IsKept.not_free s2.server_now r tt h)
              (Steps-Keeps marshal unmarshal unmarshal_message _ _ id IsDispatched
                IsDispatched-IsKept steps (any_steps steps) all);
        answered = claim.answered;
      }
