-- ===== src/Application/SyncMessages/Replies.antt =====
-- Which messages a sync fetches beside the ones it returns.
use aelora.Prelude.{
  ◌≡◌, refl, ◌∙◌, ◌⊎◌, inl, inr, Bool, Bool-cases, false, not, ◌&&◌, ◌||◌, String, ◌==◌, eq_iff,
  none, some, List, [], ◌∷◌, ◌++◌, contains, add, contains-add, contains-append, is_nil,
  eq_nil_of_is_nil, arith,
}
use aelora.Domain.{Result, ok, err}
use aelora.Call.Post.{Post, Post-pure, Post-bind, Post-if, Post-given}
use aelora.Ports.{StreamMessage, MessageRepository}
use aelora.Application.SyncMessages.{
  SyncMessagesUseCase, SyncMessagesResult, collect_reply_ids, hydrate,
}

-- Whether some message answers `r`.
abbrev pub answered : String → List StreamMessage → Bool
answered r [] = false
answered r (m ∷ rest) = (m.message.reply_to_id == r) || answered r rest

same_after :
    (a : String) (seen ids : List String)
    → ((x : String) → contains x seen ≡ contains x ids)
    → (x : String) → contains x (add a seen) ≡ contains x (ids ++ a ∷ [])
same_after a seen ids same x =
    ground (arith, contains-add a x seen, contains-append x ids (a ∷ []), same x)

collect_reply_ids-contains :
    (seen ids : List String) (messages : List StreamMessage) (r : String)
    → ((x : String) → contains x seen ≡ contains x ids)
    → contains r (collect_reply_ids seen ids messages)
      ≡ contains r ids || (not (r == "") && answered r messages)
unfolding collect_reply_ids
collect_reply_ids-contains seen ids [] r same = ground arith
collect_reply_ids-contains seen ids (m ∷ rest) r same =
    elim (Bool-cases ((m.message.reply_to_id == "") || contains m.message.reply_to_id seen)) [
      | inl skip ↦ rw skip (
          collect_reply_ids-contains seen ids rest r same
          ∙ ground (
            arith,
            eq_iff m.message.reply_to_id r,
            eq_iff m.message.reply_to_id "",
            eq_iff r "",
            same m.message.reply_to_id,
          ))
      | inr fresh ↦ rw fresh (
          collect_reply_ids-contains (add m.message.reply_to_id seen)
            (ids ++ m.message.reply_to_id ∷ []) rest r
            (same_after m.message.reply_to_id seen ids same)
          ∙ ground (
            arith,
            eq_iff m.message.reply_to_id r,
            eq_iff m.message.reply_to_id "",
            eq_iff r "",
            contains-append r ids (m.message.reply_to_id ∷ []),
          ))
    ]

module _ {S : Type 0} (u : SyncMessagesUseCase S) where
  -- The answered messages were fetched: exactly those that some returned message answers.
  pub record Hydrated (room : String) (messages : List StreamMessage) (out : SyncMessagesResult)
      : Type 0 where
    pub same : out.messages ≡ messages
    pub no_store : u.msgs ≡ none → out.replies ≡ []
    pub replies :
        (repo : MessageRepository S)
        → u.msgs ≡ some repo
        → (ids : List String) × ((r : String)
            → contains r ids ≡ not (r == "") && answered r messages)
          × ((ids ≡ []) × (out.replies ≡ [])
              ⊎ ((a : S) × (b : S) × (repo.get_by_ids room ids a ≡ (ok out.replies, b))))

  abbrev pub Hydrates : String → List StreamMessage → Result SyncMessagesResult → S → Type 0
  Hydrates room messages (ok out) s = Hydrated room messages out
  Hydrates room messages (err e) s = Unit

  pub hydrate-Post :
      (room : String) (messages : List StreamMessage) (s : S)
      → Post (Hydrates room messages) (hydrate u room messages) s
  unfolding hydrate
  hydrate-Post room messages s =
      Post-given u.msgs
        (λ missing.
          Post-pure (record { same = refl; no_store = λ h. refl; replies = λ repo h. cc }))
        λ repo o.
          let ids = collect_reply_ids [] [] messages in
          Post-if (is_nil ids)
            (λ empty. Post-pure (record {
              same = refl;
              no_store = λ h. refl;
              replies = λ repo' h. (
                ids,
                λ r. collect_reply_ids-contains [] [] messages r (λ x. refl),
                inl (eq_nil_of_is_nil ids empty, refl),
              );
            }))
            λ full.
              Post-bind (repo.get_by_ids room ids) s (λ e s1 q. tt)
                λ replies s1 q. Post-pure (record {
                  same = refl;
                  no_store = λ h. cc;
                  replies = λ repo' h.
                      let same_repo : repo ≡ repo' = cc in
                      (
                        ids,
                        λ r. collect_reply_ids-contains [] [] messages r (λ x. refl),
                        inr (s, s1, rw (← same_repo) q),
                      );
                })
