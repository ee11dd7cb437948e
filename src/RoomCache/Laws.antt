-- ===== src/RoomCache/Laws.antt =====
-- What the cache may change about an answer: nothing of a write's, and of a read's only its source.
use aelora.Prelude.{◌≡◌, refl, sym, ap, ◌∙◌, ◌⊎◌, inl, inr, String, List, [], ◌∷◌}
use aelora.Domain.{Room, Error, room_not_found, room_already_exists, Result, ok, err, new_room}
use aelora.Call.{Call}
use aelora.Call.Post.{Post, Post-pure, Post-handle, Post-bind, Post-then, Post-weaken, err-ne-ok}
use aelora.RoomCache.{
  Repository, add_members, warm_after, warm_cache, get, create, refresh, add_member, warm_built,
  list_members,
}

module _ {S : Type 0} (r : Repository S) where
  abbrev Succeeds : Result (Unit {0}) → S → Type 0
  Succeeds o s' = o ≡ ok tt

  add_members_ok :
      (id : String) (members : List String) (s : S) → Post Succeeds (add_members r id members) s
  unfolding add_members
  add_members_ok id [] s = Post-pure refl
  add_members_ok id (m ∷ rest) s =
      Post-handle (r.cache.add_member id m) s (λ e s1 q. add_members_ok id rest s1)
        (λ done s1 q. add_members_ok id rest s1)

  warm_after_ok : (room : Room) (e : Error) (s : S) → Post Succeeds (warm_after r room e) s
  unfolding warm_after
  warm_after_ok room room_already_exists s = add_members_ok room.id room.members s
  warm_after_ok room e s = Post-pure refl

  warm_ok : (room : Room) (s : S) → Post Succeeds (warm_cache r room) s
  unfolding warm_cache
  warm_ok room s =
      Post-handle (r.cache.create room) s (λ e s1 q. warm_after_ok room e s1)
        (λ done s1 q. add_members_ok room.id room.members s1)

  refresh_ok : (id : String) (e : Error) (s : S) → Post Succeeds (refresh r id e) s
  unfolding refresh
  refresh_ok id room_not_found s =
      Post-handle (r.primary.get id) s (λ e s1 q. Post-pure refl)
        λ room s1 q.
          Post-then (warm_ok room s1) (λ e s2 bad. bad) (λ done s2 q2 good. Post-pure refl)
  refresh_ok id e s = Post-pure refl

  module _ (s : S) where
    abbrev SameAs : Result (Unit {0}) → Result (Unit {0}) → S → Type 0
    SameAs expected o s' = o ≡ expected

    create_same : (room : Room) → Post (SameAs (r.primary.create room s).0) (create r room) s
    unfolding create
    create_same room =
        Post-bind (r.primary.create room) s (λ e s1 q. sym (ap (λ x. x.0) q))
          λ done s1 q.
            Post-then (warm_ok room s1) (λ e s2 bad. bad ∙ sym (ap (λ x. x.0) q))
              (λ done2 s2 q2 good. Post-pure (sym (ap (λ x. x.0) q)))

    add_member_same :
        (id user : String)
        → Post (SameAs (r.primary.add_member id user s).0) (add_member r id user) s
    unfolding add_member
    add_member_same id user =
        Post-bind (r.primary.add_member id user) s (λ e s1 q. sym (ap (λ x. x.0) q))
          λ done s1 q.
            Post-handle (r.cache.add_member id user) s1
              (λ e s2 q2. same (sym (ap (λ x. x.0) q)) (refresh_ok id e s2))
              (λ done2 s2 q2. Post-pure (sym (ap (λ x. x.0) q)))
      where
        same :
            {m : Call S (Unit {0})} {a : S} {expected : Result (Unit {0})}
            → ok tt ≡ expected
            → Post Succeeds m a
            → Post (SameAs expected) m a
        same e p = Post-weaken (λ o s' good. good ∙ e) p

    -- Creating a room and adding a member succeed or fail exactly as the primary repository does,
    -- with its error, whatever the cache answers.
    pub writes_follow_primary :
        (room : Room) (id user : String)
        → ((create r room s).0 ≡ (r.primary.create room s).0)
          × ((add_member r id user s).0 ≡ (r.primary.add_member id user s).0)
    writes_follow_primary room id user = ((create_same room).holds, (add_member_same id user).holds)

    -- What a read answers: what the cache holds, or what the primary repository answers.
    abbrev pub AnsweredBy : {A : Type 0} → Call S A → Call S A → Result A → Type 0
    AnsweredBy {A} cached stored o =
        ((a : A) × (o ≡ ok a) × ((cached s).0 ≡ ok a))
        ⊎ ((e : Error) × ((cached s).0 ≡ err e) × (o ≡ (stored (cached s).1).0))

    get_either :
        (id : String) → Post (λ o s'. AnsweredBy (r.cache.get id) (r.primary.get id) o) (get r id) s
    unfolding get
    get_either id =
        Post-handle (r.cache.get id) s
          (λ e s1 q.
            let missed : (r.cache.get id s).0 ≡ err e = ap (λ x. x.0) q in
            let at_ : (r.cache.get id s).1 ≡ s1 = ap (λ x. x.1) q in
            Post-bind (r.primary.get id) s1
              (λ f s2 p. inr (e, missed, rw at_ (sym (ap (λ x. x.0) p))))
              λ room s2 p.
                Post-then (warm_ok room s2) (λ f s3 bad. absurd (err-ne-ok _ _ bad))
                  (λ done s3 w good. Post-pure (inr (e, missed, rw at_ (sym (ap (λ x. x.0) p))))))
          (λ room s1 q. Post-pure (inl (room, refl, ap (λ x. x.0) q)))

    warm_built_ok : (built : Result Room) (a : S) → Post Succeeds (warm_built r built) a
    unfolding warm_built
    warm_built_ok (ok room) a = warm_ok room a
    warm_built_ok (err e) a = Post-pure refl

    list_either :
        (id : String)
        → Post
            (λ o s'. AnsweredBy (r.cache.list_members id) (r.primary.list_members id) o)
            (list_members r id)
            s
    unfolding list_members
    list_either id =
        Post-handle (r.cache.list_members id) s
          (λ e s1 q.
            let missed : (r.cache.list_members id s).0 ≡ err e = ap (λ x. x.0) q in
            let at_ : (r.cache.list_members id s).1 ≡ s1 = ap (λ x. x.1) q in
            Post-bind (r.primary.list_members id) s1
              (λ f s2 p. inr (e, missed, rw at_ (sym (ap (λ x. x.0) p))))
              λ members s2 p.
                Post-then (warm_built_ok (new_room id members) s2)
                  (λ f s3 bad. absurd (err-ne-ok _ _ bad))
                  (λ done s3 w good. Post-pure (inr (e, missed, rw at_ (sym (ap (λ x. x.0) p))))))
          (λ members s1 q. Post-pure (inl (members, refl, ap (λ x. x.0) q)))

    -- Getting a room and listing its members answer what the cache holds where it answers, and else
    -- exactly what the primary repository answers, its error included.
    pub reads_from_either :
        (id : String)
        → AnsweredBy (r.cache.get id) (r.primary.get id) (get r id s).0
          × AnsweredBy (r.cache.list_members id) (r.primary.list_members id) (list_members r id s).0
    reads_from_either id = ((get_either id).holds, (list_either id).holds)
