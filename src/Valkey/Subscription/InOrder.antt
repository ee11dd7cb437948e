-- ===== src/Valkey/Subscription/InOrder.antt =====
-- stream_repo.go: the hub receives every event that was read, in order.
use aelora.Prelude.{
  ◌≤◌, ◌≡◌, refl, sym, ap, ◌∙◌, String, Option, none, some, List, [], ◌∷◌, ◌++◌, length,
  length-append_one, ltb, ltb→lt, Bool-cases, inl, inr, or_else, lookup, arith,
}
use mathlib.Core.Path.{subst}
use aelora.Prelude.Int.{ℤ}
use aelora.Domain.{Message, Result, ok, err}
use aelora.Valkey.{XItem}
use aelora.Valkey.Streams.{Repository}
use aelora.Valkey.Subscription.{
  Phase, checking, reading, handling, sending, returned, Subscription, subscribe, message_of,
  cons_message, messages, with_answer, send_or_skip, go, leave, taken, advance, give_up, take_one,
  Step, advanced, gave_up, took, unsubscribed, elsewhere, Steps, here, then_step,
}

append_assoc {ℓ} : {A : Type ℓ} (xs ys zs : List A) → (xs ++ ys) ++ zs ≡ xs ++ (ys ++ zs)
append_assoc [] ys zs = refl
append_assoc (x ∷ xs) ys zs = ap (λ l. x ∷ l) (append_assoc xs ys zs)

append_nil {ℓ} : {A : Type ℓ} (xs : List A) → xs ++ [] ≡ xs
append_nil [] = refl
append_nil (x ∷ xs) = ap (λ l. x ∷ l) (append_nil xs)

append_lost : {A : Type 0} (xs : List A) {lost : List A} → lost ≡ [] → xs ++ lost ≡ xs
append_lost xs none_lost = ap (λ l. xs ++ l) none_lost ∙ append_nil xs

-- More at the end, where nothing is lost.
append_more :
    {A : Type 0} (xs ys more : List A) {lost : List A}
    → lost ≡ []
    → (xs ++ (ys ++ lost)) ++ more ≡ xs ++ (ys ++ (more ++ lost))
append_more xs ys more none_lost =
    ap (λ l. (xs ++ l) ++ more) (append_lost ys none_lost)
    ∙ append_assoc xs ys more
    ∙ ap (λ l. xs ++ (ys ++ l)) (sym (append_lost more none_lost))

-- The id of the last item, or else the one from before.
abbrev pub last_in : String → List XItem → String
last_in last_id [] = last_id
last_in last_id (item ∷ rest) = last_in item.id rest

last_in-append :
    (last_id : String) (xs ys : List XItem)
    → last_in last_id (xs ++ ys) ≡ last_in (last_in last_id xs) ys
last_in-append last_id [] ys = refl
last_in-append last_id (x ∷ xs) ys = last_in-append x.id xs ys

-- While the goroutine runs nothing is lost, and each item that was read is behind it or before it:
-- the id that the next read begins behind is that of the last item that was read.
abbrev pub Place : Phase → String → List XItem → List Message → Type 0
Place checking last_id read lost = (last_in "$" read ≡ last_id) × (lost ≡ [])
Place reading last_id read lost = (last_in "$" read ≡ last_id) × (lost ≡ [])
Place (handling items) last_id read lost = (last_in "$" read ≡ last_in last_id items) × (lost ≡ [])
Place (sending msg items) last_id read lost =
    (last_in "$" read ≡ last_in last_id items) × (lost ≡ [])
Place returned last_id read lost = Unit

module _ {S : Type 0} (r : Repository S) where
  -- The messages that the goroutine still has in its hands.
  abbrev pub held : Phase → List Message
  held checking = []
  held reading = []
  held (handling items) = messages r items
  held (sending msg items) = msg ∷ messages r items
  held returned = []

  cons_message-append :
      (o : Option Message) (xs ys : List Message)
      → cons_message r o (xs ++ ys) ≡ cons_message r o xs ++ ys
  cons_message-append none xs ys = refl
  cons_message-append (some msg) xs ys = refl

  messages-append : (xs ys : List XItem) → messages r (xs ++ ys) ≡ messages r xs ++ messages r ys
  messages-append [] ys = refl
  messages-append (x ∷ xs) ys =
      ap (cons_message r (message_of r x)) (messages-append xs ys)
      ∙ cons_message-append (message_of r x) (messages r xs) (messages r ys)

  -- The goroutine being in the phase `f`.
  pub record OrderedIn (f : Phase) (p : Subscription S) : Type 0 where
    pub order : messages r p.read ≡ p.received ++ (p.channel ++ (held f ++ p.lost))
    pub place : Place f p.last_id p.read p.lost
    pub bounded : length p.channel ≤ p.buffer

  abbrev pub Ordered : Subscription S → Type 0
  Ordered p = OrderedIn p.phase p

  as_it_was : {f : Phase} (p : Subscription S) → p.phase ≡ f → OrderedIn f p → Ordered p
  as_it_was p e i = subst (λ f. OrderedIn f p) (sym e) i

  answer-Ordered :
      (a : Result (Option (List (String × List XItem))) × S) (p : Subscription S)
      → OrderedIn reading p
      → Ordered (with_answer r a p)
  answer-Ordered (err e, s) p i = record { order = i.order; place = i.place; bounded = i.bounded }
  answer-Ordered (ok none, s) p i = record { order = i.order; place = i.place; bounded = i.bounded }
  answer-Ordered (ok (some data_), s) p i =
      let items = or_else (lookup r.event_stream_key data_) [] in
      record {
        order =
            messages-append p.read items
            ∙ ap (λ l. l ++ messages r items) i.order
            ∙ append_more p.received p.channel (messages r items) i.place.1;
        place = (last_in-append "$" p.read items ∙ ap (λ l. last_in l items) i.place.0, i.place.1);
        bounded = i.bounded;
      }

  skipped-Ordered :
      (o : Option Message) (item : XItem) (rest : List XItem) (p : Subscription S)
      → messages r p.read
        ≡ p.received ++ (p.channel ++ (cons_message r o (messages r rest) ++ p.lost))
      → OrderedIn (handling (item ∷ rest)) p
      → Ordered (record p { phase = send_or_skip r o rest; last_id = item.id })
  skipped-Ordered none item rest p order i = record {
    order = order;
    place = i.place;
    bounded = i.bounded;
  }
  skipped-Ordered (some msg) item rest p order i = record {
    order = order;
    place = i.place;
    bounded = i.bounded;
  }

  go-Ordered : (f : Phase) (p : Subscription S) → p.phase ≡ f → OrderedIn f p → Ordered (go r f p)
  go-Ordered checking p e i = elim (Bool-cases p.cancelled) [
    | inl c ↦ rw c (record { order = i.order; place = tt; bounded = i.bounded })
    | inr c ↦ rw c (record { order = i.order; place = i.place; bounded = i.bounded })
  ]
  go-Ordered reading p e i = answer-Ordered _ p i
  go-Ordered (handling []) p e i = record { order = i.order; place = i.place; bounded = i.bounded }
  go-Ordered (handling (item ∷ rest)) p e i =
      skipped-Ordered (message_of r item) item rest p i.order i
  go-Ordered (sending msg rest) p e i = elim (Bool-cases (ltb (length p.channel) p.buffer)) [
    | inl c ↦ rw c (record {
      order = i.order ∙ ap (λ l. p.received ++ l) (sym (append_assoc p.channel (msg ∷ []) _));
      place = i.place;
      bounded =
          omega (arith, length-append_one p.channel msg, ltb→lt (length p.channel) p.buffer c);
    })
    | inr c ↦ rw c (as_it_was p e i)
  ]
  go-Ordered returned p e i = as_it_was p e i

  leave-Ordered :
      (f : Phase) (p : Subscription S) → p.phase ≡ f → OrderedIn f p → Ordered (leave r f p)
  leave-Ordered checking p e i = as_it_was p e i
  leave-Ordered reading p e i = as_it_was p e i
  leave-Ordered (handling items) p e i = as_it_was p e i
  leave-Ordered (sending msg rest) p e i = elim (Bool-cases p.cancelled) [
    | inl c ↦ rw c (record {
      order =
          i.order
          ∙ ap (λ l. p.received ++ (p.channel ++ l))
              (append_lost (msg ∷ messages r rest) i.place.1);
      place = tt;
      bounded = i.bounded;
    })
    | inr c ↦
        let same = as_it_was p e i in
        rw c (record { order = same.order; place = same.place; bounded = same.bounded })
  ]
  leave-Ordered returned p e i = as_it_was p e i

  taken-Ordered :
      (c : List Message) (p : Subscription S) → p.channel ≡ c → Ordered p → Ordered (taken r c p)
  taken-Ordered [] p e i = i
  taken-Ordered (msg ∷ rest) p e i = record {
    order =
        i.order
        ∙ ap (λ c. p.received ++ (c ++ (held p.phase ++ p.lost))) e
        ∙ sym (append_assoc p.received (msg ∷ []) _);
    place = i.place;
    bounded = omega (arith, ap (λ l. length l) e, i.bounded);
  }

  Step-Ordered : {p q : Subscription S} → Step r p q → Ordered p → Ordered q
  unfolding advance give_up take_one
  Step-Ordered {p} advanced i = go-Ordered p.phase p refl i
  Step-Ordered {p} gave_up i = leave-Ordered p.phase p refl i
  Step-Ordered {p} took i = taken-Ordered p.channel p refl i
  Step-Ordered {p} unsubscribed i = record { order = i.order; place = i.place; bounded = i.bounded }
  Step-Ordered {p} (elsewhere s) i = record {
    order = i.order;
    place = i.place;
    bounded = i.bounded;
  }

  Steps-Ordered : {p q : Subscription S} → Steps r p q → Ordered p → Ordered q
  Steps-Ordered here i = i
  Steps-Ordered (then_step before t) i = Step-Ordered t (Steps-Ordered before i)

  -- Whatever the server, the hub and the rest of the world do in whatever order after a subscription:
  -- the messages that the hub took, those that wait in the channel, those that the goroutine holds
  -- and those that it left when it returned are the messages of the items that its reads answered, in
  -- their order. The channel is within its places. While the goroutine runs none is left, and once it
  -- is through with the items of a read, the next read begins behind the last item that was read.
  pub subscribe-Ordered :
      (buffer : ℤ) (world : S) (p : Subscription S) → Steps r (subscribe buffer world) p → Ordered p
  unfolding subscribe
  subscribe-Ordered buffer world p steps =
      Steps-Ordered steps (record { order = refl; place = (refl, refl); bounded = omega arith })
