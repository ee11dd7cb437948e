-- ===== src/Telemetry/Counts.antt =====
-- telemetry.go: what the counters say of the requests that were served.
use aelora.Prelude.{
  ℕ, ◌+◌, ◌≡◌, refl, sym, ap, ◌∙◌, String, ◌==◌, eq_iff, Bool, true, false, not, ◌&&◌, List, [],
  ◌∷◌, lookup, lookup-insert, or_else, length, Bool-cases, inl, inr, arith, if◌then◌else◌,
}
use aelora.Telemetry.{
  Counters, WriterCall, write_header, write, flush, hijack, TimingWriter, new_writer, set_header,
  write_body, hijack_conn, step, serve_http, Request, route_key, count_route, served,
  with_request_metrics,
}

-- The status that a client is shown: the first one that the handler has sent, 200 where it has sent
-- content first or nothing at all, and 101 where it has taken the connection over before.
abbrev pub first_status : Bool → List WriterCall → ℕ
first_status hijacker [] = 200
first_status hijacker (write_header status ∷ rest) = status
first_status hijacker (write body ∷ rest) = 200
first_status hijacker (flush ∷ rest) = first_status hijacker rest
first_status hijacker (hijack ∷ rest) =
    let later = first_status hijacker rest in if hijacker then 101 else later

-- A writer behind its first status.
record Written (status : ℕ) (w : TimingWriter) : Type 0 where
  wrote : w.wrote_header ≡ true
  code : w.status_code ≡ status

-- A writer before it.
record Untouched (can_hijack : Bool) (w : TimingWriter) : Type 0 where
  wrote : w.wrote_header ≡ false
  hijacked : w.hijacked ≡ false
  hijacker : w.hijacker ≡ can_hijack
  code : w.status_code ≡ 200

step-Written :
    (status : ℕ) (call : WriterCall) (w : TimingWriter)
    → Written status w
    → Written status (step call w)
unfolding step set_header write_body hijack_conn
step-Written status (write_header n) w h = elim (Bool-cases w.hijacked) [
  | inl b ↦ rw b (record { wrote = h.wrote; code = h.code })
  | inr b ↦ rw (b, h.wrote) (record { wrote = refl; code = h.code })
]
step-Written status (write body) w h = rw h.wrote (record { wrote = refl; code = h.code })
step-Written status flush w h = record { wrote = h.wrote; code = h.code }
step-Written status hijack w h = elim (Bool-cases w.hijacker) [
  | inl b ↦ rw (b, h.wrote) (record { wrote = refl; code = h.code })
  | inr b ↦ rw b (record { wrote = h.wrote; code = h.code })
]

serve_http-Written :
    (status : ℕ) (calls : List WriterCall) (w : TimingWriter)
    → Written status w
    → Written status (serve_http calls w)
unfolding serve_http
serve_http-Written status [] w h = h
serve_http-Written status (call ∷ rest) w h =
    serve_http-Written status rest (step call w) (step-Written status call w h)

-- The end of a request.
finish : TimingWriter → TimingWriter
finish w = if not w.wrote_header && not w.hijacked then set_header 200 w else w

finish-Written :
    (status : ℕ) (w : TimingWriter) → Written status w → (finish w).status_code ≡ status
unfolding finish
finish-Written status w h = rw h.wrote h.code

first_of :
    (can_hijack : Bool) (calls : List WriterCall) (w : TimingWriter)
    → Untouched can_hijack w
    → (finish (serve_http calls w)).status_code ≡ first_status can_hijack calls
unfolding serve_http step finish set_header write_body hijack_conn
first_of can_hijack [] w u = rw (u.wrote, u.hijacked) refl
first_of can_hijack (write_header n ∷ rest) w u =
    rw (u.wrote, u.hijacked)
      (finish-Written n _ (serve_http-Written n rest _ (record { wrote = refl; code = refl })))
first_of can_hijack (write body ∷ rest) w u =
    rw (u.wrote, u.hijacked)
      (finish-Written 200 _ (serve_http-Written 200 rest _ (record { wrote = refl; code = refl })))
first_of can_hijack (flush ∷ rest) w u =
    first_of can_hijack rest _
      (record { wrote = u.wrote; hijacked = u.hijacked; hijacker = u.hijacker; code = u.code })
first_of true (hijack ∷ rest) w u =
    rw (u.hijacker, u.wrote)
      (finish-Written 101 _ (serve_http-Written 101 rest _ (record { wrote = refl; code = refl })))
first_of false (hijack ∷ rest) w u = rw u.hijacker (
    first_of false rest (record w { hijacker = false })
      (record { wrote = u.wrote; hijacked = u.hijacked; hijacker = refl; code = u.code }))

served-first : (r : Request) → (served r).status_code ≡ first_status r.hijacker r.handler
unfolding served finish
served-first r =
    first_of r.hijacker r.handler (new_writer r.hijacker)
      (record { wrote = refl; hijacked = refl; hijacker = refl; code = refl })

-- The counter that a request belongs to.
abbrev pub key_of : Request → String
key_of r = route_key r (first_status r.hijacker r.handler)

-- The counters behind requests, served one after another.
abbrev pub serve_all : List Request → Counters → Counters
serve_all [] c = c
serve_all (r ∷ rest) c = serve_all rest (with_request_metrics r c)

-- How many of the requests belong to a counter.
abbrev pub requests_of : String → List Request → ℕ
requests_of key [] = 0
requests_of key (r ∷ rest) =
    let later = requests_of key rest in if key == key_of r then later + 1 else later

abbrev pub count_of : String → Counters → ℕ
count_of key c = or_else (lookup key c.route_counts) 0

counted :
    (key own : String) (counts : List (String × ℕ))
    → or_else (lookup key (count_route own counts)) 0
      ≡ (if key == own then or_else (lookup key counts) 0 + 1 else or_else (lookup key counts) 0)
unfolding count_route
counted key own counts = elim (Bool-cases (key == own)) [
  | inl b ↦
      rw (lookup-insert key own (or_else (lookup own counts) 0 + 1) counts, b)
        (ap (λ k. or_else (lookup k counts) 0 + 1) (sym ((eq_iff key own).0 b)))
  | inr b ↦ rw (lookup-insert key own (or_else (lookup own counts) 0 + 1) counts, b) refl
]

counts_of :
    (r : Request) (c : Counters)
    → (with_request_metrics r c).route_counts ≡ count_route (key_of r) c.route_counts
unfolding with_request_metrics
counts_of r c = ap (λ status. count_route (route_key r status) c.route_counts) (served-first r)

one_request :
    (key : String) (r : Request) (c : Counters)
    → count_of key (with_request_metrics r c)
      ≡ (if key == key_of r then count_of key c + 1 else count_of key c)
one_request key r c =
    ap (λ counts. or_else (lookup key counts) 0) (counts_of r c)
    ∙ counted key (key_of r) c.route_counts

one_total :
    (r : Request) (c : Counters) → (with_request_metrics r c).total_requests ≡ c.total_requests + 1
unfolding with_request_metrics
one_total r c = refl

added : (b : Bool) (m n : ℕ) → (if b then m + 1 else m) + n ≡ m + (if b then n + 1 else n)
added true m n = omega arith
added false m n = refl

-- However many requests are served, the total goes up by their number, and each route's counter by
-- the number of those with its method, its route and the first status that they sent.
pub all_counted :
    (rs : List Request) (c : Counters)
    → ((serve_all rs c).total_requests ≡ c.total_requests + length rs)
      × ((key : String) → count_of key (serve_all rs c) ≡ count_of key c + requests_of key rs)
all_counted [] c = (omega arith, λ key. omega arith)
all_counted (r ∷ rest) c =
    let (total, counts) = all_counted rest (with_request_metrics r c) in
    (
      omega (arith, total, one_total r c),
      λ key.
          counts key
          ∙ ap (λ n. n + requests_of key rest) (one_request key r c)
          ∙ added (key == key_of r) (count_of key c) (requests_of key rest),
    )
