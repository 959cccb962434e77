-- ===== src/RateLimit/Limiter/Runs.antt =====
-- The sliding-window limit over every run of requests against one bucket
-- (the script of internal/ratelimit/limiter.go).
use aegis_ai_gateway.Prelude.{
  inr, inl, refl, ◌<◌, ◌↔◌, false, true, str_eq, ◌≡◌, All, pos_part, arith, ◌≤◌,
}
use aegis_ai_gateway.RateLimit.Limiter.{◌∷◌, String, ℕ, List, ℤ, [], run_script}
use aegis_ai_gateway.RateLimit.Limiter.Window.{
  recent, All-weaken, All-insert, Request, Served, serve, serve_all, Tracks, serve_cases,
  serve-Tracks, All-kept_at, length-kept_at,
}

-- The requests come in the order of their times, from `last` on, and no two have one member text.
abbrev pub InOrder : ℕ → List Request → Type 0
InOrder last [] = Unit
InOrder last (r ∷ rs) =
    (last ≤ r.at) × All (λ q. str_eq r.member q.member ≡ false) rs × InOrder r.at rs

abbrev pub end_of : ℕ → List Request → ℕ
end_of last [] = last
end_of last (r ∷ rs) = end_of r.at rs

abbrev Unseen : List Request → String × ℕ → Type 0
Unseen rs e = All (λ q. str_eq e.0 q.member ≡ false) rs

abbrev pub empty : Served
empty = record { bucket = record { entries = []; expires_at = 0 }; log = [] }

module _ (limit : ℤ) (window : ℕ) where
  serve-Unseen :
      {last : ℕ} {s : Served}
      → Tracks limit window last s
      → (r : Request) (rs : List Request) → last ≤ r.at
      → All (λ q. str_eq r.member q.member ≡ false) rs
      → All (Unseen (r ∷ rs)) s.bucket.entries
      → All (Unseen rs) (serve limit window s r).bucket.entries
  serve-Unseen {s} h r rs le distinct unseen =
      let rest = All-weaken (Unseen (r ∷ rs)) (Unseen rs) (λ e p. p.1) s.bucket.entries unseen in
      let kept = All-kept_at limit window h r le (Unseen rs) rest in
      elim (serve_cases limit window h r le) [
        | inl (same, room) ↦ rw same (All-insert (Unseen rs) r.member r.at _ distinct kept)
        | inr same ↦ rw same kept
      ]

  serve_all-Tracks :
      {last : ℕ} {s : Served} (rs : List Request)
      → Tracks limit window last s
      → InOrder last rs
      → All (Unseen rs) s.bucket.entries
      → Tracks limit window (end_of last rs) (serve_all limit window s rs)
  unfolding serve_all
  serve_all-Tracks [] h o u = h
  serve_all-Tracks {last = last} {s = s} (r ∷ rs) h (le, distinct, o) u =
      let new = All-weaken (Unseen (r ∷ rs)) _ (λ e p. p.0) s.bucket.entries u in
      serve_all-Tracks {last = r.at} {s = serve limit window s r} rs
        (serve-Tracks limit window h r le new) o (serve-Unseen h r rs le distinct u)

  empty-Tracks : Tracks limit window 0 empty
  unfolding recent
  empty-Tracks = record {
    same = λ t at. refl;
    bounded = λ t at. omega arith;
    timely = tt;
    kept_alive = tt;
  }

  run-Tracks :
      (rs : List Request)
      → InOrder 0 rs
      → Tracks limit window (end_of 0 rs) (serve_all limit window empty rs)
  run-Tracks rs o = serve_all-Tracks rs empty-Tracks o tt

-- Of the requests of any run in order of time with distinct members, no window of the configured
-- length, ending at the last request or later, holds more that were let through than the limit (none
-- where the limit is negative).
pub window_bound :
    (limit : ℤ) (window t : ℕ) (rs : List Request)
    → InOrder 0 rs
    → end_of 0 rs ≤ t
    → recent window t (serve_all limit window empty rs).log ≤ pos_part limit
window_bound limit window t rs o le = (run-Tracks limit window rs o).bounded t le

-- After any run of requests in order of time with distinct members, the next request is let through
-- exactly if fewer requests than the limit were let through in the window that ends at it: requests
-- that were refused do not count, and the expiry of the key loses none.
pub allowed_iff :
    (limit : ℤ) (window : ℕ) (rs : List Request) (r : Request)
    → InOrder 0 rs
    → end_of 0 rs ≤ r.at
    → ((run_script limit window r.at r.member (serve_all limit window empty rs).bucket).2 ≡ true)
      ↔ (recent window r.at (serve_all limit window empty rs).log < pos_part limit)
unfolding run_script
allowed_iff limit window rs r o le =
    ground (arith, length-kept_at limit window (run-Tracks limit window rs o) r le)
