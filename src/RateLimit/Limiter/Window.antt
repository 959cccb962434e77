-- ===== src/RateLimit/Limiter/Window.antt =====
-- The sliding window over a whole run of requests: what the set in Redis holds, and how many
-- requests it ever lets through (the script of internal/ratelimit/limiter.go).
use aegis_ai_gateway.Prelude.{
  ◌*◌, ◌⊎◌, ◌<◌, leb→le, sym, ◌∙◌, sub_ℕ, ltb_ℤ, leb, pos_part, ℕ, suc, ◌+◌, ◌≤◌, ◌≡◌, refl, false,
  String, List, [], ◌∷◌, All, length, insert, arith, if◌then◌else◌, ℤ, pos, leb_ℤ, ltb, str_eq,
  Bool-cases, inl, inr,
}
use aegis_ai_gateway.RateLimit.Limiter.{Bucket, remove_up_to, live, run_script, ttl_secs}

-- How many of the times lie in the window that ends at `t`, its start excluded.
unfoldable pub recent : (window t : ℕ) → List ℕ → ℕ
recent window t [] = 0
recent window t (s ∷ ss) =
    let rest = recent window t ss in if ltb t (s + window) then suc rest else rest

abbrev pub scores : List (String × ℕ) → List ℕ
scores [] = []
scores ((member, score) ∷ es) = score ∷ scores es

length-remove_up_to :
    (now window : ℕ) (es : List (String × ℕ))
    → length (remove_up_to (sub_ℕ now window) es) ≡ recent window now (scores es)
unfolding remove_up_to recent
length-remove_up_to now window [] = refl
length-remove_up_to now window ((member, score) ∷ es) =
    ground (arith, length-remove_up_to now window es)

recent-remove_up_to :
    (now window t : ℕ) (es : List (String × ℕ))
    → now ≤ t
    → recent window t (scores (remove_up_to (sub_ℕ now window) es)) ≡ recent window t (scores es)
unfolding remove_up_to recent
recent-remove_up_to now window t [] h = refl
recent-remove_up_to now window t ((member, score) ∷ es) h =
    ground (arith, recent-remove_up_to now window t es h)

All-remove_up_to :
    (P : String × ℕ → Type 0) (start : ℤ) (es : List (String × ℕ))
    → All P es
    → All P (remove_up_to start es)
unfolding remove_up_to
All-remove_up_to P start [] h = tt
All-remove_up_to P start ((member, score) ∷ es) (p, h) =
    elim (Bool-cases (leb_ℤ (pos score) start)) [
      | inl gone ↦ rw (gone, remove_up_to) (All-remove_up_to P start es h)
      | inr kept ↦ rw (kept, remove_up_to) (p, All-remove_up_to P start es h)
    ]

-- A member that the set does not hold.
abbrev pub IsNew : String → List (String × ℕ) → Type 0
IsNew member es = All (λ e. str_eq e.0 member ≡ false) es

recent-insert :
    (window t : ℕ) (member : String) (now : ℕ) (es : List (String × ℕ))
    → IsNew member es
    → recent window t (scores (insert member now es)) ≡ (
        if ltb t (now + window)
        then suc (recent window t (scores es))
        else recent window t (scores es))
unfolding recent insert
recent-insert window t member now [] h = refl
recent-insert window t member now ((j, s) ∷ es) (n, h) =
    ground (arith, recent-insert window t member now es h)

pub All-insert :
    (P : String × ℕ → Type 0) (member : String) (now : ℕ) (es : List (String × ℕ))
    → P (member, now)
    → All P es
    → All P (insert member now es)
unfolding insert
All-insert P member now [] p h = (p, tt)
All-insert P member now ((j, s) ∷ es) p (q, h) = elim (Bool-cases (str_eq j member)) [
  | inl same ↦ rw (same, insert) (p, h)
  | inr other ↦ rw (other, insert) (q, All-insert P member now es p h)
]

pub All-weaken :
    (P Q : String × ℕ → Type 0)
    → ((e : String × ℕ) → P e → Q e)
    → (es : List (String × ℕ)) → All P es
    → All Q es
All-weaken P Q f [] h = tt
All-weaken P Q f (e ∷ es) (p, h) = (f e p, All-weaken P Q f es h)

recent-antitone : (window t u : ℕ) (ss : List ℕ) → t ≤ u → recent window u ss ≤ recent window t ss
unfolding recent
recent-antitone window t u [] h = omega arith
recent-antitone window t u (s ∷ ss) h = ground (arith, recent-antitone window t u ss h)

recent_expired :
    (window t expires : ℕ) (es : List (String × ℕ))
    → All (λ e. e.1 + window ≤ expires) es
    → expires ≤ t
    → recent window t (scores es) ≡ 0
unfolding recent
recent_expired window t expires [] h le = refl
recent_expired window t expires ((member, s) ∷ es) (p, h) le =
    ground (arith, recent_expired window t expires es h le)

-- The expiry of the key drops only what has left the window.
recent-live :
    (window now t : ℕ) (b : Bucket)
    → All (λ e. e.1 + window ≤ b.expires_at) b.entries
    → now ≤ t
    → recent window t (scores (live now b)) ≡ recent window t (scores b.entries)
unfolding recent
recent-live window now t b h le = elim (Bool-cases (leb b.expires_at now)) [
  | inl gone ↦ rw gone (
      sym (
        recent_expired window t b.expires_at b.entries h
          (omega (arith, leb→le b.expires_at now gone))))
  | inr there ↦ rw there
]

All-live : (P : String × ℕ → Type 0) (now : ℕ) (b : Bucket) → All P b.entries → All P (live now b)
All-live P now b h = elim (Bool-cases (leb b.expires_at now)) [
  | inl gone ↦ rw gone tt
  | inr there ↦ rw there h
]

-- One request at a limiter's key.
pub record Request : Type 0 where
  pub at : ℕ
  pub member : String

-- The bucket, and the times of the requests let through, newest first.
pub record Served : Type 0 where
  pub bucket : Bucket
  pub log : List ℕ

module _ (limit : ℤ) (window : ℕ) where
  unfoldable pub serve : Served → Request → Served
  unfolding run_script
  serve s r =
      let (bucket, count, allowed) = run_script limit window r.at r.member s.bucket in
      record { bucket = bucket; log = if allowed then r.at ∷ s.log else s.log }

  unfoldable pub serve_all : Served → List Request → Served
  serve_all s [] = s
  serve_all s (r ∷ rs) = serve_all (serve s r) rs

  -- What the state says of every time from `last` on.
  pub record Tracks (last : ℕ) (s : Served) : Type 0 where
    pub same :
        (t : ℕ) → last ≤ t → recent window t (scores s.bucket.entries) ≡ recent window t s.log
    pub bounded : (t : ℕ) → last ≤ t → recent window t s.log ≤ pos_part limit
    pub timely : All (λ e. e.1 ≤ last) s.bucket.entries
    pub kept_alive : All (λ e. e.1 + window ≤ s.bucket.expires_at) s.bucket.entries

  -- The entries that the script keeps at its time.
  abbrev pub kept_at : ℕ → Bucket → List (String × ℕ)
  kept_at now b = remove_up_to (sub_ℕ now window) (live now b)

  module _ {last : ℕ} {s : Served} (h : Tracks last s) (r : Request) (le : last ≤ r.at) where
    recent-kept_at :
        (t : ℕ)
        → r.at ≤ t
        → recent window t (scores (kept_at r.at s.bucket)) ≡ recent window t s.log
    recent-kept_at t at =
        recent-remove_up_to r.at window t (live r.at s.bucket) at
        ∙ recent-live window r.at t s.bucket h.kept_alive at
        ∙ h.same t (omega arith)

    pub length-kept_at : length (kept_at r.at s.bucket) ≡ recent window r.at s.log
    length-kept_at =
        length-remove_up_to r.at window (live r.at s.bucket)
        ∙ recent-live window r.at r.at s.bucket h.kept_alive (omega arith)
        ∙ h.same r.at le

    pub All-kept_at :
        (P : String × ℕ → Type 0) → All P s.bucket.entries → All P (kept_at r.at s.bucket)
    All-kept_at P a = All-remove_up_to P _ _ (All-live P r.at s.bucket a)

    timely-kept_at : All (λ e. e.1 ≤ r.at) (kept_at r.at s.bucket)
    timely-kept_at = All-kept_at _ (All-weaken (λ e. e.1 ≤ last) _ (λ e p. omega arith) _ h.timely)

    -- The bucket after the script, where it has room for the request and where it has none.
    abbrev stored : List (String × ℕ) → Bucket
    stored es = record { entries = es; expires_at = r.at + ttl_secs (window * 1000) * 1_000_000 }

    abbrev grown : Served
    grown = record {
      bucket = stored (insert r.member r.at (kept_at r.at s.bucket));
      log = r.at ∷ s.log;
    }

    abbrev pruned : Served
    pruned = record { bucket = stored (kept_at r.at s.bucket); log = s.log }

    pub serve_cases :
        (serve s r ≡ grown) × (recent window r.at s.log < pos_part limit) ⊎ (serve s r ≡ pruned)
    unfolding serve
    serve_cases = elim (Bool-cases (ltb_ℤ (pos (length (kept_at r.at s.bucket))) limit)) [
      | inl room ↦ inl (rw room, rw (← length-kept_at) (ground arith))
      | inr full ↦ inr (rw full)
    ]

    in_time :
        (es : List (String × ℕ))
        → All (λ e. e.1 ≤ r.at) es
        → All (λ e. e.1 + window ≤ (stored es).expires_at) es
    in_time es t = All-weaken (λ e. e.1 ≤ r.at) _ (λ e p. omega arith) es t

    grown-Tracks :
        IsNew r.member s.bucket.entries
        → recent window r.at s.log < pos_part limit
        → Tracks r.at grown
    unfolding recent
    grown-Tracks new room =
        let timely = All-insert (λ e. e.1 ≤ r.at) r.member r.at _ (omega arith) timely-kept_at in
        record {
          same = λ t at.
              recent-insert window t r.member r.at _ (All-kept_at _ new) ∙ rw (recent-kept_at t at);
          bounded = λ t at. ground (arith, recent-antitone window r.at t s.log at);
          timely = timely;
          kept_alive = in_time _ timely;
        }

    pruned-Tracks : Tracks r.at pruned
    pruned-Tracks = record {
      same = recent-kept_at;
      bounded = λ t at. h.bounded t (omega arith);
      timely = timely-kept_at;
      kept_alive = in_time _ timely-kept_at;
    }

    pub serve-Tracks : IsNew r.member s.bucket.entries → Tracks r.at (serve s r)
    serve-Tracks new = elim serve_cases [
      | inl (same, room) ↦ rw same (grown-Tracks new room)
      | inr same ↦ rw same pruned-Tracks
    ]
