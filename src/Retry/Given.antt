-- ===== src/Retry/Given.antt =====
-- Where a response that Execute of internal/retry/retry.go returns comes from.
use aegis_ai_gateway.Prelude.{
  ℕ, ℤ, pos, zero, suc, ◌+◌, String, Bool, true, Option, some, none, ◌≡◌, refl, leb_ℤ, Bool-cases,
  inl, inr,
}
use aegis_ai_gateway.Http.{HttpResponse}
use aegis_ai_gateway.Retry.{
  GoError, World, Outcome, own_error, succeeded, is_retryable, rounds_of, settle, execute_from,
  execute,
}

-- A response that is returned without an error is that of one of the calls, which gave no error.
abbrev pub WasGiven : World → Outcome → Type 0
WasGiven w o = o.error ≡ none → (t : ℕ) × (o.response ≡ (w.call t).0) × ((w.call t).1 ≡ none)

own_error-none : (err : Option GoError) → own_error err ≡ none → err ≡ none
own_error-none none e = refl
own_error-none (some g) e = cc e

succeeded-none :
    (resp : Option HttpResponse) (err : Option GoError) → succeeded resp err ≡ true → err ≡ none
succeeded-none none none e = refl
succeeded-none none (some g) e = cc e
succeeded-none (some r) none e = refl
succeeded-none (some r) (some g) e = cc e

module _ (max_retries : ℤ) (metrics : Bool) (provider : String) (w : World) where
  settle-WasGiven :
      (t : ℕ) (rest : Outcome)
      → WasGiven w rest
      → WasGiven w (settle max_retries metrics provider w t (w.call t).0 (w.call t).1 rest)
  unfolding settle
  settle-WasGiven t rest h e = elim (Bool-cases (succeeded (w.call t).0 (w.call t).1)) [
    | inl fine ↦ (t, rw fine refl, succeeded-none _ _ fine)
    | inr bad ↦ elim (Bool-cases (is_retryable (w.call t).1 (w.call t).0)) [
      | inr refused ↦ (t, rw (bad, refused) refl, own_error-none _ (rw (bad, refused) at e))
      | inl granted ↦ elim (Bool-cases (leb_ℤ max_retries (pos t))) [
        | inl last ↦ cc (rw (bad, granted, last) at e)
        | inr more ↦ elim (Bool-cases (w.cancelled_waiting t)) [
          | inl done ↦ cc (rw (bad, granted, more, done) at e)
          | inr live ↦
              let (u, resp, none_there) = h (rw (bad, granted, more, live) at e) in
              (u, rw (bad, granted, more, live) resp, none_there)
        ]
      ]
    ]
  ]

  execute_from-WasGiven :
      (rounds t : ℕ) (last : Option GoError)
      → WasGiven w (execute_from max_retries metrics provider w rounds t last)
  unfolding execute_from
  execute_from-WasGiven zero t last e = cc e
  execute_from-WasGiven (suc rounds) t last e = elim (Bool-cases (w.cancelled_before t)) [
    | inl done ↦ cc (rw done at e)
    | inr live ↦
        let (u, resp, none_there) =
          settle-WasGiven t _ (execute_from-WasGiven rounds (t + 1) (w.call t).1) (rw live at e) in
        (u, rw live resp, none_there)
  ]

  pub execute-WasGiven : WasGiven w (execute max_retries metrics provider w)
  unfolding execute
  execute-WasGiven e = execute_from-WasGiven (rounds_of max_retries) 0 none e
