-- ===== src/Filter/Chain.antt =====
-- What the chain of internal/filter/filter.go does: it runs the enabled filters up to the first that
-- blocks.
use aegis_ai_gateway.Prelude.{
  sym, refl, append_assoc, ◌∙◌, Bool-cases, ap, inr, some, inl, if◌then◌else◌, ◌↔◌, ◌⊎◌, append-nil,
  [], true, none, All, ◌∷◌, ◌++◌, false, ◌≡◌, List,
}
use aegis_ai_gateway.Types.{AegisRequest}
use aegis_ai_gateway.Filter.{is_block, FilterResult, Filter, run_from, run}

module _ {F : Type 0} (req : AegisRequest F) where
  -- The results of the enabled filters.
  abbrev pub scans : List (Filter F) → List (FilterResult F)
  scans [] = []
  scans (f ∷ fs) = if f.enabled then f.scan_request req ∷ scans fs else scans fs

  -- The filter is off, or its result does not block.
  abbrev pub IsClear : Filter F → Type 0
  IsClear f = (f.enabled ≡ false) ⊎ (is_block (f.scan_request req).action ≡ false)

  -- The filter that stops the chain: it is on and blocks, all before it are clear.
  pub record Stops (filters : List (Filter F)) (r : FilterResult F) : Type 0 where
    pub before : List (Filter F)
    pub at : Filter F
    pub after : List (Filter F)
    pub split : filters ≡ before ++ at ∷ after
    pub is_on : at.enabled ≡ true
    pub blocks : is_block (at.scan_request req).action ≡ true
    pub gives : at.scan_request req ≡ r
    pub all_clear : All IsClear before

  run_from-clear :
      (results : List (FilterResult F)) (filters : List (Filter F))
      → All IsClear filters
      → run_from results filters req ≡ (results ++ scans filters, none)
  run_from-clear results [] u = ap (λ z. (z, none)) (sym (append-nil results))
  run_from-clear results (f ∷ fs) (inl off, h) = rw off (run_from-clear results fs h)
  run_from-clear results (f ∷ fs) (inr calm, h) = elim (Bool-cases f.enabled) [
    | inl on ↦
        rw (on, calm)
          (run_from-clear (results ++ f.scan_request req ∷ []) fs h
            ∙ ap (λ z. (z, none)) (append_assoc results (f.scan_request req ∷ []) (scans fs)))
    | inr off ↦ rw off (run_from-clear results fs h)
  ]

  run_from-blocked :
      (results : List (FilterResult F)) (before after : List (Filter F)) (f : Filter F)
      → f.enabled ≡ true
      → is_block (f.scan_request req).action ≡ true
      → All IsClear before
      → run_from results (before ++ f ∷ after) req
        ≡ (results ++ scans before ++ f.scan_request req ∷ [], some (f.scan_request req))
  run_from-blocked results [] after f on blocks u =
      rw (on, blocks)
        (ap (λ z. (z ++ f.scan_request req ∷ [], some (f.scan_request req)))
          (sym (append-nil results)))
  run_from-blocked results (g ∷ gs) after f on blocks (c, h) = elim (Bool-cases g.enabled) [
    | inr off ↦ rw off (run_from-blocked results gs after f on blocks h)
    | inl g_on ↦ elim c [
      | inl off ↦ cc
      | inr calm ↦
          rw (g_on, calm)
            (run_from-blocked (results ++ g.scan_request req ∷ []) gs after f on blocks h
              ∙ ap (λ z. (z ++ f.scan_request req ∷ [], some (f.scan_request req)))
                  (append_assoc results (g.scan_request req ∷ []) (scans gs)))
    ]
  ]

  chain_step :
      (f : Filter F) (fs : List (Filter F))
      → IsClear f
      → All IsClear fs ⊎ ((r : FilterResult F) × Stops fs r)
      → All IsClear (f ∷ fs) ⊎ ((r : FilterResult F) × Stops (f ∷ fs) r)
  chain_step f fs clear (inl h) = inl (clear, h)
  chain_step f fs clear (inr (r, s)) = inr (
    r,
    record {
      before = f ∷ s.before;
      at = s.at;
      after = s.after;
      split = ap (λ z. f ∷ z) s.split;
      is_on = s.is_on;
      blocks = s.blocks;
      gives = s.gives;
      all_clear = (clear, s.all_clear);
    },
  )

  chain_stop :
      (f : Filter F) (fs : List (Filter F))
      → f.enabled ≡ true
      → is_block (f.scan_request req).action ≡ true
      → Stops (f ∷ fs) (f.scan_request req)
  chain_stop f fs on blocks = record {
    before = [];
    at = f;
    after = fs;
    split = refl;
    is_on = on;
    blocks = blocks;
    gives = refl;
    all_clear = tt;
  }

  -- Every chain passes all its filters or has one that stops it.
  pub chain_cases :
      (filters : List (Filter F)) → All IsClear filters ⊎ ((r : FilterResult F) × Stops filters r)
  chain_cases [] = inl tt
  chain_cases (f ∷ fs) = elim (Bool-cases f.enabled) [
    | inr off ↦ chain_step f fs (inl off) (chain_cases fs)
    | inl on ↦ elim (Bool-cases (is_block (f.scan_request req).action)) [
      | inr calm ↦ chain_step f fs (inr calm) (chain_cases fs)
      | inl blocks ↦ inr (f.scan_request req, chain_stop f fs on blocks)
    ]
  ]

  -- If no enabled filter blocks, the chain reports no block and the results of all enabled filters in
  -- order.
  pub run_clear :
      (filters : List (Filter F)) → All IsClear filters → run filters req ≡ (scans filters, none)
  unfolding run
  run_clear filters h = run_from-clear [] filters h

  -- If a filter stops the chain, the chain reports its result as the block, and as results those of
  -- the enabled filters before it and its own; the filters after it do not matter.
  pub run_blocked :
      (filters : List (Filter F)) (r : FilterResult F) (s : Stops filters r)
      → run filters req ≡ (scans s.before ++ r ∷ [], some r)
  unfolding run
  run_blocked filters r s =
      ap (λ z. run_from [] z req) s.split
      ∙ run_from-blocked [] s.before s.after s.at s.is_on s.blocks s.all_clear
      ∙ ap (λ z. (scans s.before ++ z ∷ [], some z)) s.gives

  -- The chain reports no block exactly if no enabled filter blocks.
  pub run-IsClear_iff :
      (filters : List (Filter F)) → ((run filters req).1 ≡ none) ↔ All IsClear filters
  run-IsClear_iff filters = elim (chain_cases filters) [
    | inl h ↦ (λ e. h, λ g. ap (λ z. z.1) (run_clear filters h))
    | inr (r, s) ↦ (
      λ e. cc (e, ap (λ z. z.1) (run_blocked filters r s)),
      λ g. cc (ap (λ z. z.1) (run_clear filters g), ap (λ z. z.1) (run_blocked filters r s)),
    )
  ]
