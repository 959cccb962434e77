-- ===== src/Config/Loader.antt =====
-- `Loader` of internal/config/loader.go: Load, OnReload and the loop of Watch. What LoadFile gives for
-- each file at each load comes from outside.
use aegis_ai_gateway.Prelude.{
  Result, ok, err, Option, some, none, List, [], ◌∷◌, ◌++◌, map, Bool, true, false, ◌||◌,
  if◌then◌else◌, ◌≡◌, refl, ap, sym, ◌∙◌, append-nil,
}

pub record Loader (C M P W : Type 0) : Type 0 where
  pub cfg : Option C
  pub models : Option M
  pub providers : Option P
  pub watchers : List W

-- What LoadFile gives for gateway.yaml, models.yaml and providers.yaml.
pub record Files (E C M P : Type 0) : Type 0 where
  pub gateway : Result E C
  pub models : Result E M
  pub providers : Result E P

pub data LoadError (E : Type 0) : Type 0 where
  gateway_config : E → LoadError E
  models_config : E → LoadError E
  providers_config : E → LoadError E

-- What a round of the loop picks.
pub data Signal (E C M P : Type 0) : Type 0 where
  changed : (write create : Bool) (files : Files E C M P) → Signal E C M P
  errored : Signal E C M P
  events_closed : Signal E C M P
  errors_closed : Signal E C M P

module _ {E C M P W : Type 0} where
  unfoldable load_with :
      Result E C → Result E M → Result E P → Loader C M P W → Loader C M P W × Option (LoadError E)
  load_with (err e) m p l = (l, some (gateway_config e))
  load_with (ok c) (err e) p l = (l, some (models_config e))
  load_with (ok c) (ok m) (err e) l = (l, some (providers_config e))
  load_with (ok c) (ok m) (ok p) l =
      (record l { cfg = some c; models = some m; providers = some p }, none)

  unfoldable load : Files E C M P → Loader C M P W → Loader C M P W × Option (LoadError E)
  unfolding load_with
  load files l = load_with files.gateway files.models files.providers l

module _ {C M P W : Type 0} where
  unfoldable on_reload : W → Loader C M P W → Loader C M P W
  on_reload fn l = record l { watchers = l.watchers ++ (fn ∷ []) }

module _ {E C M P W : Type 0} where
  -- Each callback that fires, with the loader that it finds.
  unfoldable fire :
      Loader C M P W × Option (LoadError E) → Loader C M P W × List (W × Loader C M P W)
  fire (l, some e) = (l, [])
  fire (l, none) = (l, map (λ fn. (fn, l)) l.watchers)

  unfoldable pub watch :
      List (Signal E C M P) → Loader C M P W → Loader C M P W × List (W × Loader C M P W)
  unfolding load fire
  watch [] l = (l, [])
  watch (events_closed ∷ rest) l = (l, [])
  watch (errors_closed ∷ rest) l = (l, [])
  watch (errored ∷ rest) l = watch rest l
  watch (changed write create files ∷ rest) l =
      let now = if write || create then fire (load files l) else (l, []) in
      let later = watch rest now.0 in (later.0, now.1 ++ later.1)

module _ {C M P : Type 0} where
  unfoldable pub add : Option (C × M × P) → List (C × M × P) → List (C × M × P)
  add none xs = xs
  add (some x) xs = x ∷ xs

  unfoldable pub newest : C × M × P → List (C × M × P) → C × M × P
  newest x [] = x
  newest x (y ∷ ys) = newest y ys

module _ {E C M P : Type 0} where
  -- The three parts of files that can all be read.
  unfoldable pub whole : Result E C → Result E M → Result E P → Option (C × M × P)
  whole (ok c) (ok m) (ok p) = some (c, m, p)
  whole (ok c) (ok m) (err e) = none
  whole (ok c) (err e) p = none
  whole (err e) m p = none

  -- The configurations that changes bring before a channel closes, in their order.
  unfoldable pub brought : List (Signal E C M P) → List (C × M × P)
  unfolding whole add
  brought [] = []
  brought (events_closed ∷ rest) = []
  brought (errors_closed ∷ rest) = []
  brought (errored ∷ rest) = brought rest
  brought (changed write create files ∷ rest) =
      add (if write || create then whole files.gateway files.models files.providers else none)
        (brought rest)

module _ {C M P W : Type 0} where
  -- A loader that holds the three parts of one configuration.
  abbrev pub holding : List W → C × M × P → Loader C M P W
  holding ws (c, m, p) = record { cfg = some c; models = some m; providers = some p; watchers = ws }

  unfoldable pub fired : List W → List (C × M × P) → List (W × Loader C M P W)
  fired ws [] = []
  fired ws (x ∷ xs) = map (λ fn. (fn, holding ws x)) ws ++ fired ws xs

module _ {C M P : Type 0} where
  newest-add :
      (x : C × M × P) (y : Option (C × M × P)) (xs : List (C × M × P))
      → newest x (add y xs) ≡ newest (newest x (add y [])) xs
  unfolding newest add
  newest-add x none xs = refl
  newest-add x (some y) xs = refl

module _ {C M P W : Type 0} where
  fired-add :
      (ws : List W) (y : Option (C × M × P)) (xs : List (C × M × P))
      → fired ws (add y xs) ≡ fired ws (add y []) ++ fired ws xs
  unfolding fired add
  fired-add ws none xs = refl
  fired-add ws (some y) xs = ap (λ z. z ++ fired ws xs) (sym (append-nil _))

module _ {E C M P W : Type 0} where
  round-holding :
      (b : Bool) (g : Result E C) (m : Result E M) (p : Result E P) (ws : List W) (x : C × M × P)
      → (if b then fire (load_with g m p (holding ws x)) else (holding ws x, [])) ≡ (
        holding ws (newest x (add (if b then whole g m p else none) [])),
        fired ws (add (if b then whole g m p else none) []),
      )
  unfolding load_with fire whole add newest fired
  round-holding false g m p ws x = refl
  round-holding true (err _) m p ws x = refl
  round-holding true (ok c) (err _) p ws x = refl
  round-holding true (ok c) (ok m) (err _) ws x = refl
  round-holding true (ok c) (ok m) (ok p) ws x =
      ap (λ z. (holding ws (c, m, p), z)) (sym (append-nil _))

  -- A loader that holds a whole configuration holds, after any run of the watch loop, the newest one
  -- that a change has brought, its three parts of one load, and each callback has fired once for each
  -- of these and found it in the loader; a change of which a file cannot be read leaves no trace.
  pub watch-holding :
      (signals : List (Signal E C M P)) (ws : List W) (x : C × M × P)
      → watch signals (holding ws x)
        ≡ (holding ws (newest x (brought signals)), fired ws (brought signals))
  unfolding watch brought newest fired load
  watch-holding [] ws x = refl
  watch-holding (events_closed ∷ rest) ws x = refl
  watch-holding (errors_closed ∷ rest) ws x = refl
  watch-holding (errored ∷ rest) ws x = watch-holding rest ws x
  watch-holding (changed write create f ∷ rest) ws x =
      let found = if write || create then whole f.gateway f.models f.providers else none in
      ap (λ now. ((watch rest now.0).0, now.1 ++ (watch rest now.0).1))
        (round-holding (write || create) f.gateway f.models f.providers ws x)
      ∙ (ap (λ later. (later.0, fired ws (add found []) ++ later.1))
            (watch-holding rest ws (newest x (add found [])))
          ∙ (ap (λ y. (holding ws y, fired ws (add found []) ++ fired ws (brought rest)))
                (sym (newest-add x found (brought rest)))
              ∙ ap (λ zs. (holding ws (newest x (add found (brought rest))), zs))
                  (sym (fired-add ws found (brought rest)))))
