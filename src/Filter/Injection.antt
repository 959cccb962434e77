-- ===== src/Filter/Injection.antt =====
-- internal/filter/injection/heuristic.go: the prompt injection filter. `find_all` is
-- `FindAllStringIndex` of the regexp library; the rules of rules.go are a parameter.
use aegis_ai_gateway.Prelude.{
  Bool-cases, inr, inl, arith, true, ◌↔◌, ◌⊎◌, FloatOrder, ◌≡◌, pos, length, ◌++◌, if◌then◌else◌,
  ◌∷◌, [], List, ℕ, String, Float64,
}
use aegis_ai_gateway.Config.Settings.{InjectionFilterConfig}
use aegis_ai_gateway.Types.{AegisRequest, Message}
use aegis_ai_gateway.Filter.{
  true, ℕ, List, pass, flag, block, FilterResult, no_message, injection_detected,
}
use aegis_ai_gateway.Filter.Secrets.{FindAll}

pub record Rule (F : Type 0) : Type 0 where
  pub name : String
  pub regex : String
  pub severity : F
  pub category : String

pub record Detection (F : Type 0) : Type 0 where
  pub rule_name : String
  pub severity : F
  pub category : String
  pub start : ℕ
  pub end : ℕ

module _ (find_all : FindAll) (fl : Float64) where
  abbrev pub detections_at : Rule fl.F → List (ℕ × ℕ) → List (Detection fl.F)
  detections_at r [] = []
  detections_at r ((start, end) ∷ locs) =
      record {
        rule_name = r.name;
        severity = r.severity;
        category = r.category;
        start = start;
        end = end;
      }
      ∷ detections_at r locs

  unfoldable pub scan : List (Rule fl.F) → String → List (Detection fl.F)
  scan [] text = []
  scan (r ∷ rs) text = detections_at r (find_all r.regex text) ++ scan rs text

  -- The inner loop of `ScanMessages`.
  abbrev pub max_severity : fl.F → List (Detection fl.F) → fl.F
  max_severity max_score [] = max_score
  max_severity max_score (d ∷ ds) =
      max_severity (if fl.lt max_score d.severity then d.severity else max_score) ds

  abbrev pub scan_from :
      List (Rule fl.F) → List (Detection fl.F) → fl.F → List Message → List (Detection fl.F) × fl.F
  scan_from rules all max_score [] = (all, max_score)
  scan_from rules all max_score (m ∷ ms) =
      let ds = scan rules m.content in scan_from rules (all ++ ds) (max_severity max_score ds) ms

  unfoldable pub scan_messages : List (Rule fl.F) → List Message → List (Detection fl.F) × fl.F
  scan_messages rules ms = scan_from rules [] (fl.of_int (pos 0)) ms

  abbrev pub decide : InjectionFilterConfig fl.F → List (Detection fl.F) × fl.F → FilterResult fl.F
  decide cfg (ds, score) =
      if fl.le cfg.block_threshold score
      then record {
        action = block;
        filter_name = "injection";
        message = injection_detected score;
        detections = length ds;
        score = score;
      }
      else if fl.le cfg.flag_threshold score
      then record {
        action = flag;
        filter_name = "injection";
        message = no_message;
        detections = length ds;
        score = score;
      }
      else record {
        action = pass;
        filter_name = "injection";
        message = no_message;
        detections = 0;
        score = score;
      }

  unfoldable pub scan_request :
      List (Rule fl.F) → InjectionFilterConfig fl.F → AegisRequest fl.F → FilterResult fl.F
  scan_request rules cfg req = decide cfg (scan_messages rules req.messages)

  -- Some rule that matches in the message has a severity at the threshold or above.
  abbrev pub Reaches : fl.F → List (Detection fl.F) → Type 0
  Reaches t [] = ⊥
  Reaches t (d ∷ ds) = (fl.le t d.severity ≡ true) ⊎ Reaches t ds

  abbrev pub SomeReaches : fl.F → List (Rule fl.F) → List Message → Type 0
  SomeReaches t rules [] = ⊥
  SomeReaches t rules (m ∷ ms) = Reaches t (scan rules m.content) ⊎ SomeReaches t rules ms

  module _ (order : FloatOrder fl) where
    max_severity_iff :
        (t max_score : fl.F) (ds : List (Detection fl.F))
        → order.IsNumber max_score
        → order.IsNumber (max_severity max_score ds)
          × ((fl.le t (max_severity max_score ds) ≡ true)
              ↔ ((fl.le t max_score ≡ true) ⊎ Reaches t ds))
    max_severity_iff t max_score [] n =
        (n, ((λ e. inl e), λ h. elim h [ inl e ↦ e | inr b ↦ absurd b ]))
    max_severity_iff t max_score (d ∷ ds) n = elim (Bool-cases (fl.lt max_score d.severity)) [
      | inl above ↦
          let (num, iff) = max_severity_iff t d.severity ds (order.lt-IsNumber _ _ above) in
          rw above (
            num,
            (
              (λ e. elim (iff.0 e) [ inl h ↦ inr (inl h) | inr h ↦ inr (inr h) ]),
              λ h. elim h [ inl e ↦ iff.1 (inl (order.le_lt _ _ _ e above)) | inr g ↦ iff.1 g ],
            ),
          )
      | inr below ↦
          let (num, iff) = max_severity_iff t max_score ds n in
          rw below (
            num,
            (
              (λ e. elim (iff.0 e) [ inl h ↦ inl h | inr h ↦ inr (inr h) ]),
              λ h. elim h [
                | inl e ↦ iff.1 (inl e)
                | inr g ↦ elim g [
                  | inl e ↦ iff.1 (inl (order.le_not_lt _ _ _ n below e))
                  | inr k ↦ iff.1 (inr k)
                ]
              ],
            ),
          )
    ]

    scan_from_iff :
        (rules : List (Rule fl.F)) (t max_score : fl.F) (all : List (Detection fl.F))
        (ms : List Message)
        → order.IsNumber max_score
        → (fl.le t (scan_from rules all max_score ms).1 ≡ true)
          ↔ ((fl.le t max_score ≡ true) ⊎ SomeReaches t rules ms)
    scan_from_iff rules t max_score all [] n =
        ((λ e. inl e), λ h. elim h [ inl e ↦ e | inr b ↦ absurd b ])
    scan_from_iff rules t max_score all (m ∷ ms) n =
        let (num, one) = max_severity_iff t max_score (scan rules m.content) n in
        let rest =
          scan_from_iff rules t (max_severity max_score (scan rules m.content))
            (all ++ scan rules m.content) ms num in
        (
          λ e. elim (rest.0 e) [
            | inl h ↦ elim (one.0 h) [ inl g ↦ inl g | inr g ↦ inr (inl g) ]
            | inr h ↦ inr (inr h)
          ],
          λ h. elim h [
            | inl g ↦ rest.1 (inl (one.1 (inl g)))
            | inr g ↦ elim g [ inl k ↦ rest.1 (inl (one.1 (inr k))) | inr k ↦ rest.1 (inr k) ]
          ],
        )

    decide_block_iff :
        (cfg : InjectionFilterConfig fl.F) (found : List (Detection fl.F) × fl.F)
        → ((decide cfg found).action ≡ block) ↔ (fl.le cfg.block_threshold found.1 ≡ true)
    decide_block_iff cfg (ds, score) = ground arith

    -- The injection filter blocks a request exactly if the block threshold is 0 or below, or a rule
    -- that matches in some message has a severity at the threshold or above. What is used of float64
    -- is its order.
    pub injection_block_iff :
        (rules : List (Rule fl.F)) (cfg : InjectionFilterConfig fl.F) (req : AegisRequest fl.F)
        → ((scan_request rules cfg req).action ≡ block) ↔ (
            (fl.le cfg.block_threshold (fl.of_int (pos 0)) ≡ true)
            ⊎ SomeReaches cfg.block_threshold rules req.messages)
    unfolding scan_request scan_messages
    injection_block_iff rules cfg req =
        let first = decide_block_iff cfg (scan_messages rules req.messages) in
        let second =
          scan_from_iff rules cfg.block_threshold (fl.of_int (pos 0)) [] req.messages
            order.zero-IsNumber in
        (λ e. second.0 (first.0 e), λ h. first.1 (second.1 h))
