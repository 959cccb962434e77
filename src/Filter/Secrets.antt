-- ===== src/Filter/Secrets.antt =====
-- internal/filter/secrets/scanner.go: the secrets filter. `find_all` is `FindAllStringIndex` of the
-- regexp library, for the text of a pattern; the pattern table of patterns.go is a parameter.
use aegis_ai_gateway.Prelude.{
  inr, inl, append-eq-nil_iff, ◌⊎◌, length, true, insert, pos, refl, ◌++◌, [], map, ◌↔◌, All, ℕ,
  Bool, ◌≡◌, ◌∷◌, Float64, List, String,
}
use aegis_ai_gateway.Types.{AegisRequest, Message}
use aegis_ai_gateway.Filter.{true, ℕ, Bool, pass, block, FilterResult, no_message, secrets_detected}

pub record Pattern : Type 0 where
  pub name : String
  pub regex : String

pub record Detection : Type 0 where
  pub pattern_name : String
  pub start : ℕ
  pub end : ℕ

abbrev pub FindAll : Type 0
FindAll = String → String → List (ℕ × ℕ)

module _ (find_all : FindAll) where
  abbrev pub detections_at : String → List (ℕ × ℕ) → List Detection
  detections_at name [] = []
  detections_at name ((start, end) ∷ locs) =
      record { pattern_name = name; start = start; end = end } ∷ detections_at name locs

  unfoldable pub scan : List Pattern → String → List Detection
  scan [] text = []
  scan (p ∷ ps) text = detections_at p.name (find_all p.regex text) ++ scan ps text

  unfoldable pub scan_messages : List Pattern → List Message → List Detection
  scan_messages patterns [] = []
  scan_messages patterns (m ∷ ms) = scan patterns m.content ++ scan_messages patterns ms

  -- The keys of `seen`, each once; Go gives them in any order.
  abbrev pub seen_names : List (String × Bool) → List Detection → List String
  seen_names seen [] = map (λ e. e.0) seen
  seen_names seen (d ∷ ds) = seen_names (insert d.pattern_name true seen) ds

  unfoldable pub scan_request :
      (fl : Float64) → List Pattern → AegisRequest fl.F → FilterResult fl.F
  scan_request fl patterns req = elim (scan_messages patterns req.messages) [
    | [] ↦ record {
      action = pass;
      filter_name = "secrets";
      message = no_message;
      detections = 0;
      score = fl.of_int (pos 0);
    }
    | d ∷ ds ↦ record {
      action = block;
      filter_name = "secrets";
      message = secrets_detected (length (d ∷ ds)) (seen_names [] (d ∷ ds));
      detections = length (d ∷ ds);
      score = fl.of_int (pos 0);
    }
  ]

  -- No pattern is found in any message.
  abbrev pub IsClean : List Pattern → List Message → Type 0
  IsClean patterns ms = All (λ m. All (λ p. find_all p.regex m.content ≡ []) patterns) ms

  nil-cases :
      (ds : List Detection) → (ds ≡ []) ⊎ ((e : Detection) × (es : List Detection) × (ds ≡ e ∷ es))
  nil-cases [] = inl refl
  nil-cases (e ∷ es) = inr (e, es, refl)

  detections_at-nil_iff :
      (name : String) (locs : List (ℕ × ℕ)) → (detections_at name locs ≡ []) ↔ (locs ≡ [])
  detections_at-nil_iff name [] = (λ e. refl, λ e. refl)
  detections_at-nil_iff name (l ∷ ls) = (λ e. cc, λ e. cc)

  scan-nil_iff :
      (patterns : List Pattern) (text : String)
      → (scan patterns text ≡ []) ↔ All (λ p. find_all p.regex text ≡ []) patterns
  unfolding scan
  scan-nil_iff [] text = (λ e. tt, λ u. refl)
  scan-nil_iff (p ∷ ps) text =
      let iff = append-eq-nil_iff (detections_at p.name (find_all p.regex text)) (scan ps text) in
      (
        λ e. ((detections_at-nil_iff p.name _).0 (iff.0 e).0, (scan-nil_iff ps text).0 (iff.0 e).1),
        λ h. iff.1 ((detections_at-nil_iff p.name _).1 h.0, (scan-nil_iff ps text).1 h.1),
      )

  scan_messages-nil_iff :
      (patterns : List Pattern) (ms : List Message)
      → (scan_messages patterns ms ≡ []) ↔ IsClean patterns ms
  unfolding scan_messages
  scan_messages-nil_iff patterns [] = (λ e. tt, λ u. refl)
  scan_messages-nil_iff patterns (m ∷ ms) =
      let iff = append-eq-nil_iff (scan patterns m.content) (scan_messages patterns ms) in
      (
        λ e. (
          (scan-nil_iff patterns m.content).0 (iff.0 e).0,
          (scan_messages-nil_iff patterns ms).0 (iff.0 e).1,
        ),
        λ h.
            iff.1
              ((scan-nil_iff patterns m.content).1 h.0, (scan_messages-nil_iff patterns ms).1 h.1),
      )

  -- The secrets filter passes a request exactly if none of its patterns is found in any message.
  pub secrets_pass_iff :
      (fl : Float64) (patterns : List Pattern) (req : AegisRequest fl.F)
      → ((scan_request fl patterns req).action ≡ pass) ↔ IsClean patterns req.messages
  unfolding scan_request
  secrets_pass_iff fl patterns req = elim (nil-cases (scan_messages patterns req.messages)) [
    | inl empty ↦
        rw (empty, scan_request)
          ((λ e. (scan_messages-nil_iff patterns req.messages).0 empty), λ h. refl)
    | inr (d, ds, found) ↦
        rw (found, scan_request)
          ((λ e. cc), λ h. cc ((scan_messages-nil_iff patterns req.messages).1 h))
  ]
