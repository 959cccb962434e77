-- ===== src/Filter/Pii.antt =====
-- internal/filter/pii/client.go: the PII filter. `scan_pii` is the gRPC service, `none` an error of
-- the call; the client is connected or not.
use aegis_ai_gateway.Prelude.{
  ◌≢◌, sym, ap, subst, inl, inr, Bool-cases, arith, refl, ◌||◌, ◌++◌, [], ◌↔◌, ◌⊎◌, All, str_eq,
  none, true, false, pos, some, ◌==◌, List, ◌≡◌, if◌then◌else◌, ℕ, Option, Float64, Bool, String,
}
use aegis_ai_gateway.Config.Settings.{PiiServiceConfig}
use aegis_ai_gateway.Types.{AegisRequest, Message}
use aegis_ai_gateway.Filter.{
  none, true, false, some, ◌∷◌, List, Option, ℕ, String, Bool, Action, pass, flag, block,
  FilterResult, FilterMessage, no_message, pii_not_connected, pii_unavailable, pii_detected,
}

pub record ScanPiiResponse : Type 0 where
  pub detected : Bool
  -- `len(resp.Detections)`
  pub detections : ℕ

abbrev pub ScanPii : Type 0
ScanPii = String → String → Option ScanPiiResponse

unfoldable pub classification_action : String → ℕ → Action
classification_action classification detections =
    if detections == 0
    then pass
    else if str_eq classification "RESTRICTED" || str_eq classification "CONFIDENTIAL"
    then block
    else flag

module _ (fl : Float64) where
  abbrev pub result : Action → FilterMessage fl.F → ℕ → FilterResult fl.F
  result action message detections = record {
    action = action;
    filter_name = "pii";
    message = message;
    detections = detections;
    score = fl.of_int (pos 0);
  }

  abbrev pub unavailable : Bool → FilterMessage fl.F → FilterResult fl.F
  unavailable fail_open message =
      if fail_open then result pass no_message 0 else result block message 0

  -- What the loop does with one response: `none` goes on with the next message.
  abbrev pub act_on : Action → ℕ → Option (FilterResult fl.F)
  act_on block n = some (result block (pii_detected n) n)
  act_on flag n = some (result flag no_message n)
  act_on _ n = none

  abbrev pub judge : PiiServiceConfig → String → Option ScanPiiResponse → Option (FilterResult fl.F)
  judge cfg classification none = some (unavailable cfg.fail_open pii_unavailable)
  judge cfg classification (some resp) =
      if resp.detected
      then act_on (classification_action classification resp.detections) resp.detections
      else none

  abbrev pub or_next : Option (FilterResult fl.F) → FilterResult fl.F → FilterResult fl.F
  or_next none next = next
  or_next (some r) next = r

  abbrev pub message_loop : ScanPii → PiiServiceConfig → String → List Message → FilterResult fl.F
  message_loop scan_pii cfg classification [] = result pass no_message 0
  message_loop scan_pii cfg classification (m ∷ ms) =
      let rest = message_loop scan_pii cfg classification ms in
      or_next (judge cfg classification (scan_pii m.content classification)) rest

  unfoldable pub scan_request :
      Option ScanPii → PiiServiceConfig → AegisRequest fl.F → FilterResult fl.F
  scan_request none cfg req = unavailable cfg.fail_open pii_not_connected
  scan_request (some scan_pii) cfg req = message_loop scan_pii cfg req.classification req.messages

  -- The service's answer finds nothing.
  abbrev pub IsNothing : ScanPiiResponse → Type 0
  IsNothing resp = (resp.detected ≡ false) ⊎ (resp.detections ≡ 0)

  -- The service answers for the message, and finds nothing.
  abbrev pub IsCleared : ScanPii → String → Message → Type 0
  IsCleared scan_pii classification m =
      (resp : ScanPiiResponse) × (scan_pii m.content classification ≡ some resp) × IsNothing resp

  abbrev or_else : ScanPiiResponse → Option ScanPiiResponse → ScanPiiResponse
  or_else resp none = resp
  or_else resp (some r) = r

  acts :
      (cfg : PiiServiceConfig) (classification : String) (next : FilterResult fl.F) (n : ℕ)
      → (or_next
          (act_on
            (if str_eq classification "RESTRICTED" || str_eq classification "CONFIDENTIAL"
              then block
              else flag)
            n)
          next).action
        ≢ pass
  acts cfg classification next n =
      elim (Bool-cases
        (str_eq classification "RESTRICTED" || str_eq classification "CONFIDENTIAL")) [
          | inl high ↦ rw high (λ e. cc e)
          | inr low ↦ rw low (λ e. cc e)
        ]

  judge_answer :
      {A : Type 0} (cfg : PiiServiceConfig) (classification : String) (next : FilterResult fl.F)
      (detected : Bool) (n : ℕ)
      → (next.action ≡ pass) ↔ A
      → ((or_next
            (judge cfg classification (some (record { detected = detected; detections = n })))
            next).action
          ≡ pass)
        ↔ (((detected ≡ false) ⊎ (n ≡ 0)) × A)
  unfolding classification_action
  judge_answer cfg classification next false n h = (λ e. (inl refl, h.0 e), λ g. h.1 g.1)
  judge_answer cfg classification next true n h = elim (Bool-cases (n == 0)) [
    | inl nothing ↦ rw nothing ((λ e. (inr (ground arith), h.0 e)), λ g. h.1 g.1)
    | inr something ↦
        rw something
          ((λ e. absurd (acts cfg classification next n e)), λ (nothing, a). ground arith)
  ]

  judge_step :
      {A : Type 0} (cfg : PiiServiceConfig) (classification : String) (next : FilterResult fl.F)
      (reply : Option ScanPiiResponse)
      → cfg.fail_open ≡ false
      → (next.action ≡ pass) ↔ A
      → ((or_next (judge cfg classification reply) next).action ≡ pass)
        ↔ (((resp : ScanPiiResponse) × (reply ≡ some resp) × IsNothing resp) × A)
  judge_step cfg classification next none closed h = rw closed ((λ e. cc), λ g. cc g.0.1)
  judge_step cfg classification next (some resp) closed h =
      let iff = judge_answer cfg classification next resp.detected resp.detections h in
      (
        λ e. ((resp, refl, (iff.0 e).0), (iff.0 e).1),
        λ ((r, same, nothing), a).
            iff.1 (subst IsNothing (ap (λ o. or_else resp o) (sym same)) nothing, a),
      )

  loop_pass_iff :
      (scan_pii : ScanPii) (cfg : PiiServiceConfig) (classification : String) (ms : List Message)
      → cfg.fail_open ≡ false
      → ((message_loop scan_pii cfg classification ms).action ≡ pass)
        ↔ All (IsCleared scan_pii classification) ms
  loop_pass_iff scan_pii cfg classification [] closed = (λ e. tt, λ u. refl)
  loop_pass_iff scan_pii cfg classification (m ∷ ms) closed =
      judge_step cfg classification _ (scan_pii m.content classification) closed
        (loop_pass_iff scan_pii cfg classification ms closed)

  -- With a connected client that does not fail open, the PII filter passes a request exactly if the
  -- service answers for every message and reports nothing in any.
  pub pii_pass_iff :
      (scan_pii : ScanPii) (cfg : PiiServiceConfig) (req : AegisRequest fl.F)
      → cfg.fail_open ≡ false
      → ((scan_request (some scan_pii) cfg req).action ≡ pass)
        ↔ All (IsCleared scan_pii req.classification) req.messages
  unfolding scan_request
  pii_pass_iff scan_pii cfg req closed =
      loop_pass_iff scan_pii cfg req.classification req.messages closed

  -- With a client that fails open, an error on one message passes the whole request if the service
  -- clears the messages before it, whatever it would say of those after it.
  pub fail_open_skips :
      (scan_pii : ScanPii) (cfg : PiiServiceConfig) (classification : String)
      (before after : List Message) (m : Message)
      → cfg.fail_open ≡ true
      → All (IsCleared scan_pii classification) before
      → scan_pii m.content classification ≡ none
      → (message_loop scan_pii cfg classification (before ++ m ∷ after)).action ≡ pass
  unfolding classification_action
  fail_open_skips scan_pii cfg classification [] after m opened u fails = rw (fails, opened) refl
  fail_open_skips scan_pii cfg classification (k ∷ ks) after m opened ((resp, answered, nothing), h)
        fails =
      ground (arith, fail_open_skips scan_pii cfg classification ks after m opened h fails)
