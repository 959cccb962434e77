-- ===== src/Filter/Policy.antt =====
-- internal/filter/policy/opa.go: the policy filter. OPA is a parameter: `Query` is a prepared query,
-- `prepare` compiles modules, `eval` runs a query; an error is its text. Reading the files of the
-- bundle (loader.go) is given by its outcome; Bundle has what it reads.
pub mod Bundle
use aegis_ai_gateway.Prelude.{
  inr, inl, ◌⊎◌, ok, true, pos, [], All, if◌then◌else◌, refl, ◌↔◌, ◌≡◌, ◌∷◌, some, map, err, none,
  Float64, false, Result, Option, ℕ, String, List, Bool,
}
use Prim.Native.String.{◌++◌}
use aegis_ai_gateway.Types.{AegisRequest}
use aegis_ai_gateway.Filter.{
  true, Action, pass, block, FilterResult, FilterMessage, no_message, policy_failed, policy_denied,
}

pub record PolicyMessage : Type 0 where
  pub role : String
  pub content : String

pub record PolicyUser : Type 0 where
  pub id : String
  pub org : String
  pub team : String

pub record PolicyReq : Type 0 where
  pub model : String
  pub classification : String
  pub provider_type : String

pub record PolicyTime : Type 0 where
  pub hour : ℕ
  pub day : String

pub record PolicyInput : Type 0 where
  pub user : PolicyUser
  pub request : PolicyReq
  pub messages : List PolicyMessage
  pub time : PolicyTime

-- The value of an expression, as far as the code looks at it.
pub data Value : Type 0 where
  bool_value : Bool → Value
  text_value : String → Value
  other_value : Value

-- The outcome of `Eval`: an error, no result, a value that is no array of two elements or more, or
-- the first two elements.
pub data EvalReply : Type 0 where
  eval_error : String → EvalReply
  no_result malformed : EvalReply
  answer : Value → Value → EvalReply

abbrev pub as_bool : Value → Bool
as_bool (bool_value b) = b
as_bool _ = false

abbrev pub as_text : Value → String
as_text (text_value s) = s
as_text _ = ""

-- `Evaluate`: whether it is allowed, the reason and the error.
abbrev pub read_reply : EvalReply → Bool × String × Option String
read_reply (eval_error e) = (false, "policy evaluation error: " ++ e, some e)
read_reply no_result = (false, "no policy result", none)
read_reply malformed = (false, "unexpected policy result format", none)
read_reply (answer allow reason) = (as_bool allow, as_text reason, none)

pub data Loaded : Type 0 where
  load_error : String → Loaded
  modules : List (String × String) → Loaded

module _ {Query : Type 0} (prepare : List (String × String) → Result String Query)
    (eval : Query → PolicyInput → EvalReply) where
  -- `Load`: the prepared query afterwards, what is recorded of the reload, and the error.
  abbrev pub swap : Option Query → Result String Query → Option Query × Bool × Option String
  swap prepared (err e) = (prepared, false, some e)
  swap prepared (ok q) = (some q, true, none)

  unfoldable pub load : Option Query → Loaded → Option Query × Bool × Option String
  load prepared (load_error e) = (prepared, false, some e)
  load prepared (modules []) = (none, true, none)
  load prepared (modules (m ∷ ms)) = swap prepared (prepare (m ∷ ms))

  -- `LoadFromModules`: as `Load`, of modules that are given, with nothing recorded.
  unfoldable pub load_from_modules :
      Option Query → List (String × String) → Option Query × Option String
  load_from_modules prepared given = let (q, loaded, e) = swap prepared (prepare given) in (q, e)

  unfoldable pub evaluate : Option Query → PolicyInput → Bool × String × Option String
  evaluate none input = (false, "no policies loaded", none)
  evaluate (some q) input = read_reply (eval q input)

  abbrev pub policy_input : {F : Type 0} → PolicyTime → AegisRequest F → PolicyInput
  policy_input now req = record {
    user = record { id = req.user_id; org = req.organization_id; team = req.team_id };
    request = record {
      model = req.model;
      classification = req.classification;
      provider_type = req.provider_type;
    };
    messages = map (λ m. record { role = m.role; content = m.content }) req.messages;
    time = now;
  }

  module _ (fl : Float64) where
    abbrev pub result : Action → FilterMessage fl.F → FilterResult fl.F
    result action message = record {
      action = action;
      filter_name = "policy";
      message = message;
      detections = 0;
      score = fl.of_int (pos 0);
    }

    abbrev pub decide : Bool × String × Option String → FilterResult fl.F
    decide (allowed, reason, some e) = result block (policy_failed e)
    decide (allowed, reason, none) =
        if allowed then result pass no_message else result block (policy_denied reason)

    unfoldable pub scan_request : Option Query → PolicyTime → AegisRequest fl.F → FilterResult fl.F
    scan_request prepared now req = decide (evaluate prepared (policy_input now req))

    decide_pass_iff :
        (r : EvalReply)
        → ((decide (read_reply r)).action ≡ pass)
          ↔ ((reason : Value) × (r ≡ answer (bool_value true) reason))
    decide_pass_iff (eval_error e) = (λ h. cc, λ h. cc h.1)
    decide_pass_iff no_result = (λ h. cc, λ h. cc h.1)
    decide_pass_iff malformed = (λ h. cc, λ h. cc h.1)
    decide_pass_iff (answer (bool_value true) reason) = (λ h. (reason, refl), λ h. refl)
    decide_pass_iff (answer (bool_value false) reason) = (λ h. cc, λ h. cc h.1)
    decide_pass_iff (answer (text_value s) reason) = (λ h. cc, λ h. cc h.1)
    decide_pass_iff (answer other_value reason) = (λ h. cc, λ h. cc h.1)

    -- The policy filter passes a request exactly if a policy is loaded and its evaluation, without an
    -- error, gives an array of at least two elements that begins with the Boolean true.
    pub policy_pass_iff :
        (prepared : Option Query) (now : PolicyTime) (req : AegisRequest fl.F)
        → ((scan_request prepared now req).action ≡ pass) ↔ (
            (q : Query) × (reason : Value) × (prepared ≡ some q)
            × (eval q (policy_input now req) ≡ answer (bool_value true) reason))
    unfolding scan_request evaluate
    policy_pass_iff none now req = (λ h. cc, λ (q, reason, e, h). cc e)
    policy_pass_iff (some q) now req =
        let iff = decide_pass_iff (eval q (policy_input now req)) in
        (λ h. (q, (iff.0 h).0, refl, (iff.0 h).1), λ (p, reason, e, h). iff.1 (reason, cc (e, h)))

  abbrev pub load_all : Option Query → List Loaded → Option Query
  load_all prepared [] = prepared
  load_all prepared (l ∷ ls) = load_all (load prepared l).0 ls

  -- The load reports an error.
  abbrev pub Fails : Loaded → Type 0
  Fails l = (load none l).1 ≡ false

  prepare_cases :
      (r : Result String Query) → ((e : String) × (r ≡ err e)) ⊎ ((q : Query) × (r ≡ ok q))
  prepare_cases (err e) = inl (e, refl)
  prepare_cases (ok q) = inr (q, refl)

  load-Fails : (prepared : Option Query) (l : Loaded) → Fails l → (load prepared l).0 ≡ prepared
  unfolding load
  load-Fails prepared (load_error e) h = refl
  load-Fails prepared (modules []) h = cc
  load-Fails prepared (modules (m ∷ ms)) h = elim (prepare_cases (prepare (m ∷ ms))) [
    | inl (e, failed) ↦ rw failed refl
    | inr (q, done) ↦ cc done
  ]

  -- Loads that all report an error, however many, leave the loaded query, and so what the filter
  -- answers to every request.
  pub failed_loads_keep :
      (fl : Float64) (prepared : Option Query) (ls : List Loaded) (now : PolicyTime)
      (req : AegisRequest fl.F)
      → All Fails ls
      → scan_request fl (load_all prepared ls) now req ≡ scan_request fl prepared now req
  failed_loads_keep fl prepared [] now req u = refl
  failed_loads_keep fl prepared (l ∷ ls) now req (f, h) =
      rw (load-Fails prepared l f) (failed_loads_keep fl prepared ls now req h)
