-- ===== src/Storage.antt =====
-- internal/storage/usage.go: the rows of usage_records. The database is a parameter: what it answers to a
-- query with its arguments, or to an insertion. Table is the table of the migration, with Selection for the
-- clauses of a query.
pub mod Laws
pub mod Selection
pub mod Table
use aegis_ai_gateway.Prelude.{◌++◌, some, ℕ, ℤ, String, List, [], ◌∷◌, Option, Result, ok, err}
use aegis_ai_gateway.Gateway.{UsageRecord}
use aegis_ai_gateway.Database.{time, Column, text, int, count, float, bool}

-- The rows in the order of the cursor, and what `rows.Err()` says at the end.
abbrev pub Rows : Type 0 → Type 0
Rows F = List (List (Column F)) × Option String

pub record UsageSummary (F : Type 0) : Type 0 where
  pub total_requests : ℤ
  pub total_cost_usd : F
  pub total_tokens : ℤ
  pub prompt_tokens : ℤ
  pub completion_tokens : ℤ
  pub average_duration_ms : F

module _ {F : Type 0} where
  -- The arguments of the INSERT of `recordSync`, in the order of its columns.
  unfoldable pub insert_args : UsageRecord F → List (Column F)
  insert_args r =
      text r.request_id
      ∷ text r.organization_id
      ∷ text r.team_id
      ∷ text r.user_id
      ∷ text r.api_key_id
      ∷ text r.model_requested
      ∷ text r.model_served
      ∷ text r.provider
      ∷ text r.classification
      ∷ int r.prompt_tokens
      ∷ int r.completion_tokens
      ∷ int r.total_tokens
      ∷ float r.estimated_cost_usd
      ∷ count r.duration_ms
      ∷ int r.status_code
      ∷ text r.project
      ∷ bool r.stream
      ∷ []

  -- `recordSync`, by what the database answers; `RecordUsage` runs it behind the response and logs an error.
  unfoldable pub record_sync : (List (Column F) → Option String) → UsageRecord F → Option String
  unfolding insert_args
  record_sync exec r = exec (insert_args r)

  -- `rows.Scan` into the fields, in the order of the SELECT.
  unfoldable pub scan_record : List (Column F) → Result String (UsageRecord F)
  scan_record
        (text request_id
          ∷ text organization_id
          ∷ text team_id
          ∷ text user_id
          ∷ text api_key_id
          ∷ text model_requested
          ∷ text model_served
          ∷ text provider
          ∷ text classification
          ∷ int prompt_tokens
          ∷ int completion_tokens
          ∷ int total_tokens
          ∷ float cost
          ∷ count duration_ms
          ∷ int status_code
          ∷ text project
          ∷ bool stream
          ∷ []) =
      ok (record {
        request_id = request_id;
        organization_id = organization_id;
        team_id = team_id;
        user_id = user_id;
        api_key_id = api_key_id;
        model_requested = model_requested;
        model_served = model_served;
        provider = provider;
        classification = classification;
        prompt_tokens = prompt_tokens;
        completion_tokens = completion_tokens;
        total_tokens = total_tokens;
        estimated_cost_usd = cost;
        duration_ms = duration_ms;
        status_code = status_code;
        project = project;
        stream = stream;
      })
  scan_record _ = err "scan"

  -- The loop over the cursor: an error of a scan drops what was read before it.
  unfoldable pub scan_rows :
      List (UsageRecord F)
      → List (List (Column F))
      → Option String
      → List (UsageRecord F) × Option String
  unfolding scan_record
  scan_rows records [] end = (records, end)
  scan_rows records (row ∷ rows) end = elim (scan_record row) [
    | err e ↦ ([], some e)
    | ok r ↦ scan_rows (records ++ (r ∷ [])) rows end
  ]

  abbrev pub read_rows : Result String (Rows F) → List (UsageRecord F) × Option String
  read_rows (err e) = ([], some e)
  read_rows (ok (rows, end)) = scan_rows [] rows end

  -- `query` is `pool.Query` with the SELECT of the method, on its arguments.
  unfoldable pub get_usage_by_org :
      (List (Column F) → Result String (Rows F))
      → String
      → ℕ
      → ℕ
      → ℤ
      → List (UsageRecord F) × Option String
  unfolding scan_rows
  get_usage_by_org query org_id start_time end_time limit =
      read_rows (query (text org_id ∷ time start_time ∷ time end_time ∷ int limit ∷ []))

  unfoldable pub get_usage_by_team :
      (List (Column F) → Result String (Rows F))
      → String
      → ℕ
      → ℕ
      → ℤ
      → List (UsageRecord F) × Option String
  unfolding scan_rows
  get_usage_by_team query team_id start_time end_time limit =
      read_rows (query (text team_id ∷ time start_time ∷ time end_time ∷ int limit ∷ []))

  abbrev pub scan_summary : Result String (List (Column F)) → Result String (UsageSummary F)
  scan_summary (err e) = err e
  scan_summary
        (ok (
          int requests
          ∷ float cost
          ∷ int total
          ∷ int prompt
          ∷ int completion
          ∷ float average
          ∷ [])) =
      ok (record {
        total_requests = requests;
        total_cost_usd = cost;
        total_tokens = total;
        prompt_tokens = prompt;
        completion_tokens = completion;
        average_duration_ms = average;
      })
  scan_summary (ok _) = err "scan"

  unfoldable pub get_usage_summary :
      (List (Column F) → Result String (List (Column F)))
      → String
      → ℕ
      → ℕ
      → Result String (UsageSummary F)
  get_usage_summary query_row org_id start_time end_time =
      scan_summary (query_row (text org_id ∷ time start_time ∷ time end_time ∷ []))
