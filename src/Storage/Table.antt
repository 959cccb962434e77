-- ===== src/Storage/Table.antt =====
-- The queries of internal/storage/usage.go on the table usage_records: the columns by name, the conditions,
-- the order and the limit, as their SQL says. `round` is what DECIMAL(12, 6), the type of the cost's column,
-- makes of a float64; the other columns hold what was inserted. A row has the time of its insertion.
-- Times are in microseconds, the precision of the columns. Rows of the same time, whose order SQL leaves open,
-- come in the order of the table. A row that the types of the columns refuse (a text that is too long, a
-- count beyond 32 bits) is not inserted, and so is in no table.
use aegis_ai_gateway.Prelude.{
  ℕ, pos, String, List, [], ◌∷◌, map, Bool, false, ◌&&◌, Option, none, some, Result, ok, err,
  if◌then◌else◌, str_eq, leb, ltb, lookup,
}
use aegis_ai_gateway.Gateway.{UsageRecord}
use aegis_ai_gateway.Database.{Column, text, null, int, time, float}
use aegis_ai_gateway.Storage.Selection.{select_by}
use aegis_ai_gateway.Storage.{Rows, insert_args}

-- The columns of the INSERT of `recordSync`.
abbrev pub insert_columns : List String
insert_columns =
    "request_id" ∷ "organization_id" ∷ "team_id" ∷ "user_id" ∷ "api_key_id" ∷ "model_requested"
    ∷ "model_served" ∷ "provider" ∷ "classification" ∷ "prompt_tokens" ∷ "completion_tokens"
    ∷ "total_tokens" ∷ "estimated_cost_usd" ∷ "duration_ms" ∷ "status_code" ∷ "project" ∷ "stream"
    ∷ []

-- The columns of the SELECT of `GetUsageByOrg`, and of that of `GetUsageByTeam`.
abbrev pub select_columns : List String
select_columns =
    "request_id" ∷ "organization_id" ∷ "team_id" ∷ "user_id" ∷ "api_key_id" ∷ "model_requested"
    ∷ "model_served" ∷ "provider" ∷ "classification" ∷ "prompt_tokens" ∷ "completion_tokens"
    ∷ "total_tokens" ∷ "estimated_cost_usd" ∷ "duration_ms" ∷ "status_code" ∷ "project" ∷ "stream"
    ∷ []

module _ {F : Type 0} (round : F → F) where
  pub record StoredRow : Type 0 where
    pub created_at : ℕ
    pub columns : List (String × Column F)

  abbrev pub kept : String → Column F → Column F
  kept name (float v) = if str_eq name "estimated_cost_usd" then float (round v) else float v
  kept name c = c

  abbrev pub named : List String → List (Column F) → List (String × Column F)
  named [] cs = []
  named (n ∷ ns) [] = []
  named (n ∷ ns) (c ∷ cs) = (n, kept n c) ∷ named ns cs

  -- The row that an INSERT with these arguments leaves, at the time NOW().
  abbrev pub stored_row : ℕ → List (Column F) → StoredRow
  stored_row now args = record { created_at = now; columns = named insert_columns args }

  abbrev pub or_null : Option (Column F) → Column F
  or_null none = null
  or_null (some c) = c

  abbrev pub column : String → StoredRow → Column F
  column name row = or_null (lookup name row.columns)

  abbrev pub is_text : String → Column F → Bool
  is_text s (text t) = str_eq t s
  is_text s _ = false

  -- `WHERE <id_column> = $1 AND created_at >= $2 AND created_at < $3`
  abbrev pub is_asked : String → String → ℕ → ℕ → StoredRow → Bool
  is_asked id_column id start_time end_time row =
      is_text id (column id_column row)
      && leb start_time row.created_at
      && ltb row.created_at end_time

  -- The query of `GetUsageByOrg` or `GetUsageByTeam` on a table; PostgreSQL refuses a limit below zero.
  abbrev pub query_usage : String → List StoredRow → List (Column F) → Result String (Rows F)
  query_usage id_column table (text id ∷ time start_time ∷ time end_time ∷ int (pos limit) ∷ []) =
      ok (
        map (λ row. map (λ name. column name row) select_columns)
            (select_by (is_asked id_column id start_time end_time) (λ row. row.created_at) limit
              table),
        none,
      )
  query_usage id_column table _ = err "invalid query"

  -- A record with the time when it is inserted, and its row.
  abbrev pub inserted : ℕ × UsageRecord F → StoredRow
  inserted (now, r) = stored_row now (insert_args r)

  abbrev pub rounded : ℕ × UsageRecord F → UsageRecord F
  rounded (now, r) = record r { estimated_cost_usd = round r.estimated_cost_usd }

  -- The records of an organization, or of a team, in the period.
  abbrev pub is_of : (UsageRecord F → String) → String → ℕ → ℕ → ℕ × UsageRecord F → Bool
  is_of owner id start_time end_time (now, r) =
      str_eq (owner r) id && leb start_time now && ltb now end_time
