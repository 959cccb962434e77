-- ===== src/Storage/Laws.antt =====
-- What internal/storage/usage.go reads back of what it wrote.
use aegis_ai_gateway.Prelude.{
  ℕ, ℤ, String, List, [], ◌∷◌, ◌++◌, map, Option, some, Result, ok, err, ◌≡◌, refl, sym, ap, ◌∙◌,
  append-nil, append_assoc,
}
use aegis_ai_gateway.Gateway.{UsageRecord}
use aegis_ai_gateway.Database.{Column, text, time, int}
use aegis_ai_gateway.Storage.{
  Rows, insert_args, scan_record, scan_rows, get_usage_by_org, get_usage_by_team,
}

module _ {F : Type 0} where
  -- What the database holds of some records, as the cursor gives it.
  abbrev pub rows_of : List (UsageRecord F) → List (List (Column F))
  rows_of rs = map insert_args rs

  scan_record-insert_args : (r : UsageRecord F) → scan_record (insert_args r) ≡ ok r
  unfolding scan_record insert_args
  scan_record-insert_args r = refl

  scan_rows-ok :
      (acc : List (UsageRecord F)) (row : List (Column F)) (rows : List (List (Column F)))
      (end : Option String) (r : UsageRecord F)
      → scan_record row ≡ ok r
      → scan_rows acc (row ∷ rows) end ≡ scan_rows (acc ++ (r ∷ [])) rows end
  unfolding scan_rows
  scan_rows-ok acc row rows end r e = rw (e, scan_rows) refl

  scan_rows-err :
      (acc : List (UsageRecord F)) (row : List (Column F)) (rows : List (List (Column F)))
      (end : Option String) (f : String)
      → scan_record row ≡ err f
      → scan_rows acc (row ∷ rows) end ≡ ([], some f)
  unfolding scan_rows
  scan_rows-err acc row rows end f e = rw (e, scan_rows) refl

  -- Rows that were written come first; what is read of the rows behind them comes after.
  scan_rows-rows_of :
      (rs acc : List (UsageRecord F)) (rows : List (List (Column F))) (end : Option String)
      → scan_rows acc (rows_of rs ++ rows) end ≡ scan_rows (acc ++ rs) rows end
  scan_rows-rows_of [] acc rows end = ap (λ z. scan_rows z rows end) (sym (append-nil acc))
  scan_rows-rows_of (r ∷ rs) acc rows end =
      scan_rows-ok acc (insert_args r) (rows_of rs ++ rows) end r (scan_record-insert_args r)
      ∙ (scan_rows-rows_of rs (acc ++ (r ∷ [])) rows end
          ∙ ap (λ z. scan_rows z rows end) (append_assoc acc (r ∷ []) rs))

  read_back :
      (rs : List (UsageRecord F)) (end : Option String) → scan_rows [] (rows_of rs) end ≡ (rs, end)
  unfolding scan_rows
  read_back rs end =
      ap (λ z. scan_rows [] z end) (sym (append-nil (rows_of rs))) ∙ scan_rows-rows_of rs [] [] end

  -- Records whose rows, as RecordUsage writes them, the database gives for an organization's, or a team's,
  -- period are read back whole and in the order of the cursor, all seventeen fields, with the cursor's
  -- error if it has one.
  pub rows_read_back :
      (query : List (Column F) → Result String (Rows F)) (id : String) (start_time end_time : ℕ)
      (limit : ℤ) (rs : List (UsageRecord F)) (end : Option String)
      → query (text id ∷ time start_time ∷ time end_time ∷ int limit ∷ []) ≡ ok (rows_of rs, end)
      → (get_usage_by_org query id start_time end_time limit ≡ (rs, end))
        × (get_usage_by_team query id start_time end_time limit ≡ (rs, end))
  unfolding get_usage_by_org get_usage_by_team
  rows_read_back query id start_time end_time limit rs end e =
      (rw e (read_back rs end), rw e (read_back rs end))

  -- Where a row cannot be scanned, no record is given, those before it neither, and its error is.
  pub bad_row_drops_all :
      (query : List (Column F) → Result String (Rows F)) (id : String) (start_time end_time : ℕ)
      (limit : ℤ) (rs : List (UsageRecord F)) (row : List (Column F))
      (rows : List (List (Column F))) (end : Option String) (f : String)
      → query (text id ∷ time start_time ∷ time end_time ∷ int limit ∷ [])
        ≡ ok (rows_of rs ++ (row ∷ rows), end)
      → scan_record row ≡ err f
      → get_usage_by_org query id start_time end_time limit ≡ ([], some f)
  unfolding get_usage_by_org
  bad_row_drops_all query id start_time end_time limit rs row rows end f e bad =
      rw e (scan_rows-rows_of rs [] (row ∷ rows) end ∙ scan_rows-err rs row rows end f bad)
