-- ===== src/Database.antt =====
-- What pgx is given for a column of the database, and what it gives for one.
use aegis_ai_gateway.Prelude.{ℕ, ℤ, String, Bool, Option, none, some}

-- A time is in nanoseconds, and a count a number that is not below zero.
pub data Column (F : Type 0) : Type 0 where
  text : String → Column F
  null : Column F
  int : ℤ → Column F
  count : ℕ → Column F
  time : ℕ → Column F
  float : F → Column F
  bool : Bool → Column F

-- A text that may be NULL.
abbrev pub read_nullable : {F : Type 0} → Column F → Option String
read_nullable (text s) = some s
read_nullable _ = none
