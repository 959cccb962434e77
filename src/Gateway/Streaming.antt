-- ===== src/Gateway/Streaming.antt =====
-- internal/gateway/streaming_enhanced.go and streaming.go: the forwarding of server-sent events. A
-- write to the client is the text written. What the `select` of each round picks is an event with its
-- time; the JSON decoding of a chunk is a parameter.
pub mod Laws
pub mod Agreement
use aegis_ai_gateway.Prelude.{
  ◌++◌, ◌&&◌, trim_prefix, str_eq, ◌+◌, contains, [], ok, not, true, ◌||◌, ◌==◌, none, ℤ,
  if◌then◌else◌, some, has_prefix, ◌∷◌, err, false, String, Option, Bool, Result, ℕ, List,
}
use Prim.Native.String.{◌++◌ as ◌<>◌}
use aegis_ai_gateway.Types.{Usage}
use aegis_ai_gateway.Events.{Event, when, streaming_error}

pub record StreamMetrics (F : Type 0) : Type 0 where
  pub start_time : Option ℕ
  pub first_chunk_time : Option ℕ
  pub chunk_count : ℕ
  pub prompt_tokens : ℤ
  pub completion_tokens : ℤ
  pub total_tokens : ℤ
  pub estimated_cost_usd : F
  pub provider : String
  pub model : String

-- What `json.Unmarshal` finds in a chunk: the model, or the empty text, and the usage.
pub record ChunkData : Type 0 where
  pub model : String
  pub usage : Option Usage

pub data Picked : Type 0 where
  total_timeout chunk_timeout client_disconnected : Picked
  -- the scanner has finished, with an error or without
  scanned_all : Bool → Picked
  got_line : String → Picked

-- One line, or one chunk with the mark of its end, as it is written.
unfoldable pub forwarded : String → String
forwarded line = line <> "\n"

unfoldable pub data_line : String → String
data_line chunk = "data: " <> (chunk <> "\n\n")

-- Lines that are not data: those of an event, and empty ones, go on as they are.
abbrev pub is_kept : String → Bool
is_kept line = has_prefix line "event: " || str_eq line ""

abbrev pub TransformChunk : Type 0
TransformChunk = String → Result String (Option String)

abbrev pub DecodeChunk : Type 0
DecodeChunk = String → Option ChunkData

-- What became of a line: an error, or the metrics and what was written.
pub record Processed (F : Type 0) : Type 0 where
  pub failed : Bool
  pub metrics : StreamMetrics F
  pub writes : List String

-- What the client was sent and what was noted, with the metrics at the end.
pub record Streamed (F : Type 0) : Type 0 where
  pub metrics : StreamMetrics F
  pub writes : List String
  pub events : List Event

module _ {F : Type 0} where
  -- The metrics after the chunk's own model and usage are read.
  abbrev pub with_usage : Option Usage → StreamMetrics F → StreamMetrics F
  with_usage none m = m
  with_usage (some u) m = record m {
    prompt_tokens = u.prompt_tokens;
    completion_tokens = u.completion_tokens;
    total_tokens = u.total_tokens;
  }

  abbrev pub extract_tokens : Option ChunkData → StreamMetrics F → StreamMetrics F
  extract_tokens none m = m
  extract_tokens (some c) m =
      with_usage c.usage
        (if not (str_eq c.model "") && str_eq m.model "" then record m { model = c.model } else m)

  abbrev pub count_chunk : ℕ → StreamMetrics F → StreamMetrics F
  count_chunk now m = record m {
    first_chunk_time = if m.chunk_count == 0 then some now else m.first_chunk_time;
    chunk_count = m.chunk_count + 1;
  }

  abbrev pub wrote : StreamMetrics F → List String → Processed F
  wrote m writes = record { failed = false; metrics = m; writes = writes }

  module _ (transform : TransformChunk) (decode : DecodeChunk) where
    abbrev pub process_transformed :
        ℕ → StreamMetrics F → Result String (Option String) → Processed F
    process_transformed now m (err e) = record { failed = true; metrics = m; writes = [] }
    process_transformed now m (ok none) = wrote m []
    process_transformed now m (ok (some chunk)) =
        if str_eq chunk "[DONE]"
        then wrote m (data_line "[DONE]" ∷ [])
        else wrote (extract_tokens (decode chunk) (count_chunk now m)) (data_line chunk ∷ [])

    unfoldable pub process_chunk : ℕ → String → StreamMetrics F → Processed F
    process_chunk now line m =
        if not (has_prefix line "data: ")
        then wrote m (if is_kept line then forwarded line ∷ [] else [])
        else if str_eq (trim_prefix line "data: ") "[DONE]"
        then wrote m (data_line "[DONE]" ∷ [])
        else process_transformed now m (transform (trim_prefix line "data: "))

    module _ (measured : Bool) where
      abbrev pub stopped : StreamMetrics F → List String → List Event → Streamed F
      stopped m writes events = record { metrics = m; writes = writes; events = events }

      abbrev pub failure : StreamMetrics F → String → List Event
      failure m reason = when measured (streaming_error m.provider reason)

      abbrev pub before : List String → Streamed F → Streamed F
      before writes s = record s { writes = writes ++ s.writes }

      -- The loop of `streamWithMonitoring`. With no event left, it still waits.
      unfoldable pub stream_loop : List (ℕ × Picked) → StreamMetrics F → Streamed F
      unfolding process_chunk
      stream_loop [] m = stopped m [] []
      stream_loop ((now, total_timeout) ∷ rest) m =
          stopped m ("data: {\"error\": \"timeout\"}\n\n" ∷ []) (failure m "total_timeout")
      stream_loop ((now, chunk_timeout) ∷ rest) m =
          stopped m ("data: {\"error\": \"chunk timeout\"}\n\n" ∷ []) (failure m "chunk_timeout")
      stream_loop ((now, client_disconnected) ∷ rest) m =
          stopped m [] (failure m "client_disconnect")
      stream_loop ((now, scanned_all with_error) ∷ rest) m =
          stopped m [] (if with_error then failure m "scanner_error" else [])
      stream_loop ((now, got_line text) ∷ rest) m =
          let p = process_chunk now text m in
          let later = stream_loop rest p.metrics in
          if p.failed
          then stopped p.metrics p.writes (failure m "chunk_processing_error")
          else if contains text "[DONE]"
          then stopped p.metrics p.writes []
          else before p.writes later

-- `streamSSE` of streaming.go over the lines that the scanner gives, with what it writes.
module _ (transform : TransformChunk) where
  abbrev pub sse_transformed : Result String (Option String) → List String → List String
  sse_transformed (err e) later = later
  sse_transformed (ok none) later = later
  sse_transformed (ok (some chunk)) later =
      if str_eq chunk "[DONE]" then data_line "[DONE]" ∷ [] else data_line chunk ∷ later

  unfoldable pub stream_sse : List String → List String
  stream_sse [] = []
  stream_sse (text ∷ rest) =
      let later = stream_sse rest in
      if not (has_prefix text "data: ")
      then if is_kept text then forwarded text ∷ later else later
      else if str_eq (trim_prefix text "data: ") "[DONE]"
      then data_line "[DONE]" ∷ []
      else sse_transformed (transform (trim_prefix text "data: ")) later
