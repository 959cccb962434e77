-- ===== src/Tests/Streams.antt =====
-- The theorems on the streams of internal/gateway and on the messages of internal/router/adapters at
-- concrete inputs.
use aegis_ai_gateway.Prelude.{
  All, ◌+◌, trim_prefix, has_prefix, ◌≤◌, contains, length, ◌≡◌, ◌∷◌, [], ok, some, none, true, pos,
  ℕ, String, List, refl,
}
use aegis_ai_gateway.Gateway.Streaming.{StreamMetrics, total_timeout, stream_loop, stream_sse}
use aegis_ai_gateway.Gateway.Streaming.Laws.{IsTimed, stream_loop_bounds}
use aegis_ai_gateway.Gateway.Streaming.Agreement.{
  stream_loop-stream_sse, as_lines, texts, IsPlainLine,
}

abbrev lines : List (ℕ × String)
lines = (5, "event: m") ∷ (6, "data: a") ∷ (7, "data: [DONE]") ∷ (8, "data: b") ∷ []

abbrev start : StreamMetrics ℕ
start = record {
  start_time = some 4;
  first_chunk_time = none;
  chunk_count = 0;
  prompt_tokens = pos 0;
  completion_tokens = pos 0;
  total_tokens = pos 0;
  estimated_cost_usd = 0;
  provider = "openai";
  model = "";
}

stream_loop_bounds_example :
    (length
        (stream_loop
          (λ chunk. ok (some chunk))
          (λ chunk. none)
          true
          ((9, total_timeout) ∷ [])
          start).writes
      ≤ 1)
    × (length
          (stream_loop
            (λ chunk. ok (some chunk))
            (λ chunk. none)
            true
            ((9, total_timeout) ∷ [])
            start).events
        ≤ 1)
    × ((stream_loop
          (λ chunk. ok (some chunk))
          (λ chunk. none)
          true
          ((9, total_timeout) ∷ [])
          start).metrics.chunk_count
        ≤ 0
          + length
              (stream_loop
                (λ chunk. ok (some chunk))
                (λ chunk. none)
                true
                ((9, total_timeout) ∷ [])
                start).writes)
    × (IsTimed start
        → IsTimed
            (stream_loop
              (λ chunk. ok (some chunk))
              (λ chunk. none)
              true
              ((9, total_timeout) ∷ [])
              start).metrics)
stream_loop_bounds_example =
    stream_loop_bounds (λ chunk. ok (some chunk)) (λ chunk. none) true ((9, total_timeout) ∷ [])
      start

plain_lines : All (IsPlainLine (λ chunk. ok (some chunk))) (texts lines)
unfolding contains has_prefix trim_prefix
plain_lines = ((refl, λ e. refl), ((refl, λ e. refl), ((refl, λ e. cc e), ((refl, λ e. refl), tt))))

stream_loop-stream_sse_example :
    (stream_loop (λ chunk. ok (some chunk)) (λ chunk. none) true (as_lines lines) start).writes
    ≡ stream_sse (λ chunk. ok (some chunk)) (texts lines)
stream_loop-stream_sse_example =
    stream_loop-stream_sse (λ chunk. ok (some chunk)) (λ chunk. none) true lines start plain_lines
