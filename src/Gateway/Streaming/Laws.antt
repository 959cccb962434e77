-- ===== src/Gateway/Streaming/Laws.antt =====
-- What `streamWithMonitoring` of internal/gateway/streaming_enhanced.go writes, notes and counts.
use aegis_ai_gateway.Prelude.{
  length-append, contains, if◌then◌else◌, suc, sym, ◌∙◌, trim_prefix, ap, ◌&&◌, refl, has_prefix,
  str_eq, List, true, ltb, not, if-both, ◌≡◌, Bool, ◌+◌, ◌≤◌, arith, String, Result, Option, length,
  ◌∷◌, [], ok, err, some, none, false, ℕ,
}
use aegis_ai_gateway.Gateway.Streaming.{
  contains, when, before, stopped, streaming_error, Event, trim_prefix, is_kept, data_line,
  has_prefix, not, failure, with_usage, str_eq, extract_tokens, List, true, count_chunk, Bool,
  ChunkData, wrote, Usage, Option, String, Result, StreamMetrics, Picked, total_timeout,
  chunk_timeout, client_disconnected, scanned_all, got_line, TransformChunk, DecodeChunk, Processed,
  Streamed, process_chunk, process_transformed, stream_loop,
}

abbrev pub is_set : Option ℕ → Bool
is_set none = false
is_set (some now) = true

when_bound : (b : Bool) (e : Event) → length (when b e) ≤ 1
when_bound b e = ground arith

module _ {F : Type 0} where
  -- The time of the first chunk is set exactly if a chunk was counted.
  abbrev pub IsTimed : StreamMetrics F → Type 0
  IsTimed m = is_set m.first_chunk_time ≡ ltb 0 m.chunk_count

  abbrev IsOneChunk : StreamMetrics F → Processed F → Type 0
  IsOneChunk m p =
      (length p.writes ≤ 1)
      × (p.metrics.chunk_count ≤ m.chunk_count + length p.writes)
      × (IsTimed m → IsTimed p.metrics)

  with_usage-chunks :
      (u : Option Usage) (m : StreamMetrics F)
      → ((with_usage u m).chunk_count ≡ m.chunk_count)
        × ((with_usage u m).first_chunk_time ≡ m.first_chunk_time)
  with_usage-chunks none m = (refl, refl)
  with_usage-chunks (some u) m = (refl, refl)

  extract_tokens-chunks :
      (d : Option ChunkData) (m : StreamMetrics F)
      → ((extract_tokens d m).chunk_count ≡ m.chunk_count)
        × ((extract_tokens d m).first_chunk_time ≡ m.first_chunk_time)
  extract_tokens-chunks none m = (refl, refl)
  extract_tokens-chunks (some c) m =
      if-both
        (λ (z : StreamMetrics F).
          ((with_usage c.usage z).chunk_count ≡ m.chunk_count)
          × ((with_usage c.usage z).first_chunk_time ≡ m.first_chunk_time))
        (not (str_eq c.model "") && str_eq m.model "") (with_usage-chunks c.usage _)
        (with_usage-chunks c.usage m)

  count_chunk-IsTimed : (now : ℕ) (m : StreamMetrics F) → IsTimed m → IsTimed (count_chunk now m)
  count_chunk-IsTimed now m t = ground arith

  module _ (transform : TransformChunk) (decode : DecodeChunk) where
    counted-IsOneChunk :
        (now : ℕ) (chunk : String) (m : StreamMetrics F)
        → IsOneChunk m
            (wrote (extract_tokens (decode chunk) (count_chunk now m)) (data_line chunk ∷ []))
    counted-IsOneChunk now chunk m =
        let (count, first) = extract_tokens-chunks (decode chunk) (count_chunk now m) in
        (
          omega arith,
          omega (arith, count),
          λ t. ap is_set first ∙ count_chunk-IsTimed now m t ∙ ap (ltb 0) (sym count),
        )

    process_transformed-IsOneChunk :
        (now : ℕ) (m : StreamMetrics F) (r : Result String (Option String))
        → IsOneChunk m (process_transformed transform decode now m r)
    process_transformed-IsOneChunk now m (err e) = (omega arith, omega arith, λ t. t)
    process_transformed-IsOneChunk now m (ok none) = (omega arith, omega arith, λ t. t)
    process_transformed-IsOneChunk now m (ok (some chunk)) =
        if-both (IsOneChunk m) (str_eq chunk "[DONE]") (omega arith, omega arith, λ t. t)
          (counted-IsOneChunk now chunk m)

    process_chunk-IsOneChunk :
        (now : ℕ) (line : String) (m : StreamMetrics F)
        → IsOneChunk m (process_chunk transform decode now line m)
    unfolding process_chunk
    process_chunk-IsOneChunk now line m =
        if-both (IsOneChunk m) (not (has_prefix line "data: "))
          (if-both (λ z. IsOneChunk m (wrote m z)) (is_kept line) (omega arith, omega arith, λ t. t)
            (omega arith, omega arith, λ t. t))
          (if-both (IsOneChunk m) (str_eq (trim_prefix line "data: ") "[DONE]")
            (omega arith, omega arith, λ t. t)
            (process_transformed-IsOneChunk now m (transform (trim_prefix line "data: "))))

    module _ (measured : Bool) where
      abbrev IsBounded : ℕ → StreamMetrics F → Streamed F → Type 0
      IsBounded rounds m s =
          (length s.writes ≤ rounds)
          × (length s.events ≤ 1)
          × (s.metrics.chunk_count ≤ m.chunk_count + length s.writes)
          × (IsTimed m → IsTimed s.metrics)

      failure_bound :
          (m : StreamMetrics F) (reason : String)
          → length (failure transform decode measured m reason) ≤ 1
      failure_bound m reason = when_bound measured (streaming_error m.provider reason)

      error_bound :
          (with_error : Bool) (m : StreamMetrics F)
          → length (if with_error then failure transform decode measured m "scanner_error" else [])
            ≤ 1
      error_bound true m = failure_bound m "scanner_error"
      error_bound false m = omega arith

      before_bounds :
          (rounds : ℕ) (m : StreamMetrics F) (p : Processed F) (later : Streamed F)
          → IsOneChunk m p
          → IsBounded rounds p.metrics later
          → IsBounded (suc rounds) m (before transform decode measured p.writes later)
      before_bounds rounds m p later (w, c, timed) (w', e', c', timed') = (
        omega (arith, length-append p.writes later.writes),
        e',
        omega (arith, length-append p.writes later.writes),
        λ t. timed' (timed t),
      )

      -- Over any rounds of its loop, a stream writes no more often than it has rounds, notes one failure
      -- at most, counts no more chunks than it has writes, and, from metrics where it is so, has the time
      -- of a first chunk exactly if it counted one.
      pub stream_loop_bounds :
          (picked : List (ℕ × Picked)) (m : StreamMetrics F)
          → IsBounded (length picked) m (stream_loop transform decode measured picked m)
      unfolding stream_loop
      stream_loop_bounds [] m = (omega arith, omega arith, omega arith, λ t. t)
      stream_loop_bounds ((now, total_timeout) ∷ rest) m =
          (omega arith, failure_bound m _, omega arith, λ t. t)
      stream_loop_bounds ((now, chunk_timeout) ∷ rest) m =
          (omega arith, failure_bound m _, omega arith, λ t. t)
      stream_loop_bounds ((now, client_disconnected) ∷ rest) m =
          (omega arith, failure_bound m _, omega arith, λ t. t)
      stream_loop_bounds ((now, scanned_all with_error) ∷ rest) m =
          (omega arith, error_bound with_error m, omega arith, λ t. t)
      stream_loop_bounds ((now, got_line text) ∷ rest) m =
          let p = process_chunk transform decode now text m in
          let (w, c, timed) = process_chunk-IsOneChunk now text m in
          let ends : (es : List Event)
              → length es ≤ 1
              → IsBounded (length ((now, got_line text) ∷ rest)) m
                  (stopped transform decode measured p.metrics p.writes es) =
            λ es e. (omega arith, e, c, timed) in
          if-both (IsBounded (length ((now, got_line text) ∷ rest)) m) p.failed
            (ends (failure transform decode measured m "chunk_processing_error")
              (failure_bound m _))
            (if-both (IsBounded (length ((now, got_line text) ∷ rest)) m) (contains text "[DONE]")
              (ends [] (omega arith))
              (before_bounds (length rest) m p
                (stream_loop transform decode measured rest p.metrics) (w, c, timed)
                (stream_loop_bounds rest p.metrics)))
