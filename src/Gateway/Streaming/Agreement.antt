-- ===== src/Gateway/Streaming/Agreement.antt =====
-- Where the two forwarding loops of internal/gateway, `streamWithMonitoring` and `streamSSE`, agree.
use aegis_ai_gateway.Prelude.{
  arith, not, true, sym, ap, subst, ◌∙◌, inl, inr, ◌++◌, Bool-cases, if◌then◌else◌, refl,
  trim_prefix, str_eq, ◌&&◌, ◌≡◌, Option, All, contains, has_prefix, map, List, Bool, Result,
  String, ◌∷◌, [], ok, err, some, none, false, ℕ,
}
use aegis_ai_gateway.Gateway.Streaming.{
  data_line, not, before, is_kept, trim_prefix, str_eq, Option, has_prefix, contains, Bool, Result,
  List, String, StreamMetrics, Picked, got_line, TransformChunk, DecodeChunk, Processed, Streamed,
  process_chunk, process_transformed, stream_loop, stream_sse, sse_transformed,
}

-- The line is the mark of the stream's end.
abbrev pub is_end : String → Bool
is_end line = has_prefix line "data: " && str_eq (trim_prefix line "data: ") "[DONE]"

-- The line is data for the adapter.
abbrev pub is_chunk : String → Bool
is_chunk line = has_prefix line "data: " && not (str_eq (trim_prefix line "data: ") "[DONE]")

module _ (transform : TransformChunk) where
  -- The adapter takes the payload of the line, and does not itself make of it the end of the stream.
  abbrev pub IsTaken : Result String (Option String) → Type 0
  IsTaken (err e) = ⊥
  IsTaken (ok none) = Unit
  IsTaken (ok (some chunk)) = str_eq chunk "[DONE]" ≡ false

  -- A line whose text contains the end's mark only where it is the end, and whose data, if it has some,
  -- the adapter takes.
  abbrev pub IsPlainLine : String → Type 0
  IsPlainLine line =
      (contains line "[DONE]" ≡ is_end line)
      × (is_chunk line ≡ true → IsTaken (transform (trim_prefix line "data: ")))

abbrev pub as_lines : List (ℕ × String) → List (ℕ × Picked)
as_lines [] = []
as_lines ((now, line) ∷ rest) = (now, got_line line) ∷ as_lines rest

abbrev pub texts : List (ℕ × String) → List String
texts lines = map (λ z. z.1) lines

module _ {F : Type 0} (transform : TransformChunk) (decode : DecodeChunk) (measured : Bool) where
  -- What a line writes, with what follows it.
  abbrev Writes : Processed F → Bool → List String → List String → Type 0
  Writes p done later all =
      (p.failed ≡ false) × ((if done then p.writes else p.writes ++ later) ≡ all)

  round-Writes :
      (p : Processed F) (done : Bool) (failed ended later : Streamed F) (sse all : List String)
      → Writes p done sse all
      → ended.writes ≡ p.writes
      → later.writes ≡ sse
      → (if p.failed
          then failed
          else if done
          then ended
          else before transform decode measured p.writes later).writes
        ≡ all
  round-Writes p true failed ended later sse all (fine, same) e same_later = rw fine (e ∙ same)
  round-Writes p false failed ended later sse all (fine, same) e same_later =
      rw fine (ap (λ z. p.writes ++ z) same_later ∙ same)

  transformed-Writes :
      (now : ℕ) (m : StreamMetrics F) (r : Result String (Option String)) (later : List String)
      → IsTaken transform r
      → Writes
          (process_transformed transform decode now m r)
          false
          later
          (sse_transformed transform r later)
  transformed-Writes now m (err e) later taken = absurd taken
  transformed-Writes now m (ok none) later taken = (refl, refl)
  transformed-Writes now m (ok (some chunk)) later taken = rw taken (refl, refl)

  process_chunk-Writes :
      (now : ℕ) (line : String) (m : StreamMetrics F) (lines : List String)
      → (is_chunk line ≡ true → IsTaken transform (transform (trim_prefix line "data: ")))
      → Writes
          (process_chunk transform decode now line m)
          (is_end line)
          (stream_sse transform lines)
          (stream_sse transform (line ∷ lines))
  unfolding process_chunk stream_sse
  process_chunk-Writes now line m lines taken = elim (Bool-cases (has_prefix line "data: ")) [
    | inr plain ↦ elim (Bool-cases (is_kept line)) [
      | inl kept ↦ rw (plain, kept) (refl, refl)
      | inr dropped ↦ rw (plain, dropped) (refl, refl)
    ]
    | inl sent ↦ elim (Bool-cases (str_eq (trim_prefix line "data: ") "[DONE]")) [
      | inl last ↦ rw (sent, last) (refl, refl)
      | inr more ↦
          let fact : is_chunk line ≡ true = rw (sent, more) refl in
          rw (sent, more)
            (transformed-Writes now m (transform (trim_prefix line "data: "))
              (stream_sse transform lines) (taken fact))
    ]
  ]

  -- Over lines that contain the end's mark only where they are the end, and whose data the adapter takes
  -- without an error and without ending the stream itself, both loops write the same.
  pub stream_loop-stream_sse :
      (lines : List (ℕ × String)) (m : StreamMetrics F)
      → All (IsPlainLine transform) (texts lines)
      → (stream_loop transform decode measured (as_lines lines) m).writes
        ≡ stream_sse transform (texts lines)
  unfolding stream_loop stream_sse
  stream_loop-stream_sse [] m plain = refl
  stream_loop-stream_sse ((now, line) ∷ rest) m ((marks, taken), plain) =
      let p = process_chunk transform decode now line m in
      round-Writes p (contains line "[DONE]") _ _
        (stream_loop transform decode measured (as_lines rest) p.metrics)
        (stream_sse transform (texts rest)) _
        (subst
          (λ z.
            Writes p z (stream_sse transform (texts rest))
              (stream_sse transform (line ∷ texts rest)))
          (sym marks) (process_chunk-Writes now line m (texts rest) taken))
        refl (stream_loop-stream_sse rest p.metrics plain)

  -- A chunk whose line contains the end's mark anywhere, in the generated text for instance, and which
  -- the adapter takes, is the last that `streamWithMonitoring` writes: it reads no line after it, where
  -- `streamSSE` goes on.
  pub stream_loop_truncates :
      (now : ℕ) (line chunk : String) (rest : List (ℕ × String)) (m : StreamMetrics F)
      → is_chunk line ≡ true
      → contains line "[DONE]" ≡ true
      → transform (trim_prefix line "data: ") ≡ ok (some chunk)
      → str_eq chunk "[DONE]" ≡ false
      → ((stream_loop transform decode measured (as_lines ((now, line) ∷ rest)) m).writes
          ≡ data_line chunk ∷ [])
        × (stream_sse transform (line ∷ texts rest)
            ≡ data_line chunk ∷ stream_sse transform (texts rest))
  unfolding stream_loop stream_sse process_chunk
  stream_loop_truncates now line chunk rest m is_data marked given other =
      let sent : has_prefix line "data: " ≡ true = ground (arith, is_data) in
      let more : str_eq (trim_prefix line "data: ") "[DONE]" ≡ false = ground (arith, is_data) in
      (rw (sent, more, marked, given, other) refl, rw (sent, more, given, other) refl)
