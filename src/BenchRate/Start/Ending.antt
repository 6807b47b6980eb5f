-- ===== src/BenchRate/Start/Ending.antt =====
-- How `init` ends.
use go_http_benchmark.Prelude.{
  or_default, at_most, ℕ, zero, suc, ◌*◌, ◌≤◌, ◌≡◌, ◌≢◌, ◌⊎◌, inl, inr, refl, ap, ◌∙◌, sym, false,
  [], ◌∷◌, none, some, Bytes, length, ltb, ℤ, pos, negsuc, arith, Option-cases, Bool-cases,
  pos_part,
}
use go_http_benchmark.Protocol.Batch.{Batch, pipeline_buffers, validate_pipeline, PipelineError}
use go_http_benchmark.Protocol.Batch.Bounds.{IsBatch, batch_buffers_IsBatch, validate_pipeline_iff}
use go_http_benchmark.Protocol.Encode.{encode_request}
use go_http_benchmark.BenchRate.Start.{
  Settings, Ready, wrong_pipeline, ready, buffers_of, ready_of, is_empty, is_wrong, request_of,
  settle, init,
}

request_of-ne-nil : (ip wbuffer : Bytes) → request_of ip wbuffer ≢ []
unfolding encode_request
request_of-ne-nil ip wbuffer = cc

is_empty-false : (s : Bytes) → 1 ≤ length s → is_empty s ≡ false
is_empty-false [] h = elim h [ ]
is_empty-false (c ∷ s) h = refl

length-ne-nil : (s : Bytes) → s ≢ [] → 1 ≤ length s
length-ne-nil [] ne = absurd (ne refl)
length-ne-nil (c ∷ s) ne = omega arith

product_positive : (a b : ℕ) → 1 ≤ a → 1 ≤ b → 1 ≤ a * b
product_positive zero b h k = elim h [ ]
product_positive (suc a) zero h k = elim k [ ]
product_positive (suc a) (suc b) h k = omega arith

-- A batch of a request, at a rate, is one that can be written.
IsBatch-is_wrong :
    (request : Bytes) (rate : ℕ) (b : Batch)
    → request ≢ []
    → 1 ≤ rate
    → IsBatch request rate b
    → is_wrong b ≡ false
IsBatch-is_wrong request rate b ne one w = go w.per_second
  where
    full : is_empty b.buffer ≡ false
    full = is_empty-false b.buffer (
        omega (
          arith,
          w.bytes,
          product_positive b.batch (length request) w.positive (length-ne-nil request ne),
        ))

    go : (t : ℕ) × (b.tick_rate ≡ pos t) × (b.batch * t ≡ rate) → is_wrong b ≡ false
    go (zero, e, m) = absurd (omega (arith, m))
    go (suc t, e, m) = rw (e, full) refl

-- What `init` ends with where the settings are good.
abbrev pub IsReady : Settings → Bytes → Ready → Type 0
IsReady s request r =
    (1 ≤ r.concurrency)
    × (r.concurrency ≤ s.conns)
    × (r.send_rate ≡ or_default s.send_rate 1)
    × IsBatch request r.send_rate r.batch
    × ((n : ℕ) → 1 ≤ n → s.pipeline ≡ pos n → r.batch.batch ≡ n)

or_default-positive : (v : ℤ) (d : ℕ) → 1 ≤ d → 1 ≤ or_default v d
or_default-positive (pos (suc n)) d h = omega arith
or_default-positive (pos zero) d h = h
or_default-positive (negsuc n) d h = h

-- The batch that is written, where the pipeline is valid.
buffers_of_lem :
    (request : Bytes) (rate : ℕ) (pipeline max_len : ℤ)
    → request ≢ []
    → validate_pipeline pipeline (pos rate) ≡ none
    → (b : Batch) × (buffers_of request rate pipeline max_len ≡ some b)
      × IsBatch request rate b
      × ((n : ℕ) → 1 ≤ n → pipeline ≡ pos n → b.batch ≡ n)
buffers_of_lem request rate (negsuc k) max_len ne h = absurd (unfold validate_pipeline in cc)
buffers_of_lem request rate (pos zero) max_len ne h =
    let (b, e, w) = batch_buffers_IsBatch request rate max_len ne in
    (b, e, w, λ n one q. absurd (omega (arith, ap pos_part q)))
buffers_of_lem request rate (pos (suc k)) max_len ne h =
    elim ((validate_pipeline_iff request (pos (suc k)) rate).0 h) [
      | inl e ↦ absurd (omega (arith, ap pos_part e))
      | inr (n, b, e, p, w, same) ↦
          let at : suc k ≡ n = ap pos_part e in
          (
            b,
            ap (pipeline_buffers request (pos rate)) at ∙ p,
            w,
            λ m one q. same ∙ (sym at ∙ ap pos_part q),
          )
    ]

settle_lem :
    (random : ℕ → Bytes) (s : Settings) (c : ℕ)
    → suc c ≤ s.conns
    → ((e : PipelineError) × (validate_pipeline s.pipeline (pos (or_default s.send_rate 1))
          ≡ some e)
        × (settle random s (suc c) ≡ wrong_pipeline e))
      ⊎ ((r : Ready) × (settle random s (suc c) ≡ ready r)
          × IsReady s (request_of s.ip (random (or_default s.payload 1024))) r)
settle_lem random s c le =
    let rate = or_default s.send_rate 1 in
    let request = request_of s.ip (random (or_default s.payload 1024)) in
    let ne = request_of-ne-nil s.ip (random (or_default s.payload 1024)) in
    elim (Option-cases (validate_pipeline s.pipeline (pos rate))) [
      | inl v ↦
          let (b, e, w, n) = buffers_of_lem request rate s.pipeline s.batch_size ne v in
          let good =
            IsBatch-is_wrong request rate b ne (or_default-positive s.send_rate 1 (omega arith))
              w in
          inr (
            ready_of s (random (or_default s.payload 1024)) (suc c) b,
            rw (v, e, good) refl,
            (omega arith, le, refl, w, n),
          )
      | inr (x, v) ↦ inl (x, v, rw v refl)
    ]

some_conns :
    (v : ℤ) (n : ℕ) → 1 ≤ n → (c : ℕ) × (at_most (or_default v 50000) n ≡ suc c) × (suc c ≤ n)
some_conns v zero h = elim h [ ]
some_conns v (suc n) h = elim (Bool-cases (ltb (suc n) (or_default v 50000))) [
  | inl e ↦ (n, rw e refl, omega arith)
  | inr e ↦ go (or_default v 50000) (or_default-positive v 50000 (omega arith)) e
]
  where
    go :
        (d : ℕ)
        → 1 ≤ d
        → ltb (suc n) d ≡ false
        → (c : ℕ) × (at_most d (suc n) ≡ suc c) × (suc c ≤ suc n)
    go zero h e = elim h [ ]
    go (suc d) h e = (d, rw e refl, ground (arith, e))

-- With one connection at least, `init` either refuses the pipeline, as ValidatePipeline says, or is
-- ready: no division by zero, and no wrong tick rate, is left, whatever -rbs is. Ready, it works on at
-- least one connection and no more than there are, with a batch of whole copies of one request whose
-- number divides the rate, and which is the pipeline where one is asked for.
pub init_lem :
    (random : ℕ → Bytes) (s : Settings)
    → 1 ≤ s.conns
    → ((e : PipelineError) × (validate_pipeline s.pipeline (pos (or_default s.send_rate 1))
          ≡ some e)
        × (init random s ≡ wrong_pipeline e))
      ⊎ ((r : Ready) × (init random s ≡ ready r)
          × IsReady s (request_of s.ip (random (or_default s.payload 1024))) r)
unfolding init
init_lem random s some_conn =
    let (c, e, le) = some_conns s.concurrency s.conns some_conn in rw e (settle_lem random s c le)
