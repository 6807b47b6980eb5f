-- ===== src/Protocol/Batch.antt =====
-- `BatchBuffers`, `PipelineBuffers` and `ValidatePipeline`: how many requests go into one write.
pub mod Bounds
use go_http_benchmark.Prelude.{
  ℕ, zero, suc, ◌+◌, ◌*◌, ◌/◌, ◌%◌, Bool, true, false, not, ◌&&◌, [], ◌∷◌, Option, none, some,
  Bytes, length, repeat, ltb, if◌then◌else◌, ℤ, pos, negsuc, quot, rem, is_zero, ltb_ℤ, neg,
}

-- A buffer, how many requests it holds, and how often it is to be written in a second.
pub record Batch : Type 0 where
  pub buffer : Bytes
  pub batch : ℕ
  pub tick_rate : ℤ

-- `if batch < 1 { batch = 1 }`
abbrev at_least_one : ℤ → ℕ
at_least_one (pos zero) = 1
at_least_one (pos (suc n)) = suc n
at_least_one (negsuc n) = 1

-- `for (batch > 1) && (rate%batch != 0) { batch-- }`
batch_down : ℕ → ℤ → ℕ
batch_down zero rate = zero
batch_down (suc zero) rate = suc zero
batch_down (suc (suc k)) rate =
    if is_zero (rem rate (suc (suc k))) then suc (suc k) else batch_down (suc k) rate

-- `none` is the panic of a division by zero.
unfoldable pub batch_buffers : Bytes → ℤ → ℤ → Option Batch
unfolding batch_down
batch_buffers [] rate max_len = none
batch_buffers (c ∷ s) rate max_len =
    let buf = c ∷ s in
    let batch = batch_down (at_least_one (quot max_len (length buf))) rate in
    some (record { buffer = repeat buf batch; batch = batch; tick_rate = quot rate batch })

-- For a pipeline that is not negative.
unfoldable pub pipeline_buffers : Bytes → ℤ → ℕ → Option Batch
pipeline_buffers buf rate zero = none
pipeline_buffers buf rate (suc k) =
    some (record { buffer = repeat buf (suc k); batch = suc k; tick_rate = quot rate (suc k) })

pub data PipelineError : Type 0 where
  negative_pipeline no_divisor : PipelineError

-- `none` is a nil error.
unfoldable pub validate_pipeline : ℤ → ℤ → Option PipelineError
validate_pipeline (negsuc n) rate = some negative_pipeline
validate_pipeline (pos zero) rate = none
validate_pipeline (pos (suc k)) rate =
    if not (is_zero (rem rate (suc k))) then some no_divisor else none
