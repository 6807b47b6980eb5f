-- ===== src/Protocol/Batch/Bounds.antt =====
-- The batch fits, divides the rate, and is the largest that does.
use go_http_benchmark.Prelude.{
  ℕ, zero, suc, ◌*◌, ◌/◌, ◌%◌, ◌≤◌, ◌<◌, ◌≡◌, ◌≢◌, ◌↔◌, ◌⊎◌, inl, inr, refl, subst, [], ◌∷◌, none,
  some, arith, Bytes, length, length-append, repeat, ℤ, pos, negsuc, quot, Bool-cases, ==→eq, ◌==◌,
}
use native.Mathlib.Nat.{div-add-mod', le-div_iff_mul-le, mul-mod_right}
use go_http_benchmark.Protocol.Batch.{
  Batch, batch_down, at_least_one, batch_buffers, pipeline_buffers, validate_pipeline,
}

length-repeat : (s : Bytes) (n : ℕ) → length (repeat s n) ≡ n * length s
length-repeat s zero = grind arith
length-repeat s (suc n) = grind (arith, length-append s (repeat s n), length-repeat s n)

-- What a batch is for: `n` copies of the request in one write, sent so often that the writes of a
-- second make up the rate.
pub record IsBatch (buf : Bytes) (rate : ℕ) (b : Batch) : Type 0 where
  pub copies : b.buffer ≡ repeat buf b.batch
  pub bytes : length b.buffer ≡ b.batch * length buf
  pub positive : 1 ≤ b.batch
  pub per_second : (t : ℕ) × (b.tick_rate ≡ pos t) × (b.batch * t ≡ rate)

batch_down_lem :
    (start rate : ℕ)
    → 1 ≤ start
    → (1 ≤ batch_down start (pos rate))
      × (batch_down start (pos rate) ≤ start)
      × (rate % batch_down start (pos rate) ≡ 0)
unfolding batch_down
batch_down_lem zero rate h = elim h [ ]
batch_down_lem (suc zero) rate h = (omega arith, omega arith, omega arith)
batch_down_lem (suc (suc k)) rate h = ground (arith, batch_down_lem (suc k) rate)

batch_down-max :
    (start rate d : ℕ) → 1 ≤ d → d ≤ start → rate % d ≡ 0 → d ≤ batch_down start (pos rate)
unfolding batch_down
batch_down-max zero rate d h le m = le
batch_down-max (suc zero) rate d h le m = le
batch_down-max (suc (suc k)) rate d h le m = elim (Bool-cases (d == suc (suc k))) [
  | inl e ↦
      let m' : rate % suc (suc k) ≡ 0 = subst (λ n. rate % n ≡ 0) (==→eq d (suc (suc k)) e) m in
      ground arith
  | inr e ↦ ground (arith, batch_down-max (suc k) rate d h)
]

-- The product of a divisor and the quotient.
divides_lem : (rate n : ℕ) → rate % n ≡ 0 → n * (rate / n) ≡ rate
divides_lem rate n h = omega (arith, div-add-mod' rate n)

at_least_one_lem :
    (m len : ℕ)
    → (1 ≤ at_least_one (quot (pos m) len))
      × ((at_least_one (quot (pos m) len) ≡ 1) ⊎ (at_least_one (quot (pos m) len) ≡ m / len))
at_least_one_lem m len = ground arith

-- The batch that is chosen: as many requests as fit, or one.
abbrev start_of : ℕ → ℕ → ℕ
start_of len m = at_least_one (quot (pos m) len)

-- A batch no larger than the start fits, or is one request.
fits_start : (b len m : ℕ) → 0 < len → b ≤ start_of len m → (b ≤ 1) ⊎ (b * len ≤ m)
fits_start b len m pos_len le = elim (at_least_one_lem m len).1 [
  | inl e ↦ inl (omega arith)
  | inr e ↦ inr ((le-div_iff_mul-le pos_len).0 (omega arith))
]

-- What fits is no larger than the start.
start_max : (d len m : ℕ) → 0 < len → 1 ≤ d → d * len ≤ m → d ≤ start_of len m
start_max d len m pos_len h fits =
    let q : d ≤ m / len = (le-div_iff_mul-le pos_len).1 fits in ground arith

-- For a request that is not empty and a positive rate, BatchBuffers answers with a batch of
-- copies of the request that is written a whole number of times a second, to the rate; it holds
-- one request or fits in maxLen bytes; and no larger number of requests both fits in maxLen bytes
-- and divides the rate.
pub batch_buffers_lem :
    (buf : Bytes) (rate max_len : ℕ)
    → buf ≢ []
    → (b : Batch) × (batch_buffers buf (pos rate) (pos max_len) ≡ some b)
      × IsBatch buf rate b
      × ((b.batch ≡ 1) ⊎ (length b.buffer ≤ max_len))
      × ((d : ℕ) → 1 ≤ d → d * length buf ≤ max_len → rate % d ≡ 0 → d ≤ b.batch)
unfolding batch_buffers
batch_buffers_lem [] rate max_len ne = absurd (ne refl)
batch_buffers_lem (c ∷ s) rate max_len ne =
    let buf = c ∷ s in
    let start = start_of (length buf) max_len in
    let n = batch_down start (pos rate) in
    let (one, le, div) = batch_down_lem start rate (at_least_one_lem max_len (length buf)).0 in
    let bytes' = length-repeat buf n in
    (
      record { buffer = repeat buf n; batch = n; tick_rate = quot (pos rate) n },
      refl,
      record {
        copies = refl;
        bytes = bytes';
        positive = one;
        per_second = (rate / n, refl, divides_lem rate n div);
      },
      elim (fits_start n (length buf) max_len (omega arith) le) [
        | inl small ↦ inl (omega arith)
        | inr fits ↦ inr (omega (arith, bytes'))
      ],
      λ d h fits m.
          batch_down-max start rate d h (start_max d (length buf) max_len (omega arith) h fits) m,
    )

at_least_one-positive : (z : ℤ) → 1 ≤ at_least_one z
at_least_one-positive (pos zero) = omega arith
at_least_one-positive (pos (suc n)) = omega arith
at_least_one-positive (negsuc n) = omega arith

-- Whatever the number of bytes asked for, a negative one included, BatchBuffers answers with a batch.
pub batch_buffers_IsBatch :
    (buf : Bytes) (rate : ℕ) (max_len : ℤ)
    → buf ≢ []
    → (b : Batch) × (batch_buffers buf (pos rate) max_len ≡ some b) × IsBatch buf rate b
unfolding batch_buffers
batch_buffers_IsBatch [] rate max_len ne = absurd (ne refl)
batch_buffers_IsBatch (c ∷ s) rate max_len ne =
    let buf = c ∷ s in
    let start = at_least_one (quot max_len (length buf)) in
    let n = batch_down start (pos rate) in
    let (one, le, div) =
      batch_down_lem start rate (at_least_one-positive (quot max_len (length buf))) in
    (
      record { buffer = repeat buf n; batch = n; tick_rate = quot (pos rate) n },
      refl,
      record {
        copies = refl;
        bytes = length-repeat buf n;
        positive = one;
        per_second = (rate / n, refl, divides_lem rate n div);
      },
    )

pipeline_IsBatch :
    (buf : Bytes) (rate k : ℕ)
    → rate % suc k ≡ 0
    → (b : Batch) × (pipeline_buffers buf (pos rate) (suc k) ≡ some b)
      × IsBatch buf rate b
      × (b.batch ≡ suc k)
unfolding pipeline_buffers
pipeline_IsBatch buf rate k m = (
  record { buffer = repeat buf (suc k); batch = suc k; tick_rate = quot (pos rate) (suc k) },
  refl,
  record {
    copies = refl;
    bytes = length-repeat buf (suc k);
    positive = omega arith;
    per_second = (rate / suc k, refl, divides_lem rate (suc k) m);
  },
  refl,
)

validate_divisor : (n rate : ℕ) → rate % n ≡ 0 → validate_pipeline (pos n) (pos rate) ≡ none
unfolding validate_pipeline
validate_divisor zero rate m = refl
validate_divisor (suc k) rate m = ground arith

divisor_of_valid :
    (k rate : ℕ) → validate_pipeline (pos (suc k)) (pos rate) ≡ none → rate % suc k ≡ 0
unfolding validate_pipeline
divisor_of_valid k rate h = ground arith

accepted :
    (buf : Bytes) (pipeline : ℤ) (rate : ℕ)
    → validate_pipeline pipeline (pos rate) ≡ none
    → (pipeline ≡ pos 0)
      ⊎ ((n : ℕ) × (b : Batch) × (pipeline ≡ pos n)
          × (pipeline_buffers buf (pos rate) n ≡ some b)
          × IsBatch buf rate b
          × (b.batch ≡ n))
accepted buf (negsuc n) rate h = unfold validate_pipeline in cc
accepted buf (pos zero) rate h = inl refl
accepted buf (pos (suc k)) rate h =
    let (b, e, w, n) = pipeline_IsBatch buf rate k (divisor_of_valid k rate h) in
    inr (suc k, b, refl, e, w, n)

-- ValidatePipeline accepts exactly the depths that the run can use: 0, which asks for
-- BatchBuffers, and the positive divisors of the rate, for which PipelineBuffers answers with a
-- batch of that many copies of the request, sent to the rate.
pub validate_pipeline_iff :
    (buf : Bytes) (pipeline : ℤ) (rate : ℕ)
    → (validate_pipeline pipeline (pos rate) ≡ none) ↔ (
        (pipeline ≡ pos 0)
        ⊎ ((n : ℕ) × (b : Batch) × (pipeline ≡ pos n)
            × (pipeline_buffers buf (pos rate) n ≡ some b)
            × IsBatch buf rate b
            × (b.batch ≡ n)))
validate_pipeline_iff buf pipeline rate = (
  accepted buf pipeline rate,
  λ h. elim h [
    | inl e ↦ rw e validate_zero
    | inr (n, b, e, p, w, same) ↦ rw e (accepts n (omega (arith, w.positive)) (usable n b p w same))
  ],
)
  where
    validate_zero : validate_pipeline (pos 0) (pos rate) ≡ none
    validate_zero = unfold validate_pipeline in refl

    accepts : (n : ℕ) → 1 ≤ n → rate % n ≡ 0 → validate_pipeline (pos n) (pos rate) ≡ none
    accepts n one m = validate_divisor n rate m

    usable :
        (n : ℕ) (b : Batch)
        → pipeline_buffers buf (pos rate) n ≡ some b
        → IsBatch buf rate b
        → b.batch ≡ n
        → rate % n ≡ 0
    usable n b p w same =
        let (t, _, q) = w.per_second in
        let q' : n * t ≡ rate = rw same at q in rw (← q') (mul-mod_right n t)
