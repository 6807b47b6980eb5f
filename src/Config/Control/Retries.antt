-- ===== src/Config/Control/Retries.antt =====
-- What a control request returns, and after how many attempts.
use go_http_benchmark.Prelude.{
  ℕ, zero, suc, ◌+◌, ◌-◌, ◌*◌, ◌≤◌, ◌<◌, ◌≡◌, refl, true, false, Option, none, some, Bytes, arith,
  ◌≢◌, ap, ◌∙◌, inl, inr, Bool-cases, ltb, ltb→lt, ◌⊎◌, ◌++◌, codes, ◌==◌, ==→eq, ==_refl, subst,
}
use go_http_benchmark.Golib.Text.{trim_space}
use go_http_benchmark.Config.Control.{
  Exchange, not_sent, not_read, response, Once, data_of, failed, control_once, Requested, with_url,
  request_from, control_request,
}

-- No whole response came: the request could not be sent, or the body not be read.
abbrev pub IsLost : Exchange → Type 0
IsLost (not_sent e) = Unit
IsLost (not_read e) = Unit
IsLost (response code status body) = ⊥

abbrev pub Unanswered : (ℕ → Exchange) → ℕ → Type 0
Unanswered server j = IsLost (server j)

-- What the caller gets of a response: the body of a 200, and the status line and the body of any
-- other as the error.
abbrev pub Settles : Bytes → ℕ → Bytes → Bytes → Requested → Type 0
Settles url code status body q =
    ((code ≡ 200) × (q.reply ≡ some body) × (q.error ≡ none))
    ⊎ ((code ≢ 200)
        × (q.reply ≡ none)
        × (q.error ≡ some (url ++ (codes ": " ++ (status ++ (codes ": " ++ trim_space body))))))

-- What the loop does with the results of one attempt that ends it.
abbrev SettlesOnce : Bytes → Once → Requested → Type 0
SettlesOnce url (data_of body) q = (q.reply ≡ some body) × (q.error ≡ none)
SettlesOnce url (failed answered e) q = (q.reply ≡ none) × (q.error ≡ some (with_url url e))

lost-once : (x : Exchange) → IsLost x → (e : Bytes) × (control_once x ≡ failed false e)
unfolding control_once
lost-once (not_sent e) h = (e, refl)
lost-once (not_read e) h = (e, refl)
lost-once (response code status body) h = absurd h

answered-once :
    (code : ℕ) (status body e : Bytes) → control_once (response code status body) ≢ failed false e
unfolding control_once
answered-once code status body e = elim (Bool-cases (code == 200)) [
  | inl t ↦ rw t cc
  | inr t ↦ rw t cc
]

SettlesOnce-Settles :
    (url : Bytes) (code : ℕ) (status body : Bytes) (q : Requested)
    → SettlesOnce url (control_once (response code status body)) q
    → Settles url code status body q
unfolding control_once
SettlesOnce-Settles url code status body q h = elim (Bool-cases (code == 200)) [
  | inl t ↦ let (reply, error) = (rw t at h) in inl (==→eq _ _ t, reply, error)
  | inr t ↦
      let (reply, error) = (rw t at h) in
      inr (λ e. cc (t, ap (λ c. c == 200) e, ==_refl 200), reply, error)
]

request_from-suc :
    (url : Bytes) (server : ℕ → Exchange) (left attempt : ℕ) (err : Option Bytes) (slept : ℕ)
    (e : Bytes)
    → control_once (server attempt) ≡ failed false e
    → request_from url server (suc left) attempt err slept
      ≡ request_from url server left
          (suc attempt)
          (some (with_url url e))
          (slept + (attempt - 1) * 2)
unfolding request_from
request_from-suc url server left attempt err slept e h = rw (h, request_from) refl

module _ (url : Bytes) (server : ℕ → Exchange) where
  settled :
      (left attempt : ℕ) (err : Option Bytes) (slept : ℕ) (o : Once)
      → control_once (server attempt) ≡ o
      → ((e : Bytes) → o ≢ failed false e)
      → let q = request_from url server (suc left) attempt err slept in
        SettlesOnce url o q × (q.made ≡ attempt) × (q.slept ≡ slept + (attempt - 1) * 2)
  unfolding request_from
  settled left attempt err slept (data_of body) h n =
      rw (h, request_from) ((refl, refl), refl, refl)
  settled left attempt err slept (failed true e) h n =
      rw (h, request_from) ((refl, refl), refl, refl)
  settled left attempt err slept (failed false e) h n = absurd (n e refl)

  -- From an attempt on, with none of those before the `k`th answered.
  from_attempt :
      (left attempt k : ℕ) (err : Option Bytes) (slept : ℕ)
      → attempt ≤ k
      → k < attempt + left
      → ((j : ℕ) → attempt ≤ j → j < k → Unanswered server j)
      → ((e : Bytes) → control_once (server k) ≢ failed false e)
      → let q = request_from url server left attempt err slept in
        SettlesOnce url (control_once (server k)) q × (q.made ≡ k)
  from_attempt zero attempt k err slept l m h n = absurd (omega arith)
  from_attempt (suc left) attempt k err slept l m h n = elim (Bool-cases (ltb attempt k)) [
    | inl e ↦
        let (x, hx) = lost-once (server attempt) (h attempt (omega arith) (ltb→lt attempt k e)) in
        rw (request_from-suc url server left attempt err slept x hx) (
          from_attempt left (suc attempt) k (some (with_url url x)) (slept + (attempt - 1) * 2)
            (ground (arith, ltb→lt attempt k e)) (omega arith) (λ j lj jk. h j (omega arith) jk) n)
    | inr e ↦
        let same : attempt ≡ k = ground arith in
        let (s, made, time) =
          settled left attempt err slept (control_once (server k))
            (ap (λ j. control_once (server j)) same) n in
        (s, made ∙ same)
  ]

  none_answered :
      (left attempt : ℕ) (err : Option Bytes) (slept : ℕ)
      → 1 ≤ attempt
      → ((j : ℕ) → attempt ≤ j → j < attempt + left → Unanswered server j)
      → let q = request_from url server left attempt err slept in
        (q.reply ≡ none) × (q.made + 1 ≡ attempt + left)
  none_answered zero attempt err slept l h = unfold request_from in (refl, omega arith)
  none_answered (suc left) attempt err slept l h =
      let (x, hx) = lost-once (server attempt) (h attempt (omega arith) (omega arith)) in
      rw (request_from-suc url server left attempt err slept x hx) (
        let (r, m) =
          none_answered left (suc attempt) (some (with_url url x)) (slept + (attempt - 1) * 2)
            (omega arith) (λ j lj jk. h j (omega arith) (omega arith)) in
        (r, omega (arith, m)))

  -- Where the attempts before the `k`th get no whole response, and the `k`th one gets a response,
  -- controlRequest makes no attempt after it, and returns: with status code 200 its body and no error;
  -- with any other no body, and as the error the URL, the status line and the body without the
  -- spaces around it.
  pub control_request_settled :
      (attempts k code : ℕ) (status body : Bytes)
      → 1 ≤ k
      → k ≤ attempts
      → ((j : ℕ) → 1 ≤ j → j < k → Unanswered server j)
      → server k ≡ response code status body
      → let q = control_request url server attempts in Settles url code status body q × (q.made ≡ k)
  unfolding control_request
  control_request_settled attempts k code status body one l h answer =
      let (s, made) =
        from_attempt attempts 1 k none 0 one (omega arith) h
          (λ e. rw answer (answered-once code status body e)) in
      (
        SettlesOnce-Settles url code status body _ (
            subst
              (λ (x : Exchange).
                SettlesOnce url (control_once x) (request_from url server attempts 1 none 0))
              answer s),
        made,
      )

  -- Where the server answers none of the attempts, controlRequest makes all of them and returns no
  -- data.
  pub control_request-Unanswered :
      (attempts : ℕ)
      → ((j : ℕ) → 1 ≤ j → j ≤ attempts → Unanswered server j)
      → let q = control_request url server attempts in (q.reply ≡ none) × (q.made ≡ attempts)
  unfolding control_request
  control_request-Unanswered attempts h =
      let (r, m) = none_answered attempts 1 none 0 (omega arith) (λ j l m. h j l (omega arith)) in
      (r, omega (arith, m))
