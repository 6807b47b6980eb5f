-- ===== src/BenchRate/Sender/Rounds.antt =====
-- The counters of a round.
use go_http_benchmark.Prelude.{
  ℕ, suc, ◌+◌, ◌*◌, ◌≡◌, refl, Bool, true, false, List, [], ◌∷◌, arith, Bool-cases, inl, inr,
  length,
}
use go_http_benchmark.BenchRate.Sender.{Conn, Sent, do_once, is_full, sent_on, add_sent, in_front}

abbrev pub total_sent : List Conn → ℕ
total_sent [] = 0
total_sent (c ∷ cs) = c.send_cnt + total_sent cs

abbrev pub total_received : List Conn → ℕ
total_received [] = 0
total_received (c ∷ cs) = c.recv_cnt + total_received cs

module _ (batch payload : ℕ) (works : ℕ → Bool) where
  skipped :
      (i : ℕ) (c : Conn) (cs : List Conn) (s : Sent) (n : ℕ)
      → is_full batch c ≡ true
      → do_once batch payload works i (c ∷ cs) s n
        ≡ in_front c (do_once batch payload works (suc i) cs s n)
  unfolding do_once
  skipped i c cs s n h = rw (h, do_once) refl

  failed :
      (i : ℕ) (c : Conn) (cs : List Conn) (s : Sent) (n : ℕ)
      → is_full batch c ≡ false
      → works i ≡ false
      → do_once batch payload works i (c ∷ cs) s n
        ≡ in_front c (do_once batch payload works (suc i) cs s n)
  unfolding do_once
  failed i c cs s n h k = rw (h, k, do_once) refl

  written :
      (i : ℕ) (c : Conn) (cs : List Conn) (s : Sent) (n : ℕ)
      → is_full batch c ≡ false
      → works i ≡ true
      → do_once batch payload works i (c ∷ cs) s n
        ≡ in_front
            (sent_on batch c)
            (do_once batch payload works (suc i) cs (add_sent batch payload s) (suc n))
  unfolding do_once
  written i c cs s n h k = rw (h, k, do_once) refl

  -- A round counts a batch for each write that it makes: the requests sent, the bytes of their
  -- bodies and the connections' own counts go up together. It counts no response, and takes no
  -- connection out.
  pub do_once_lem :
      (i : ℕ) (cs : List Conn) (s : Sent) (n : ℕ)
      → let r = do_once batch payload works i cs s n in
        (r.sent.send_times + batch * n ≡ s.send_times + batch * r.writes)
        × (r.sent.send_bytes + payload * s.send_times ≡ s.send_bytes + payload * r.sent.send_times)
        × (total_sent r.conns + s.send_times ≡ total_sent cs + r.sent.send_times)
        × (total_received r.conns ≡ total_received cs)
        × (length r.conns ≡ length cs)
  do_once_lem i [] s n = unfold do_once in (refl, refl, omega arith, refl, refl)
  do_once_lem i (c ∷ cs) s n = elim (Bool-cases (is_full batch c)) [
    | inl e ↦ rw (skipped i c cs s n e) (omega (arith, do_once_lem (suc i) cs s n))
    | inr e ↦ elim (Bool-cases (works i)) [
      | inl k ↦
          rw (written i c cs s n e k)
            (omega (arith, do_once_lem (suc i) cs (add_sent batch payload s) (suc n)))
      | inr k ↦ rw (failed i c cs s n e k) (omega (arith, do_once_lem (suc i) cs s n))
    ]
  ]
