-- ===== src/Connections/Dial.antt =====
-- A connection is one on which a request was answered.
use go_http_benchmark.Prelude.{ℕ, ◌≡◌, refl, ◌++◌, none, Bytes, ◌==◌, if◌then◌else◌}
use go_http_benchmark.Golib.Reader.{Reader, holding}
use go_http_benchmark.Protocol.Response.Answer.{
  Answer, IsAnswer, answer_text, discard_response-answer_text,
}
use go_http_benchmark.Connections.{accepted, dialed, not_dialed, wrong_status, answered, dial}

-- A dial is answered with a well-formed response: with status 200 it gives a connection whose
-- reader stands behind the response, and with any other status it fails with that status.
pub dial-answer_text :
    (r : Reader) (status : ℕ) (a : Answer) (rest : Bytes)
    → IsAnswer r.size status a
    → dial r.size (accepted none (answer_text a ++ rest) r.ending)
      ≡ (if status == 200 then dialed (holding r rest) else not_dialed (wrong_status status))
unfolding dial
dial-answer_text r status a rest w =
    let (no_error, status_is, n_is, reader_is) = discard_response-answer_text r status a rest w in
    rw (no_error, answered, status_is, reader_is) refl
