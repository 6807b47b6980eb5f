-- ===== src/Tests/Servers.antt =====
-- The servers.
use go_http_benchmark.Prelude.{
  ℕ, suc, ◌+◌, ◌≤◌, ◌≡◌, refl, Bool, true, false, List, [], ◌∷◌, Option, none, some, Bytes, codes,
  arith, pos, negsuc, ℤ, map, length, All, ◌⊎◌,
}
use go_http_benchmark.Config.Ports.{get_framework_server_addrs, get_framework_benchmark_ports}
use go_http_benchmark.Connections.{refused}
use go_http_benchmark.Golib.Body.{Stream, eof, unexpected_eof}
use go_http_benchmark.Golib.Slice.{Slice}
use go_http_benchmark.Servers.Control
use go_http_benchmark.Servers.Control.{waiting, won, arrives, reads, swaps, swap, pid_text}
use go_http_benchmark.Golib.Strconv.{itoa}
use go_http_benchmark.Servers.Control.Once.{started_once, IsPending, winners}
use go_http_benchmark.Servers.Echo.{echo_all}
use go_http_benchmark.Servers.Handlers
use go_http_benchmark.Servers.Handlers.{Reply, sent, not_found, handle, gin}
use go_http_benchmark.Servers.Handlers.Accepted.{IsWriter, do_once-handle}
use go_http_benchmark.Protocol.Response.Answer.{Answer, IsAnswer, answer_text}
use go_http_benchmark.Protocol.Response.Fields.{Field}
use go_http_benchmark.Protocol.Ascii.{parse_status, ascii_equal_fold}
use go_http_benchmark.Protocol.Framing.{max_body_size}
use go_http_benchmark.BenchEcho.{do_once, Outcomes}
use go_http_benchmark.BenchEcho.Synced.{standing}
use go_http_benchmark.Servers.Echo.Refine.{echo_all_refines, respond}
use go_http_benchmark.Servers.Listen.{Listener, listen_wrapped, listen_all}
use go_http_benchmark.Servers.Listen.Ports.{listen_all-IsListening, IsListening}
use go_http_benchmark.Tests.Protocol.{idle_reader}

-- A buffer that a longer body was read into before.
abbrev used_buffer : Slice
used_buffer = record { len = 6; array = codes "before" }

abbrev three_requests : List (Stream × ℤ)
three_requests =
    (record { parts = codes "ab" ∷ codes "c" ∷ []; ending = eof; joined = false }, pos 3)
    ∷ (
      record {
        parts = codes "longer than" ∷ codes " the buffer" ∷ [];
        ending = eof;
        joined = true;
      },
      negsuc 0,
    )
    ∷ (record { parts = codes "ab" ∷ []; ending = unexpected_eof; joined = false }, pos 3)
    ∷ []

echo_all_refines_example :
    echo_all (λ n. suc (n + n)) 4 (used_buffer ∷ []) three_requests ≡ map respond three_requests
echo_all_refines_example =
    echo_all_refines (λ n. suc (n + n)) (λ n. omega arith) 4 (used_buffer ∷ []) three_requests
      (omega arith, tt)

abbrev not_started : Control.State
not_started = record { ps_started = false; starts = [] }

abbrev pub started : Control.State
started = record { ps_started = true; starts = 2 ∷ [] }

-- The interval of a body, which is its length here.
abbrev pub interval_of : Bytes → ℕ
interval_of body = length body

abbrev swapped : Control.State
swapped = record { ps_started = true; starts = [] }

-- Two requests: the second one is answered while the first, which swapped the flag, has not made the
-- goroutine yet.
abbrev one_answered : Control.Served
one_answered = record {
  state = swapped;
  requests = won (codes "ms") ∷ Control.answered (pid_text (itoa 12)) ∷ [];
}

one_answered-Reachable : Control.Reachable interval_of 12 one_answered
unfolding swap
one_answered-Reachable =
    Control.step
      (Control.step
        (Control.step
          (Control.step
            (Control.step
              (Control.step (Control.step Control.start (arrives not_started []))
                (arrives not_started (waiting ∷ [])))
              (reads not_started [] (waiting ∷ []) (some (codes "ms"))))
            (swaps not_started [] (waiting ∷ []) (codes "ms")))
          (reads swapped (won (codes "ms") ∷ []) [] (some (codes "s"))))
        (swaps swapped (won (codes "ms") ∷ []) [] (codes "s")))
      (Control.answers swapped (won (codes "ms") ∷ []) [])

started_once_example :
    (length one_answered.state.starts + winners one_answered.requests ≤ 1)
    × (All IsPending one_answered.requests
        ⊎ (length one_answered.state.starts + winners one_answered.requests ≡ 1))
started_once_example = started_once interval_of 12 one_answered one_answered-Reachable

abbrev binds_all : Bytes → Bool → Bool
binds_all addr reuse = true

abbrev gin_addrs : Option (List Bytes) → List Bytes
gin_addrs none = []
gin_addrs (some as') = as'

abbrev of_gin : List Bytes
of_gin = gin_addrs (get_framework_server_addrs (codes "gin"))

of_gin-some : get_framework_server_addrs (codes "gin") ≡ some of_gin
unfolding get_framework_server_addrs get_framework_benchmark_ports
of_gin-some = refl

abbrev delayed_listen : Bytes → Option Listener
delayed_listen addr = listen_wrapped binds_all (record { nodelay = false; reuse = true }) addr

listen_all-IsListening_example :
    IsListening delayed_listen of_gin (listen_all delayed_listen (codes "gin"))
listen_all-IsListening_example =
    listen_all-IsListening delayed_listen (codes "gin") of_gin of_gin-some

-- A server that writes the fields that Echo sets.
abbrev octets : Field
octets = record { name = codes "Content-Type"; value = codes "application/octet-stream" }

abbrev octets_answer : Bytes → Answer
octets_answer body = record {
  status_line = codes "HTTP/1.1 200 OK";
  before = octets ∷ [];
  after = [];
  body = body;
}

abbrev octets_writes : Reply → Bytes
octets_writes (sent type size body) = answer_text (octets_answer body)
octets_writes (Handlers.refused e) = []
octets_writes not_found = []

octets-IsAnswer :
    (body : Bytes) → length body ≤ max_body_size → IsAnswer 4096 200 (octets_answer body)
unfolding parse_status ascii_equal_fold
octets-IsAnswer body small = record {
  line = record { no_newline = omega arith; fits = omega arith };
  status_is = refl;
  has_body = refl;
  before_fields = (
    record {
      named_field = cc;
      no_colon = omega arith;
      line = record { no_newline = omega arith; fits = omega arith };
    },
    tt,
  );
  after_fields = tt;
  before_other = ((refl, refl), tt);
  after_other = tt;
  small = small;
  room = omega arith;
}

octets-IsWriter : IsWriter 4096 gin octets_writes
octets-IsWriter = record {
  answer_of = octets_answer;
  is_answer = octets-IsAnswer;
  same_body = λ body. refl;
  written = λ body. refl;
}

abbrev two_parts : Stream
two_parts = record { parts = codes "ab" ∷ codes "c" ∷ []; ending = eof; joined = false }

abbrev doubled : ℕ → ℕ
doubled n = suc (n + n)

abbrev echo_outcomes : Outcomes
echo_outcomes = record {
  redials = refused (codes "no");
  write_error = none;
  arrives = octets_writes (handle doubled 4 (used_buffer ∷ []) gin two_parts (pos 3));
}

do_once-handle_example :
    let d =
      do_once true
        (codes "abc")
        echo_outcomes
        used_buffer
        (standing (codes "h:1") idle_reader [] ∷ []) in
    (d.error ≡ none) × (d.conns ≡ standing (codes "h:1") idle_reader [] ∷ [])
do_once-handle_example =
    do_once-handle doubled (λ n. omega arith) 4 gin octets_writes (used_buffer ∷ []) two_parts true
      echo_outcomes used_buffer (codes "h:1") idle_reader [] octets-IsWriter (omega arith, tt)
      (omega arith) refl refl
