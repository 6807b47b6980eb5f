-- ===== src/Servers/Control.antt =====
-- frameworks/handlers.go: the handlers of the control routes.
pub mod Once
use go_http_benchmark.Prelude.{
  ℕ, suc, Bool, true, false, List, [], ◌∷◌, ◌++◌, Option, none, some, Bytes, if◌then◌else◌,
}
use go_http_benchmark.Golib.Strconv.{itoa}

pub data Answer : Type 0 where
  bad_request : Answer
  pid_text : Bytes → Answer

-- Where a request to /init is: its body is not read; the flag is not swapped; it swapped the flag and
-- has not made the goroutine yet; it is about to be answered; or it is answered.
pub data Phase : Type 0 where
  waiting : Phase
  has_body : Bytes → Phase
  won : Bytes → Phase
  answering : Phase
  answered : Answer → Phase

-- `psStarted`, and the intervals of the goroutines that were made to start `psCounter`.
pub record State : Type 0 where
  pub ps_started : Bool
  pub starts : List ℕ

-- `io.ReadAll` of the body; `none` is its error.
abbrev pub after_read : Option Bytes → Phase
after_read none = answered bad_request
after_read (some body) = has_body body

-- `psStarted.CompareAndSwap(false, true)`.
unfoldable pub swap : State → Bool × State
swap s =
    if s.ps_started then (false, s) else (true, record { ps_started = true; starts = s.starts })

abbrev pub after_swap : Bool → Bytes → Phase
after_swap swapped body = if swapped then won body else answering

-- The `go` statement; `interval` is what `json.Unmarshal` reads the body's PsInterval as, 0 where it
-- fails.
abbrev pub make_start : (Bytes → ℕ) → Bytes → State → State
make_start interval body s = record {
  ps_started = s.ps_started;
  starts = s.starts ++ interval body ∷ [];
}

-- The handler of /init on one request, from its start to its answer, with no other beside it.
unfoldable pub init : (Bytes → ℕ) → ℕ → Option Bytes → State → Answer × State
unfolding swap itoa
init interval pid none s = (bad_request, s)
init interval pid (some body) s =
    let (swapped, t) = swap s in
    (pid_text (itoa pid), if swapped then make_start interval body t else t)

-- The requests to /init that are served at once, each in its phase, over the state they share.
pub record Served : Type 0 where
  pub state : State
  pub requests : List Phase

-- One step of one of them: it reads its body, swaps the flag or finds it set, makes the goroutine, or
-- writes its answer. What stands before and behind it in the list stays.
pub data Step (interval : Bytes → ℕ) (pid : ℕ) : Served → Served → Type 0 where
  reads :
      (s : State) (before behind : List Phase) (body : Option Bytes)
      → Step interval pid
          (record { state = s; requests = before ++ waiting ∷ behind })
          (record { state = s; requests = before ++ after_read body ∷ behind })
  swaps :
      (s : State) (before behind : List Phase) (body : Bytes)
      → Step interval pid
          (record { state = s; requests = before ++ has_body body ∷ behind })
          (record { state = (swap s).1; requests = before ++ after_swap (swap s).0 body ∷ behind })
  makes :
      (s : State) (before behind : List Phase) (body : Bytes)
      → Step interval pid
          (record { state = s; requests = before ++ won body ∷ behind })
          (record { state = make_start interval body s; requests = before ++ answering ∷ behind })
  answers :
      (s : State) (before behind : List Phase)
      → Step interval pid
          (record { state = s; requests = before ++ answering ∷ behind })
          (record { state = s; requests = before ++ answered (pid_text (itoa pid)) ∷ behind })
  arrives :
      (s : State) (requests : List Phase)
      → Step interval pid
          (record { state = s; requests = requests })
          (record { state = s; requests = requests ++ waiting ∷ [] })

pub data Reachable (interval : Bytes → ℕ) (pid : ℕ) : Served → Type 0 where
  start :
      Reachable interval pid
        (record { state = record { ps_started = false; starts = [] }; requests = [] })
  step :
      {s t : Served} → Reachable interval pid s → Step interval pid s t → Reachable interval pid t
