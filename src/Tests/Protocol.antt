-- ===== src/Tests/Protocol.antt =====
-- Responses and requests on the wire, and batches of requests.
use go_http_benchmark.Prelude.{
  ◌↔◌, ℕ, [], ◌∷◌, ◌++◌, ◌≡◌, ◌≢◌, ◌⊎◌, ◌≤◌, ◌*◌, ◌%◌, refl, true, false, none, some, arith, Bytes,
  codes, List, length, All, pos, ◌<◌,
}
use go_http_benchmark.Golib.Reader.{Reader, eof, holding, drained, discard, read_full, read_slice}
use go_http_benchmark.Golib.Slice.{Slice, view, nil, fill}
use go_http_benchmark.Golib.Strconv.{hex, itoa, parse_int, atoi, digit_value, parse_digits}
use go_http_benchmark.Golib.Text.{
  index_byte, contains, to_lower, trim_space, has_prefix, trim, trim_left, trim_right,
}
use go_http_benchmark.Protocol.Ascii.{parse_status, ascii_equal_fold}
use go_http_benchmark.Protocol.Ascii.Fold.{SameText, ascii_equal_fold_iff}
use go_http_benchmark.Protocol.Batch.{Batch, batch_buffers, validate_pipeline, pipeline_buffers}
use go_http_benchmark.Protocol.Batch.Bounds.{IsBatch, batch_buffers_lem, validate_pipeline_iff}
use go_http_benchmark.Protocol.Chunked.{
  read_chunked, chunk_round, chunk_size, read_trailer, read_chunk, returned, give,
}
use go_http_benchmark.Protocol.Chunked.Agree.{Agree}
use go_http_benchmark.Protocol.Chunked.Chunks.{Chunk, IsChunk, chunks_text, content}
use go_http_benchmark.Protocol.Chunked.Overflow.{read_chunk_overflow}
use go_http_benchmark.Protocol.Chunked.RoundTrip.{read_chunked-chunks_text, last_text}
use go_http_benchmark.Protocol.Encode.{encode_request}
use go_http_benchmark.Protocol.Encode.Framed
use go_http_benchmark.Protocol.Errors.{panic, io, out_of_fuel}
use go_http_benchmark.Protocol.Framing.Bodies.{Answered}
use go_http_benchmark.Protocol.Framing.{max_body_size, read_line, take_body}
use go_http_benchmark.Protocol.Grow.{grow}
use go_http_benchmark.Protocol.Response.{
  read_headers, header_line, named, read_framed, read_response, discard_response, read_reply,
}
use go_http_benchmark.Protocol.Response.Agree.{read_response-discard_response}
use go_http_benchmark.Protocol.Response.Answer.{
  Answer, IsAnswer, answer_text, read_response-answer_text, discard_response-answer_text,
}
use go_http_benchmark.Protocol.Response.RoundTrip.{of_length}
use go_http_benchmark.Protocol.Response.Headers.{read_reply_fuel}

-- What a run of the response reader computes through.
unfoldable pub reader_runs : Unit {0}
unfolding read_response discard_response read_reply read_line read_slice index_byte parse_status
    read_headers header_line named ascii_equal_fold read_framed contains to_lower trim_space
    read_chunked chunk_round chunk_size parse_int discard read_full fill atoi digit_value
    parse_digits has_prefix trim trim_left trim_right read_chunk read_trailer take_body grow
reader_runs = tt

-- An empty connection with the buffer of `NewReaderSize(nil, 4096)`.
abbrev pub idle_reader : Reader
idle_reader = record { size = 4096; unread = []; ending = eof }

-- A buffer with bytes of an earlier response in its array.
abbrev used : Slice
used = record { len = 2; array = codes "stale!" }

abbrev pub ok_answer : Answer
ok_answer = record {
  status_line = codes "HTTP/1.1 200 OK";
  before = record { name = codes "Content-Type"; value = codes "text/plain" } ∷ [];
  after = record { name = codes "Date"; value = codes "today" } ∷ [];
  body = codes "hi";
}

answer_bytes :
    answer_text ok_answer
    ≡ codes
        "HTTP/1.1 200 OK\r\nContent-Type: text/plain\r\nContent-Length: 2\r\nDate: today\r\n\r\nhi"
unfolding itoa
answer_bytes = refl

pub ok_answer-IsAnswer : IsAnswer 4096 200 ok_answer
unfolding parse_status ascii_equal_fold
ok_answer-IsAnswer = record {
  line = record { no_newline = omega arith; fits = omega arith };
  status_is = refl;
  has_body = refl;
  before_fields = (
    record {
      named_field = cc;
      no_colon = omega arith;
      line = record { no_newline = omega arith; fits = omega arith };
    },
    tt,
  );
  after_fields = (
    record {
      named_field = cc;
      no_colon = omega arith;
      line = record { no_newline = omega arith; fits = omega arith };
    },
    tt,
  );
  before_other = ((refl, refl), tt);
  after_other = ((refl, refl), tt);
  small = omega arith;
  room = omega arith;
}

abbrev next_bytes : Bytes
next_bytes = codes "HTTP/1.1 "

read_response-answer_text_example :
    let reply = read_response (holding idle_reader (answer_text ok_answer ++ next_bytes)) used in
    (reply.error ≡ none)
    × (reply.status ≡ 200)
    × (view reply.body ≡ codes "hi")
    × (reply.reader ≡ holding idle_reader next_bytes)
read_response-answer_text_example =
    read_response-answer_text idle_reader 200 ok_answer next_bytes ok_answer-IsAnswer used

discard_response-answer_text_example :
    let reply = discard_response (holding idle_reader (answer_text ok_answer ++ next_bytes)) in
    (reply.error ≡ none)
    × (reply.status ≡ 200)
    × (reply.n ≡ 2)
    × (reply.reader ≡ holding idle_reader next_bytes)
discard_response-answer_text_example =
    discard_response-answer_text idle_reader 200 ok_answer next_bytes ok_answer-IsAnswer

abbrev chunked_bytes : Bytes
chunked_bytes =
    codes
      "HTTP/1.1 200 OK\r\nTransfer-Encoding: Chunked\r\n\r\n3;x=1\r\nabc\r\n1\r\nd\r\n0\r\nT: 1\r\n\r\nHTTP"

read_response-chunked :
    view (read_response (holding idle_reader chunked_bytes) used).body ≡ codes "abcd"
unfolding reader_runs
read_response-chunked = refl

read_response-discard_response_example :
    Agree
      (read_response (holding idle_reader chunked_bytes) used)
      (discard_response (holding idle_reader chunked_bytes))
    × ((discard_response (holding idle_reader chunked_bytes)).error ≢ some panic)
read_response-discard_response_example =
    read_response-discard_response (holding idle_reader chunked_bytes) used (omega arith)

read_reply_fuel_example :
    ((read_reply (holding idle_reader chunked_bytes) nil true).error ≢ some out_of_fuel)
    × ((read_reply (holding idle_reader chunked_bytes) nil false).error ≢ some panic)
read_reply_fuel_example = read_reply_fuel (holding idle_reader chunked_bytes) nil true

abbrev two_chunks : List Chunk
two_chunks =
    record { extension = codes "x=1"; text = codes "abc" }
    ∷ record { extension = []; text = codes "d" }
    ∷ []

two_chunks-All : All (IsChunk 4096) two_chunks
unfolding hex
two_chunks-All = (
  record { not_empty = cc; line = record { no_newline = omega arith; fits = omega arith } },
  (record { not_empty = cc; line = record { no_newline = omega arith; fits = omega arith } }, tt),
)

read_chunked-chunks_text_example :
    Answered nil true 200 (content two_chunks) (holding idle_reader next_bytes) (
      read_chunked
        (holding idle_reader
          (chunks_text two_chunks ++ (last_text (codes "T: 1" ∷ []) ++ next_bytes)))
        200
        nil
        true)
read_chunked-chunks_text_example =
    read_chunked-chunks_text two_chunks (codes "T: 1" ∷ []) idle_reader 200 nil true next_bytes
      two_chunks-All ((cc, record { no_newline = omega arith; fits = omega arith }), tt)
      (omega arith) refl (omega arith)

abbrev huge : ℕ
huge = 9223372036854775807

read_chunk_overflow_example :
    (max_body_size < huge)
    × (read_chunk (holding idle_reader (codes "xyz")) 200 nil false 1 huge
        ≡ returned (give 200 nil 1 (some (io eof)) (drained (holding idle_reader (codes "xyz")))))
read_chunk_overflow_example =
    read_chunk_overflow (holding idle_reader (codes "xyz")) 200 1 huge nil (omega arith)
      (omega arith) (omega arith) (omega arith)

encode_request-body_example :
    Framed.Heads
      (holding idle_reader (
        encode_request (codes "POST") (codes "h") (codes "/echo") (some (codes "abc"))
        ++ next_bytes))
      (codes "POST /echo HTTP/1.1")
      (of_length 3)
      (codes "abc" ++ next_bytes)
encode_request-body_example =
    Framed.encode_request-body idle_reader (codes "POST") (codes "h") (codes "/echo") (codes "abc")
      next_bytes (record { no_newline = omega arith; fits = omega arith })
      (record { no_newline = omega arith; fits = omega arith }) (omega arith) (omega arith)

batch_buffers_lem_example :
    (b : Batch) × (batch_buffers (codes "abc") (pos 200) (pos 20) ≡ some b)
    × IsBatch (codes "abc") 200 b
    × ((b.batch ≡ 1) ⊎ (length b.buffer ≤ 20))
    × ((d : ℕ) → 1 ≤ d → d * length (codes "abc") ≤ 20 → 200 % d ≡ 0 → d ≤ b.batch)
batch_buffers_lem_example = batch_buffers_lem (codes "abc") 200 20 (cc)

validate_pipeline_iff_example : (validate_pipeline (pos 20) (pos 200) ≡ none) ↔ (
    (pos 20 ≡ pos 0)
    ⊎ ((n : ℕ) × (b : Batch) × (pos 20 ≡ pos n)
        × (pipeline_buffers (codes "abc") (pos 200) n ≡ some b)
        × IsBatch (codes "abc") 200 b
        × (b.batch ≡ n)))
validate_pipeline_iff_example = validate_pipeline_iff (codes "abc") (pos 20) 200

ascii_equal_fold_iff_example :
    (ascii_equal_fold (codes "content-LENGTH") (codes "Content-Length") ≡ true)
    ↔ SameText (codes "content-LENGTH") (codes "Content-Length")
ascii_equal_fold_iff_example =
    ascii_equal_fold_iff (codes "content-LENGTH") (codes "Content-Length")
