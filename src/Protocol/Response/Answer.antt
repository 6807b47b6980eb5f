-- ===== src/Protocol/Response/Answer.antt =====
-- The responses of the benchmark's servers: a Content-Length among fields of other names.
use go_http_benchmark.Prelude.{
  ℕ, ◌≤◌, ◌<◌, ◌≡◌, ◌≢◌, refl, sym, ◌∙◌, ap, List, [], ◌∷◌, ◌++◌, append_assoc, append-nil, none,
  some, arith, Bytes, codes, length, Bool, All, All-append, false, true, pos,
}
use go_http_benchmark.Golib.Reader.{Reader, holding}
use go_http_benchmark.Golib.Slice.{Slice, view, reset, nil, IsSlice}
use go_http_benchmark.Golib.Strconv.{int_limit, itoa}
use go_http_benchmark.Golib.Strconv.Printed.{atoi-itoa, itoa-IsPlain, IsPlain, length-itoa}
use go_http_benchmark.Golib.Text.{trim_space, is_space}
use go_http_benchmark.Golib.Text.Trim.{trim_keep}
use go_http_benchmark.Protocol.Ascii.{ascii_equal_fold, parse_status}
use go_http_benchmark.Protocol.Framing.{max_body_size}
use go_http_benchmark.Protocol.Framing.Bodies.{Answered}
use go_http_benchmark.Protocol.Framing.Lines.{IsLine}
use go_http_benchmark.Protocol.Response.{
  Framing, no_framing, taken, named, with_length, read_response, discard_response, read_reply,
}
use go_http_benchmark.Protocol.Response.Fields.{Field, IsField, take_fields, then_take}
use go_http_benchmark.Protocol.Response.RoundTrip.{
  Head, head_text, IsHead, has_no_body, of_length, read_reply-of_length,
}

-- A field that says nothing of the body.
abbrev pub IsOther : Field → Type 0
IsOther x =
    (ascii_equal_fold x.name (codes "Content-Length") ≡ false)
    × (ascii_equal_fold x.name (codes "Transfer-Encoding") ≡ false)

abbrev pub length_field : ℕ → Field
length_field n = record { name = codes "Content-Length"; value = itoa n }

-- A response, as a server writes it: its body's length stands among other fields.
pub record Answer : Type 0 where
  pub status_line : Bytes
  pub before : List Field
  pub after : List Field
  pub body : Bytes

abbrev pub head_of : Answer → Head
head_of a = record {
  status_line = a.status_line;
  fields = a.before ++ length_field (length a.body) ∷ a.after;
}

abbrev pub answer_text : Answer → Bytes
answer_text a = head_text (head_of a) ++ a.body

-- A response with the given status that a reader with a buffer of `size` bytes can take.
pub record IsAnswer (size status : ℕ) (a : Answer) : Type 0 where
  pub line : IsLine size a.status_line
  pub status_is : parse_status a.status_line ≡ some status
  pub has_body : has_no_body status ≡ false
  pub before_fields : All (IsField size) a.before
  pub after_fields : All (IsField size) a.after
  pub before_other : All IsOther a.before
  pub after_other : All IsOther a.after
  pub small : length a.body ≤ max_body_size
  pub room : 64 ≤ size

itoa-trim : (n : ℕ) → trim_space (itoa n) ≡ itoa n
unfolding trim_space
itoa-trim n = trim_keep is_space (itoa n) (plain (itoa n) (itoa-IsPlain n))
  where
    plain : (s : Bytes) → All IsPlain s → All (λ c. is_space c ≡ false) s
    plain [] h = tt
    plain (c ∷ s) (hc, hs) = (ground arith, plain s hs)

pub named-length_field :
    (f : Framing) (n : ℕ)
    → n < int_limit
    → named f (codes "Content-Length") (trim_space (itoa n))
      ≡ taken (record f { content_length = pos n })
unfolding named ascii_equal_fold
named-length_field f n h = rw (itoa-trim n, atoi-itoa n h, with_length)

named_other : (f : Framing) (x : Field) → IsOther x → named f x.name (trim_space x.value) ≡ taken f
unfolding named
named_other f x h = ground arith

pub take_fields_other :
    (f : Framing) (xs ys : List Field)
    → All IsOther xs
    → take_fields f (xs ++ ys) ≡ take_fields f ys
take_fields_other f [] ys h = refl
take_fields_other f (x ∷ xs) ys (hx, hxs) =
    rw (named_other f x hx, then_take) (take_fields_other f xs ys hxs)

All-other : (f : Framing) (xs : List Field) → All IsOther xs → take_fields f xs ≡ taken f
All-other f xs h = ap (take_fields f) (sym (append-nil xs)) ∙ take_fields_other f xs [] h

-- The fields of such a response delimit its body by its length.
take_fields-head_of :
    (a : Answer)
    → All IsOther a.before
    → All IsOther a.after
    → length a.body < int_limit
    → take_fields no_framing (head_of a).fields ≡ taken (of_length (length a.body))
take_fields-head_of a before after h =
    take_fields_other no_framing a.before _ before
    ∙ rw (named-length_field no_framing (length a.body) h, then_take) (All-other _ a.after after)

no_newline_digits : (s : Bytes) → All IsPlain s → All (λ c. c ≢ b'\n') s
no_newline_digits [] h = tt
no_newline_digits (c ∷ s) (hc, hs) = (omega arith, no_newline_digits s hs)

pub length_field-IsField :
    (size n : ℕ) → n ≤ max_body_size → 64 ≤ size → IsField size (length_field n)
length_field-IsField size n h room = record {
  named_field = cc;
  no_colon = omega arith;
  line = record {
    no_newline =
        All-append (λ c. c ≢ b'\n') (codes "Content-Length: ") (itoa n) (omega arith)
          (no_newline_digits (itoa n) (itoa-IsPlain n));
    fits = omega (arith, length-itoa n (omega arith));
  };
}

-- Such a response has a head that `readResponse` takes.
pub head_of-IsHead :
    (size status : ℕ) (a : Answer)
    → IsAnswer size status a
    → IsHead size (head_of a) status (of_length (length a.body))
head_of-IsHead size status a w = record {
  line = w.line;
  status_is = w.status_is;
  all_fields =
      All-append (IsField size) a.before (length_field (length a.body) ∷ a.after) w.before_fields
        (length_field-IsField size (length a.body) w.small w.room, w.after_fields);
  framing_is = take_fields-head_of a w.before_other w.after_other (omega (arith, w.small));
}

module _ (r : Reader) (status : ℕ) (a : Answer) (rest : Bytes) (w : IsAnswer r.size status a) where
  -- `readResponse` on such a response.
  pub read_reply-answer_text :
      (dst : Slice) (keep : Bool)
      → IsSlice dst
      → dst.len ≤ max_body_size
      → Answered dst keep status a.body
          (holding r rest)
          (read_reply (holding r (answer_text a ++ rest)) dst keep)
  read_reply-answer_text dst keep s h = rw (append_assoc (head_text (head_of a)) a.body rest) (
      read_reply-of_length r dst keep (head_of a) status a.body rest s
        (head_of-IsHead r.size status a w) w.has_body w.small (omega (arith, w.small)))

  -- Any response with a status that has a body, with a Content-Length of at most MaxBodySize
  -- among well-formed header lines that fit the reader's buffer, and with any bytes behind it, is
  -- read by ReadResponse with no error: the status and the body come back as the server wrote
  -- them, whatever the buffer handed in held before, and the next read begins at what follows.
  pub read_response-answer_text :
      (dst : Slice)
      → let reply = read_response (holding r (answer_text a ++ rest)) dst in
        (reply.error ≡ none)
        × (reply.status ≡ status)
        × (view reply.body ≡ a.body)
        × (reply.reader ≡ holding r rest)
  unfolding read_response
  read_response-answer_text dst =
      let z = read_reply-answer_text (reset dst) true (omega arith) (omega arith) in
      (z.no_error, z.status_is, z.shows, z.reader_is)

  -- DiscardResponse on the same bytes returns no error, the same status and the length of the
  -- body, and leaves the reader at the same place.
  pub discard_response-answer_text :
      let reply = discard_response (holding r (answer_text a ++ rest)) in
      (reply.error ≡ none)
      × (reply.status ≡ status)
      × (reply.n ≡ length a.body)
      × (reply.reader ≡ holding r rest)
  unfolding discard_response
  discard_response-answer_text =
      let z = read_reply-answer_text nil false (omega arith) (omega arith) in
      (z.no_error, z.status_is, z.n_is, z.reader_is)
