-- ===== src/Protocol/Response/RoundTrip.antt =====
-- Responses as a server writes them, read back with any bytes behind them.
use go_http_benchmark.Prelude.{
  ℕ, suc, ◌+◌, ◌/◌, ◌≤◌, ◌<◌, ◌≡◌, refl, ◌∙◌, List, [], ◌∷◌, ◌++◌, append_assoc, some, arith, Bytes,
  length, All, Bool, false, ◌||◌, ◌==◌, pos, length-append, ap, le→ltb,
}
use go_http_benchmark.Golib.Reader.{Reader, holding}
use go_http_benchmark.Golib.Slice.{Slice, IsSlice}
use go_http_benchmark.Golib.Strconv.{int_limit}
use go_http_benchmark.Protocol.Ascii.{parse_status}
use go_http_benchmark.Protocol.Framing.{max_body_size}
use go_http_benchmark.Protocol.Framing.Bodies.{Answered, take_body-Arrived}
use go_http_benchmark.Protocol.Framing.Lines.{IsLine, crlf, read_line-line}
use go_http_benchmark.Protocol.Response.{
  Framing, no_framing, taken, read_framed, read_reply, behind_line, behind_status, behind_headers,
}
use go_http_benchmark.Protocol.Response.Fields.{
  Field, field_line, IsField, fields_text, take_fields, read_headers-fields_text,
}

-- The head of a response: its status line and its fields.
pub record Head : Type 0 where
  pub status_line : Bytes
  pub fields : List Field

abbrev pub head_text : Head → Bytes
head_text h = h.status_line ++ (crlf ++ (fields_text h.fields ++ crlf))

-- A head that a reader with a buffer of `size` bytes takes, with what it says: the status, and
-- how the body is delimited.
pub record IsHead (size : ℕ) (h : Head) (status : ℕ) (f : Framing) : Type 0 where
  pub line : IsLine size h.status_line
  pub status_is : parse_status h.status_line ≡ some status
  pub all_fields : All (IsField size) h.fields
  pub framing_is : take_fields no_framing h.fields ≡ taken f

-- 1xx, 204 and 304 have no body.
abbrev pub has_no_body : ℕ → Bool
has_no_body status = status / 100 == 1 || status == 204 || status == 304

pub length-fields_text : (xs : List Field) → length xs ≤ length (fields_text xs)
length-fields_text [] = omega arith
length-fields_text (x ∷ xs) =
    omega (arith, length-append (field_line x) (crlf ++ fields_text xs), length-fields_text xs)

head_apart :
    (h : Head) (rest : Bytes)
    → head_text h ++ rest ≡ h.status_line ++ (crlf ++ (fields_text h.fields ++ (crlf ++ rest)))
head_apart h rest =
    append_assoc h.status_line (crlf ++ (fields_text h.fields ++ crlf)) rest
    ∙ ap (λ t. h.status_line ++ (crlf ++ t)) (append_assoc (fields_text h.fields) crlf rest)

-- Behind the head, the reader stands at the body.
pub read_reply-head_text :
    (r : Reader) (dst : Slice) (keep : Bool) (h : Head) {status : ℕ} {f : Framing} (rest : Bytes)
    → IsHead r.size h status f
    → read_reply (holding r (head_text h ++ rest)) dst keep
      ≡ read_framed (holding r rest) status dst keep f
unfolding read_reply
read_reply-head_text r dst keep h rest w =
    let behind = fields_text h.fields ++ (crlf ++ rest) in
    let enough : length h.fields < suc (length behind) =
      omega
        (arith, length-append (fields_text h.fields) (crlf ++ rest), length-fields_text h.fields) in
    rw (head_apart h rest) (
      rw (read_line-line r h.status_line behind w.line, behind_line, w.status_is, behind_status)
        (rw (
          read_headers-fields_text h.fields (suc (length behind)) r no_framing rest w.all_fields
              (omega (arith, w.line.fits)) w.framing_is enough,
          behind_headers,
        )))

abbrev pub of_length : ℕ → Framing
of_length n = record { content_length = pos n; chunked = false }

-- The body of a response with a Content-Length, whatever follows it.
pub read_framed-of_length :
    (r : Reader) (status : ℕ) (dst : Slice) (keep : Bool) (body rest : Bytes)
    → IsSlice dst
    → has_no_body status ≡ false
    → length body ≤ max_body_size
    → dst.len + length body < int_limit
    → Answered dst keep status body
        (holding r rest)
        (read_framed (holding r (body ++ rest)) status dst keep (of_length (length body)))
unfolding read_framed
read_framed-of_length r status dst keep body rest h has small fits =
    let a = take_body-Arrived r dst keep body rest h fits in
    rw (has, le→ltb max_body_size (length body) small)
      (record {
        status_is = refl;
        no_error = a.no_error;
        n_is = refl;
        shows = a.shows;
        reader_is = a.reader_is;
        is_slice = a.is_slice;
      })

-- A response with a Content-Length is read whole by `readResponse`, and no byte of what follows.
pub read_reply-of_length :
    (r : Reader) (dst : Slice) (keep : Bool) (h : Head) (status : ℕ) (body rest : Bytes)
    → IsSlice dst
    → IsHead r.size h status (of_length (length body))
    → has_no_body status ≡ false
    → length body ≤ max_body_size
    → dst.len + length body < int_limit
    → Answered dst keep status body
        (holding r rest)
        (read_reply (holding r (head_text h ++ (body ++ rest))) dst keep)
read_reply-of_length r dst keep h status body rest s w has small fits =
    rw (read_reply-head_text r dst keep h (body ++ rest) w)
      (read_framed-of_length r status dst keep body rest s has small fits)
