-- ===== src/Protocol/Response/Fields.antt =====
-- Header lines as a server writes them, and what `readResponse` makes of them.
use go_http_benchmark.Prelude.{
  ℕ, suc, zero, ◌≤◌, ◌<◌, ◌≡◌, ◌≢◌, refl, ◌∙◌, List, [], ◌∷◌, ◌++◌, append_assoc, arith, Bytes,
  length, All, take-append,
}
use go_http_benchmark.Golib.Reader.{Reader, holding, ok}
use go_http_benchmark.Golib.Reader.Lines.{index_byte-append, drop_line}
use go_http_benchmark.Golib.Text.{trim_space, is_space}
use go_http_benchmark.Golib.Text.Trim.{trim_drop}
use go_http_benchmark.Protocol.Framing.{read_line}
use go_http_benchmark.Protocol.Framing.Lines.{IsLine, crlf, read_line-line}
use go_http_benchmark.Protocol.Response.{
  Framing, Header, taken, refused_line, named, header_line, split_at, read_headers,
}

pub record Field : Type 0 where
  pub name : Bytes
  pub value : Bytes

abbrev pub field_line : Field → Bytes
field_line x = x.name ++ b':' ∷ b' ' ∷ x.value

-- The lines of the fields, each ended.
abbrev pub fields_text : List Field → Bytes
fields_text [] = []
fields_text (x ∷ xs) = field_line x ++ (crlf ++ fields_text xs)

-- A field with a name, no colon in it, on a line that the reader can take.
pub record IsField (size : ℕ) (x : Field) : Type 0 where
  pub named_field : x.name ≢ []
  pub no_colon : All (λ c. c ≢ b':') x.name
  pub line : IsLine size (field_line x)

abbrev pub then_take : Header → (Framing → Header) → Header
then_take (taken f) k = k f
then_take (refused_line e) k = refused_line e

-- What the fields say of the body, the later ones over the earlier.
abbrev pub take_fields : Framing → List Field → Header
take_fields f [] = taken f
take_fields f (x ∷ xs) = then_take (named f x.name (trim_space x.value)) (λ g. take_fields g xs)

trim_blank : (value : Bytes) → trim_space (b' ' ∷ value) ≡ trim_space value
unfolding trim_space
trim_blank value = trim_drop is_space (b' ' ∷ []) value (refl, tt)

-- A field's line is taken by its name and its value, with the blank before the value trimmed.
pub header_line-field_line :
    (f : Framing) (x : Field)
    → x.name ≢ []
    → All (λ c. c ≢ b':') x.name
    → header_line f (field_line x) ≡ named f x.name (trim_space x.value)
header_line-field_line f x ne h = go x.name ne h
  where
    go :
        (name : Bytes)
        → name ≢ []
        → All (λ c. c ≢ b':') name
        → header_line f (name ++ b':' ∷ b' ' ∷ x.value) ≡ named f name (trim_space x.value)
    go [] ne h = absurd (ne refl)
    go (c ∷ s) ne h =
        unfold header_line in
        rw (index_byte-append (c ∷ s) (b' ' ∷ x.value) b':' h, split_at)
          (rw
            (
              take-append s (b':' ∷ b' ' ∷ x.value),
              drop_line s (b' ' ∷ x.value) b':',
              trim_blank x.value,
            )
            refl)

then_take-eq_taken :
    (m : Header) (k : Framing → Header) {g : Framing}
    → then_take m k ≡ taken g
    → (f : Framing) × (m ≡ taken f) × (k f ≡ taken g)
then_take-eq_taken (taken f) k h = (f, refl, h)
then_take-eq_taken (refused_line e) k h = cc

read_headers_blank :
    (fuel : ℕ) (r : Reader) (f : Framing) {r' : Reader}
    → read_line r ≡ ok [] r'
    → read_headers (suc fuel) r f ≡ ok f r'
unfolding read_headers
read_headers_blank fuel r f h = ground arith

read_headers_line :
    (fuel : ℕ) (r : Reader) (f : Framing) (line : Bytes) {r' : Reader} {g : Framing}
    → read_line r ≡ ok line r'
    → line ≢ []
    → header_line f line ≡ taken g
    → read_headers (suc fuel) r f ≡ read_headers fuel r' g
unfolding read_headers
read_headers_line fuel r f [] h ne t = absurd (ne refl)
read_headers_line fuel r f (c ∷ s) h ne t = ground arith

field_line-ne-nil : (x : Field) → field_line x ≢ []
field_line-ne-nil x h = go x.name h
  where
    go : (name : Bytes) → name ++ b':' ∷ b' ' ∷ x.value ≡ [] → ⊥
    go [] h = cc
    go (c ∷ s) h = cc

fields_apart :
    (x : Field) (xs : List Field) (rest : Bytes)
    → fields_text (x ∷ xs) ++ rest ≡ field_line x ++ (crlf ++ (fields_text xs ++ rest))
fields_apart x xs rest = append_assoc (field_line x) (crlf ++ fields_text xs) rest

-- The header lines of a message, read up to the blank line behind them.
pub read_headers-fields_text :
    (xs : List Field) (fuel : ℕ) (r : Reader) (f : Framing) {g : Framing} (rest : Bytes)
    → All (IsField r.size) xs
    → 2 ≤ r.size
    → take_fields f xs ≡ taken g
    → length xs < fuel
    → read_headers fuel (holding r (fields_text xs ++ (crlf ++ rest))) f ≡ ok g (holding r rest)
read_headers-fields_text xs zero r f rest h two t lt = elim lt [ ]
read_headers-fields_text [] (suc fuel) r f rest h two t lt =
    let blank = read_line-line r [] rest (record { no_newline = tt; fits = two }) in
    read_headers_blank fuel _ f blank ∙ cc
read_headers-fields_text (x ∷ xs) (suc fuel) r f rest (hx, hxs) two t lt =
    let (f', head, tail) = then_take-eq_taken (named f x.name (trim_space x.value)) _ t in
    let behind = fields_text xs ++ (crlf ++ rest) in
    let line = header_line-field_line f x hx.named_field hx.no_colon in
    rw (fields_apart x xs (crlf ++ rest)) (
      read_headers_line fuel _ f (field_line x) (read_line-line r (field_line x) behind hx.line)
        (field_line-ne-nil x) (line ∙ head)
      ∙ read_headers-fields_text xs fuel r f' rest hxs two tail (omega arith))
