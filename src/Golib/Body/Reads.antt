-- ===== src/Golib/Body/Reads.antt =====
-- What a read takes off a stream.
use go_http_benchmark.Prelude.{
  ℕ, ◌+◌, ◌≤◌, ◌<◌, ◌≡◌, refl, sym, ap, ◌∙◌, append_assoc, Bool, List, [], ◌∷◌, ◌++◌, none, some,
  Bytes, length, take, drop, leb, take-append-drop, length-append, length-take, length-drop, arith,
  Bool-cases, inl, inr,
}
use go_http_benchmark.Golib.Body.{
  Stream, Got, ReadError, read, read_part, ends, content, joined_parts,
}

-- The bytes and the parts to come.
abbrev pub size : Stream → ℕ
size s = length (content s) + length s.parts

-- A read hands out the front of what is to come. It is an error only where nothing more comes, and
-- otherwise there is less to come.
pub record Reads (n : ℕ) (s : Stream) (g : Got) : Type 0 where
  pub front : content s ≡ g.bytes ++ content g.rest
  pub room : length g.bytes ≤ n
  pub ending : g.rest.ending ≡ s.ending
  pub less : g.error ≡ none → size g.rest < size s
  pub last : (e : ReadError) → g.error ≡ some e → (e ≡ s.ending) × (content g.rest ≡ [])

ends-eq_some :
    (s : Stream) (ps : List Bytes) (e : ReadError)
    → ends s ps ≡ some e
    → (e ≡ s.ending) × (joined_parts ps ≡ [])
ends-eq_some s [] e h = ground arith
ends-eq_some s (p ∷ ps) e h = cc

read_part-Reads :
    (n : ℕ) (parts : List Bytes) (ending : ReadError) (joined : Bool)
    → 1 ≤ n
    → let s : Stream = record { parts = parts; ending = ending; joined = joined } in
      Reads n s (read_part n s parts)
unfolding read_part
read_part-Reads n [] ending joined h = record {
  front = refl;
  room = omega arith;
  ending = refl;
  less = cc;
  last = λ e q. (cc, refl);
}
read_part-Reads n (p ∷ ps) ending joined h = elim (Bool-cases (leb (length p) n)) [
  | inl e ↦ rw e (record {
    front = refl;
    room = ground arith;
    ending = refl;
    less = λ q. omega (arith, length-append p (joined_parts ps));
    last = ends-eq_some (record { parts = p ∷ ps; ending = ending; joined = joined }) ps;
  })
  | inr e ↦ rw e (record {
    front =
        ap (λ t. t ++ joined_parts ps) (sym (take-append-drop n p))
        ∙ append_assoc (take n p) (drop n p) (joined_parts ps);
    room = omega (arith, length-take n p);
    ending = refl;
    less = λ q. ground (
      arith,
      length-append (drop n p) (joined_parts ps),
      length-append p (joined_parts ps),
      length-drop n p,
    );
    last = λ x q. absurd (cc);
  })
]

pub read-Reads : (n : ℕ) (s : Stream) → 1 ≤ n → Reads n s (read n s)
unfolding read
read-Reads n s h = read_part-Reads n s.parts s.ending s.joined h
