-- ===== src/Report/Ranking/Order.antt =====
-- The ranking is an order, and the sorted reports are in it.
use go_http_benchmark.Prelude.{
  ℕ, zero, suc, ◌<◌, ◌≡◌, refl, ◌∙◌, ap, Bool, true, false, List, [], ◌∷◌, Option, none, some,
  length, arith, inl, inr, ◌⊎◌, ◌↔◌, All,
}
use mathlib.Core.List.{Perm}
use go_http_benchmark.Golib.Sort.{ties, select}
use go_http_benchmark.Golib.Sort.Stable.{
  IsInOrder, IsWeakOrder, slice_stable_perm, slice_stable-IsInOrder, slice_stable-select,
}
use go_http_benchmark.Report.Cells.{Report, Value}
use go_http_benchmark.Report.Cells.Rows.{IsReport, AreTyped, HasType}
use go_http_benchmark.Report.Columns.{
  Kind, Column, GoType, columns, connections, bench_echo, bench_rate,
}
use go_http_benchmark.Report.Outside.{Outside, IsOrdered}
use go_http_benchmark.Report.Ranking.{
  RankField, rank_fields, field_at, key_of, keys_of, rank_keys, ranked_before, is_skipped, less,
  sort_reports, sort_result,
}

-- The type of a number that `RankKeys` takes a key from.
abbrev is_number : GoType → Bool
is_number GoType.int = true
is_number GoType.uint = true
is_number GoType.float = true
is_number GoType.text = false
is_number GoType.bool = false
is_number GoType.bytes = false

abbrev number_at : Option Column → Bool
number_at none = false
number_at (some c) = is_number c.go_type

-- The fields that a report is ranked by are numbers.
rank_fields_numbers :
    (kind : Kind) → All (λ f. number_at (field_at f.index (columns kind)) ≡ true) (rank_fields kind)
unfolding rank_fields
rank_fields_numbers connections = (refl, tt)
rank_fields_numbers bench_echo = (refl, (refl, (refl, tt)))
rank_fields_numbers bench_rate = (refl, (refl, (refl, tt)))

module _ (o : Outside) (w : IsOrdered o) where
  -- Bigger at the first key on which the two differ, read by the keys' places.
  abbrev pub Above : List o.Float → List o.Float → Type 0
  Above [] bs = ⊥
  Above (a ∷ as') [] = ⊥
  Above (a ∷ as') (b ∷ bs) = (w.place b < w.place a) ⊎ ((w.place a ≡ w.place b) × Above as' bs)

  ranked_before_iff : (as' bs : List o.Float) → (ranked_before o as' bs ≡ true) ↔ Above as' bs
  unfolding ranked_before
  ranked_before_iff [] bs = (λ h. cc, λ h. elim h [ ])
  ranked_before_iff (a ∷ as') [] = (λ h. cc, λ h. elim h [ ])
  ranked_before_iff (a ∷ as') (b ∷ bs) =
      grind (arith, w.above_is a b, w.differ_is a b, ranked_before_iff as' bs)

  ranked_asym :
      (as' bs : List o.Float) → ranked_before o as' bs ≡ true → ranked_before o bs as' ≡ false
  unfolding ranked_before
  ranked_asym [] bs h = cc
  ranked_asym (a ∷ as') [] h = cc
  ranked_asym (a ∷ as') (b ∷ bs) h =
      ground (
        arith,
        w.above_is a b,
        w.above_is b a,
        w.differ_is a b,
        w.differ_is b a,
        ranked_asym as' bs,
      )

  ranked_trans :
      (as' bs cs : List o.Float)
      → length as' ≡ length bs
      → length bs ≡ length cs
      → ranked_before o bs as' ≡ false
      → ranked_before o cs bs ≡ false
      → ranked_before o cs as' ≡ false
  unfolding ranked_before
  ranked_trans as' bs [] e f h k = refl
  ranked_trans [] bs (c ∷ cs) e f h k = refl
  ranked_trans (a ∷ as') [] (c ∷ cs) e f h k = absurd (omega arith)
  ranked_trans (a ∷ as') (b ∷ bs) (c ∷ cs) e f h k = ground (
    arith,
    w.above_is b a,
    w.above_is c b,
    w.above_is c a,
    w.differ_is b a,
    w.differ_is c b,
    w.differ_is c a,
    ranked_trans as' bs cs,
  )

  length-key_of :
      (cs : List Column) (vs : List (Value o.Float)) (ks : List o.Float) (i : ℕ)
      → AreTyped cs vs
      → number_at (field_at i cs) ≡ true
      → length (key_of o (field_at i vs) ks) ≡ suc (length ks)
  length-key_of [] vs ks i h n = absurd cc
  length-key_of (c ∷ cs) [] ks i h n = elim h [ ]
  length-key_of (c ∷ cs) (v ∷ vs) ks (suc i) (hv, hs) n = length-key_of cs vs ks i hs n
  length-key_of (c ∷ cs) (v ∷ vs) ks zero (hv, hs) n = typed c.go_type v hv n
    where
      typed :
          (t : GoType) (v : Value o.Float)
          → HasType t v
          → is_number t ≡ true
          → length (key_of o (some v) ks) ≡ suc (length ks)
      typed GoType.int (Value.int x) h n = refl
      typed GoType.uint (Value.uint x) h n = refl
      typed GoType.float (Value.float x) h n = refl
      typed _ _ h n = ground arith

  length-keys_of :
      (fs : List RankField) (cs : List Column) (vs : List (Value o.Float))
      → AreTyped cs vs
      → All (λ f. number_at (field_at f.index cs) ≡ true) fs
      → length (keys_of o fs vs) ≡ length fs
  unfolding keys_of
  length-keys_of [] cs vs h a = refl
  length-keys_of (f ∷ fs) cs vs h (n, a) =
      length-key_of cs vs (keys_of o fs vs) f.index h n ∙ ap suc (length-keys_of fs cs vs h a)

  -- A report of a kind, every field of its type.
  abbrev pub IsOf : Kind → Report o.Float → Type 0
  IsOf kind r = (r.kind ≡ kind) × IsReport r

  length-rank_keys :
      (kind : Kind) (r : Report o.Float)
      → IsOf kind r
      → length (rank_keys o r) ≡ length (rank_fields kind)
  unfolding rank_keys
  length-rank_keys kind r (e, h) =
      length-keys_of (rank_fields r.kind) (columns r.kind) r.values h (rank_fields_numbers r.kind)
      ∙ ap (λ k. length (rank_fields k)) e

  less-IsWeakOrder : (kind : Kind) → IsWeakOrder (less o) (IsOf kind)
  unfolding less
  less-IsWeakOrder kind = record {
    asym = λ a b pa pb h. ground (arith, ranked_asym (rank_keys o a) (rank_keys o b));
    trans = λ a b c pa pb pc h k. ground (
      arith,
      length-rank_keys kind a pa,
      length-rank_keys kind b pb,
      length-rank_keys kind c pc,
      ranked_trans (rank_keys o a) (rank_keys o b) (rank_keys o c),
    );
  }

  -- A report that was measured in front of one that was not, or one with the bigger keys in front
  -- of one like it.
  abbrev pub Ahead : Report o.Float → Report o.Float → Type 0
  Ahead a b =
      ((is_skipped o a ≡ false) × (is_skipped o b ≡ true))
      ⊎ ((is_skipped o a ≡ is_skipped o b) × Above (rank_keys o a) (rank_keys o b))

  -- No report is ahead of one in front of it.
  abbrev pub IsRanked : List (Report o.Float) → Type 0
  IsRanked [] = Unit
  IsRanked (r ∷ rs) = All (λ q. ¬ Ahead q r) rs × IsRanked rs

  Ahead-less : (a b : Report o.Float) → less o a b ≡ false → ¬ Ahead a b
  unfolding less
  Ahead-less a b h (inl (ha, hb)) = ground arith
  Ahead-less a b h (inr (e, k)) =
      ground (arith, (ranked_before_iff (rank_keys o a) (rank_keys o b)).1 k)

  none-Ahead :
      (r : Report o.Float) (rs : List (Report o.Float))
      → All (λ q. less o q r ≡ false) rs
      → All (λ q. ¬ Ahead q r) rs
  none-Ahead r [] h = tt
  none-Ahead r (q ∷ rs) (h, hs) = (Ahead-less q r h, none-Ahead r rs hs)

  IsInOrder-IsRanked : (rs : List (Report o.Float)) → IsInOrder (less o) rs → IsRanked rs
  IsInOrder-IsRanked [] h = tt
  IsInOrder-IsRanked (r ∷ rs) (h, hs) = (none-Ahead r rs h, IsInOrder-IsRanked rs hs)

  -- Reports of one kind, sorted by "result", are a permutation of what they were, in which none is
  -- ahead of one in front of it: the skipped ones stand behind the measured ones, and these in the
  -- order of their keys, the biggest first. The reports that tie with one keep the order they had.
  pub sort_reports_result :
      (kind : Kind) (rs : List (Report o.Float))
      → All (IsOf kind) rs
      → Perm (sort_reports o rs sort_result) rs
        × IsRanked (sort_reports o rs sort_result)
        × ((r : Report o.Float)
            → IsOf kind r
            → select (ties (less o) r) (sort_reports o rs sort_result)
              ≡ select (ties (less o) r) rs)
  unfolding sort_reports
  sort_reports_result kind rs h = (
    slice_stable_perm (less o) rs,
    IsInOrder-IsRanked _ (slice_stable-IsInOrder (less o) (IsOf kind) (less-IsWeakOrder kind) rs h),
    λ r hr. slice_stable-select (less o) (IsOf kind) (less-IsWeakOrder kind) r rs hr h,
  )
