-- ===== src/Report/Summary/Order.antt =====
-- The order of the summary's parameters.
use go_http_benchmark.Prelude.{
  ◌≡◌, refl, ◌∙◌, ap, true, false, not, ◌&&◌, List, [], ◌∷◌, ◌++◌, Bytes, equal, equal_iff,
  equal_refl, map, Bool-cases, inl, inr, arith,
}
use go_http_benchmark.Golib.Sort.{select}
use go_http_benchmark.Report.Summary.{
  SummaryParameter, summary_parameters, has, delete, listed, unlisted, summary_order, in_front,
}

abbrev pub parameter_names : List SummaryParameter → List Bytes
parameter_names ps = map (λ p. p.name) ps

-- No two of the parameters have one name.
abbrev AreDistinct : List Bytes → Type 0
AreDistinct [] = Unit
AreDistinct (n ∷ ns) = (has n ns ≡ false) × AreDistinct ns

has-delete : (q n : Bytes) (ns : List Bytes) → has q (delete n ns) ≡ has q ns && not (equal n q)
has-delete q n [] = refl
has-delete q n (m ∷ ms) =
    grind (arith, has-delete q n ms, equal_iff m n, equal_iff m q, equal_iff n q)

-- Names other than `p` are found where they were before `p` was deleted.
select-delete :
    (p : Bytes) (ns found : List Bytes)
    → has p ns ≡ false
    → select (λ q. has q (delete p found)) ns ≡ select (λ q. has q found) ns
select-delete p [] found h = refl
select-delete p (n ∷ ns) found h =
    grind (arith, select-delete p ns found, has-delete n p found, equal_iff n p, equal_iff p n)

listed-true :
    (p : SummaryParameter) (ps : List SummaryParameter) (found : List Bytes)
    → has p.name found ≡ true
    → listed (p ∷ ps) found ≡ in_front p.name (listed ps (delete p.name found))
unfolding listed
listed-true p ps found h = rw (h, listed) refl

listed-false :
    (p : SummaryParameter) (ps : List SummaryParameter) (found : List Bytes)
    → has p.name found ≡ false
    → listed (p ∷ ps) found ≡ listed ps found
unfolding listed
listed-false p ps found h = rw (h, listed) refl

listed-ordered :
    (ps : List SummaryParameter) (found : List Bytes)
    → AreDistinct (parameter_names ps)
    → (listed ps found).ordered ≡ select (λ q. has q found) (parameter_names ps)
listed-ordered [] found h = unfold listed in refl
listed-ordered (p ∷ ps) found (h, hs) = elim (Bool-cases (has p.name found)) [
  | inl e ↦
      rw (listed-true p ps found e, e)
        (ap (λ ns. p.name ∷ ns)
          (listed-ordered ps (delete p.name found) hs
            ∙ select-delete p.name (parameter_names ps) found h))
  | inr e ↦ rw (listed-false p ps found e, e) (listed-ordered ps found hs)
]

listed-found :
    (ps : List SummaryParameter) (found : List Bytes) (q : Bytes)
    → has q (listed ps found).found ≡ has q found && not (has q (parameter_names ps))
listed-found [] found q = unfold listed in ground arith
listed-found (p ∷ ps) found q = elim (Bool-cases (has p.name found)) [
  | inl e ↦
      rw (listed-true p ps found e)
        (grind (arith, listed-found ps (delete p.name found) q, has-delete q p.name found))
  | inr e ↦
      rw (listed-false p ps found e) (grind (arith, listed-found ps found q, equal_iff p.name q))
]

unlisted-select :
    (names found : List Bytes) → unlisted names found ≡ select (λ n. has n found) names
unfolding unlisted
unlisted-select [] found = refl
unlisted-select (n ∷ ns) found = ground (arith, unlisted-select ns found)

-- Of names that are all found, those are left that no parameter has.
select_left :
    (names found left ps : List Bytes)
    → ((q : Bytes) → has q left ≡ has q found && not (has q ps))
    → ((q : Bytes) → has q names ≡ true → has q found ≡ true)
    → select (λ n. has n left) names ≡ select (λ n. not (has n ps)) names
select_left [] found left ps h k = refl
select_left (n ∷ ns) found left ps h k = grind (
  arith,
  select_left ns found left ps h (λ q e. k q (grind (arith, e, equal_iff n q))),
  h n,
  k n (grind (arith, equal_refl n)),
)

-- The summary lists the parameters that were found in the order of `SummaryParameters`, each once,
-- and after them the names that it does not have, in the order they were found.
pub summary_order_lem :
    (names : List Bytes)
    → summary_order names
      ≡ select (λ q. has q names) (parameter_names summary_parameters)
        ++ select (λ n. not (has n (parameter_names summary_parameters))) names
unfolding summary_order
summary_order_lem names =
    let l = listed summary_parameters names in
    rw
      (
        listed-ordered summary_parameters names distinct,
        unlisted-select names l.found,
        select_left names names l.found (parameter_names summary_parameters)
            (listed-found summary_parameters names) (λ q e. e),
      )
      refl
  where
    distinct : AreDistinct (parameter_names summary_parameters)
    distinct = (
      refl,
      (refl, (refl, (refl, (refl, (refl, (refl, (refl, (refl, (refl, (refl, (refl, tt))))))))))),
    )
