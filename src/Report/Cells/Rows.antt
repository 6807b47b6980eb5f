-- ===== src/Report/Cells/Rows.antt =====
-- A row has one cell for each header of its table.
use go_http_benchmark.Prelude.{
  suc, ◌≡◌, refl, ap, Bool, List, [], ◌∷◌, length, Bool-cases, inl, inr,
}
use go_http_benchmark.Report.Columns.{Column, GoType, columns}
use go_http_benchmark.Report.Cells.{
  Value, Report, table_column, headers_of, headers, fields_of, obj_field_values,
}
use go_http_benchmark.Report.Outside.{Outside}

-- A value of the type that a field is declared with.
abbrev pub HasType : {F : Type 0} → GoType → Value F → Type 0
HasType GoType.text (Value.text s) = Unit
HasType GoType.int (Value.int n) = Unit
HasType GoType.uint (Value.uint n) = Unit
HasType GoType.float (Value.float x) = Unit
HasType GoType.bool (Value.bool b) = Unit
HasType GoType.bytes (Value.bytes b) = Unit
HasType _ _ = ⊥

-- One value for each field, of its type.
abbrev pub AreTyped : {F : Type 0} → List Column → List (Value F) → Type 0
AreTyped [] [] = Unit
AreTyped (c ∷ cs) (v ∷ vs) = HasType c.go_type v × AreTyped cs vs
AreTyped [] (v ∷ vs) = ⊥
AreTyped (c ∷ cs) [] = ⊥

abbrev pub IsReport : {F : Type 0} → Report F → Type 0
IsReport r = AreTyped (columns r.kind) r.values

module _ (o : Outside) where
  length-fields_of :
      (cs : List Column) (vs : List (Value o.Float)) (enable_tpn : Bool)
      → AreTyped cs vs
      → length (fields_of o cs vs enable_tpn) ≡ length (headers_of cs enable_tpn)
  unfolding fields_of headers_of
  length-fields_of [] [] enable_tpn h = refl
  length-fields_of [] (v ∷ vs) enable_tpn h = elim h [ ]
  length-fields_of (c ∷ cs) [] enable_tpn h = elim h [ ]
  length-fields_of (c ∷ cs) (v ∷ vs) enable_tpn (hv, hs) =
      elim (Bool-cases (table_column c enable_tpn)) [
        | inl e ↦ rw e (ap suc (length-fields_of cs vs enable_tpn hs))
        | inr e ↦ rw e (length-fields_of cs vs enable_tpn hs)
      ]

  -- A report's row has as many cells as its table has headers, with the TPN columns and without.
  pub length-obj_field_values :
      (r : Report o.Float) (enable_tpn : Bool)
      → IsReport r
      → length (obj_field_values o r enable_tpn) ≡ length (headers r.kind enable_tpn)
  unfolding obj_field_values headers
  length-obj_field_values r enable_tpn h = length-fields_of (columns r.kind) r.values enable_tpn h
