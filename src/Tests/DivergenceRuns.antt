-- ===== src/Tests/DivergenceRuns.antt =====
-- divergence.mts
use socket_scan_patterns.Divergence.Declared.{IsDeclared, is_declared_divergence-IsDeclared}
use socket_scan_patterns.Divergence.{
  reason_text, entry_of, read_divergence_entry, is_declared_divergence,
}
use socket_scan_patterns.Json.{
  Json, boolean, string, object, Fields, no_fields, field, prop, is_json_object,
}
use socket_scan_patterns.Failure.{ok, err, no_reason}
use socket_scan_patterns.Prelude.{true, false, Option, none, some, ◌≡◌, refl}
use socket_scan_patterns.Text.{codes, text_eq}

abbrev modules : Fields → Option Json
modules entry = some (
    object (
      field (codes "skillspector")
        (object (
          field (codes "modules") (object (field (codes "a.py") (object entry) no_fields))
            no_fields))
        no_fields))

abbrev file : Option Json
file = modules (
    field (codes "reason") (string (codes "AST"))
      (field (codes "skipped") (boolean true) no_fields))

declared_run :
    (is_declared_divergence file (codes "skillspector") (codes "a.py") ≡ ok true)
    × (is_declared_divergence file (codes "skillspector") (codes "b.py") ≡ ok false)
    × (is_declared_divergence none (codes "skillspector") (codes "a.py") ≡ ok false)
    × (is_declared_divergence (modules no_fields) (codes "skillspector") (codes "a.py")
        ≡ err (no_reason (codes "skillspector") (codes "a.py")))
unfolding is_declared_divergence read_divergence_entry entry_of prop is_json_object reason_text
    text_eq
declared_run = (refl, refl, refl, refl)

is_declared_divergence-IsDeclared_example : IsDeclared file (codes "skillspector") (codes "a.py")
is_declared_divergence-IsDeclared_example =
    is_declared_divergence-IsDeclared file (codes "skillspector") (codes "a.py") declared_run.0
