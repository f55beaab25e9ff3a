-- ===== src/Divergence.antt =====
-- scripts/repo/gen/_shared/divergence.mts: the declared skips, read from a parsed JSON file.
pub mod Declared
use socket_scan_patterns.Failure.{Result, ok, err, json_not_object, no_reason, ◌>>=◌}
use socket_scan_patterns.Json.{Json, boolean, string, object, Fields, prop, is_json_object}
use socket_scan_patterns.Prelude.{
  ℕ, Bool, true, false, List, [], ◌∷◌, Option, none, some, if◌then◌else◌,
}
use socket_scan_patterns.Text.{Text, codes, text_eq}

-- `typeof reason === 'string'` and not empty
unfoldable pub reason_text : Option Json → Option Text
reason_text (some (string (c ∷ cs))) = some (c ∷ cs)
reason_text _ = none

-- `skipped === true`
abbrev pub is_true : Option Json → Bool
is_true (some (boolean b)) = b
is_true _ = false

-- `DivergenceEntry`
pub record DivergenceEntry : Type 0 where
  pub reason : Text
  pub skipped : Bool

-- the member of an object by its key, if it is an object itself
abbrev pub inner : Text → Option Fields → Option Fields
inner key none = none
inner key (some fields) = is_json_object (prop key fields)

-- the check of the entry's reason
unfoldable pub entry_of : Text → Text → Option Fields → Result (Option DivergenceEntry)
entry_of upstream module_name none = ok none
entry_of upstream module_name (some entry) = elim (reason_text (prop (codes "reason") entry)) [
  | none ↦ err (no_reason upstream module_name)
  | some reason ↦
      ok (some (record { reason = reason; skipped = is_true (prop (codes "skipped") entry) }))
]

-- the lookups behind `readJsonObjectFile`
abbrev pub lookup_entry : Text → Text → Fields → Option Fields
lookup_entry upstream module_name root =
    inner module_name (inner (codes "modules") (inner upstream (some root)))

-- `readDivergenceEntry`, on the parsed file, or on `none` if there is none
unfoldable pub read_divergence_entry : Option Json → Text → Text → Result (Option DivergenceEntry)
read_divergence_entry none upstream module_name = ok none
read_divergence_entry (some (object root)) upstream module_name =
    entry_of upstream module_name (lookup_entry upstream module_name root)
read_divergence_entry (some _) upstream module_name =
    err (json_not_object (codes "upstream-divergence.json"))

abbrev pub skipped_of : Option DivergenceEntry → Bool
skipped_of none = false
skipped_of (some entry) = entry.skipped

-- `isDeclaredDivergence`
unfoldable pub is_declared_divergence : Option Json → Text → Text → Result Bool
is_declared_divergence file upstream module_name = do
  entry ← read_divergence_entry file upstream module_name
  ok (skipped_of entry)
