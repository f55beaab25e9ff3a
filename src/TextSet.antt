-- ===== src/TextSet.antt =====
-- `Set<string>` and `Map<string, V>` of ECMAScript. Both iterate in order of insertion.
pub mod Laws
use socket_scan_patterns.Prelude.{
  Bool, true, false, ◌||◌, List, [], ◌∷◌, ◌++◌, Option, none, some, if◌then◌else◌,
}
use socket_scan_patterns.Text.{Text, text_eq}

-- `xs.includes(t)`, and `set.has(t)`
unfoldable pub has : Text → List Text → Bool
unfolding text_eq
has t [] = false
has t (x ∷ xs) = text_eq x t || has t xs

-- `set.add(t)`
unfoldable pub add : Text → List Text → List Text
unfolding has
add t set = if has t set then set else set ++ t ∷ []

-- `for (const t of ts) set.add(t)`
unfoldable pub add_all : List Text → List Text → List Text
add_all [] set = set
add_all (t ∷ ts) set = add_all ts (add t set)

module _ {ℓ} {V : Type ℓ} where
  -- `map.get(k)`
  unfoldable pub get : Text → List (Text × V) → Option V
  get k [] = none
  get k ((j, v) ∷ m) = let rest = get k m in if text_eq j k then some v else rest

  -- `map.set(k, v)`
  unfoldable pub put : Text → V → List (Text × V) → List (Text × V)
  put k v [] = (k, v) ∷ []
  put k v ((j, w) ∷ m) = let rest = put k v m in if text_eq j k then (j, v) ∷ m else (j, w) ∷ rest
