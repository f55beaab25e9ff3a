-- ===== src/Emit/Unique.antt =====
-- What `assertRuleIdsUnique` accepts, and what it reports.
use mathlib.Core.List.{Mem, Nodup, Nodup-append, Nodup-nil, mem-cons_self, mem-cons}
use mathlib.Core.Logic.Or
use socket_scan_patterns.Prelude.{
  ℕ, ◌+◌, ◌-◌, ◌≤◌, true, false, List, [], ◌∷◌, ◌++◌, ◌≡◌, inl, inr, ◌↔◌, refl, sym, arith,
  Bool-cases, length, take, map, length-append, append_assoc, append-nil, ◌∙◌, if◌then◌else◌, All,
  zero, suc, ap, length-map,
}
use socket_scan_patterns.Emit.{collect_duplicates, report_duplicates, assert_rule_ids_unique}
use socket_scan_patterns.Failure.{ok, err, duplicate_ids}
use socket_scan_patterns.Schema.{PatternRule}
use socket_scan_patterns.Text.{Text}
use socket_scan_patterns.TextSet.{has, add, add_all}
use socket_scan_patterns.TextSet.Laws.{has_iff, Nodup-add_all}

abbrev pub ids : List PatternRule → List Text
ids rules = map (λ r. r.id) rules

-- the duplicates, with no accumulator
spare : List Text → List Text → List Text
spare [] seen = []
spare (t ∷ ts) seen = let rest = spare ts (add t seen) in if has t seen then t ∷ rest else rest

collect_duplicates-spare :
    (rules : List PatternRule) (seen duplicates : List Text)
    → collect_duplicates rules seen duplicates ≡ duplicates ++ spare (ids rules) seen
unfolding collect_duplicates spare
collect_duplicates-spare [] seen duplicates = sym (append-nil duplicates)
collect_duplicates-spare (rule ∷ rules) seen duplicates = elim (Bool-cases (has rule.id seen)) [
  | inl old ↦ rw old (
      collect_duplicates-spare rules (add rule.id seen) (duplicates ++ rule.id ∷ [])
      ∙ append_assoc duplicates (rule.id ∷ []) _)
  | inr new ↦ rw new (collect_duplicates-spare rules (add rule.id seen) duplicates)
]

length-add :
    (t : Text) (seen : List Text) → has t seen ≡ false → length (add t seen) ≡ length seen + 1
unfolding add
length-add t seen new = rw new (omega (arith, length-append seen (t ∷ [])))

add_old : (t : Text) (seen : List Text) → has t seen ≡ true → add t seen ≡ seen
unfolding add
add_old t seen old = rw old

-- the ids that are not new, and the set of the others, make up the list
length-spare :
    (ts seen : List Text)
    → length (spare ts seen) + length (add_all ts seen) ≡ length ts + length seen
unfolding spare add_all
length-spare [] seen = omega arith
length-spare (t ∷ ts) seen = elim (Bool-cases (has t seen)) [
  | inl old ↦ rw old (rw (add_old t seen old) (omega (arith, length-spare ts seen)))
  | inr new ↦ rw new (omega (arith, length-spare ts (add t seen), length-add t seen new))
]

add_new : (t : Text) (seen : List Text) → has t seen ≡ false → add t seen ≡ seen ++ t ∷ []
unfolding add
add_new t seen new = rw new

spare-nil→add_all : (ts seen : List Text) → spare ts seen ≡ [] → add_all ts seen ≡ seen ++ ts
unfolding spare add_all
spare-nil→add_all [] seen e = sym (append-nil seen)
spare-nil→add_all (t ∷ ts) seen e = elim (Bool-cases (has t seen)) [
  | inl old ↦ cc (old, e)
  | inr new ↦
      spare-nil→add_all ts (add t seen) (rw new at e)
      ∙ rw (add_new t seen new) (append_assoc seen (t ∷ []) ts)
]

Nodup→spare : (ts seen : List Text) → Nodup (seen ++ ts) → spare ts seen ≡ []
unfolding spare
Nodup→spare [] seen n = refl
Nodup→spare (t ∷ ts) seen n = elim (Bool-cases (has t seen)) [
  | inl old ↦ absurd ((Nodup-append.0 n).2 t ((has_iff t seen).0 old) mem-cons_self)
  | inr new ↦ rw new (Nodup→spare ts (add t seen) (rw (add_new t seen new) (rw append_assoc n)))
]

report-ok_iff :
    (generator : Text) (ds : List Text) → (report_duplicates generator ds ≡ ok tt) ↔ (ds ≡ [])
unfolding report_duplicates
report-ok_iff generator [] = (λ h. refl, λ h. refl)
report-ok_iff generator (d ∷ ds) = (λ h. cc, λ h. cc)

collected : (rules : List PatternRule) → collect_duplicates rules [] [] ≡ spare (ids rules) []
collected rules = collect_duplicates-spare rules [] []

-- The uniqueness assertion passes exactly when no two rows of the table have one id.
pub assert_rule_ids_unique-ok_iff :
    (rules : List PatternRule) (generator : Text)
    → (assert_rule_ids_unique rules generator ≡ ok tt) ↔ Nodup (ids rules)
unfolding assert_rule_ids_unique
assert_rule_ids_unique-ok_iff rules generator = (
  λ h.
      let none_left =
        spare-nil→add_all (ids rules) []
          (rw collected at ((report-ok_iff generator (collect_duplicates rules [] [])).0 h)) in
      rw none_left at (Nodup-add_all (ids rules) [] Nodup-nil),
  λ n.
      (report-ok_iff generator (collect_duplicates rules [] [])).1
        (rw collected (Nodup→spare (ids rules) [] n)),
)

-- what a report shows of the duplicates
reported :
    (generator site : Text) (ds listed : List Text) (more : ℕ)
    → report_duplicates generator ds ≡ err (duplicate_ids site listed more)
    → (listed ≡ take 5 ds) × (more ≡ length ds - 5)
unfolding report_duplicates
reported generator site [] listed more h = cc
reported generator site (d ∷ ds) listed more h = ground arith

length-take :
    (n : ℕ) (ts : List Text)
    → (length (take n ts) ≤ n) × (length (take n ts) + (length ts - n) ≡ length ts)
length-take zero ts = omega arith
length-take (suc n) [] = omega arith
length-take (suc n) (t ∷ ts) = omega (arith, length-take n ts)

All-take : (P : Text → Type 0) (n : ℕ) (ts : List Text) → All P ts → All P (take n ts)
All-take P zero ts h = tt
All-take P (suc n) [] h = tt
All-take P (suc n) (t ∷ ts) (p, h) = (p, All-take P n ts h)

All-later : (t : Text) (ts ds : List Text) → All (λ d. Mem d ts) ds → All (λ d. Mem d (t ∷ ts)) ds
All-later t ts [] h = tt
All-later t ts (d ∷ ds) (m, h) = (mem-cons.1 (Or.inr m), All-later t ts ds h)

spare-Mem : (ts seen : List Text) → All (λ d. Mem d ts) (spare ts seen)
unfolding spare
spare-Mem [] seen = tt
spare-Mem (t ∷ ts) seen = elim (Bool-cases (has t seen)) [
  | inl old ↦
      rw old (mem-cons_self, All-later t ts (spare ts (add t seen)) (spare-Mem ts (add t seen)))
  | inr new ↦ rw new (All-later t ts (spare ts (add t seen)) (spare-Mem ts (add t seen)))
]

-- The ids that a uniqueness failure lists are in the table, at most five are listed, and with
-- those that it counts they are as many as there are rows beyond the distinct ids.
pub assert_rule_ids_unique-err :
    (rules : List PatternRule) (generator site : Text) (listed : List Text) (more : ℕ)
    → assert_rule_ids_unique rules generator ≡ err (duplicate_ids site listed more)
    → (length listed ≤ 5)
      × (length listed + more + length (add_all (ids rules) []) ≡ length rules)
      × All (λ t. Mem t (ids rules)) listed
unfolding assert_rule_ids_unique
assert_rule_ids_unique-err rules generator site listed more h =
    let ts = ids rules in
    let (shown, counted) = reported generator site (spare ts []) listed more (rw collected at h) in
    let sizes = length-take 5 (spare ts []) in
    let shown_length = ap {B = ℕ} length shown in
    (
      omega (arith, sizes, shown_length),
      omega (
        arith,
        sizes,
        shown_length,
        counted,
        length-spare ts [],
        length-map (λ (r : PatternRule). r.id) rules,
      ),
      rw shown (All-take _ 5 (spare ts []) (spare-Mem ts [])),
    )
