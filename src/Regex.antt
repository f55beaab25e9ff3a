-- ===== src/Regex.antt =====
-- The regular expressions of the generators, run the way ECMAScript runs them: backtracking, first
-- alternative first, with captures. The patterns of the source are values of `Rx`. None of them has
-- a capture inside a repetition, so captures need no reset between rounds.
pub mod Laws
pub mod Whole
pub mod Forms
pub mod Notation
use socket_scan_patterns.Prelude.{
  ℕ, zero, suc, ◌+◌, ◌-◌, Bool, true, false, ◌&&◌, ◌||◌, List, [], ◌∷◌, ◌++◌, Option, none, some,
  ◌==◌, ltb, if◌then◌else◌, length, take,
}
use socket_scan_patterns.Text.{Text}

pub data Rx : Type 0 where
  -- nothing
  empty : Rx
  -- one code unit that passes the test
  unit : (ℕ → Bool) → Rx
  -- one after the other; one or the other
  seq alt : Rx → Rx → Rx
  -- `*`, and `*?`
  star lazy : Rx → Rx
  -- `(…)` with its number
  capture : ℕ → Rx → Rx
  -- `^` and `$` without the flag `m`
  text_start text_end : Rx
  -- `^` and `$` with the flag `m`
  line_start line_end : Rx
  -- `(?=…)`
  ahead : Rx → Rx

-- A place in the text: what stands before it, last code unit first; what follows; and the captures
-- made so far, latest first.
pub record Place : Type 0 where
  pub before : Text
  pub rest : Text
  pub captures : List (ℕ × Text)

-- what is still to be matched behind a part of the pattern
abbrev pub Next : Type 0
Next = Place → Option Place

abbrev is_line_end : ℕ → Bool
is_line_end c = c == 10 || c == 13 || c == 0x2028 || c == 0x2029

abbrev ends_line : Text → Bool
ends_line [] = true
ends_line (c ∷ cs) = is_line_end c

abbrev pub is_empty : Text → Bool
is_empty [] = true
is_empty (c ∷ cs) = false

abbrev match_unit : (ℕ → Bool) → Text → Place → Next → Option Place
match_unit test [] p k = none
match_unit test (c ∷ cs) p k =
    if test c then k (record p { before = c ∷ p.before; rest = cs }) else none

abbrev pub or_else : Option Place → Option Place → Option Place
or_else none r = r
or_else (some p) r = some p

-- Rounds of a greedy repetition, each of which must consume something. The number bounds the
-- rounds: more than the code units that are left is enough.
unfoldable pub greedy_rounds : (Place → Next → Option Place) → ℕ → Place → Next → Option Place
greedy_rounds body zero p k = k p
greedy_rounds body (suc n) p k =
    or_else
      (body p (λ q. if ltb (length q.rest) (length p.rest) then greedy_rounds body n q k else none))
      (k p)

unfoldable pub lazy_rounds : (Place → Next → Option Place) → ℕ → Place → Next → Option Place
lazy_rounds body zero p k = k p
lazy_rounds body (suc n) p k =
    or_else (k p)
      (body p (λ q. if ltb (length q.rest) (length p.rest) then lazy_rounds body n q k else none))

-- from a match of the look-ahead: its captures stay, its end does not
abbrev look : Place → Option Place → Next → Option Place
look p none k = none
look p (some q) k = k (record p { captures = q.captures })

unfoldable pub match : Rx → Place → Next → Option Place
unfolding greedy_rounds lazy_rounds
match empty p k = k p
match (unit test) p k = match_unit test p.rest p k
match (seq r s) p k = match r p (λ q. match s q k)
match (alt r s) p k = let second = match s p k in or_else (match r p k) second
match (star r) p k = greedy_rounds (match r) (suc (length p.rest)) p k
match (lazy r) p k = lazy_rounds (match r) (suc (length p.rest)) p k
match (capture n r) p k =
    match r p
      λ q. k (record q { captures = (n, take (length p.rest - length q.rest) p.rest) ∷ q.captures })
match text_start p k = if is_empty p.before then k p else none
match text_end p k = if is_empty p.rest then k p else none
match line_start p k = if ends_line p.before then k p else none
match line_end p k = if ends_line p.rest then k p else none
match (ahead r) p k = look p (match r p some) k

-- A match: where it starts and where it ends, with the captures.
pub record Match : Type 0 where
  pub start : Place
  pub end : Place

abbrev found : Place → Option Place → Option Match → Option Match
found p none later = later
found p (some q) later = some (record { start = p; end = q })

-- the leftmost match at or after a place
unfoldable pub search_from : Rx → Text → Text → Option Match
unfolding match
search_from r before [] =
    let p : Place = record { before = before; rest = []; captures = [] } in
    found p (match r p some) none
search_from r before (c ∷ cs) =
    let p : Place = record { before = before; rest = c ∷ cs; captures = [] } in
    let later = search_from r (c ∷ before) cs in found p (match r p some) later

-- `pattern.exec(text)`
unfoldable pub exec : Rx → Text → Option Match
unfolding search_from
exec r text = search_from r [] text

-- `pattern.test(text)`
unfoldable pub test : Rx → Text → Bool
unfolding exec
test r text = elim (exec r text) [ none ↦ false | some m ↦ true ]

-- The matches of a pattern with the flag `g`, one behind the other. No such pattern of the source
-- matches the empty text, so the code units bound their number.
unfoldable pub matches_from : ℕ → Rx → Text → Text → List Match
unfolding search_from
matches_from zero r before text = []
matches_from (suc n) r before text = elim (search_from r before text) [
  | none ↦ []
  | some m ↦ m ∷ matches_from n r m.end.before m.end.rest
]

-- `text.matchAll(pattern)`, and the loops that call `exec` until it returns null
unfoldable pub all_matches : Rx → Text → List Match
unfolding matches_from
all_matches r text = matches_from (suc (length text)) r [] text

abbrev capture_of : ℕ → List (ℕ × Text) → Option Text
capture_of n [] = none
capture_of n ((m, t) ∷ cs) = let rest = capture_of n cs in if m == n then some t else rest

-- `matched[n]` of a group; `none` for one that took no part
abbrev pub group_of : ℕ → Match → Option Text
group_of n m = capture_of n m.end.captures

abbrev pub text_of : Option Text → Text
text_of none = []
text_of (some t) = t

-- `matched[n]!`
abbrev pub group_text : ℕ → Match → Text
group_text n m = text_of (group_of n m)

-- `pattern.exec(text)?.[n]`
unfoldable pub exec_group : ℕ → Rx → Text → Option Text
unfolding exec
exec_group n r text = elim (exec r text) [ none ↦ none | some m ↦ group_of n m ]
