-- ===== src/Regex/Laws.antt =====
-- The bound on the rounds of a repetition plays no part once it passes what is left of the text.
use socket_scan_patterns.Prelude.{
  ℕ, zero, suc, ◌<◌, Bool, true, false, ◌≡◌, refl, ap, Option, none, arith, length, ltb, ltb→lt,
  if◌then◌else◌,
}
use mathlib.Core.Path.{fun_ext}
use socket_scan_patterns.Regex.{
  Rx, star, lazy, Place, Next, greedy_rounds, lazy_rounds, or_else, match,
}

round_eq :
    (b : Bool) (x y : Option Place)
    → (b ≡ true → x ≡ y)
    → (if b then x else none) ≡ (if b then y else none)
round_eq true x y h = h refl
round_eq false x y h = refl

greedy_rounds-enough :
    (body : Place → Next → Option Place) (n m : ℕ) (p : Place) (k : Next)
    → length p.rest < n
    → length p.rest < m
    → greedy_rounds body n p k ≡ greedy_rounds body m p k
unfolding greedy_rounds
greedy_rounds-enough body zero m p k h h' = absurd (omega arith)
greedy_rounds-enough body (suc n) zero p k h h' = absurd (omega arith)
greedy_rounds-enough body (suc n) (suc m) p k h h' =
    ap (λ (f : Next). or_else (body p f) (k p))
      (fun_ext λ q. round_eq (ltb (length q.rest) (length p.rest)) _ _ (λ shorter.
        let less = ltb→lt _ _ shorter in
        greedy_rounds-enough body n m q k (omega arith) (omega arith)))

lazy_rounds-enough :
    (body : Place → Next → Option Place) (n m : ℕ) (p : Place) (k : Next)
    → length p.rest < n
    → length p.rest < m
    → lazy_rounds body n p k ≡ lazy_rounds body m p k
unfolding lazy_rounds
lazy_rounds-enough body zero m p k h h' = absurd (omega arith)
lazy_rounds-enough body (suc n) zero p k h h' = absurd (omega arith)
lazy_rounds-enough body (suc n) (suc m) p k h h' =
    ap (λ (f : Next). or_else (k p) (body p f))
      (fun_ext λ q. round_eq (ltb (length q.rest) (length p.rest)) _ _ (λ shorter.
        let less = ltb→lt _ _ shorter in
        lazy_rounds-enough body n m q k (omega arith) (omega arith)))

-- A repetition is one round and the repetition again, or nothing: with the bound that `match`
-- chooses, the rounds never run out.
pub match-star :
    (r : Rx) (p : Place) (k : Next)
    → match (star r) p k
      ≡ or_else
          (match r p
            (λ q. if ltb (length q.rest) (length p.rest) then match (star r) q k else none))
          (k p)
unfolding match
match-star r p k =
    ap (λ (f : Next). or_else (match r p f) (k p))
      (fun_ext λ q. round_eq (ltb (length q.rest) (length p.rest)) _ _ (λ shorter.
        let less = ltb→lt _ _ shorter in
        greedy_rounds-enough (match r) (length p.rest) (suc (length q.rest)) q k (omega arith)
          (omega arith)))

-- The same for a repetition that prefers to stop.
pub match-lazy :
    (r : Rx) (p : Place) (k : Next)
    → match (lazy r) p k
      ≡ or_else (k p) (
          match r p (λ q. if ltb (length q.rest) (length p.rest) then match (lazy r) q k else none))
unfolding match
match-lazy r p k =
    ap (λ (f : Next). or_else (k p) (match r p f))
      (fun_ext λ q. round_eq (ltb (length q.rest) (length p.rest)) _ _ (λ shorter.
        let less = ltb→lt _ _ shorter in
        lazy_rounds-enough (match r) (length p.rest) (suc (length q.rest)) q k (omega arith)
          (omega arith)))
