-- ===== src/Redaction/Luhn.antt =====
-- The Luhn test of src/wakey/security/redaction.py against a digit that is wrong.
use wakey.Prelude.{Bool, List, [], arith, false, not, true, ℕ, ◌%◌, ◌++◌, ◌+◌, ◌<◌, ◌∷◌, ◌≡◌, ◌≢◌}
use wakey.Redaction.{luhn_checks, luhn_total, luhn_value}

abbrev parity : Bool → List ℕ → Bool
parity odd [] = odd
parity odd (d ∷ ds) = parity (not odd) ds

luhn_total-append :
    (odd : Bool) (xs ys : List ℕ)
    → luhn_total odd (xs ++ ys) ≡ luhn_total odd xs + luhn_total (parity odd xs) ys
unfolding luhn_total
luhn_total-append odd [] ys = omega arith
luhn_total-append odd (x ∷ xs) ys = omega (arith, luhn_total-append (not odd) xs ys)

luhn_value-apart :
    (odd : Bool) (d e a b : ℕ)
    → d < 10
    → e < 10
    → d ≢ e
    → (a + (luhn_value odd d + b)) % 10 ≡ 0
    → (a + (luhn_value odd e + b)) % 10 ≢ 0
luhn_value-apart true d e a b ld le ne h = λ k. ne (ground arith)
luhn_value-apart false d e a b ld le ne h = λ k. ne (omega arith)

-- Of two numbers that differ in one digit, at any place, at most one passes the Luhn test.
pub luhn_checks_one :
    (xs ys : List ℕ) (d e : ℕ)
    → d < 10
    → e < 10
    → d ≢ e
    → luhn_checks (xs ++ d ∷ ys) ≡ true
    → luhn_checks (xs ++ e ∷ ys) ≡ false
unfolding luhn_checks luhn_total
luhn_checks_one xs ys d e ld le ne h =
    let odd = parity false xs in
    let apart = luhn_value-apart odd d e (luhn_total false xs) (luhn_total (not odd) ys) ld le ne in
    ground (arith, luhn_total-append false xs (d ∷ ys), luhn_total-append false xs (e ∷ ys), apart)
