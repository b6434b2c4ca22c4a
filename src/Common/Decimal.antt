-- ===== src/Common/Decimal.antt =====
-- `strconv.Itoa`, `strconv.Atoi` and `fmt.Sprintf("%v", n)` on an `int`, over bytes.
use Prim.Native.Nat.{ℕ, zero, suc, ◌+◌, ◌-◌, ◌*◌, ◌/◌, ◌%◌, ◌^◌, ◌≤◌, ◌<◌}
use mathlib.Core.Path.{◌≡◌, refl, ◌∙◌, ap}
use mathlib.Core.Bool.{◌&&◌, true, false}
use mathlib.Core.Option.{Option, none, some}
use mathlib.Core.List.{[], ◌∷◌}
use mathlib.Core.Logic.{inl, inr}
use native.Mathlib.Omega.{arith}
use network_controller_harve.Common.Tests.{
  leb, ltb, ◌==◌, nat_eq, nat_iff, if◌then◌else◌, Bool-cases,
}
use network_controller_harve.Common.Int.{ℤ, pos, negsuc}
use network_controller_harve.Common.Lists.{Bytes, codes, All}

-- One digit a round, the last one first; n + 1 rounds are enough.
digits : ℕ → ℕ → Bytes → Bytes
digits zero n out = out
digits (suc f) n out =
    let more = digits f (n / 10) ((b'0' + n % 10) ∷ out) in
    if n / 10 == 0 then (b'0' + n % 10) ∷ out else more

unfoldable pub itoa_ℕ : ℕ → Bytes
unfolding digits
itoa_ℕ n = digits (suc n) n []

unfoldable pub itoa : ℤ → Bytes
unfolding itoa_ℕ
itoa (pos n) = itoa_ℕ n
itoa (negsuc n) = b'-' ∷ itoa_ℕ (suc n)

scan : Bytes → ℕ → Option ℕ
scan [] n = some n
scan (c ∷ s) n =
    let rest = scan s (n * 10 + (c - b'0')) in if leb b'0' c && leb c b'9' then rest else none

unsigned : Bytes → Option ℕ
unfolding scan
unsigned [] = none
unsigned (c ∷ s) = scan (c ∷ s) 0

-- The range of a 64-bit `int`.
to_int : Option ℕ → Option ℤ
to_int none = none
to_int (some n) = if ltb n (2 ^ 63) then some (pos n) else none

to_negative : Option ℕ → Option ℤ
to_negative none = none
to_negative (some zero) = some (pos 0)
to_negative (some (suc n)) = if ltb n (2 ^ 63) then some (negsuc n) else none

unfoldable pub atoi : Bytes → Option ℤ
unfolding unsigned to_int to_negative
atoi [] = none
atoi (c ∷ s) =
    if c == b'-'
    then to_negative (unsigned s)
    else if c == b'+'
    then to_int (unsigned s)
    else to_int (unsigned (c ∷ s))

scan_digit :
    (d acc : ℕ) (out : Bytes) → d < 10 → scan ((b'0' + d) ∷ out) acc ≡ scan out (acc * 10 + d)
unfolding scan
scan_digit d acc out h =
    let e : b'0' + d - b'0' ≡ d = omega arith in
    let t : (leb b'0' (b'0' + d) && leb (b'0' + d) b'9') ≡ true = ground arith in rw (t, e) refl

scan-digits : (f n : ℕ) (out : Bytes) → n < f → scan (digits f n out) 0 ≡ scan out n
unfolding digits
scan-digits zero n out h = absurd (omega arith)
scan-digits (suc f) n out h = elim (Bool-cases (n / 10 == 0)) [
  | inl last ↦
      let e : 0 * 10 + n % 10 ≡ n = ground (arith, nat_iff (n / 10) 0) in
      rw last (scan_digit (n % 10) 0 out (omega arith) ∙ ap (scan out) e)
  | inr more ↦
      let e : n / 10 * 10 + n % 10 ≡ n = omega arith in
      rw more (
        scan-digits f (n / 10) ((b'0' + n % 10) ∷ out) (ground arith)
        ∙ scan_digit (n % 10) (n / 10) out (omega arith)
        ∙ ap (scan out) e)
]

digits_head :
    (f n : ℕ) (out : Bytes)
    → n < f
    → (d : ℕ) × (r : Bytes) × (digits f n out ≡ d ∷ r) × (b'0' ≤ d) × (d ≤ b'9')
unfolding digits
digits_head zero n out h = absurd (omega arith)
digits_head (suc f) n out h = elim (Bool-cases (n / 10 == 0)) [
  | inl last ↦ (b'0' + n % 10, out, rw last refl, omega arith, omega arith)
  | inr more ↦ rw more (digits_head f (n / 10) ((b'0' + n % 10) ∷ out) (ground arith))
]

unsigned-itoa_ℕ : (n : ℕ) → unsigned (itoa_ℕ n) ≡ some n
unfolding unsigned itoa_ℕ scan
unsigned-itoa_ℕ n =
    let (d, r, e, lo, hi) = digits_head (suc n) n [] (omega arith) in
    let back : scan (digits (suc n) n []) 0 ≡ some n = scan-digits (suc n) n [] (omega arith) in
    rw e (rw e at back)

-- What `Itoa` prints, `Atoi` reads back, over the numbers of an `int`.
pub atoi-itoa_ℕ : (n : ℕ) → n < 2 ^ 63 → atoi (itoa_ℕ n) ≡ some (pos n)
unfolding atoi itoa_ℕ
atoi-itoa_ℕ n h =
    let (d, r, e, lo, hi) = digits_head (suc n) n [] (omega arith) in
    let back : unsigned (d ∷ r) ≡ some n = rw e at (unsigned-itoa_ℕ n) in
    let m : (d == b'-') ≡ false = ground arith in
    let p : (d == b'+') ≡ false = ground arith in
    let lt : ltb n (2 ^ 63) ≡ true = ground arith in rw (e, m, p, back, lt) refl

abbrev pub IsDigit : ℕ → Type 0
IsDigit c = (b'0' ≤ c) × (c ≤ b'9')

digits-All : (f n : ℕ) (out : Bytes) → All IsDigit out → All IsDigit (digits f n out)
unfolding digits
digits-All zero n out h = h
digits-All (suc f) n out h = elim (Bool-cases (n / 10 == 0)) [
  | inl last ↦ rw last ((omega arith, omega arith), h)
  | inr more ↦
      rw more (digits-All f (n / 10) ((b'0' + n % 10) ∷ out) ((omega arith, omega arith), h))
]

-- A number is printed in digits only.
pub itoa_ℕ-All : (n : ℕ) → All IsDigit (itoa_ℕ n)
unfolding itoa_ℕ
itoa_ℕ-All n = digits-All (suc n) n [] tt

itoa_example : itoa (pos 1500) ≡ codes "1500"
unfolding itoa
itoa_example = refl

atoi_examples :
    (atoi (codes "9000") ≡ some (pos 9000))
    × (atoi (codes "-12") ≡ some (negsuc 11))
    × (atoi (codes "1a") ≡ none)
    × (atoi (codes "") ≡ none)
unfolding atoi
atoi_examples = (refl, refl, refl, refl)
