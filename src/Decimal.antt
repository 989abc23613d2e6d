-- ===== src/Decimal.antt =====
-- Decimal texts: `String(n)`, `padStart` with zeros, and `Number(text) || 0` at a text of digits.
use Prim.Native.Char.{code}
use Prim.Native.String.{count}
use attendance_managment.Base.{
  ltb, leb, if◌then◌else◌, ◌==◌, nat_eq, string_eq, Bool-cases, or_else, ℕ, zero, suc, ◌+◌, ◌-◌,
  ◌*◌, ◌/◌, ◌%◌, ◌<◌, String, ◌≡◌, refl, ap, ◌∙◌, inl, inr, Bool, ◌&&◌, Option, none, some, arith,
}

-- `s + t`
unfoldable pub append : String → String → String
append String.[] t = t
append (String.◌∷◌ c s) t = String.◌∷◌ c (append s t)

-- The text of a digit.
abbrev pub digit : ℕ → String
digit zero = "0"
digit (suc zero) = "1"
digit (suc (suc zero)) = "2"
digit (suc (suc (suc zero))) = "3"
digit (suc (suc (suc (suc zero)))) = "4"
digit (suc (suc (suc (suc (suc zero))))) = "5"
digit (suc (suc (suc (suc (suc (suc zero)))))) = "6"
digit (suc (suc (suc (suc (suc (suc (suc zero))))))) = "7"
digit (suc (suc (suc (suc (suc (suc (suc (suc zero)))))))) = "8"
digit _ = "9"

unfoldable pub show_within : ℕ → ℕ → String
show_within zero n = ""
show_within (suc fuel) n =
    let front = show_within fuel (n / 10) in
    if ltb n 10 then digit n else append front (digit (n % 10))

-- `String(n)`; a number has no more digits than its successor.
unfoldable pub show : ℕ → String
unfolding show_within
show n = show_within (suc n) n

abbrev pub zeros : ℕ → String
zeros zero = ""
zeros (suc n) = append "0" (zeros n)

-- `s.padStart(width, '0')`
unfoldable pub pad_start : ℕ → String → String
pad_start width s = append (zeros (width - count s)) s

abbrev pub is_decimal : ℕ → Bool
is_decimal c = leb b'0' c && leb c b'9'

-- The value of a text of digits behind digits of a known value.
unfoldable pub read : ℕ → String → Option ℕ
read value String.[] = some value
read value (String.◌∷◌ c s) =
    if is_decimal (code c) then read (value * 10 + (code c - b'0')) s else none

-- `Number(s) || 0`. Signs, fractions and the other numerals of JavaScript do not occur in the codes
-- that are read here.
unfoldable pub number : String → ℕ
number s = or_else (read 0 s) 0

-- `s.slice(s.lastIndexOf('-') + 1)`
unfoldable pub last_part : String → Option String
last_part String.[] = none
last_part (String.◌∷◌ c s) = elim (last_part s) [
  | some part ↦ some part
  | none ↦ if code c == b'-' then some s else none
]

unfoldable pub suffix : String → String
unfolding last_part
suffix s = or_else (last_part s) s

read-append : (a : ℕ) (s t : String) {b : ℕ} → read a s ≡ some b → read a (append s t) ≡ read b t
unfolding read append
read-append a String.[] t h = ground arith
read-append a (String.◌∷◌ c s) t {b} h =
    ground (arith, read-append (a * 10 + (code c - b'0')) s t {b = b})

read-digit : (a d : ℕ) → d < 10 → read a (digit d) ≡ some (a * 10 + d)
unfolding read
read-digit a zero h = refl
read-digit a (suc zero) h = refl
read-digit a (suc (suc zero)) h = refl
read-digit a (suc (suc (suc zero))) h = refl
read-digit a (suc (suc (suc (suc zero)))) h = refl
read-digit a (suc (suc (suc (suc (suc zero))))) h = refl
read-digit a (suc (suc (suc (suc (suc (suc zero)))))) h = refl
read-digit a (suc (suc (suc (suc (suc (suc (suc zero))))))) h = refl
read-digit a (suc (suc (suc (suc (suc (suc (suc (suc zero)))))))) h = refl
read-digit a (suc (suc (suc (suc (suc (suc (suc (suc (suc zero))))))))) h = refl
read-digit a (suc (suc (suc (suc (suc (suc (suc (suc (suc (suc n)))))))))) h =
    absurd (omega (arith, h))

read-show_within : (fuel n : ℕ) → n < fuel → read 0 (show_within fuel n) ≡ some n
unfolding show_within
read-show_within zero n h = absurd (omega (arith, h))
read-show_within (suc fuel) n h = elim (Bool-cases (ltb n 10)) [
  | inl small ↦ rw small (read-digit 0 n (ground arith) ∙ ap some (omega arith))
  | inr large ↦
      let ih = read-show_within fuel (n / 10) (ground arith) in
      rw large (
        read-append 0 (show_within fuel (n / 10)) (digit (n % 10)) ih
        ∙ read-digit (n / 10) (n % 10) (omega arith)
        ∙ ap some (omega arith))
]

read-zeros : (k : ℕ) (s : String) → read 0 (append (zeros k) s) ≡ read 0 s
unfolding read append
read-zeros zero s = refl
read-zeros (suc k) s = read-zeros k s

-- A number is read back from its padded text.
pub number-pad_start : (width n : ℕ) → number (pad_start width (show n)) ≡ n
unfolding number pad_start show
number-pad_start width n =
    rw (read-zeros (width - count (show n)) (show n), read-show_within (suc n) n (omega arith)) refl

abbrev Dashless : String → Type 0
Dashless s = last_part s ≡ none

Dashless-append : (s t : String) → Dashless s → Dashless t → Dashless (append s t)
unfolding last_part append
Dashless-append String.[] t h k = k
Dashless-append (String.◌∷◌ c s) t h k = ground (arith, Dashless-append s t)

last_part-dash :
    (prefix s : String) → Dashless s → last_part (append prefix (append "-" s)) ≡ some s
unfolding last_part append
last_part-dash String.[] s h = rw h refl
last_part-dash (String.◌∷◌ c prefix) s h = rw (last_part-dash prefix s h) refl

digit-Dashless : (d : ℕ) → Dashless (digit d)
unfolding last_part
digit-Dashless zero = refl
digit-Dashless (suc zero) = refl
digit-Dashless (suc (suc zero)) = refl
digit-Dashless (suc (suc (suc zero))) = refl
digit-Dashless (suc (suc (suc (suc zero)))) = refl
digit-Dashless (suc (suc (suc (suc (suc zero))))) = refl
digit-Dashless (suc (suc (suc (suc (suc (suc zero)))))) = refl
digit-Dashless (suc (suc (suc (suc (suc (suc (suc zero))))))) = refl
digit-Dashless (suc (suc (suc (suc (suc (suc (suc (suc zero)))))))) = refl
digit-Dashless (suc (suc (suc (suc (suc (suc (suc (suc (suc n))))))))) = refl

show_within-Dashless : (fuel n : ℕ) → Dashless (show_within fuel n)
unfolding show_within
show_within-Dashless zero n = unfold last_part in refl
show_within-Dashless (suc fuel) n = elim (Bool-cases (ltb n 10)) [
  | inl small ↦ rw small (digit-Dashless n)
  | inr large ↦ rw large (
      Dashless-append (show_within fuel (n / 10)) (digit (n % 10))
        (show_within-Dashless fuel (n / 10)) (digit-Dashless (n % 10)))
]

zeros-Dashless : (k : ℕ) → Dashless (zeros k)
zeros-Dashless zero = unfold last_part in refl
zeros-Dashless (suc k) = Dashless-append "0" (zeros k) (unfold last_part in refl) (zeros-Dashless k)

-- The number behind the last dash of a code that ends in a padded number is that number.
pub suffix-code :
    (prefix : String) (width n : ℕ)
    → number (suffix (append prefix (append "-" (pad_start width (show n))))) ≡ n
unfolding suffix
suffix-code prefix width n =
    let plain : Dashless (pad_start width (show n)) =
      unfold pad_start show in
      (Dashless-append (zeros (width - count (show n))) (show n)
        (zeros-Dashless (width - count (show n))) (show_within-Dashless (suc n) n)) in
    rw (last_part-dash prefix (pad_start width (show n)) plain) (number-pad_start width n)

pub number-show : (n : ℕ) → number (show n) ≡ n
unfolding number show
number-show n = rw (read-show_within (suc n) n (omega arith)) refl

-- No padding.
pub pad_start-none : (n : ℕ) → pad_start 0 (show n) ≡ show n
unfolding pad_start append
pad_start-none n =
    let unpadded : 0 - count (show n) ≡ 0 = omega arith in rw (pad_start, unpadded) refl
