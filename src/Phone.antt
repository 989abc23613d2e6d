-- ===== src/Phone.antt =====
-- backend/src/common/phone.ts: the key by which mobile numbers are compared, and the masked form that
-- is shown. Texts are lists of characters.
use Prim.Native.Char.{Char, code}
use attendance_managment.Base.{
  ltb, leb, if◌then◌else◌, ◌==◌, nat_eq, string_eq, Bool-cases, length, filter, all, drop,
  length-append, ℕ, zero, suc, ◌+◌, ◌-◌, ◌≤◌, String, ◌≡◌, refl, sym, ap, ◌∙◌, inl, inr, Bool, ◌&&◌,
  List, ◌++◌, arith,
}

-- `\d`
abbrev pub is_digit : Char → Bool
is_digit c = leb b'0' (code c) && leb (code c) b'9'

abbrev pub chars : String → List Char
chars String.[] = List.[]
chars (String.◌∷◌ c s) = List.◌∷◌ c (chars s)

abbrev pub text : List Char → String
text List.[] = ""
text (List.◌∷◌ c cs) = String.◌∷◌ c (text cs)

-- `.replace(/\D/g, '')`
unfoldable pub digits : List Char → List Char
digits cs = filter is_digit cs

-- `digits.length > 10 ? digits.slice(-10) : digits`
unfoldable pub last_ten : List Char → List Char
last_ten cs = if ltb 10 (length cs) then drop (length cs - 10) cs else cs

unfoldable pub normalize : List Char → List Char
unfolding digits last_ten
normalize phone = last_ten (digits phone)

unfoldable pub normalize_phone : String → String
unfolding normalize
normalize_phone phone = text (normalize (chars phone))

-- `/^\d{10}$/`
unfoldable pub is_phone_key : String → Bool
is_phone_key value = length (chars value) == 10 && all is_digit (chars value)

-- `'•'.repeat(n)`
abbrev pub dots : ℕ → List Char
dots zero = List.[]
dots (suc n) = List.◌∷◌ "•" (dots n)

-- `maskPhone`
unfoldable pub mask_phone : String → String
unfolding digits
mask_phone phone =
    let ds = digits (chars phone) in
    if ltb (length ds) 4
    then text (dots (length ds))
    else text (dots 5 ++ List.◌∷◌ " " (drop (length ds - 5) ds))

drop-append {ℓ} :
    {A : Type ℓ} (xs ys : List A) (n m : ℕ) → m ≡ length xs + n → drop m (xs ++ ys) ≡ drop n ys
drop-append List.[] ys n m e = ap (λ k. drop k ys) (omega (arith, e))
drop-append (List.◌∷◌ x xs) ys n zero e = absurd (omega (arith, e))
drop-append (List.◌∷◌ x xs) ys n (suc m) e = drop-append xs ys n m (omega (arith, e))

filter-append {ℓ} :
    {A : Type ℓ} (p : A → Bool) (xs ys : List A) → filter p (xs ++ ys) ≡ filter p xs ++ filter p ys
filter-append p List.[] ys = refl
filter-append p (List.◌∷◌ x xs) ys = ground (arith, filter-append p xs ys)

last_ten-append :
    (xs ys : List Char) → 10 ≤ length ys → last_ten (xs ++ ys) ≡ drop (length ys - 10) ys
unfolding last_ten
last_ten-append xs ys long = elim (Bool-cases (ltb 10 (length (xs ++ ys)))) [
  | inl more ↦ rw more (
      drop-append xs ys (length ys - 10) (length (xs ++ ys) - 10)
        (omega (arith, length-append {0} xs ys)))
  | inr exact ↦
      let total = length-append {0} xs ys in
      let le : length (xs ++ ys) ≤ 10 = ground arith in
      let nothing : length xs ≡ 0 = omega arith in
      let ten : length ys - 10 ≡ 0 = omega arith in
      rw (exact, ten) (length-zero_append xs ys nothing)
]
  where
    length-zero_append : (us vs : List Char) → length us ≡ 0 → us ++ vs ≡ vs
    length-zero_append List.[] vs h = refl
    length-zero_append (List.◌∷◌ u us) vs h = absurd (omega (arith, h))

-- A number of ten digits or more has the same key whatever is written before it, such as a country
-- code, and whatever is written between the digits.
pub normalize_prefix :
    (before phone written : List Char)
    → digits written ≡ digits phone
    → 10 ≤ length (digits phone)
    → normalize (before ++ written) ≡ normalize phone
unfolding normalize
normalize_prefix before phone written same long =
    ap last_ten (unfold digits in (filter-append is_digit before written))
    ∙ last_ten-append (digits before) (digits written) (rw same long)
    ∙ ap (λ (ds : List Char). drop (length ds - 10) ds) same
    ∙ sym (last_ten-append List.[] (digits phone) long)
