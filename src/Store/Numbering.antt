-- ===== src/Store/Numbering.antt =====
-- The numbers that frontend/src/store/dataStore.ts and frontend/src/lib/id.ts give to new records,
-- against those that are there.
use Prim.Native.Char.{code}
use attendance_managment.Base.{
  ltb, if◌then◌else◌, ◌==◌, nat_eq, string_eq, ==_iff, ==_refl, Bool-cases, includes, ℕ, ◌+◌, ◌≤◌,
  String, ◌≡◌, refl, sym, ap, ◌∙◌, ◌≢◌, inl, inr, true, false, some, List, [], ◌∷◌, map, arith,
}
use attendance_managment.Decimal.{append, show, number, suffix, suffix-code, number-show}
use attendance_managment.Store.{FeeInvoice, Payment}
use attendance_managment.Store.Fees.{max_from, max_suffix, slice_text, invoice_id, receipt_no}
use attendance_managment.Store.Students.{after_prefix, without_first, code_number, next_code}

max_from-start : (m : ℕ) (ns : List ℕ) → m ≤ max_from m ns
max_from-start m [] = omega arith
max_from-start m (n ∷ ns) = ground (arith, max_from-start (if ltb m n then n else m) ns)

-- A listed code has no higher number than the highest.
max_from-listed :
    (f : String → ℕ) (m : ℕ) (codes : List String) (c : String)
    → includes codes c ≡ true
    → f c ≤ max_from m (map f codes)
max_from-listed f m [] c h = ground arith
max_from-listed f m (d ∷ codes) c h = elim (Bool-cases (d == c)) [
  | inl same ↦
      let e = (==_iff d c).0 same in
      let top = max_from-start (if ltb m (f d) then f d else m) (map f codes) in
      let bound : f c ≤ (if ltb m (f d) then f d else m) = rw (sym e) (ground arith) in
      omega (arith, top, bound)
  | inr other ↦ max_from-listed f (if ltb m (f d) then f d else m) codes c (ground arith)
]

-- A code with a higher number is new.
above_is_new :
    (f : String → ℕ) (m : ℕ) (codes : List String) (c : String)
    → f c ≡ max_from m (map f codes) + 1
    → includes codes c ≡ false
above_is_new f m codes c e = elim (Bool-cases (includes codes c)) [
  | inl listed ↦ absurd (omega (arith, e, max_from-listed f m codes c listed))
  | inr new ↦ new
]

pub invoice_id-new :
    (period : String) (existing : List FeeInvoice)
    → includes (map (λ i. i.id) existing) (invoice_id period existing) ≡ false
unfolding invoice_id max_suffix
invoice_id-new period existing =
    above_is_new (λ c. number (suffix c)) 0 (map (λ i. i.id) existing) (invoice_id period existing)
      (suffix-code (append "INV-" (append (slice_text 2 4 period) (slice_text 5 7 period))) 4
        (max_from 0 (map (λ c. number (suffix c)) (map (λ i. i.id) existing)) + 1))

pub receipt_no-new :
    (prefix : String) (payments : List Payment)
    → includes (map (λ p. p.receipt_no) payments) (receipt_no prefix payments) ≡ false
unfolding receipt_no max_suffix
receipt_no-new prefix payments =
    above_is_new (λ c. number (suffix c)) 0 (map (λ p. p.receipt_no) payments)
      (receipt_no prefix payments)
      (suffix-code prefix 6
        (max_from 0 (map (λ c. number (suffix c)) (map (λ p. p.receipt_no) payments)) + 1))

after_prefix-append : (prefix s : String) → after_prefix prefix (append prefix s) ≡ some s
unfolding append
after_prefix-append String.[] s = refl
after_prefix-append (String.◌∷◌ c prefix) s =
    ground (arith, after_prefix-append prefix s, ==_refl (code c))

without_first-append : (found s : String) → found ≢ "" → without_first found (append found s) ≡ s
unfolding without_first append
without_first-append String.[] s h = absurd (h refl)
without_first-append (String.◌∷◌ c found) s h =
    ground (arith, after_prefix-append (String.◌∷◌ c found) s)

pub next_code-new :
    (existing : List String) (prefix : String) (start : ℕ)
    → append prefix "-" ≢ ""
    → includes existing (next_code existing prefix start) ≡ false
unfolding next_code
next_code-new existing prefix start h =
    above_is_new (code_number prefix) start existing (next_code existing prefix start) (
      ap number (
        without_first-append (append prefix "-")
          (show (max_from start (map (code_number prefix) existing) + 1)) h)
      ∙ number-show (max_from start (map (code_number prefix) existing) + 1))
