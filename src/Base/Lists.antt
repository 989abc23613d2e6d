-- ===== src/Base/Lists.antt =====
-- JavaScript's array methods over lists, and their laws.
use Prim.Native.Nat.{ℕ, zero, suc, ◌+◌, ◌-◌, ◌≤◌, min}
use mathlib.Core.Path.{◌≡◌, refl, ap}
use mathlib.Core.Logic.{◌↔◌, inl, inr}
use mathlib.Core.Bool.{Bool, true, false, not, ◌&&◌, ◌||◌}
use mathlib.Core.Option.{Option, none, some}
use mathlib.Core.List.{List, [], ◌∷◌, ◌++◌, map}
use native.Mathlib.Omega.{arith}
use attendance_managment.Base.Tests.{
  ltb, if◌then◌else◌, Equality, ◌==◌, nat_eq, string_eq, ==_iff, ==_refl, Bool-cases,
}

module _ {ℓ} {A : Type ℓ} where
  abbrev pub length : List A → ℕ
  length [] = 0
  length (x ∷ xs) = suc (length xs)

  abbrev pub filter : (A → Bool) → List A → List A
  filter p [] = []
  filter p (x ∷ xs) = if p x then x ∷ filter p xs else filter p xs

  -- `find` and Prisma's `findFirst`.
  abbrev pub find : (A → Bool) → List A → Option A
  find p [] = none
  find p (x ∷ xs) = if p x then some x else find p xs

  abbrev pub any : (A → Bool) → List A → Bool
  any p [] = false
  any p (x ∷ xs) = p x || any p xs

  abbrev pub all : (A → Bool) → List A → Bool
  all p [] = true
  all p (x ∷ xs) = p x && all p xs

  abbrev pub take : ℕ → List A → List A
  take zero xs = []
  take (suc n) [] = []
  take (suc n) (x ∷ xs) = x ∷ take n xs

  abbrev pub drop : ℕ → List A → List A
  drop zero xs = xs
  drop (suc n) [] = []
  drop (suc n) (x ∷ xs) = drop n xs

  abbrev pub is_empty : List A → Bool
  is_empty [] = true
  is_empty (x ∷ xs) = false

  pub length-append : (xs ys : List A) → length (xs ++ ys) ≡ length xs + length ys
  length-append [] ys = omega arith
  length-append (x ∷ xs) ys = omega (arith, length-append xs ys)

  pub take-append-drop : (n : ℕ) (xs : List A) → take n xs ++ drop n xs ≡ xs
  take-append-drop zero xs = refl
  take-append-drop (suc n) [] = refl
  take-append-drop (suc n) (x ∷ xs) = ap (λ l. x ∷ l) (take-append-drop n xs)

  pub length-take : (n : ℕ) (xs : List A) → length (take n xs) ≡ min n (length xs)
  length-take zero xs = omega arith
  length-take (suc n) [] = omega arith
  length-take (suc n) (x ∷ xs) = omega (arith, length-take n xs)

  pub length-drop : (n : ℕ) (xs : List A) → length (drop n xs) ≡ length xs - n
  length-drop zero xs = omega arith
  length-drop (suc n) [] = omega arith
  length-drop (suc n) (x ∷ xs) = omega (arith, length-drop n xs)

  pub length-filter : (p : A → Bool) (xs : List A) → length (filter p xs) ≤ length xs
  length-filter p [] = omega arith
  length-filter p (x ∷ xs) = ground (arith, length-filter p xs)

  pub any-append : (p : A → Bool) (xs ys : List A) → any p (xs ++ ys) ≡ (any p xs || any p ys)
  any-append p [] ys = refl
  any-append p (x ∷ xs) ys = ground (arith, any-append p xs ys)

  -- What is found satisfies the test.
  pub find_holds : (p : A → Bool) (xs : List A) {x : A} → find p xs ≡ some x → p x ≡ true
  find_holds p [] e = ground arith
  find_holds p (y ∷ ys) {x} e = elim (Bool-cases (p y)) [
    | inl h ↦ ground arith
    | inr h ↦ find_holds p ys (ground arith)
  ]

  pub find-none_iff : (p : A → Bool) (xs : List A) → (find p xs ≡ none) ↔ (any p xs ≡ false)
  find-none_iff p [] = ground arith
  find-none_iff p (x ∷ xs) = ground (arith, find-none_iff p xs)

  -- Something is counted exactly when the test holds somewhere.
  pub length-filter_pos : (p : A → Bool) (xs : List A) → ltb 0 (length (filter p xs)) ≡ any p xs
  length-filter_pos p [] = refl
  length-filter_pos p (x ∷ xs) = elim (Bool-cases (p x)) [
    | inl h ↦ rw h (ground arith)
    | inr h ↦ rw h (length-filter_pos p xs)
  ]

  pub filter-nil_iff : (p : A → Bool) (xs : List A) → (filter p xs ≡ []) ↔ (any p xs ≡ false)
  filter-nil_iff p [] = ground arith
  filter-nil_iff p (x ∷ xs) = ground (arith, filter-nil_iff p xs)

  pub any-filter : (p q : A → Bool) (xs : List A) → any p (filter q xs) ≡ any (λ x. q x && p x) xs
  any-filter p q [] = refl
  any-filter p q (x ∷ xs) = ground (arith, any-filter p q xs)

  pub any-false : (xs : List A) → any (λ _. false) xs ≡ false
  any-false [] = refl
  any-false (x ∷ xs) = any-false xs

  -- A stronger test holds somewhere only if the weaker one does.
  pub any_mono :
      (p q : A → Bool) (xs : List A)
      → ((x : A) → p x ≡ true → q x ≡ true)
      → any p xs ≡ true
      → any q xs ≡ true
  any_mono p q [] h e = e
  any_mono p q (x ∷ xs) h e = ground (arith, h x, any_mono p q xs h)

module _ {ℓ κ} {A : Type ℓ} {B : Type κ} where
  pub any-map : (p : B → Bool) (f : A → B) (xs : List A) → any p (map f xs) ≡ any (λ x. p (f x)) xs
  any-map p f [] = refl
  any-map p f (x ∷ xs) = ap (λ b. p (f x) || b) (any-map p f xs)

  pub length-map : (f : A → B) (xs : List A) → length (map f xs) ≡ length xs
  length-map f [] = refl
  length-map f (x ∷ xs) = ap suc (length-map f xs)

module _ {ℓ} {A : Type ℓ} ⦃e : Equality A⦄ where
  -- `xs.includes(a)`
  abbrev pub includes : List A → A → Bool
  includes [] a = false
  includes (x ∷ xs) a = x == a || includes xs a

  -- `[...new Set(xs)]`: the first occurrence of each value stays. `seen` holds the earlier ones.
  abbrev pub unique_from : List A → List A → List A
  unique_from seen [] = []
  unique_from seen (x ∷ xs) =
      let fresh = x ∷ unique_from (x ∷ seen) xs in
      let again = unique_from seen xs in if includes seen x then again else fresh

  -- A test that holds of a listed element holds somewhere.
  pub any_of_includes :
      (p : A → Bool) (xs : List A) (a : A) → includes xs a ≡ true → p a ≡ true → any p xs ≡ true
  any_of_includes p [] a h k = h
  any_of_includes p (x ∷ xs) a h k = ground (arith, ==_iff x a, any_of_includes p xs a)

  pub includes-filter :
      (p : A → Bool) (xs : List A) (a : A) → includes (filter p xs) a ≡ (p a && includes xs a)
  includes-filter p [] a = ground arith
  includes-filter p (x ∷ xs) a = ground (arith, ==_iff x a, includes-filter p xs a)

  pub includes-append :
      (xs ys : List A) (a : A) → includes (xs ++ ys) a ≡ (includes xs a || includes ys a)
  includes-append [] ys a = refl
  includes-append (x ∷ xs) ys a = ground (arith, includes-append xs ys a)

  -- `all` over a list speaks of its elements.
  pub all_of_includes :
      (p : A → Bool) (xs : List A) (a : A) → all p xs ≡ true → includes xs a ≡ true → p a ≡ true
  all_of_includes p [] a h k = ground arith
  all_of_includes p (x ∷ xs) a h k = ground (arith, ==_iff x a, all_of_includes p xs a)

  pub all_iff :
      (p : A → Bool) (xs : List A)
      → (all p xs ≡ true) ↔ ((a : A) → includes xs a ≡ true → p a ≡ true)
  all_iff p [] = (λ h a k. ground arith, λ h. refl)
  all_iff p (x ∷ xs) =
      let ih = all_iff p xs in
      (
        λ h a k. ground (arith, ==_iff x a, ih.0 (ground arith) a),
        λ h. ground (arith, ==_refl x, h x, ih.1 (λ a k. h a (ground arith))),
      )

module _ {ℓ} {A : Type ℓ} where
  -- Nothing is filtered out as failing a test exactly when every element passes it.
  pub filter-not_nil_iff :
      (p : A → Bool) (xs : List A) → (filter (λ x. not (p x)) xs ≡ []) ↔ (all p xs ≡ true)
  filter-not_nil_iff p [] = ground arith
  filter-not_nil_iff p (x ∷ xs) = ground (arith, filter-not_nil_iff p xs)

  pub filter-congr :
      (p q : A → Bool) (xs : List A) → ((x : A) → p x ≡ q x) → filter p xs ≡ filter q xs
  filter-congr p q [] h = refl
  filter-congr p q (x ∷ xs) h = ground (arith, h x, filter-congr p q xs h)

  pub any-congr : (p q : A → Bool) (xs : List A) → ((x : A) → p x ≡ q x) → any p xs ≡ any q xs
  any-congr p q [] h = refl
  any-congr p q (x ∷ xs) h = ground (arith, h x, any-congr p q xs h)

module _ {ℓ κ} {A : Type ℓ} {B : Type κ} where
  -- A change that a view does not see.
  pub map-invisible :
      (g : A → B) (f : A → A) (xs : List A)
      → ((x : A) → g (f x) ≡ g x)
      → map g (map f xs) ≡ map g xs
  map-invisible g f [] h = refl
  map-invisible g f (x ∷ xs) h = ground (arith, h x, map-invisible g f xs h)

module _ {ℓ} {A : Type ℓ} where
  -- What holds of all holds of what is found.
  pub all-find :
      (q p : A → Bool) (xs : List A) {x : A} → all q xs ≡ true → find p xs ≡ some x → q x ≡ true
  all-find q p [] h e = ground arith
  all-find q p (y ∷ ys) {x} h e = ground (arith, all-find q p ys {x = x})

abbrev pub map_option {ℓ κ} : {A : Type ℓ} {B : Type κ} → (A → B) → Option A → Option B
map_option f none = none
map_option f (some a) = some (f a)

module _ {ℓ} {A : Type ℓ} (p : A → Bool) where
  pub find-append_none : (xs ys : List A) → find p xs ≡ none → find p (xs ++ ys) ≡ find p ys
  find-append_none [] ys h = refl
  find-append_none (x ∷ xs) ys h = ground (arith, find-append_none xs ys)

  -- A rewrite that the test does not see leaves the search where it was.
  pub find-map_same :
      (f : A → A) (xs : List A)
      → ((x : A) → p (f x) ≡ p x)
      → find p (map f xs) ≡ map_option f (find p xs)
  find-map_same f [] h = refl
  find-map_same f (x ∷ xs) h = ground (arith, h x, find-map_same f xs h)

  pub find-append_some : (xs ys : List A) {x : A} → find p xs ≡ some x → find p (xs ++ ys) ≡ some x
  find-append_some [] ys h = ground arith
  find-append_some (z ∷ xs) ys {x} h = ground (arith, find-append_some xs ys {x = x})

pub all_mono {ℓ} :
    {A : Type ℓ} (p q : A → Bool) (xs : List A)
    → ((x : A) → p x ≡ true → q x ≡ true)
    → all p xs ≡ true
    → all q xs ≡ true
all_mono p q [] h e = refl
all_mono p q (x ∷ xs) h e = ground (arith, h x, all_mono p q xs h)
