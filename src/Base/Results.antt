-- ===== src/Base/Results.antt =====
-- `AppError` and its codes, and service methods as state passing with thrown errors.
use mathlib.Core.Path.{◌≡◌, refl}
use mathlib.Core.Logic.{◌⊎◌, inl, inr}
use mathlib.Core.Bool.{Bool, true, false}
use mathlib.Core.Option.{Option, none, some}

-- The codes of `ErrorCodes` that the modelled parts throw.
pub data ErrorCode : Type 0 where
  generic validation_failed invalid_credentials invalid_token token_expired : ErrorCode
  account_inactive account_not_activated permission_denied portal_scope_denied : ErrorCode
  privilege_escalation owner_protected role_system_protected role_in_use : ErrorCode
  role_key_reserved role_key_taken role_name_taken role_last_admin : ErrorCode
  staff_email_taken staff_already_active staff_self_delete : ErrorCode
  staff_teaches_active_batch staff_has_history weak_password : ErrorCode
  otp_not_requested otp_expired otp_attempts_exceeded otp_invalid : ErrorCode
  refresh_token_reused tenant_mismatch tenant_suspended tenant_not_found : ErrorCode
  missing_tenant cross_tenant : ErrorCode

-- The subclasses of `AppError`, each with its code; the texts shown to users are left out.
pub data AppError : Type 0 where
  bad_request unauthorized forbidden not_found conflict internal : ErrorCode → AppError

pub data Result {ℓ} (A : Type ℓ) : Type ℓ where
  ok : A → Result A
  err : AppError → Result A

abbrev pub is_ok {ℓ} : {A : Type ℓ} → Result A → Bool
is_ok (ok _) = true
is_ok (err _) = false

pub Result-cases {ℓ} :
    {A : Type ℓ} (r : Result A) → ((a : A) × (r ≡ ok a)) ⊎ ((e : AppError) × (r ≡ err e))
Result-cases (ok a) = inl (a, refl)
Result-cases (err e) = inr (e, refl)

-- A method: what was written stays written when it throws, since no transaction is opened.
abbrev pub Action {ℓ} : Type ℓ → Type ℓ → Type ℓ
Action S A = S → Result A × S

module _ {ℓ} {S A : Type ℓ} where
  abbrev pub pure : A → Action S A
  pure a s = (ok a, s)

  abbrev pub throw : AppError → Action S A
  throw e s = (err e, s)

  abbrev pub gets : (S → A) → Action S A
  gets f s = (ok (f s), s)

  abbrev pub or_throw : Option A → AppError → Action S A
  or_throw none e s = (err e, s)
  or_throw (some a) e s = (ok a, s)

module _ {S : Type 0} where
  abbrev pub throw_if : Bool → AppError → Action S (Unit {0})
  throw_if true e s = (err e, s)
  throw_if false e s = (ok tt, s)

  abbrev pub modify : (S → S) → Action S (Unit {0})
  modify f s = (ok tt, f s)

infixl 5 ◌>>=◌ ◌>>◌
abbrev pub ◌>>=◌ {ℓ} : {S A B : Type ℓ} → Action S A → (A → Action S B) → Action S B
◌>>=◌ m f s = let (r, s') = m s in elim r [ ok a ↦ f a s' | err e ↦ (err e, s') ]

abbrev pub ◌>>◌ {ℓ} : {S A B : Type ℓ} → Action S A → Action S B → Action S B
m >> k = m >>= λ _. k

-- A call that throws or succeeds and reads no state.
abbrev pub lift {ℓ} : {S A : Type ℓ} → Result A → Action S A
lift r s = (r, s)
