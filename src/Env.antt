-- ===== src/Env.antt =====
-- What the services take from outside: text functions that rest on Unicode tables, the password
-- hash, the digest of link tokens, and the settings of config/app-config.ts.
use attendance_managment.Base.{◌==◌, nat_eq, string_eq, ℕ, String, ◌≡◌, Bool, true}

pub record Env : Type 0 where
  -- `value.toLowerCase()`, `value.trim()`.
  pub lower : String → String
  pub trim : String → String
  -- `{ equals: a, mode: 'insensitive' }` of the database client: the stored text, then the wanted.
  pub same_label : String → String → Bool
  -- `value.normalize('NFKD')`, the diacritics dropped, in lower case.
  pub fold : String → String
  -- `PasswordService.hash` at a salt (argon2), `verify` of a hash that is there, and SHA-256.
  pub hash : ℕ → String → String
  pub verify : String → String → Bool
  pub digest : String → String
  -- The settings, times in milliseconds.
  pub otp_ttl : ℕ
  pub otp_max_attempts : ℕ
  pub reset_token_ttl : ℕ
  pub activation_token_ttl : ℕ
  pub refresh_ttl : ℕ

-- argon2 accepts a password against a hash of it.
abbrev pub VerifiesOwnHash : Env → Type 0
VerifiesOwnHash env = (salt : ℕ) (plain : String) → env.verify (env.hash salt plain) plain ≡ true

-- A label is equal to itself whatever the case mode.
abbrev pub LabelsAreReflexive : Env → Type 0
LabelsAreReflexive env = (label : String) → env.same_label label label ≡ true

-- An environment for runs on concrete input: no case is folded and a hash is its salted text.
abbrev pub plain_env : Env
plain_env = record {
  lower = λ s. s;
  trim = λ s. s;
  same_label = λ a b. a == b;
  fold = λ s. s;
  hash = λ salt s. s;
  verify = λ h s. h == s;
  digest = λ s. s;
  otp_ttl = 300_000;
  otp_max_attempts = 5;
  reset_token_ttl = 3_600_000;
  activation_token_ttl = 604_800_000;
  refresh_ttl = 2_592_000_000;
}
