-- ===== src/Examples/Rules.antt =====
-- Runs of the rules on passwords and phone numbers.
use attendance_managment.Base.{length, ok, ◌≤◌, ◌≡◌, refl, [], ◌∷◌, ◌++◌, arith}
use attendance_managment.Env.{plain_env}
use attendance_managment.Password.{
  units, weak_passwords, is_repeated, is_sequential, repeats, is_weak, assert_strong,
}
use attendance_managment.Phone.{chars, digits, normalize, mask_phone, normalize_prefix}

accepted : assert_strong plain_env "Str0ng-pass" ("teach@x.in" ∷ []) ≡ ok tt
unfolding assert_strong is_weak weak_passwords units is_repeated is_sequential repeats
accepted = refl

same_digits : digits (chars "98765 43210") ≡ digits (chars "9876543210")
unfolding digits
same_digits = refl

ten_digits : 10 ≤ length (digits (chars "9876543210"))
unfolding digits
ten_digits = omega arith

normalize_prefix_example :
    normalize (chars "+91" ++ chars "98765 43210") ≡ normalize (chars "9876543210")
normalize_prefix_example =
    normalize_prefix (chars "+91") (chars "9876543210") (chars "98765 43210") same_digits ten_digits

masked : mask_phone "+91 98765 43210" ≡ "••••• 43210"
unfolding mask_phone
masked = refl
