-- ===== src/Examples/Weak.antt =====
-- Runs with a password that is refused.
use attendance_managment.Base.{weak_password, bad_request, err, ◌≡◌, refl, none, some, [], ◌∷◌}
use attendance_managment.Env.{plain_env}
use attendance_managment.Db.{portal_activation, Db}
use attendance_managment.Password.{
  units, weak_passwords, is_repeated, is_sequential, repeats, is_weak, assert_strong,
}
use attendance_managment.Otp.{new_code, find_link_token}
use attendance_managment.Auth.{require_tenant_by_id}
use attendance_managment.Auth.Recovery.{reset_password}
use attendance_managment.Auth.Flows.{activate_staff, activate}
use attendance_managment.Auth.Links.{activate-weak}
use attendance_managment.Examples.{institute_db, reset_link, signed_in_db, tenant, fresh_session}

abbrev invited_db : Db
invited_db = record institute_db {
  codes =
      new_code 7 (record reset_link { purpose = portal_activation }) "0123456789abcdef" 1 1000 5000
      ∷ [];
}

refused_reset :
    (reset_password plain_env 2000 0 (some tenant) "0123456789abcdef" "12345678" signed_in_db).0
    ≡ err (bad_request weak_password)
unfolding reset_password find_link_token require_tenant_by_id assert_strong is_weak weak_passwords
    units is_repeated is_sequential repeats
refused_reset = refl

refused_activation :
    (activate plain_env 2000 0 fresh_session
      (some tenant)
      "0123456789abcdef"
      "12345678"
      none
      invited_db).0
    ≡ err (bad_request weak_password)
unfolding activate activate_staff find_link_token require_tenant_by_id assert_strong is_weak
    weak_passwords units is_repeated is_sequential repeats
refused_activation = refl

activate-weak_example :
    (activate plain_env 2000 0 fresh_session
      (some tenant)
      "0123456789abcdef"
      "12345678"
      none
      invited_db).1
    ≡ invited_db
activate-weak_example =
    activate-weak plain_env 2000 0 fresh_session (some tenant) "0123456789abcdef" "12345678" none
      invited_db refused_activation
