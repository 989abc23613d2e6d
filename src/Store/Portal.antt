-- ===== src/Store/Portal.antt =====
-- The actions on the logins of students and parents of frontend/src/store/dataStore.ts.
use attendance_managment.Base.{
  if◌then◌else◌, ◌==◌, nat_eq, string_eq, find, any, includes, String, Bool, true, false, not, ◌&&◌,
  none, some, List, [], ◌∷◌, ◌++◌, map,
}
use attendance_managment.Db.{PortalRole, student, parent, PortalStatus, enabled, awaiting}
use attendance_managment.Phone.{normalize_phone}
use attendance_managment.Store.{
  PortalAccess, not_invited, access_invited, Student, PortalToken, PortalAccount, on_student,
  DataState, Moment, logged,
}

abbrev pub is_parent_role : PortalRole → Bool
is_parent_role parent = true
is_parent_role student = false

abbrev pub is_live_login : PortalStatus → Bool
is_live_login enabled = true
is_live_login _ = false

abbrev pub is_uninvited : PortalAccess → Bool
is_uninvited not_invited = true
is_uninvited _ = false

-- The login of a student, or of the parents with this number.
abbrev pub is_login : PortalRole → String → String → PortalAccount → Bool
is_login student student_id key a = not (is_parent_role a.role) && includes a.student_ids student_id
is_login parent student_id key a = is_parent_role a.role && a.login_id == key

-- The role to invite, and the id and the token drawn in its round.
pub record Invite : Type 0 where
  pub role : PortalRole
  pub id : String
  pub token : String

abbrev pub fresh_token : Moment → String → PortalToken
fresh_token moment value = record { value = value; expires_at = moment.add_days moment.today 7 }

abbrev pub new_account : Moment → Student → String → Invite → PortalAccount
new_account moment who key invite = record {
  id = invite.id;
  role = invite.role;
  name = if is_parent_role invite.role then who.guardian_name else who.name;
  student_ids = who.id ∷ [];
  login_id = if is_parent_role invite.role then key else who.id;
  phone = if is_parent_role invite.role then some who.guardian_phone else who.phone;
  email = if is_parent_role invite.role then who.guardian_email else who.email;
  email_verified = false;
  uses_password = not (is_parent_role invite.role);
  status = awaiting;
  invited_on = moment.today;
  token = some (fresh_token moment invite.token);
}

-- An existing login: its invitation is issued again, and the child is linked.
abbrev pub reinvited : Moment → Student → Invite → PortalAccount → PortalAccount
reinvited moment who invite a = record a {
  student_ids =
      if includes a.student_ids who.id then a.student_ids else a.student_ids ++ (who.id ∷ []);
  status = if is_live_login a.status then enabled else awaiting;
  token = if is_live_login a.status then a.token else some (fresh_token moment invite.token);
}

-- The first account that passes the test is rewritten.
abbrev pub rewrite_first {ℓ} : {A : Type ℓ} → (A → Bool) → (A → A) → List A → List A
rewrite_first p f [] = []
rewrite_first p f (x ∷ xs) = let rest = x ∷ rewrite_first p f xs in if p x then f x ∷ xs else rest

unfoldable pub invite_one : Moment → Student → Invite → List PortalAccount → List PortalAccount
invite_one moment who invite accounts =
    let key = normalize_phone who.guardian_phone in
    if any (is_login invite.role who.id key) accounts
    then rewrite_first (is_login invite.role who.id key) (reinvited moment who invite) accounts
    else accounts ++ (new_account moment who key invite ∷ [])

abbrev pub invite_all : Moment → Student → List Invite → List PortalAccount → List PortalAccount
invite_all moment who [] accounts = accounts
invite_all moment who (invite ∷ invites) accounts =
    invite_all moment who invites (invite_one moment who invite accounts)

-- The roster's summary follows the student's own login.
abbrev pub mark_invited : String → Student → Student
mark_invited id s =
    if s.id == id && is_uninvited s.portal_access
    then record s { portal_access = access_invited }
    else s

unfoldable pub invite_portal_accounts : Moment → String → List Invite → DataState → DataState
invite_portal_accounts moment student_id invites state =
    elim (find (λ s. s.id == student_id) state.students) [
      | none ↦ state
      | some who ↦ logged moment (some (on_student, student_id)) (record state {
        portal_accounts = invite_all moment who invites state.portal_accounts;
        students =
            if any (λ i. not (is_parent_role i.role)) invites
            then map (mark_invited student_id) state.students
            else state.students;
      })
    ]

-- A `Partial<PortalAccount>`; `only_login` says that nothing but `lastLoginAt` is given.
unfoldable pub update_portal_account :
    Moment → String → (PortalAccount → PortalAccount) → Bool → DataState → DataState
update_portal_account moment id patch only_login state =
    let written = record state {
      portal_accounts =
          map (λ a. if a.id == id then record (patch a) { id = id } else a) state.portal_accounts;
    } in
    if only_login then written else logged moment none written

unfoldable pub set_portal_account_status : Moment → String → PortalStatus → DataState → DataState
set_portal_account_status moment id status state = logged moment none (record state {
  portal_accounts =
      map (λ a. if a.id == id then record a { status = status } else a) state.portal_accounts;
})
