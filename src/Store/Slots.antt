-- ===== src/Store/Slots.antt =====
-- The attendance sessions of the store: `saveSession` and `deleteSession` of
-- frontend/src/store/dataStore.ts, by the ids of the sessions and by their batches and dates.
use mathlib.Core.List.{map-append}
use attendance_managment.Base.{
  nat_eq, string_eq, ==_iff, ==_refl, Option-cases, find, find_holds, includes, Distinct,
  Distinct-concat, pair_eq, String, ◌≡◌, refl, sym, inl, inr, Bool, true, false, none, some, List,
  [], ◌∷◌, map, arith,
}
use attendance_managment.Store.{AttendanceSession, Moment}
use attendance_managment.Store.Classes.{in_slot, saved_session, replace_session, store_session}

abbrev pub session_ids : List AttendanceSession → List String
session_ids sessions = map (λ s. s.id) sessions

-- The batch and the date of a session.
abbrev pub slot : AttendanceSession → String × String
slot s = (s.batch_id, s.date)

abbrev pub slots : List AttendanceSession → List (String × String)
slots sessions = map slot sessions

-- A session whose id is not listed replaces nothing.
replace_session-none :
    (r : AttendanceSession) (sessions : List AttendanceSession)
    → includes (session_ids sessions) r.id ≡ false
    → slots (replace_session r sessions) ≡ slots sessions
replace_session-none r [] h = refl
replace_session-none r (s ∷ sessions) h = ground (arith, replace_session-none r sessions)

find-listed :
    (p : AttendanceSession → Bool) (sessions : List AttendanceSession) {e : AttendanceSession}
    → find p sessions ≡ some e
    → includes (session_ids sessions) e.id ≡ true
find-listed p [] h = ground arith
find-listed p (s ∷ sessions) {e} h = ground (arith, find-listed p sessions {e = e}, ==_refl e.id)

replace_session-ids :
    (r : AttendanceSession) (sessions : List AttendanceSession)
    → session_ids (replace_session r sessions) ≡ session_ids sessions
replace_session-ids r [] = refl
replace_session-ids r (s ∷ sessions) =
    ground (arith, replace_session-ids r sessions, ==_iff s.id r.id)

-- A session that replaces the one that was found keeps the batches and dates.
replace_session-slots :
    (p : AttendanceSession → Bool) (r e : AttendanceSession) (sessions : List AttendanceSession)
    → Distinct (session_ids sessions)
    → find p sessions ≡ some e
    → r.id ≡ e.id
    → slot r ≡ slot e
    → slots (replace_session r sessions) ≡ slots sessions
replace_session-slots p r e [] d found same kept = ground arith
replace_session-slots p r e (s ∷ sessions) d found same kept =
    let listed = find-listed p sessions {e = e} in
    ground (
      arith,
      replace_session-slots p r e sessions d.1,
      replace_session-none r sessions,
      ==_iff s.id r.id,
    )

free_slot :
    (input : AttendanceSession) (sessions : List AttendanceSession)
    → find (in_slot input) sessions ≡ none
    → includes (slots sessions) (slot input) ≡ false
free_slot input [] h = refl
free_slot input (s ∷ sessions) h = ground (arith, free_slot input sessions)

pub store_session-Distinct :
    (moment : Moment) (fresh : String) (input : AttendanceSession)
    (sessions : List AttendanceSession)
    → Distinct (session_ids sessions)
    → Distinct (slots sessions)
    → includes (session_ids sessions) fresh ≡ false
    → let (_, after) = store_session moment fresh input sessions in
      Distinct (session_ids after) × Distinct (slots after)
unfolding store_session
store_session-Distinct moment fresh input sessions ids d new =
    elim (Option-cases (find (in_slot input) sessions)) [
      | inl free ↦
          let row = saved_session moment fresh input in
          rw (store_session, free)
            (
              rw (map-append (λ (s : AttendanceSession). s.id) sessions (row ∷ []))
                  (Distinct-concat (session_ids sessions) fresh ids new),
              rw (map-append slot sessions (row ∷ []))
                  (Distinct-concat (slots sessions) (slot row) d (free_slot input sessions free)),
            )
      | inr (e, found) ↦
          let row = saved_session moment e.id input in
          let here = find_holds (in_slot input) sessions found in
          let kept : slot row ≡ slot e = sym ((==_iff (slot e) (slot input)).0 here) in
          rw (store_session, found)
            (
              rw (replace_session-ids row sessions) ids,
              rw (replace_session-slots (in_slot input) row e sessions ids found refl kept) d,
            )
    ]
