-- ===== src/Store/Classes.antt =====
-- The actions on batches, attendance, syllabus, coverage and assessments of
-- frontend/src/store/dataStore.ts.
use attendance_managment.Base.{
  if◌then◌else◌, ◌==◌, nat_eq, string_eq, or_else, length, filter, find, any, includes, ℕ, ◌+◌,
  String, Bool, true, false, not, ◌&&◌, Option, none, some, List, [], ◌∷◌, ◌++◌, map,
}
use attendance_managment.Db.{archived}
use attendance_managment.Decimal.{append}
use attendance_managment.Store.{
  Batch, AttendanceSession, Topic, CoverageStatus, not_started, in_progress, completed,
  TopicCoverage, on_batch, on_session, on_assessment, DataState, Moment, actor, logged,
}

-- The drawn id replaces that of the input.
unfoldable pub add_batch : Moment → String → Batch → DataState → DataState
add_batch moment id input state =
    let name = if input.name == "" then append "Batch " input.code else input.name in
    logged moment (some (on_batch, id))
      (record state { batches = state.batches ++ (record input { id = id; name = name } ∷ []) })

unfoldable pub update_batch : Moment → String → (Batch → Batch) → DataState → DataState
update_batch moment id patch state = logged moment (some (on_batch, id)) (record state {
  batches = map (λ b. if b.id == id then record (patch b) { id = id } else b) state.batches;
})

unfoldable pub archive_batch : Moment → String → DataState → DataState
archive_batch moment id state = logged moment (some (on_batch, id)) (record state {
  batches =
      map
        (λ b.
          if b.id == id then record b { status = archived; end_date = some moment.today } else b)
        state.batches;
})

-- The session of the batch and the date.
abbrev pub in_slot : AttendanceSession → AttendanceSession → Bool
in_slot input session = session.batch_id == input.batch_id && session.date == input.date

abbrev pub saved_session : Moment → String → AttendanceSession → AttendanceSession
saved_session moment id input = record input {
  id = id;
  marked_at = moment.now;
  marked_by = actor moment;
  pending_sync = true;
}

abbrev pub replace_session : AttendanceSession → List AttendanceSession → List AttendanceSession
replace_session session sessions = map (λ s. if s.id == session.id then session else s) sessions

-- A topic taught for the first time is in progress.
abbrev pub is_untaught : CoverageStatus → Bool
is_untaught not_started = true
is_untaught _ = false

abbrev pub taught : AttendanceSession → TopicCoverage → TopicCoverage
taught input c =
    if c.batch_id == input.batch_id && includes input.topic_ids c.topic_id && is_untaught c.status
    then record c { status = in_progress; started_on = some input.date }
    else c

-- The session that is stored and the sessions after it. The fresh id is used where the slot is empty.
unfoldable pub store_session :
    Moment
    → String
    → AttendanceSession
    → List AttendanceSession
    → AttendanceSession × List AttendanceSession
store_session moment fresh input sessions = elim (find (in_slot input) sessions) [
  | none ↦ (saved_session moment fresh input, sessions ++ (saved_session moment fresh input ∷ []))
  | some existing ↦ (
    saved_session moment existing.id input,
    replace_session (saved_session moment existing.id input) sessions,
  )
]

unfoldable pub save_session :
    Moment → String → AttendanceSession → DataState → AttendanceSession × DataState
save_session moment fresh input state =
    let (session, sessions) = store_session moment fresh input state.sessions in
    (
      session,
      logged moment (some (on_session, session.id))
          (record state { sessions = sessions; coverage = map (taught input) state.coverage }),
    )

unfoldable pub delete_session : String → DataState → DataState
delete_session id state = record state { sessions = filter (λ s. not (s.id == id)) state.sessions }

unfoldable pub add_subject : Moment → String → DataState → DataState
add_subject moment id state =
    logged moment none (record state { subjects = state.subjects ++ (id ∷ []) })

-- The coverage rows of a topic: one for each batch that follows its syllabus.
abbrev pub topic_coverage : Topic → List Batch → List TopicCoverage
topic_coverage topic batches =
    map
      (λ b. record {
        batch_id = b.id;
        topic_id = topic.id;
        status = not_started;
        started_on = none;
        completed_on = none;
        hours_spent = 0;
      })
      (filter (λ b. b.subject_id == topic.subject_id && b.grade == topic.grade) batches)

-- The topics of the same subject and grade.
abbrev pub siblings : Topic → List Topic → List Topic
siblings input topics =
    filter (λ t. t.subject_id == input.subject_id && t.grade == input.grade) topics

unfoldable pub add_topic : Moment → String → Topic → Option ℕ → DataState → DataState
add_topic moment id input order state =
    let topic : Topic = record input {
      id = id;
      order = or_else order (length (siblings input state.topics) + 1);
    } in
    logged moment none (record state {
      topics = state.topics ++ (topic ∷ []);
      coverage = state.coverage ++ topic_coverage topic state.batches;
    })

unfoldable pub update_topic : Moment → String → (Topic → Topic) → DataState → DataState
update_topic moment id patch state = logged moment none (record state {
  topics = map (λ t. if t.id == id then record (patch t) { id = id } else t) state.topics;
})

unfoldable pub delete_topic : Moment → String → DataState → DataState
delete_topic moment id state = logged moment none (record state {
  topics = filter (λ t. not (t.id == id)) state.topics;
  coverage = filter (λ c. not (c.topic_id == id)) state.coverage;
})

abbrev pub is_completed : CoverageStatus → Bool
is_completed completed = true
is_completed _ = false

-- A date that is kept where it is there.
abbrev pub or_date : Option String → String → String
or_date date today = or_else date today

unfoldable pub next_coverage : Moment → CoverageStatus → TopicCoverage → TopicCoverage
next_coverage moment status c = record c {
  status = status;
  started_on = if is_untaught status then none else some (or_date c.started_on moment.today);
  completed_on = if is_completed status then some (or_date c.completed_on moment.today) else none;
}

abbrev pub covers : String → String → TopicCoverage → Bool
covers batch_id topic_id c = c.batch_id == batch_id && c.topic_id == topic_id

abbrev pub blank_coverage : String → String → CoverageStatus → TopicCoverage
blank_coverage batch_id topic_id status = record {
  batch_id = batch_id;
  topic_id = topic_id;
  status = status;
  started_on = none;
  completed_on = none;
  hours_spent = 0;
}

unfoldable pub set_coverage : Moment → String → String → CoverageStatus → DataState → DataState
set_coverage moment batch_id topic_id status state =
    logged moment (some (on_batch, batch_id)) (record state {
      coverage =
          if any (covers batch_id topic_id) state.coverage
          then map (λ c. if covers batch_id topic_id c then next_coverage moment status c else c)
              state.coverage
          else state.coverage
            ++ (next_coverage moment status (blank_coverage batch_id topic_id status) ∷ []);
    })

unfoldable pub add_assessment : Moment → String → DataState → DataState
add_assessment moment id state =
    logged moment (some (on_assessment, id))
      (record state { assessments = state.assessments ++ (id ∷ []) })

-- `updateAssessment` keeps the ids, and the rest of an assessment is not read here.
unfoldable pub update_assessment : Moment → String → DataState → DataState
update_assessment moment id state = logged moment (some (on_assessment, id)) state

unfoldable pub delete_assessment : Moment → String → DataState → DataState
delete_assessment moment id state =
    logged moment none
      (record state { assessments = filter (λ a. not (a == id)) state.assessments })

unfoldable pub mark_notification_read : String → DataState → DataState
mark_notification_read id state = record state {
  notifications = map (λ n. if n.0 == id then (n.0, true) else n) state.notifications;
}

unfoldable pub mark_all_notifications_read : DataState → DataState
mark_all_notifications_read state = record state {
  notifications = map (λ n. (n.0, true)) state.notifications;
}

unfoldable pub complete_setup : Moment → DataState → DataState
complete_setup moment state =
    logged moment none (record state { setup_completed_at = some moment.now })
