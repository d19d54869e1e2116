-- ===== src/Examples/Sessions.antt =====
-- The theorems on usage sessions, applied.
use timelord.Prelude.{◌≡◌, refl, none, some, [], ◌∷◌, ◌++◌, arith}
use timelord.Prelude.Map.{lookup, insert}
use timelord.Prelude.Result.{ok, err}
use timelord.Store.{sqlite, reason_to_str}
use timelord.Store.Laws.{sessions_in}
use timelord.Tracker.{
  SessionEvent, EndReason, apply, reason_if_closing, resume_open_session, recompute, observe,
}
use timelord.Tracker.Timeline.{IsTimeline, sessions_of, sessions_of-IsTimeline}
use timelord.Recorder.{
  UsageRecorder, Inputs, handle_at, from_store, observed, persist, report, is_repeated_logon,
}
use timelord.Recorder.Consistent.{IsHandled, handle_at-IsHandled}
use timelord.Recorder.Recovery.{Reach, Continues, crash_recovery, resumed_spans_downtime}
use timelord.Recorder.Failures.{failed_start_recorded}
use timelord.Examples.{fresh_tracker, day, inputs_from, fresh_recorder, resumed_recorder}

sessions_of-IsTimeline_example : IsTimeline 0 (sessions_of fresh_tracker day)
sessions_of-IsTimeline_example =
    sessions_of-IsTimeline 0 5 fresh_tracker day (omega arith)
      (omega arith, (omega arith, (omega arith, (omega arith, tt))))

crash_recovery_example :
    (restarted : UsageRecorder) × (from_store none
        (handle_at (inputs_from 7) (SessionEvent.logon 1) (some "ann") 10 fresh_recorder).1.store
      ≡ ok restarted)
    × Continues
        (handle_at (inputs_from 7) (SessionEvent.logon 1) (some "ann") 10 fresh_recorder).1
        restarted
crash_recovery_example =
    crash_recovery fresh_recorder
      (handle_at (inputs_from 7) (SessionEvent.logon 1) (some "ann") 10 fresh_recorder).1 refl
      (Reach.next (inputs_from 7) (SessionEvent.logon 1) (some "ann") 10 Reach.here
        (record { no_fault = refl; fresh = refl }))

handle_at-IsHandled_example :
    IsHandled
      (SessionEvent.logon 1)
      10
      fresh_recorder
      (handle_at (inputs_from 7) (SessionEvent.logon 1) (some "ann") 10 fresh_recorder)
handle_at-IsHandled_example =
    handle_at-IsHandled (inputs_from 7) (SessionEvent.logon 1) (some "ann") 10 fresh_recorder refl
      (record { no_fault = refl; fresh = refl })

resumed_spans_downtime_example :
    sessions_in
      (handle_at
        (inputs_from 8)
        (SessionEvent.lock 1)
        none
        60
        (handle_at (inputs_from 7) (SessionEvent.logon 1) none 50 resumed_recorder).1).1.store.rows
    ≡ sessions_in resumed_recorder.store.rows ++ (5, 60, "LOCK") ∷ []
unfolding resume_open_session handle_at persist report is_repeated_logon apply recompute observe
    lookup insert
resumed_spans_downtime_example =
    resumed_spans_downtime resumed_recorder 5 50 60 1 (inputs_from 7) (inputs_from 8) none
      ([], refl, refl, refl) refl (record { no_fault = refl; fresh = refl })
      (record { no_fault = refl; fresh = refl })

-- Inputs with which the write to the store fails.
abbrev disk_full : Inputs
disk_full = record (inputs_from 7) { store_fault = some 13 }

failed_start_recorded_example :
    (handle_at disk_full (SessionEvent.logon 1) none 10 fresh_recorder
      ≡ (err (sqlite 13), observed (SessionEvent.logon 1) none 10 fresh_recorder))
    × (sessions_in
          (handle_at
            (inputs_from 8)
            (SessionEvent.lock 1)
            none
            20
            (handle_at disk_full (SessionEvent.logon 1) none 10 fresh_recorder).1).1.store.rows
        ≡ sessions_in fresh_recorder.store.rows ++ (10, 20, "LOCK") ∷ [])
unfolding observed apply recompute observe is_repeated_logon lookup insert reason_if_closing
    reason_to_str
failed_start_recorded_example =
    failed_start_recorded disk_full (inputs_from 8) (SessionEvent.logon 1) (SessionEvent.lock 1)
      none none 10 20 10 13 (record { start = 10; end = 20; end_reason = EndReason.lock })
      fresh_recorder refl refl refl refl refl refl (record { no_fault = refl; fresh = refl })
