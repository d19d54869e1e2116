-- ===== src/Platform/Seeding.antt =====
-- A session that was there before the agent, and that Windows does not report as locked.
use timelord.Prelude.{◌≡◌, ap, ◌∙◌, true, false, none, some, String, arith}
use timelord.Prelude.Time.{DateTime}
use timelord.Prelude.Map.{lookup}
use timelord.Tracker.{UsageTracker, SessionId, SessionEvent, is_active, is_logged_on, apply}
use timelord.Tracker.Activity.{apply_active}
use timelord.Tracker.Presence.{
  entry_visible, any_visible_of_parts, sessions-apply, suspended-apply, lookup-observe, visibility,
}
use timelord.Recorder.{UsageRecorder, is_repeated_logon}
use timelord.Recorder.Consistent.{handle_at-tracker}
use timelord.Platform.{SessionEntry, is_present, seed_session}

-- After a logon with the device awake, a usage session is open.
logon-active :
    (r : UsageTracker) (id : SessionId) (at : DateTime)
    → r.suspended ≡ false
    → is_active (apply r (SessionEvent.logon id) at).0 ≡ true
logon-active r id at awake =
    let e = SessionEvent.logon id in
    let t = (apply r e at).0 in
    let entry : visibility (lookup id t.sessions) ≡ some true =
      ap (λ m. visibility (lookup id m)) (sessions-apply r e at)
      ∙ lookup-observe id e r
      ∙ ground arith in
    apply_active r e at
    ∙ any_visible_of_parts t (suspended-apply r e at ∙ awake) (entry_visible id t.sessions entry)

-- A session that is active or connected at the start, with a user and a lock state that Windows does
-- not know, is taken for one in use: with the device awake, a usage session is open after it is found,
-- if the tracker did not know the session before.
pub unknown_lock_in_use :
    (e : SessionEntry) (username : String) (r : UsageRecorder)
    → is_present e.state ≡ true
    → e.username ≡ some username
    → e.locked ≡ none
    → is_logged_on r.tracker e.session ≡ false
    → r.tracker.suspended ≡ false
    → is_active (seed_session e r).tracker ≡ true
unfolding seed_session is_repeated_logon
unknown_lock_in_use e username r present named unknown new_session awake = rw present (
    rw named (
      rw unknown (
        ap is_active (
          handle_at-tracker e.logon.inputs (SessionEvent.logon e.session) (some username)
            e.logon.now r new_session)
        ∙ logon-active r.tracker e.session e.logon.now awake)))
