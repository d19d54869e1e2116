-- ===== src/Agent/Polling.antt =====
-- agent/src/agent.rs: what `schedule_poll_loop` makes of the answers of HTTP.
use timelord.Prelude.{
  ◌≡◌, refl, sym, ap, ◌∙◌, Bool, true, false, Option, none, some, String, ◌==◌, ℕ, arith,
  Bool-cases, inl, inr,
}
use timelord.Prelude.Result.{Result, ok, err}
use timelord.Prelude.Text.{same_option}
use timelord.Prelude.Time.{Uuid}
use timelord.Schedule.{Schedule, same_schedule}
use timelord.Client.{
  ClientError, ControllerClient, HttpRequest, HttpResponse, parse, to_schedule, poll_schedule,
}
use timelord.Agent.{Agent, apply_schedule, mark_schedule_synced}
use timelord.Agent.Networking.{schedule_poll}

abbrev is_none : Option Schedule → Bool
is_none none = true
is_none (some s) = false

synced-schedule : (a : Agent) → (mark_schedule_synced a).schedule ≡ a.schedule
unfolding mark_schedule_synced
synced-schedule a = ground arith

applied-some :
    (fails : Bool) (incoming s : Schedule) (a : Agent)
    → a.schedule ≡ some s
    → is_none (apply_schedule fails (some incoming) a).schedule ≡ false
unfolding apply_schedule
applied-some fails incoming s a h =
    elim (Bool-cases (same_option same_schedule a.schedule (some incoming))) [
      | inl same ↦ rw same (ap is_none h)
      | inr changed ↦ rw changed refl
    ]

-- What is left of an answer that is not 204.
abbrev wrapped : Result ClientError Schedule → Result ClientError (Option Schedule)
wrapped p = elim p [ err e ↦ err e | ok schedule ↦ ok (some schedule) ]

other_status :
    (r : HttpResponse Schedule) → (r.status == 204) ≡ false → to_schedule (ok r) ≡ wrapped (parse r)
unfolding to_schedule
other_status r h = rw h refl

module _ (fails : Bool) (s : Schedule) (a : Agent) (h : a.schedule ≡ some s) where
  parsed_kept :
      (p : Result ClientError Schedule)
      → is_none (schedule_poll (wrapped p) fails a).schedule ≡ false
  unfolding schedule_poll
  parsed_kept (err e) = ap is_none h
  parsed_kept (ok x) =
      ap is_none (synced-schedule (apply_schedule fails (some x) a)) ∙ applied-some fails x s a h

  forgotten_by :
      (sent : Result String (HttpResponse Schedule))
      → (schedule_poll (to_schedule sent) fails a).schedule ≡ none
      → (r : HttpResponse Schedule) × (sent ≡ ok r) × (r.status ≡ 204)
  unfolding to_schedule schedule_poll
  forgotten_by (err reason) k = cc
  forgotten_by (ok r) k = elim (Bool-cases (r.status == 204)) [
    | inl empty ↦ (r, refl, ground (arith, empty))
    | inr other ↦
        let e = ap (λ x. is_none (schedule_poll x fails a).schedule) (other_status r other) in
        let kept : true ≡ false = sym (ap is_none k) ∙ e ∙ parsed_kept (parse r) in
        absurd (ground (arith, kept))
  ]

  -- A poll lets go of the schedule only when the controller answers 204: not when it cannot be
  -- reached, answers an error, or sends what does not parse.
  pub forgotten_only_by_204 :
      (print : Uuid → String) (send : HttpRequest → Result String (HttpResponse Schedule))
      (device_id : Uuid) (revision : Option String) (wait : ℕ) (c : ControllerClient)
      → (schedule_poll (poll_schedule print send device_id revision wait c) fails a).schedule ≡ none
      → (q : HttpRequest) × (r : HttpResponse Schedule) × (send q ≡ ok r) × (r.status ≡ 204)
  unfolding poll_schedule
  forgotten_only_by_204 print send device_id revision wait c k =
      let (r, e, status) = forgotten_by (send _) k in (_, r, e, status)
