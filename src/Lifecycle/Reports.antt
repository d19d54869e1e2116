-- ===== src/Lifecycle/Reports.antt =====
-- What the agent reports of its own stop.
use mathlib.Core.List.{map-append, append_assoc}
use mathlib.Core.Path.{subst}
use timelord.Prelude.{
  sym, unwrap_or, String, ◌<◌, ◌≡◌, refl, ap, ◌∙◌, Bool, true, false, Option, some, List, [], ◌∷◌,
  ◌++◌, any, arith, length, ℕ,
}
use timelord.Prelude.Time.{DateTime}
use timelord.Protocol.{EventType}
use timelord.Events.{agent_stopping, system_shutdown}
use timelord.Queue.{EventQueue, QueuedEvent, no_fault, has_event, max_queue_size, try_enqueue}
use timelord.Queue.Capacity.{appended, enqueue_room}
use timelord.Recorder.{UsageRecorder, shutdown}
use timelord.Recorder.Reporting.{types_in}
use timelord.Agent.{Agent, Report, enqueue, begin_shutdown}
use timelord.Lifecycle.{Process, Ending, on_recorder, report_shutdown, stop}

-- The queue takes a report: no fault, a new id, and room.
abbrev pub Takes : Report → EventQueue → Type 0
Takes r q =
    (r.fault ≡ no_fault)
    × (any (has_event r.stamp.event_id) q.rows ≡ false)
    × (length q.rows < max_queue_size)

enqueue-queue :
    (r : Report) (e : QueuedEvent) (a : Agent)
    → e.event_id ≡ r.stamp.event_id
    → Takes r a.queue
    → (enqueue r e a).queue ≡ appended e r.now a.queue
unfolding enqueue try_enqueue
enqueue-queue r e a id t = rw t.0 (enqueue_room e r.now a.queue (rw id t.1) t.2)

types-appended :
    (e : QueuedEvent) (now : DateTime) (q : EventQueue)
    → types_in (appended e now q) ≡ types_in q ++ e.event_type ∷ []
types-appended e now q = map-append _ q.rows _

shutdown-event_queue :
    (fault : Option ℕ) (now : DateTime) (r : UsageRecorder)
    → (shutdown fault now r).1.event_queue ≡ r.event_queue
unfolding shutdown
shutdown-event_queue fault now r = ground arith

-- The types of the events that a stop reports.
abbrev pub stop_types : Bool → List EventType
stop_types true = EventType.system_shutdown ∷ EventType.agent_stopping ∷ []
stop_types false = EventType.agent_stopping ∷ []

-- The queue takes the report of the stop, and before it that of the system's shutdown, if one was
-- asked for.
abbrev pub TakesAll : Bool → Ending → EventQueue → Type 0
TakesAll true x q =
    Takes x.shutdown_report q
    × Takes x.stopping_report
        (appended (system_shutdown x.shutdown_report.stamp) x.shutdown_report.now q)
TakesAll false x q = Takes x.stopping_report q

shutdown-id : (r : Report) → (system_shutdown r.stamp).event_id ≡ r.stamp.event_id
unfolding system_shutdown
shutdown-id r = refl

stopping-id : (r : Report) (v : String) → (agent_stopping r.stamp v).event_id ≡ r.stamp.event_id
unfolding agent_stopping
stopping-id r v = refl

shutdown-type : (r : Report) → (system_shutdown r.stamp).event_type ≡ EventType.system_shutdown
unfolding system_shutdown
shutdown-type r = refl

stopping-type :
    (r : Report) (v : String) → (agent_stopping r.stamp v).event_type ≡ EventType.agent_stopping
unfolding agent_stopping
stopping-type r v = refl

types-reported :
    (r : Report) (e : QueuedEvent) (t : EventType) (a : Agent)
    → e.event_id ≡ r.stamp.event_id
    → e.event_type ≡ t
    → Takes r a.queue
    → types_in (enqueue r e a).queue ≡ types_in a.queue ++ t ∷ []
types-reported r e t a id h takes =
    ap types_in (enqueue-queue r e a id takes)
    ∙ types-appended e r.now a.queue
    ∙ ap (λ u. types_in a.queue ++ u ∷ []) h

end_types :
    (b : Bool) (x : Ending) (a : Agent)
    → x.shutdown_requested ≡ b
    → TakesAll b x a.queue
    → types_in
        (enqueue x.stopping_report
          (agent_stopping x.stopping_report.stamp x.version)
          (report_shutdown x a)).queue
      ≡ types_in a.queue ++ stop_types b
unfolding report_shutdown
end_types true x a h t =
    let asked = enqueue x.shutdown_report (system_shutdown x.shutdown_report.stamp) a in
    rw h (
      types-reported x.stopping_report (agent_stopping x.stopping_report.stamp x.version)
        EventType.agent_stopping asked (stopping-id x.stopping_report x.version)
        (stopping-type x.stopping_report x.version)
        (subst (Takes x.stopping_report)
          (sym (
            enqueue-queue x.shutdown_report (system_shutdown x.shutdown_report.stamp) a
              (shutdown-id x.shutdown_report) t.0))
          t.1)
      ∙ ap (λ l. l ++ EventType.agent_stopping ∷ [])
          (types-reported x.shutdown_report (system_shutdown x.shutdown_report.stamp)
            EventType.system_shutdown a (shutdown-id x.shutdown_report)
            (shutdown-type x.shutdown_report) t.0)
      ∙ append_assoc (types_in a.queue) _ _)
end_types false x a h t = rw h (
    types-reported x.stopping_report (agent_stopping x.stopping_report.stamp x.version)
      EventType.agent_stopping a (stopping-id x.stopping_report x.version)
      (stopping-type x.stopping_report x.version) t)

stop-queue :
    (x : Ending) (p : Process)
    → ((on_recorder (λ r. (shutdown x.store_fault x.now r).1) p).agent.queue ≡ p.agent.queue)
unfolding on_recorder
stop-queue x p =
    ap (λ o. unwrap_or o p.agent.queue)
      (shutdown-event_queue x.store_fault x.now
        (record p.recorder { event_queue = some p.agent.queue }))

-- With room in the queue, a stop puts at its end AGENT_STOPPING, with SYSTEM_SHUTDOWN before it if
-- the service manager asked for a shutdown of the system, and nothing else; and the networking tasks
-- are told to end.
pub stop_reports :
    (x : Ending) (p : Process)
    → TakesAll x.shutdown_requested x p.agent.queue
    → (types_in (stop x p).agent.queue ≡ types_in p.agent.queue ++ stop_types x.shutdown_requested)
      × ((stop x p).agent.shutdown ≡ true)
unfolding stop begin_shutdown
stop_reports x p t =
    let q = on_recorder (λ r. (shutdown x.store_fault x.now r).1) p in
    let same = stop-queue x p in
    (
      end_types x.shutdown_requested x q.agent refl
            (subst (TakesAll x.shutdown_requested x) (sym same) t)
          ∙ ap (λ u. types_in u ++ stop_types x.shutdown_requested) same,
      refl,
    )
