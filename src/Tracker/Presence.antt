-- ===== src/Tracker/Presence.antt =====
-- An independent account of who is present: one machine for each session and one for the power
-- state, which know nothing of one another. The tracker implements it.
use timelord.Prelude.{
  ◌≡◌, ◌↔◌, ◌==◌, refl, sym, ap, ◌∙◌, Bool-cases, inl, inr, Bool, true, false, Option, none, some,
  List, [], ◌∷◌, any, arith, if◌then◌else◌,
}
use timelord.Prelude.Map.{
  lookup, lookup-insert, lookup-remove, HasUniqueKeys, insert-HasUniqueKeys, remove-HasUniqueKeys,
}
use timelord.Prelude.Time.{DateTime}
use timelord.Tracker.{
  SessionId, SessionEvent, UsageTracker, SessionPresence, new, is_active, any_visible, observe,
  apply, recompute,
}
use timelord.Tracker.Activity.{apply_active}
use timelord.Tracker.Timeline.{run}

-- What one event does to session `id`: `none` is not logged on, `some b` is visible or not.
abbrev pub watch : SessionId → SessionEvent → Option Bool → Option Bool
watch id (SessionEvent.logon j) p = if j == id then some true else p
watch id (SessionEvent.unlock j) p = if j == id then some true else p
watch id (SessionEvent.console_connect j) p = if j == id then some true else p
watch id (SessionEvent.remote_connect j) p = if j == id then some true else p
watch id (SessionEvent.lock j) p = if j == id then some false else p
watch id (SessionEvent.console_disconnect j) p = if j == id then some false else p
watch id (SessionEvent.remote_disconnect j) p = if j == id then some false else p
watch id (SessionEvent.logoff j) p = if j == id then none else p
watch id SessionEvent.suspend p = p
watch id SessionEvent.resume p = p

-- What one event does to the power state.
abbrev pub power : SessionEvent → Bool → Bool
power SessionEvent.suspend b = true
power SessionEvent.resume b = false
power _ b = b

abbrev pub presence_after : SessionId → List (SessionEvent × DateTime) → Option Bool → Option Bool
presence_after id [] p = p
presence_after id ((e, at) ∷ es) p = presence_after id es (watch id e p)

abbrev pub asleep_after : List (SessionEvent × DateTime) → Bool → Bool
asleep_after [] b = b
asleep_after ((e, at) ∷ es) b = asleep_after es (power e b)

abbrev pub visibility : Option SessionPresence → Option Bool
visibility none = none
visibility (some p) = some p.visible

pub lookup-observe :
    (id : SessionId) (e : SessionEvent) (t : UsageTracker)
    → visibility (lookup id (observe e t).sessions) ≡ watch id e (visibility (lookup id t.sessions))
unfolding observe
lookup-observe id (SessionEvent.logon j) t = rw lookup-insert (ground arith)
lookup-observe id (SessionEvent.logoff j) t = rw lookup-remove (ground arith)
lookup-observe id SessionEvent.suspend t = refl
lookup-observe id SessionEvent.resume t = refl
lookup-observe id _ t = rw lookup-insert (ground arith)

suspended-observe :
    (e : SessionEvent) (t : UsageTracker) → (observe e t).suspended ≡ power e t.suspended
unfolding observe
suspended-observe e t = ground arith

observe-HasUniqueKeys :
    (e : SessionEvent) (t : UsageTracker)
    → HasUniqueKeys t.sessions
    → HasUniqueKeys (observe e t).sessions
unfolding observe
observe-HasUniqueKeys (SessionEvent.logon j) t h = insert-HasUniqueKeys j _ t.sessions h
observe-HasUniqueKeys (SessionEvent.logoff j) t h = remove-HasUniqueKeys j t.sessions h
observe-HasUniqueKeys SessionEvent.suspend t h = h
observe-HasUniqueKeys SessionEvent.resume t h = h
observe-HasUniqueKeys (SessionEvent.lock j) t h = insert-HasUniqueKeys j _ t.sessions h
observe-HasUniqueKeys (SessionEvent.unlock j) t h = insert-HasUniqueKeys j _ t.sessions h
observe-HasUniqueKeys (SessionEvent.console_connect j) t h = insert-HasUniqueKeys j _ t.sessions h
observe-HasUniqueKeys (SessionEvent.console_disconnect j) t h =
    insert-HasUniqueKeys j _ t.sessions h
observe-HasUniqueKeys (SessionEvent.remote_connect j) t h = insert-HasUniqueKeys j _ t.sessions h
observe-HasUniqueKeys (SessionEvent.remote_disconnect j) t h = insert-HasUniqueKeys j _ t.sessions h

module _ (t : UsageTracker) (e : SessionEvent) (at : DateTime) where
  pub sessions-apply : (apply t e at).0.sessions ≡ (observe e t).sessions
  unfolding apply recompute
  sessions-apply = ground arith

  pub suspended-apply : (apply t e at).0.suspended ≡ power e t.suspended
  unfolding apply recompute
  suspended-apply = ground (arith, suspended-observe e t)

-- Each session's entry in the tracker is what its own machine says.
pub run_presence :
    (id : SessionId) (t : UsageTracker) (es : List (SessionEvent × DateTime))
    → visibility (lookup id (run t es).sessions)
      ≡ presence_after id es (visibility (lookup id t.sessions))
unfolding run
run_presence id t [] = refl
run_presence id t ((e, at) ∷ es) =
    run_presence id (apply t e at).0 es
    ∙ ap (λ m. presence_after id es (visibility (lookup id m))) (sessions-apply t e at)
    ∙ ap (presence_after id es) (lookup-observe id e t)

pub run_suspended :
    (t : UsageTracker) (es : List (SessionEvent × DateTime))
    → (run t es).suspended ≡ asleep_after es t.suspended
unfolding run
run_suspended t [] = refl
run_suspended t ((e, at) ∷ es) =
    run_suspended (apply t e at).0 es ∙ ap (asleep_after es) (suspended-apply t e at)

pub run-HasUniqueKeys :
    (t : UsageTracker) (es : List (SessionEvent × DateTime))
    → HasUniqueKeys t.sessions
    → HasUniqueKeys (run t es).sessions
unfolding run
run-HasUniqueKeys t [] h = h
run-HasUniqueKeys t ((e, at) ∷ es) h =
    run-HasUniqueKeys (apply t e at).0 es (rw (sessions-apply t e at) (observe-HasUniqueKeys e t h))

run_active :
    (t : UsageTracker) (es : List (SessionEvent × DateTime))
    → is_active t ≡ any_visible t
    → is_active (run t es) ≡ any_visible (run t es)
unfolding run
run_active t [] h = h
run_active t ((e, at) ∷ es) h = run_active (apply t e at).0 es (apply_active t e at)

visible_entry :
    (m : List (SessionId × SessionPresence))
    → HasUniqueKeys m
    → any (λ p. p.1.visible) m ≡ true
    → (id : SessionId) × (visibility (lookup id m) ≡ some true)
unfolding lookup
visible_entry [] u h = cc
visible_entry ((k, p) ∷ m) u h = elim (Bool-cases p.visible) [
  | inl yes_visible ↦ (k, ground arith)
  | inr hidden ↦ let (id, e) = visible_entry m u.1 (ground arith) in (id, ground arith)
]

pub entry_visible :
    (id : SessionId) (m : List (SessionId × SessionPresence))
    → visibility (lookup id m) ≡ some true
    → any (λ p. p.1.visible) m ≡ true
unfolding lookup
entry_visible id [] h = cc
entry_visible id ((k, p) ∷ m) h = ground (arith, entry_visible id m)

any_visible_parts :
    (t : UsageTracker)
    → any_visible t ≡ true
    → (t.suspended ≡ false) × (any (λ p. p.1.visible) t.sessions ≡ true)
unfolding any_visible
any_visible_parts t h = ground arith

pub any_visible_of_parts :
    (t : UsageTracker)
    → t.suspended ≡ false
    → any (λ p. p.1.visible) t.sessions ≡ true
    → any_visible t ≡ true
unfolding any_visible
any_visible_of_parts t h k = ground arith

new_idle : is_active new ≡ any_visible new
unfolding new is_active any_visible
new_idle = refl

-- From a new tracker, after any events, a usage session is open exactly when the device is awake
-- and the machine of some session says that it is visible.
pub run-InUse :
    (es : List (SessionEvent × DateTime))
    → (is_active (run new es) ≡ true) ↔ (
        (asleep_after es false ≡ false)
        × ((id : SessionId) × (presence_after id es none ≡ some true)))
unfolding new lookup
run-InUse es = (
  λ h.
      let parts = any_visible_parts (run new es) (sym (run_active new es new_idle) ∙ h) in
      let (id, shown) = visible_entry (run new es).sessions (run-HasUniqueKeys new es tt) parts.1 in
      (sym (run_suspended new es) ∙ parts.0, (id, sym (run_presence id new es) ∙ shown)),
  λ h.
      run_active new es new_idle
      ∙ any_visible_of_parts (run new es) (run_suspended new es ∙ h.0)
          (entry_visible h.1.0 (run new es).sessions (run_presence h.1.0 new es ∙ h.1.1)),
)
