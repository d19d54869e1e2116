-- ===== src/Engine.antt =====
-- notifier/src/engine.rs: which warnings are due. `HashSet`s are the lists of Prelude.Set, and the
-- thresholds, all positive, are natural numbers.
pub mod Tightest
pub mod Visit
pub mod Warnings
pub mod Due
pub mod Cancelled
pub mod Countdown
pub mod Shown
use timelord.Prelude.{
  ℕ, ◌≡◌, Bool, not, ◌&&◌, Option, none, some, List, [], ◌∷◌, ◌++◌, map, ltb, ◌==◌, keep, any,
  minimum, if◌then◌else◌,
}
use timelord.Prelude.Int.{ℤ, pos, leb_ℤ}
use timelord.Prelude.Set.{member, add_all, difference}
use timelord.Prelude.Sort.{sort_by_key}
use timelord.Prelude.Time.{DateTime, Duration, Uuid, from_secs, num_seconds}
use timelord.Ipc.{PendingAction, Message}

abbrev pub thresholds : List ℕ
thresholds = 900 ∷ 300 ∷ 60 ∷ 30 ∷ []

abbrev pub countdown_seconds : ℕ
countdown_seconds = 60

abbrev pub fast_poll_within_seconds : ℕ
fast_poll_within_seconds = 90

abbrev pub fast_poll : Duration
fast_poll = from_secs 2

abbrev pub slow_poll : Duration
slow_poll = from_secs 10

pub record ToastDue : Type 0 where
  pub action : PendingAction
  pub threshold : ℕ
  pub remaining : ℤ

pub record Tick : Type 0 where
  pub toasts : List ToastDue
  pub cancelled : List Uuid
  pub countdown : List Uuid
  pub next_poll : Option Duration

pub record Engine : Type 0 where
  pub fired : List (Uuid × ℕ)
  pub known : List Uuid

-- `Engine::default`.
unfoldable pub init : Engine
init = record { fired = []; known = [] }

-- What the loop of `update` carries: the fired pairs, and the three results under way.
pub record Progress : Type 0 where
  pub fired : List (Uuid × ℕ)
  pub toasts : List ToastDue
  pub countdown : List Uuid
  pub soonest : Option ℤ

abbrev pub is_pair : Uuid → ℕ → Uuid × ℕ → Bool
is_pair id threshold (i, t) = (i == id) && (t == threshold)

-- The tightest threshold that `remaining` has crossed.
unfoldable pub crossed : ℤ → Option ℕ
crossed remaining = minimum (keep (λ t. leb_ℤ remaining (pos t)) thresholds)

-- `fired.insert` and the toast that it lets through.
unfoldable pub fire : PendingAction → ℤ → Option ℕ → Progress → Progress
fire a remaining none p = p
fire a remaining (some threshold) p = if any (is_pair a.id threshold) p.fired then p else record p {
  fired = (a.id, threshold) ∷ p.fired;
  toasts = p.toasts ++ record { action = a; threshold = threshold; remaining = remaining } ∷ [];
}

unfoldable pub warn : PendingAction → ℤ → Progress → Progress
warn a remaining p = fire a remaining (crossed remaining) p

unfoldable pub sooner : ℤ → Option ℤ → Option ℤ
sooner remaining none = some remaining
sooner remaining (some s) = some (if leb_ℤ s remaining then s else remaining)

unfoldable pub count_down : PendingAction → ℤ → Progress → Progress
count_down a remaining p =
    if leb_ℤ remaining (pos countdown_seconds)
    then record p { countdown = p.countdown ++ a.id ∷ [] }
    else p

-- The body of the loop.
unfoldable pub visit : DateTime → PendingAction → Progress → Progress
visit now a p =
    let remaining = num_seconds a.at_utc now in
    count_down a remaining (warn a remaining (record p { soonest = sooner remaining p.soonest }))

unfoldable pub visit_all : DateTime → List PendingAction → Progress → Progress
visit_all now [] p = p
visit_all now (a ∷ actions) p = visit_all now actions (visit now a p)

unfoldable pub poll_after : Option ℤ → Duration
poll_after none = slow_poll
poll_after (some s) = if leb_ℤ s (pos fast_poll_within_seconds) then fast_poll else slow_poll

-- What `update` has before its loop.
unfoldable pub at_start : List PendingAction → Engine → Progress
at_start actions e = record {
  fired = keep (λ p. member p.0 (add_all (map (λ a. a.id) actions) [])) e.fired;
  toasts = [];
  countdown = [];
  soonest = none;
}

unfoldable pub update : List PendingAction → DateTime → Engine → Tick × Engine
unfolding at_start poll_after
update actions now e =
    let live = add_all (map (λ a. a.id) actions) [] in
    let p = visit_all now actions (at_start actions e) in
    (
      record {
        toasts = p.toasts;
        cancelled = sort_by_key (λ id. id) (difference e.known live);
        countdown = p.countdown;
        next_poll = some (poll_after p.soonest);
      },
      record { fired = p.fired; known = live },
    )

pub record MessageTracker : Type 0 where
  pub shown : List Uuid

unfoldable pub with_shown : List Uuid → MessageTracker
with_shown ids = record { shown = add_all ids [] }

unfoldable pub shown_ids : MessageTracker → List Uuid
shown_ids t = sort_by_key (λ id. id) t.shown

-- The test of the first filter of `take_new`.
abbrev pub is_fresh : DateTime → List Uuid → Message → Bool
is_fresh now shown m = ltb now m.expires_utc && not (member m.id shown)

unfoldable pub fresh_messages : List Message → DateTime → MessageTracker → List Message
fresh_messages reported now t = sort_by_key (λ m. m.sent_utc) (keep (is_fresh now t.shown) reported)

unfoldable pub take_new : List Message → DateTime → MessageTracker → List Message × MessageTracker
unfolding fresh_messages
take_new reported now t =
    let fresh = fresh_messages reported now t in
    let reported_ids = add_all (map (λ m. m.id) reported) [] in
    (
      fresh,
      record {
        shown = keep (λ id. member id reported_ids) (add_all (map (λ m. m.id) fresh) t.shown);
      },
    )
