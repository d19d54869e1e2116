-- ===== src/Engine/Visit.antt =====
-- One round of `update`'s loop: what it does to the warnings.
use timelord.Prelude.{◌≡◌, arith}
use timelord.Prelude.Int.{ℤ}
use timelord.Prelude.Time.{DateTime, num_seconds}
use timelord.Ipc.{PendingAction}
use timelord.Engine.{Progress, crossed, fire, warn, count_down, sooner, visit}

-- The countdown leaves the warnings alone.
module _ (a : PendingAction) (r : ℤ) (p : Progress) where
  count_down-toasts : (count_down a r p).toasts ≡ p.toasts
  unfolding count_down
  count_down-toasts = ground arith

  count_down-fired : (count_down a r p).fired ≡ p.fired
  unfolding count_down
  count_down-fired = ground arith

-- `visit` before its countdown.
abbrev pub warned : DateTime → PendingAction → Progress → Progress
warned now a p =
    fire a (num_seconds a.at_utc now) (crossed (num_seconds a.at_utc now))
      (record p { soonest = sooner (num_seconds a.at_utc now) p.soonest })

module _ (now : DateTime) (a : PendingAction) (p : Progress) where
  pub visit-toasts : (visit now a p).toasts ≡ (warned now a p).toasts
  unfolding visit warn
  visit-toasts = count_down-toasts a (num_seconds a.at_utc now) (warned now a p)

  pub visit-fired : (visit now a p).fired ≡ (warned now a p).fired
  unfolding visit warn
  visit-fired = count_down-fired a (num_seconds a.at_utc now) (warned now a p)
