-- ===== src/Notifier/Once.antt =====
-- What one round of notifier/src/main.rs does to one message.
use mathlib.Core.Path.{subst}
use timelord.Prelude.{
  ℕ, ◌+◌, ◌-◌, ◌≡◌, refl, sym, ap, ◌∙◌, Bool, true, false, ◌&&◌, ◌||◌, Option, none, some, List, [],
  ◌∷◌, ◌++◌, map, String, any, any-append, ◌==◌, Bool-cases, inl, inr, arith,
}
use timelord.Prelude.File.{CacheFile}
use timelord.Prelude.Result.{Result, ok, err}
use timelord.Prelude.Set.{member, member-add_all}
use timelord.Prelude.Sort.{any-sort_by_key}
use timelord.Prelude.Time.{DateTime, Uuid}
use timelord.Ipc.{Message, Response, pending, messages}
use timelord.Engine.{MessageTracker, ToastDue, update, with_shown, shown_ids, take_new}
use timelord.Engine.Shown.{is_in, shown_member, not_shown, taken-IsNew}
use timelord.Notifier.{
  Notifier, Effect, Round, load_shown, save_shown, start, same_ids, remember_shown,
  show_new_messages, poll_pending, round, message_effect, warning_effect, dismiss_warning,
  show_warning, show_message, log,
}

-- The file has the ids that the tracker has.
abbrev pub IsSaved : Notifier → Type 0
IsSaved n = (id : Uuid) → member id (load_shown n.shown_file) ≡ member id n.tracker.shown

pub start-IsSaved : (file : CacheFile (List Uuid)) → IsSaved (start file)
unfolding start with_shown
start-IsSaved file id = sym (member-add_all id (load_shown file) [])

pub start-shown_file : (file : CacheFile (List Uuid)) → (start file).shown_file ≡ file
unfolding start
start-shown_file file = refl

member-shown_ids : (id : Uuid) (t : MessageTracker) → member id (shown_ids t) ≡ member id t.shown
unfolding shown_ids
member-shown_ids id t = any-sort_by_key (λ x. x) (λ x. x == id) t.shown

eq_of_same : (s t : List Uuid) → same_ids s t ≡ true → s ≡ t
eq_of_same [] [] h = refl
eq_of_same [] (y ∷ t) h = cc
eq_of_same (x ∷ s) [] h = cc
eq_of_same (x ∷ s) (y ∷ t) h =
    let e : x ≡ y = ground arith in
    let rest : s ≡ t = eq_of_same s t (ground arith) in ap (λ z. z ∷ s) e ∙ ap (λ l. y ∷ l) rest

remember-tracker :
    (failure : Option String) (t : MessageTracker) (n : Notifier)
    → (remember_shown failure t n).1.tracker ≡ t
unfolding remember_shown
remember-tracker none t n = ground arith
remember-tracker (some reason) t n = ground arith

remember-IsSaved :
    (t : MessageTracker) (n : Notifier) → IsSaved n → IsSaved (remember_shown none t n).1
unfolding remember_shown load_shown save_shown
remember-IsSaved t n h id = elim (Bool-cases (same_ids (shown_ids t) (shown_ids n.tracker))) [
  | inl same ↦ rw same (
      h id
      ∙ sym (member-shown_ids id n.tracker)
      ∙ ap (member id) (sym (eq_of_same (shown_ids t) (shown_ids n.tracker) same))
      ∙ member-shown_ids id t)
  | inr changed ↦ rw changed (member-shown_ids id t)
]

-- Whether a message is among the effects.
abbrev pub is_shown : Uuid → Effect → Bool
is_shown id (dismiss_warning i) = false
is_shown id (show_warning i text) = false
is_shown id (show_message i text) = i == id
is_shown id (log line) = false

abbrev pub shows : Uuid → List Effect → Bool
shows id effects = any (is_shown id) effects

dismissals_silent : (id : Uuid) (ids : List Uuid) → shows id (map dismiss_warning ids) ≡ false
dismissals_silent id [] = refl
dismissals_silent id (i ∷ ids) = dismissals_silent id ids

warnings_silent :
    (id : Uuid) (local_time : DateTime → List ℕ) (toasts : List ToastDue)
    → shows id (map (warning_effect local_time) toasts) ≡ false
warnings_silent id local_time [] = refl
warnings_silent id local_time (t ∷ toasts) = warnings_silent id local_time toasts

logged_silent :
    (id : Uuid) (t : MessageTracker) (n : Notifier) → shows id (remember_shown none t n).0 ≡ false
unfolding remember_shown
logged_silent id t n = elim (Bool-cases (same_ids (shown_ids t) (shown_ids n.tracker))) [
  | inl same ↦ rw same refl
  | inr changed ↦ rw changed refl
]

polled_silent :
    (id : Uuid) (local_time : DateTime → List ℕ) (first second : DateTime)
    (answer : Result String Response) (n : Notifier)
    → shows id (poll_pending local_time first second answer n).0 ≡ false
unfolding poll_pending
polled_silent id local_time first second (err reason) n = ground arith
polled_silent id local_time first second (ok (messages server_utc ms)) n = refl
polled_silent id local_time first second (ok (pending server_utc actions)) n =
    let tick = (update actions (server_utc + second - first) n.engine).0 in
    any-append (is_shown id) (map dismiss_warning tick.cancelled)
      (map (warning_effect local_time) tick.toasts)
    ∙ rw (dismissals_silent id tick.cancelled) (warnings_silent id local_time tick.toasts)

polled-IsSaved :
    (local_time : DateTime → List ℕ) (first second : DateTime) (answer : Result String Response)
    (n : Notifier)
    → ((poll_pending local_time first second answer n).2.tracker ≡ n.tracker)
      × ((poll_pending local_time first second answer n).2.shown_file ≡ n.shown_file)
unfolding poll_pending
polled-IsSaved local_time first second (err reason) n = (refl, refl)
polled-IsSaved local_time first second (ok (messages server_utc ms)) n = (refl, refl)
polled-IsSaved local_time first second (ok (pending server_utc actions)) n = (refl, refl)

-- What a round, or its first half, does to one message: it is known after it if it was before or is
-- shown, it is not shown if it was known, and the file goes along.
pub record IsOnce (id : Uuid) (n : Notifier) (effects : List Effect) (n' : Notifier) : Type 0 where
  pub known : member id n'.tracker.shown ≡ member id n.tracker.shown || shows id effects
  pub quiet : member id n.tracker.shown && shows id effects ≡ false
  pub saved : IsSaved n'

abbrev pub Lists : Uuid → Result String Response → Type 0
Lists id (err reason) = Unit {0}
Lists id (ok (pending server_utc actions)) = Unit {0}
Lists id (ok (messages server_utc ms)) = is_in id ms ≡ true

nothing-IsOnce : (id : Uuid) (n : Notifier) → IsSaved n → IsOnce id n [] n
nothing-IsOnce id n h = record { known = ground arith; quiet = ground arith; saved = h }

shown_or_not :
    (a b c : Bool) → (a ≡ true → b ≡ false) → c ≡ true → ((a || b) && c ≡ a || b) × (a && b ≡ false)
shown_or_not true b c h k = (ground arith, h refl)
shown_or_not false b c h k = (ground arith, refl)

effects_shown :
    (id : Uuid) (fresh : List Message) (logged : List Effect)
    → shows id logged ≡ false
    → shows id (map message_effect fresh ++ logged) ≡ is_in id fresh
effects_shown id [] logged h = h
effects_shown id (m ∷ fresh) logged h = ground (arith, effects_shown id fresh logged h)

show-IsOnce :
    (id : Uuid) (answer : Result String Response) (n : Notifier)
    → Lists id answer
    → IsSaved n
    → IsOnce id n (show_new_messages answer none n).0 (show_new_messages answer none n).1
unfolding show_new_messages
show-IsOnce id (err reason) n l h = nothing-IsOnce id n h
show-IsOnce id (ok (pending server_utc actions)) n l h = nothing-IsOnce id n h
show-IsOnce id (ok (messages now ms)) n l h =
    let fresh = (take_new ms now n.tracker).0 in
    let t = (take_new ms now n.tracker).1 in
    let e = effects_shown id fresh (remember_shown none t n).0 (logged_silent id t n) in
    let (after, silent) =
      shown_or_not (member id n.tracker.shown) (is_in id fresh) (is_in id ms)
        (λ s. not_shown id now n.tracker fresh s (taken-IsNew ms now n.tracker)) l in
    record {
      known =
          ap (λ s. member id s.shown) (remember-tracker none t n)
          ∙ shown_member id ms now n.tracker
          ∙ after
          ∙ ap (λ b. member id n.tracker.shown || b) (sym e);
      quiet = ap (λ b. member id n.tracker.shown && b) e ∙ silent;
      saved = remember-IsSaved t n h;
    }

polled-IsOnce :
    (id : Uuid) (local_time : DateTime → List ℕ) (x : Round) (n : Notifier) (shown : List Effect)
    (n' : Notifier)
    → IsOnce id n shown n'
    → IsOnce id n
        (shown ++ (poll_pending local_time x.first_reading x.second_reading x.pending_answer n').0)
        (poll_pending local_time x.first_reading x.second_reading x.pending_answer n').2
polled-IsOnce id local_time x n shown n' once =
    let polled = poll_pending local_time x.first_reading x.second_reading x.pending_answer n' in
    let (tracker, file) =
      polled-IsSaved local_time x.first_reading x.second_reading x.pending_answer n' in
    let silent = polled_silent id local_time x.first_reading x.second_reading x.pending_answer n' in
    let all = any-append (is_shown id) shown polled.0 in
    record {
      known = ap (λ t. member id t.shown) tracker ∙ ground (arith, once.known, all, silent);
      quiet = ground (arith, once.quiet, all, silent);
      saved = λ i.
          ap (λ f. member i (load_shown f)) file
          ∙ once.saved i
          ∙ ap (λ t. member i t.shown) (sym tracker);
    }

pub round-IsOnce :
    (id : Uuid) (local_time : DateTime → List ℕ) (x : Round) (n : Notifier)
    → x.save_failure ≡ none
    → Lists id x.messages_answer
    → IsSaved n
    → IsOnce id n (round local_time x n).0 (round local_time x n).2
unfolding round
round-IsOnce id local_time x n f l h =
    let once : IsOnce id n (show_new_messages x.messages_answer x.save_failure n).0
        (show_new_messages x.messages_answer x.save_failure n).1 =
      subst
        (λ o.
          IsOnce id n (show_new_messages x.messages_answer o n).0
            (show_new_messages x.messages_answer o n).1)
        (sym f) (show-IsOnce id x.messages_answer n l h) in
    polled-IsOnce id local_time x n _ _ once
