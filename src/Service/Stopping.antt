-- ===== src/Service/Stopping.antt =====
-- When a control of the service manager ends the message pump.
use timelord.Prelude.{
  ◌≡◌, refl, ap, ◌∙◌, Bool, true, false, ◌||◌, List, [], ◌∷◌, ◌++◌, any, any-append, All, arith,
}
use timelord.Service.{
  ServiceControl, Flags, init, stop, shutdown, interrogate, other, event_handler, start_pump,
}

-- What happens to the flags while the service runs, in its order: a control, with whether Windows
-- would take a message for the pump's thread at that time, and the pump storing its thread's id.
pub data Happening : Type 0 where
  controlled : ServiceControl → Bool → Happening
  pump_starts : Happening

unfoldable pub happen : Happening → Flags → Flags
unfolding event_handler start_pump
happen (controlled c posts) f = (event_handler c posts f).1
happen pump_starts f = start_pump f

unfoldable pub happen_each : List Happening → Flags → Flags
happen_each [] f = f
happen_each (h ∷ hs) f = happen_each hs (happen h f)

-- A stop or a shutdown whose message Windows takes.
abbrev pub gets_through : Happening → Bool
gets_through (controlled stop posts) = posts
gets_through (controlled shutdown posts) = posts
gets_through (controlled interrogate posts) = false
gets_through (controlled other posts) = false
gets_through pump_starts = false

abbrev pub is_shutdown : Happening → Bool
is_shutdown (controlled shutdown posts) = true
is_shutdown (controlled stop posts) = false
is_shutdown (controlled interrogate posts) = false
is_shutdown (controlled other posts) = false
is_shutdown pump_starts = false

abbrev pub is_control : Happening → Bool
is_control (controlled c posts) = true
is_control pump_starts = false

happen_append :
    (hs ks : List Happening) (f : Flags)
    → happen_each (hs ++ ks) f ≡ happen_each ks (happen_each hs f)
unfolding happen_each
happen_append [] ks f = refl
happen_append (h ∷ hs) ks f = happen_append hs ks (happen h f)

asked :
    (hs : List Happening) (f : Flags)
    → (happen_each hs f).shutdown_requested ≡ f.shutdown_requested || any is_shutdown hs
unfolding happen_each happen
asked [] f = ground arith
asked (controlled stop posts ∷ hs) f = asked hs (happen (controlled stop posts) f) ∙ ground arith
asked (controlled shutdown posts ∷ hs) f =
    asked hs (happen (controlled shutdown posts) f) ∙ ground arith
asked (controlled interrogate posts ∷ hs) f = asked hs f
asked (controlled other posts ∷ hs) f = asked hs f
asked (pump_starts ∷ hs) f = asked hs (happen pump_starts f)

-- Once the pump runs, every request to stop that Windows takes is in its queue.
posted :
    (hs : List Happening) (f : Flags)
    → f.pump_started ≡ true
    → (happen_each hs f).quit_posted ≡ f.quit_posted || any gets_through hs
unfolding happen_each happen
posted [] f s = ground arith
posted (controlled stop posts ∷ hs) f s =
    posted hs (happen (controlled stop posts) f) (ground (arith, s)) ∙ ground (arith, s)
posted (controlled shutdown posts ∷ hs) f s =
    posted hs (happen (controlled shutdown posts) f) (ground (arith, s)) ∙ ground (arith, s)
posted (controlled interrogate posts ∷ hs) f s = posted hs f s
posted (controlled other posts ∷ hs) f s = posted hs f s
posted (pump_starts ∷ hs) f s = posted hs (happen pump_starts f) refl

-- Before, none is.
unposted :
    (hs : List Happening) (f : Flags)
    → All (λ h. is_control h ≡ true) hs
    → f.pump_started ≡ false
    → f.quit_posted ≡ false
    → (happen_each hs f).quit_posted ≡ false
unfolding happen_each happen
unposted [] f c s q = q
unposted (controlled stop posts ∷ hs) f c s q =
    unposted hs (happen (controlled stop posts) f) c.1 (ground (arith, s)) (ground (arith, s, q))
unposted (controlled shutdown posts ∷ hs) f c s q =
    unposted hs (happen (controlled shutdown posts) f) c.1 (ground (arith, s))
      (ground (arith, s, q))
unposted (controlled interrogate posts ∷ hs) f c s q = unposted hs f c.1 s q
unposted (controlled other posts ∷ hs) f c s q = unposted hs f c.1 s q
unposted (pump_starts ∷ hs) f c s q = absurd (ground (arith, c.0))

-- The message that ends the pump is in its queue exactly if a stop or a shutdown came after the pump
-- stored its thread's id and Windows took the message for that thread: one that comes before, while
-- the service starts, is lost, and so is one whose message is refused. A shutdown of the system is on
-- record whenever it came.
pub stopped_exactly :
    (before after : List Happening)
    → All (λ h. is_control h ≡ true) before
    → ((happen_each (before ++ pump_starts ∷ after) init).quit_posted ≡ any gets_through after)
      × ((happen_each (before ++ pump_starts ∷ after) init).shutdown_requested
          ≡ any is_shutdown before || any is_shutdown after)
unfolding happen_each happen init
stopped_exactly before after c = (
  ap (λ f. f.quit_posted) (happen_append before (pump_starts ∷ after) init)
      ∙ posted after (happen pump_starts (happen_each before init)) refl
      ∙ ap (λ b. b || any gets_through after) (unposted before init c refl refl),
  asked (before ++ pump_starts ∷ after) init ∙ any-append is_shutdown before (pump_starts ∷ after),
)
