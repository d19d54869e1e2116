-- ===== src/Discovery/Rounds.antt =====
-- The rounds of discovery: which URL the loop of `resolve_controller_url` ends with.
use mathlib.Core.Path.{subst}
use timelord.Prelude.{
  ◌≡◌, refl, sym, ap, true, false, Option, none, some, List, [], ◌∷◌, ◌++◌, All, String,
}
use timelord.Prelude.Result.{Result, ok, err}
use timelord.Events.{controller_discovery_started}
use timelord.Agent.{Agent, enqueue}
use timelord.Discovery.{
  DiscoveredController, Search, select_best, settle_search, search_once, search_each,
  resolve_controller_url,
}
use timelord.Discovery.Best.{IsBest, select_best-IsBest}

abbrev pub answers : Result String (List DiscoveredController) → List DiscoveredController
answers (ok found) = found
answers (err reason) = []

-- Without a URL, no controller answered in any round. With one, it is that of a best controller of
-- the first round in which one answered.
abbrev pub IsFirstFound : List Search → Option String → Type 0
IsFirstFound searches none = All (λ x. answers x.found ≡ []) searches
IsFirstFound searches (some url) =
    (before : List Search) × (x : Search) × (after : List Search) × (best : DiscoveredController)
    × (searches ≡ before ++ x ∷ after)
    × All (λ y. answers y.found ≡ []) before
    × IsBest (answers x.found) (some best)
    × (best.controller_url ≡ url)

skip_round :
    (x : Search) (searches : List Search) (url : Option String)
    → answers x.found ≡ []
    → IsFirstFound searches url
    → IsFirstFound (x ∷ searches) url
skip_round x searches none h k = (h, k)
skip_round x searches (some url) h (before, y, after, best, e, quiet, is_best, u) =
    (x ∷ before, y, after, best, ap (λ l. x ∷ l) e, (h, quiet), is_best, u)

-- What one round goes on with, given what its answers chose.
abbrev pub go_on : Option String × Agent → List Search → Option String × Agent
go_on (none, a) searches = search_each searches a
go_on (some url, a) searches = (some url, a)

pub search_each-go_on :
    (r : Option String × Agent) (searches : List Search)
    → (let (url, a') = r in
        let again = search_each searches a' in elim url [ none ↦ again | some u ↦ (some u, a') ])
      ≡ go_on r searches
search_each-go_on (none, a) searches = refl
search_each-go_on (some u, a) searches = refl

settled-IsFirstFound :
    (x : Search) (searches : List Search) (chosen : Option DiscoveredController) (a : Agent)
    → IsBest (answers x.found) chosen
    → ((b : Agent) → IsFirstFound searches (search_each searches b).0)
    → IsFirstFound (x ∷ searches) (go_on (settle_search x chosen a) searches).0
unfolding settle_search
settled-IsFirstFound x searches none a h k =
    skip_round x searches (search_each searches (settle_search x none a).1).0 h (k _)
settled-IsFirstFound x searches (some best) a h k = ([], x, searches, best, refl, tt, h, refl)

module _ (x : Search) (searches : List Search)
    (k : (b : Agent) → IsFirstFound searches (search_each searches b).0) where
  once-IsFirstFound :
      (found : Result String (List DiscoveredController)) (a : Agent)
      → answers x.found ≡ answers found
      → IsFirstFound (x ∷ searches) (go_on (search_once x found a) searches).0
  unfolding search_once
  once-IsFirstFound (ok found) a e =
      settled-IsFirstFound x searches (select_best found) a
        (subst (λ l. IsBest l (select_best found)) (sym e) (select_best-IsBest found)) k
  once-IsFirstFound (err reason) a e =
      skip_round x searches (search_each searches (search_once x (err reason) a).1).0 e (k _)

search_each-IsFirstFound :
    (searches : List Search) (a : Agent) → IsFirstFound searches (search_each searches a).0
unfolding search_each
search_each-IsFirstFound [] a = tt
search_each-IsFirstFound (x ∷ searches) a =
    let begun = enqueue x.start (controller_discovery_started x.start.stamp) a in
    subst (λ r. IsFirstFound (x ∷ searches) r.0)
      (sym (search_each-go_on (search_once x x.found begun) searches))
      (once-IsFirstFound x searches (search_each-IsFirstFound searches) x.found begun refl)

-- If a rediscovery is forced, whatever is configured, and also if no URL is: the loop ends with the URL
-- of a best of the controllers that answered in the first round in which one did, where none of them
-- has a higher priority, or the same and a faster response, or the same of both and a smaller id. It
-- has no URL only while no controller has answered.
pub resolve-IsFirstFound :
    (configured : Option String) (searches : List Search) (a : Agent)
    → IsFirstFound searches (resolve_controller_url true configured searches a).0
      × IsFirstFound searches (resolve_controller_url false none searches a).0
unfolding resolve_controller_url
resolve-IsFirstFound configured searches a =
    (search_each-IsFirstFound searches a, search_each-IsFirstFound searches a)
