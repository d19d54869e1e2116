-- ===== src/Commands/Forced.antt =====
-- The URL that `discover --force` of agent/src/main.rs writes, at the next start of the agent.
use mathlib.Core.Path.{subst}
use timelord.Prelude.{◌≡◌, refl, true, false, Option, none, some, List, String}
use timelord.Prelude.Result.{Result, ok, err}
use timelord.Prelude.Time.{Uuid}
use timelord.Prelude.Trim.{is_empty, trim}
use timelord.Config.{
  AgentConfig, AgentFileConfig, CliOverrides, ConfigFile, Loading, missing, unreadable, holding,
  written, load, default_file, from_process_env, persist_controller_url, no_overrides,
}
use timelord.Agent.{Agent}
use timelord.Discovery.{DiscoveredController, Search, select_best, resolve_controller_url}
use timelord.Discovery.Kept.{with_url, load-with_url}
use timelord.Commands.{settle_discover, choose_found, discover_with, discover}

-- What a forced choice leaves in the file.
abbrev Leaves : Result String (Option DiscoveredController) × ConfigFile → Type 0
Leaves (ok (some best), left) =
    (d : AgentFileConfig) × (left ≡ holding (with_url best.controller_url d))
Leaves (ok none, left) = Unit {0}
Leaves (err reason, left) = Unit {0}

settled-Leaves :
    (chosen : Option DiscoveredController) (file : ConfigFile)
    → Leaves (settle_discover written true chosen file)
unfolding settle_discover persist_controller_url
settled-Leaves none file = tt
settled-Leaves (some best) missing = (default_file, refl)
settled-Leaves (some best) (unreadable reason) = tt
settled-Leaves (some best) (holding d) = (d, refl)

chosen-Leaves :
    (found : Result String (List DiscoveredController)) (file : ConfigFile)
    → Leaves (choose_found written true found file)
unfolding choose_found
chosen-Leaves (err reason) file = tt
chosen-Leaves (ok found) file = settled-Leaves (select_best found) file

loaded-Leaves :
    (find : AgentConfig → Result String (List DiscoveredController))
    (r : Result String AgentConfig × ConfigFile)
    → Leaves (discover_with find written true r)
unfolding discover_with
loaded-Leaves find (err reason, file) = tt
loaded-Leaves find (ok config, file) = chosen-Leaves (find config) file

-- If `discover --force` chooses a controller and writes to `agent.toml`, the agent's next start takes
-- that controller's URL, without any discovery, unless the command line or the environment names
-- another. The URL must not be blank.
pub forced_url_kept :
    (parse_str : String → Option Uuid) (print : Uuid → String) (x y : Loading) (cli : CliOverrides)
    (find : AgentConfig → Result String (List DiscoveredController)) (best : DiscoveredController)
    (c : AgentConfig) (file left after : ConfigFile) (more : List Search) (a : Agent)
    → is_empty (trim best.controller_url) ≡ false
    → cli.controller_url ≡ none
    → (from_process_env y.env).controller_url ≡ none
    → discover parse_str print x find written true file ≡ (ok (some best), left)
    → load parse_str print y cli left ≡ (ok c, after)
    → resolve_controller_url false c.controller_url more a ≡ (some best.controller_url, a)
unfolding discover resolve_controller_url
forced_url_kept parse_str print x y cli find best c file left after more a b no_cli no_env done
      next =
    let (d, e) =
      subst Leaves done (loaded-Leaves find (load parse_str print x no_overrides file)) in
    let url =
      load-with_url parse_str print y cli best.controller_url c after b no_cli no_env d
        (subst (λ f. load parse_str print y cli f ≡ (ok c, after)) e next) in
    rw url refl
