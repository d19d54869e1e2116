-- ===== src/Discovery/Kept.antt =====
-- The URL that discovery finds, in `agent.toml` and after a restart.
use mathlib.Core.Path.{subst}
use timelord.Prelude.{
  ◌≡◌, refl, sym, ap, ◌∙◌, true, false, Bool, Option, none, some, List, [], ◌∷◌, All, String,
  unwrap_or,
}
use timelord.Prelude.Result.{Result, ok, err}
use timelord.Prelude.Time.{Uuid}
use timelord.Prelude.Trim.{is_empty, trim}
use timelord.Config.{
  AgentConfig, AgentFileConfig, CliOverrides, ConfigFile, Loading, Write, missing, unreadable,
  holding, written, load, load_file, resolve, keep_generated, from_process_env,
  persist_controller_url,
}
use timelord.Config.Identity.{contents, kept_as_is, kept_new}
use timelord.Events.{controller_discovery_started}
use timelord.Agent.{Agent, enqueue}
use timelord.Discovery.{
  DiscoveredController, Search, select_best, settle_search, discovery_failed, search_once,
  search_each, resolve_controller_url, keep_url,
}
use timelord.Discovery.Rounds.{go_on, search_each-go_on}

-- What the file becomes when the URL is written.
abbrev AreWritten : List Search → Type 0
AreWritten searches = All (λ x. x.write ≡ written) searches

abbrev FileHas : ConfigFile → Option String × Agent → Type 0
FileHas before (none, a) = Unit {0}
FileHas before (some url, a) = a.agent_toml ≡ (persist_controller_url written url before).1

enqueue-agent_toml :
    (x : Search) (a : Agent)
    → (enqueue x.start (controller_discovery_started x.start.stamp) a).agent_toml ≡ a.agent_toml
unfolding enqueue
enqueue-agent_toml x a = refl

failed-agent_toml :
    (x : Search) (reason : String) (a : Agent)
    → (discovery_failed x reason a).agent_toml ≡ a.agent_toml
unfolding discovery_failed enqueue
failed-agent_toml x reason a = refl

module _ (searches : List Search) (k : (b : Agent) → FileHas b.agent_toml (search_each searches b))
    (x : Search) (w : x.write ≡ written) where
  failed-FileHas :
      (reason : String) (a : Agent)
      → FileHas a.agent_toml (search_each searches (discovery_failed x reason a))
  failed-FileHas reason a =
      subst (λ f. FileHas f (search_each searches (discovery_failed x reason a)))
        (failed-agent_toml x reason a) (k (discovery_failed x reason a))

  settled-FileHas :
      (chosen : Option DiscoveredController) (a : Agent)
      → FileHas a.agent_toml (go_on (settle_search x chosen a) searches)
  unfolding settle_search keep_url enqueue
  settled-FileHas none a = failed-FileHas "no controller responded" a
  settled-FileHas (some best) a =
      ap (λ v. (persist_controller_url v best.controller_url a.agent_toml).1) w

  once-FileHas :
      (found : Result String (List DiscoveredController)) (a : Agent)
      → FileHas a.agent_toml (go_on (search_once x found a) searches)
  unfolding search_once
  once-FileHas (ok found) a = settled-FileHas (select_best found) a
  once-FileHas (err reason) a = failed-FileHas reason a

search_each-FileHas :
    (searches : List Search)
    → AreWritten searches
    → (a : Agent) → FileHas a.agent_toml (search_each searches a)
unfolding search_each
search_each-FileHas [] h a = tt
search_each-FileHas (x ∷ searches) h a =
    let begun = enqueue x.start (controller_discovery_started x.start.stamp) a in
    subst (λ f. FileHas f (search_each (x ∷ searches) a)) (enqueue-agent_toml x a)
      (subst (λ r. FileHas begun.agent_toml r)
        (sym (search_each-go_on (search_once x x.found begun) searches))
        (once-FileHas searches (search_each-FileHas searches h.1) x h.0 x.found begun))

abbrev pub with_url : String → AgentFileConfig → AgentFileConfig
with_url url d = record d { controller = record d.controller { url = url } }

persist-readable :
    (url : String) (file : ConfigFile) (d : AgentFileConfig)
    → load_file file ≡ ok d
    → (persist_controller_url written url file).1 ≡ holding (with_url url (contents file))
unfolding persist_controller_url
persist-readable url missing d h = refl
persist-readable url (unreadable reason) d h = cc
persist-readable url (holding e) d h = refl

end-FileHas :
    (before : ConfigFile) (r : Option String × Agent) (url : String)
    → FileHas before r
    → r.0 ≡ some url
    → r.1.agent_toml ≡ (persist_controller_url written url before).1
end-FileHas before (none, a) url h e = cc
end-FileHas before (some u, a) url h e =
    h ∙ ap (λ v. (persist_controller_url written (unwrap_or v url) before).1) e

kept_config :
    (to_string : Uuid → String) (w : Write) (r c : AgentConfig) (b : Bool) (file file' : ConfigFile)
    → keep_generated to_string w r b file ≡ (ok c, file')
    → r ≡ c
kept_config to_string w r c true file file' h = (kept_new to_string w r c file file' h).0
kept_config to_string w r c false file file' h = (kept_as_is to_string w r c file file' h).0

module _ (parse_str : String → Option Uuid) (to_string : Uuid → String) (y : Loading)
    (cli : CliOverrides) (url : String) (c : AgentConfig) (file' : ConfigFile)
    (nonblank : is_empty (trim url) ≡ false) (no_cli : cli.controller_url ≡ none)
    (no_env : (from_process_env y.env).controller_url ≡ none) where
  resolve-with_url :
      (d : AgentFileConfig)
      → (resolve parse_str
          (with_url url d)
          (from_process_env y.env)
          cli
          (unwrap_or y.hostname "unknown-host")
          y.fresh).controller_url
        ≡ some url
  unfolding resolve
  resolve-with_url d = rw no_cli (rw no_env (rw nonblank refl))

  pub load-with_url :
      (d : AgentFileConfig)
      → load parse_str to_string y cli (holding (with_url url d)) ≡ (ok c, file')
      → c.controller_url ≡ some url
  unfolding load
  load-with_url d h =
      ap (λ r. r.controller_url)
        (sym (kept_config to_string y.write _ c _ (holding (with_url url d)) file' h))
      ∙ resolve-with_url d

  -- If discovery finds a URL, in whichever round, and the writes to a readable `agent.toml` succeed,
  -- then the next run of the agent has that URL as its controller's, without any discovery, unless the
  -- command line or the environment names another. The URL must not be blank.
  pub found_url_kept :
      (searches more : List Search) (a b : Agent) (d : AgentFileConfig)
      → AreWritten searches
      → load_file a.agent_toml ≡ ok d
      → (resolve_controller_url false none searches a).0 ≡ some url
      → load parse_str to_string y cli (resolve_controller_url false none searches a).1.agent_toml
        ≡ (ok c, file')
      → resolve_controller_url false c.controller_url more b ≡ (some url, b)
  unfolding resolve_controller_url
  found_url_kept searches more a b d w readable found loaded =
      let left =
        end-FileHas a.agent_toml (search_each searches a) url (search_each-FileHas searches w a)
          found
        ∙ persist-readable url a.agent_toml d readable in
      let e =
        load-with_url (contents a.agent_toml)
          (subst (λ f. load parse_str to_string y cli f ≡ (ok c, file')) left loaded) in
      rw e refl
