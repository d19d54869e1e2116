-- ===== src/Config/Servers.antt =====
-- The servers that the time is asked of.
use timelord.Prelude.{
  ◌≡◌, refl, false, not, Option, none, some, List, [], ◌∷◌, map, String, All, keep, Bool-cases, inl,
  inr, ◌≢◌,
}
use timelord.Prelude.Trim.{is_empty, trim, trim_again}
use timelord.Prelude.Time.{Uuid}
use timelord.Clock.{default_ntp_servers}
use timelord.Config.{
  AgentFileConfig, EnvOverrides, CliOverrides, unless_none_left, usable_servers, resolve,
}

-- A name that can be looked up: not empty, with no white space around it.
abbrev pub IsName : String → Type 0
IsName s = (is_empty s ≡ false) × (trim s ≡ s)

kept-IsName : (servers : List String) → All IsName (keep (λ s. not (is_empty s)) (map trim servers))
kept-IsName [] = tt
kept-IsName (s ∷ servers) = elim (Bool-cases (is_empty (trim s))) [
  | inl blank ↦ rw blank (kept-IsName servers)
  | inr named ↦ rw named ((named, trim_again s), kept-IsName servers)
]

default-IsName : All IsName default_ntp_servers
unfolding trim
default-IsName = ((refl, refl), ((refl, refl), ((refl, refl), tt)))

chosen-IsName :
    (servers : List String)
    → All IsName servers
    → All IsName (unless_none_left servers) × (unless_none_left servers ≢ [])
chosen-IsName [] h = (default-IsName, λ e. cc)
chosen-IsName (s ∷ servers) h = (h, λ e. cc)

configured-IsName :
    (configured : Option (List String))
    → All IsName (usable_servers configured) × (usable_servers configured ≢ [])
unfolding usable_servers
configured-IsName none = chosen-IsName default_ntp_servers default-IsName
configured-IsName (some servers) =
    chosen-IsName (keep (λ s. not (is_empty s)) (map trim servers)) (kept-IsName servers)

-- There is always a server to ask, and each that is asked has a name: not empty, and with no white
-- space around it, whatever `agent.toml` lists.
pub servers_usable :
    (parse_str : String → Option Uuid) (file : AgentFileConfig) (env : EnvOverrides)
    (cli : CliOverrides) (hostname : String) (fresh : Uuid)
    → All IsName (resolve parse_str file env cli hostname fresh).ntp_servers
      × ((resolve parse_str file env cli hostname fresh).ntp_servers ≢ [])
unfolding resolve
servers_usable parse_str file env cli hostname fresh = configured-IsName file.time.ntp_servers
