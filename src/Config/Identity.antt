-- ===== src/Config/Identity.antt =====
-- The device's id: what a second `load` makes of the file that the first one left, and what becomes of
-- a stored id when an override does not parse.
use mathlib.Core.Path.{subst}
use timelord.Prelude.{
  ◌≡◌, refl, sym, ap, ◌∙◌, true, false, Option, none, some, String, unwrap_or, Bool-cases, inl, inr,
  arith,
}
use timelord.Prelude.Result.{ok}
use timelord.Prelude.Time.{Uuid}
use timelord.Prelude.Trim.{is_empty, trim}
use timelord.Config.{
  AgentFileConfig, EnvOverrides, CliOverrides, AgentConfig, ConfigFile, Loading, Write, missing,
  unreadable, holding, written, failed, load, resolve, choose_id, keep_generated, non_empty,
  from_process_env, default_file,
}

-- What the uuid crate promises: a printed id parses back, and is not blank.
pub record UuidText (parse_str : String → Option Uuid) (to_string : Uuid → String) : Type 0 where
  pub parses : (id : Uuid) → parse_str (to_string id) ≡ some id
  pub shows : (id : Uuid) → is_empty (trim (to_string id)) ≡ false

abbrev pub with_id : (Uuid → String) → Uuid → AgentFileConfig → AgentFileConfig
with_id to_string id c = record c { agent = record c.agent { device_id = to_string id } }

chosen_again :
    (parse_str : String → Option Uuid) (s : Option String) (fresh fresh' : Uuid)
    → (choose_id parse_str s fresh).1 ≡ false
    → choose_id parse_str s fresh' ≡ choose_id parse_str s fresh
unfolding choose_id
chosen_again parse_str none fresh fresh' h = cc
chosen_again parse_str (some s) fresh fresh' h = ground (arith, h)

module _ (parse_str : String → Option Uuid) (to_string : Uuid → String)
    (u : UuidText parse_str to_string) where
  chosen_stored :
      (id fresh : Uuid) → choose_id parse_str (non_empty (some (to_string id))) fresh ≡ (id, false)
  unfolding choose_id non_empty
  chosen_stored id fresh = rw (u.shows id) (rw (u.parses id) refl)

  module _ (env : EnvOverrides) (cli : CliOverrides) (host : String) (fresh fresh' : Uuid)
      (c : AgentFileConfig) where
    resolve_again :
        (resolve parse_str c env cli host fresh).device_id_generated ≡ false
        → resolve parse_str c env cli host fresh' ≡ resolve parse_str c env cli host fresh
    unfolding resolve
    resolve_again h = rw (chosen_again parse_str _ fresh fresh' h) refl

    resolve_stored :
        (id : Uuid)
        → cli.device_id ≡ none
        → env.device_id ≡ none
        → resolve parse_str (with_id to_string id c) env cli host fresh'
          ≡ record (resolve parse_str c env cli host fresh) {
            device_id = id;
            device_id_generated = false;
          }
    unfolding resolve
    resolve_stored id h k = rw h (rw k (rw (u.shows id) (rw (u.parses id) refl)))

-- What a file that is readable holds.
abbrev pub contents : ConfigFile → AgentFileConfig
contents missing = default_file
contents (unreadable reason) = default_file
contents (holding c) = c

pub kept_as_is :
    (to_string : Uuid → String) (w : Write) (r c : AgentConfig) (file file' : ConfigFile)
    → keep_generated to_string w r false file ≡ (ok c, file')
    → (r ≡ c) × (file ≡ file')
unfolding keep_generated
kept_as_is to_string w r c file file' h = (cc, cc)

pub kept_new :
    (to_string : Uuid → String) (w : Write) (r c : AgentConfig) (file file' : ConfigFile)
    → keep_generated to_string w r true file ≡ (ok c, file')
    → (r ≡ c) × (holding (with_id to_string r.device_id (contents file)) ≡ file')
unfolding keep_generated
kept_new to_string written r c missing file' k = (cc, cc)
kept_new to_string written r c (unreadable reason) file' k = cc
kept_new to_string written r c (holding d) file' k = (cc, cc)
kept_new to_string (failed reason left) r c missing file' k = cc
kept_new to_string (failed reason left) r c (unreadable why) file' k = cc
kept_new to_string (failed reason left) r c (holding d) file' k = cc

module _ (parse_str : String → Option Uuid) (to_string : Uuid → String)
    (u : UuidText parse_str to_string) (x : Loading) (cli : CliOverrides) (fresh' : Uuid)
    (w' : Write) where
  abbrev first : AgentFileConfig → AgentConfig
  first c =
      resolve parse_str c (from_process_env x.env) cli (unwrap_or x.hostname "unknown-host") x.fresh

  abbrev again : AgentFileConfig → AgentConfig
  again c =
      resolve parse_str c (from_process_env x.env) cli (unwrap_or x.hostname "unknown-host") fresh'

  abbrev pub later : Loading
  later = record x { fresh = fresh'; write = w' }

  keep_stored :
      (r : AgentConfig) (file : ConfigFile)
      → r.device_id_generated ≡ false
      → keep_generated to_string w' r r.device_id_generated file
        ≡ (ok (record r { device_id_generated = false }), file)
  unfolding keep_generated
  keep_stored r file h =
      (λ i. keep_generated to_string w' r (h i) file)
      ∙ (λ i. (ok (record r { device_id_generated = h i }), file))

  keep-again :
      (d : AgentFileConfig) (file : ConfigFile)
      → (first d).device_id_generated ≡ false
      → keep_generated to_string w' (again d) (again d).device_id_generated file
        ≡ (ok (record (first d) { device_id_generated = false }), file)
  keep-again d file h =
      ap (λ r. keep_generated to_string w' r r.device_id_generated file)
        (resolve_again parse_str to_string u (from_process_env x.env) cli
          (unwrap_or x.hostname "unknown-host") x.fresh fresh' d h)
      ∙ keep_stored (first d) file h

  load-stored :
      (d : AgentFileConfig) (r : AgentConfig)
      → again d ≡ record r { device_id_generated = false }
      → load parse_str to_string later cli (holding d)
        ≡ (ok (record r { device_id_generated = false }), holding d)
  unfolding load
  load-stored d r h =
      (λ i. keep_generated to_string w' (h i) (h i).device_id_generated (holding d))
      ∙ keep_stored (record r { device_id_generated = false }) (holding d) refl

  reload_kept :
      (d : AgentFileConfig) (file file' : ConfigFile) (c : AgentConfig)
      → contents file ≡ d
      → load parse_str to_string later cli file
        ≡ keep_generated to_string w' (again d) (again d).device_id_generated file
      → keep_generated to_string x.write (first d) (first d).device_id_generated file
        ≡ (ok c, file')
      → cli.device_id ≡ none
      → (from_process_env x.env).device_id ≡ none
      → load parse_str to_string later cli file'
        ≡ (ok (record c { device_id_generated = false }), file')
  reload_kept d file file' c hd hy k hc he = elim (Bool-cases (first d).device_id_generated) [
    | inl generated ↦
        let (same, left) = kept_new to_string x.write (first d) c file file' (
          subst (λ b. keep_generated to_string x.write (first d) b file ≡ (ok c, file')) generated
            k) in
        let stored_id =
          resolve_stored parse_str to_string u (from_process_env x.env) cli
            (unwrap_or x.hostname "unknown-host") x.fresh fresh' d (first d).device_id hc he in
        subst
          (λ f.
            load parse_str to_string later cli f
            ≡ (ok (record c { device_id_generated = false }), f))
          (ap (λ e. holding (with_id to_string (first d).device_id e)) (sym hd) ∙ left)
          (load-stored (with_id to_string (first d).device_id d) (first d) stored_id ∙ (λ i. (
            ok (record (same i) { device_id_generated = false }),
            holding (with_id to_string (first d).device_id d),
          )))
    | inr stored ↦
        let (same, left) = kept_as_is to_string x.write (first d) c file file' (
          subst (λ b. keep_generated to_string x.write (first d) b file ≡ (ok c, file')) stored
            k) in
        subst
          (λ f.
            load parse_str to_string later cli f
            ≡ (ok (record c { device_id_generated = false }), f))
          left
          (hy
            ∙ keep-again d file stored
            ∙ (λ i. (ok (record (same i) { device_id_generated = false }), file)))
  ]

  -- If neither the command line nor the environment gives an id, and a `load` of the agent's file
  -- succeeds, then a later `load` of the file that it left gives the same configuration, with the same
  -- id and not as a new one, and leaves the file alone: the id is generated once.
  pub load_twice :
      (file file' : ConfigFile) (c : AgentConfig)
      → cli.device_id ≡ none
      → (from_process_env x.env).device_id ≡ none
      → load parse_str to_string x cli file ≡ (ok c, file')
      → load parse_str to_string later cli file'
        ≡ (ok (record c { device_id_generated = false }), file')
  unfolding load
  load_twice missing file' c hc he h = reload_kept default_file missing file' c refl refl h hc he
  load_twice (unreadable reason) file' c hc he h = cc
  load_twice (holding d) file' c hc he h = reload_kept d (holding d) file' c refl refl h hc he

module _ (parse_str : String → Option Uuid) (to_string : Uuid → String)
    (u : UuidText parse_str to_string) (x y : Loading) (cli cli' : CliOverrides)
    (d : AgentFileConfig) where
  load_mistyped :
      (bad : String)
      → cli.device_id ≡ some bad
      → parse_str bad ≡ none
      → x.write ≡ written
      → (load parse_str to_string x cli (holding d)).1 ≡ holding (with_id to_string x.fresh d)
  unfolding load
  load_mistyped bad hc hb hw = rw hc (rw hb (rw hw refl))

  loaded_id :
      (c c' : AgentConfig) (id : Uuid) (file file' : ConfigFile)
      → c.device_id ≡ id
      → c.device_id_generated ≡ false
      → keep_generated to_string y.write c c.device_id_generated file ≡ (ok c', file')
      → c'.device_id ≡ id
  loaded_id c c' id file file' hi hg h =
      let (same, left) =
        kept_as_is to_string y.write c c' file file'
          (subst (λ b. keep_generated to_string y.write c b file ≡ (ok c', file')) hg h) in
      ap (λ r. r.device_id) (sym same) ∙ hi

  load-with_id :
      (id : Uuid) (c' : AgentConfig) (file' : ConfigFile)
      → cli'.device_id ≡ none
      → (from_process_env y.env).device_id ≡ none
      → load parse_str to_string y cli' (holding (with_id to_string id d)) ≡ (ok c', file')
      → c'.device_id ≡ id
  unfolding load
  load-with_id id c' file' hc he h =
      let e =
        resolve_stored parse_str to_string u (from_process_env y.env) cli'
          (unwrap_or y.hostname "unknown-host") y.fresh y.fresh d id hc he in
      loaded_id _ c' id (holding (with_id to_string id d)) file' (ap (λ r. r.device_id) e)
        (ap (λ r. r.device_id_generated) e) h

  -- An id on the command line that does not parse is not passed over for the one in the agent's file:
  -- the device gets a new id, which replaces the stored one if the write succeeds, so that later runs
  -- have the new id too, also when the command line and the environment do not give one.
  pub mistyped_id_replaces :
      (bad : String) (c' : AgentConfig) (file' : ConfigFile)
      → cli.device_id ≡ some bad
      → parse_str bad ≡ none
      → x.write ≡ written
      → cli'.device_id ≡ none
      → (from_process_env y.env).device_id ≡ none
      → load parse_str to_string y cli' (load parse_str to_string x cli (holding d)).1
        ≡ (ok c', file')
      → c'.device_id ≡ x.fresh
  mistyped_id_replaces bad c' file' hc hb hw hc' he h = load-with_id x.fresh c' file' hc' he (
      subst (λ f. load parse_str to_string y cli' f ≡ (ok c', file')) (load_mistyped bad hc hb hw)
        h)
