-- ===== src/Examples/Configuring.antt =====
-- The theorems on the configuration and on discovery, applied. The ids are printed in unary.
use Prim.Native.Char.{Char, code}
use mathlib.Core.List.{List}
use timelord.Prelude.{
  ℕ, zero, suc, ◌≡◌, refl, ap, true, false, ◌&&◌, Option, none, some, [], ◌∷◌, String, any, ◌==◌,
  arith, if◌then◌else◌,
}
use timelord.Prelude.Int.{pos}
use timelord.Prelude.Result.{ok}
use timelord.Prelude.Time.{Uuid}
use timelord.Prelude.Trim.{is_empty, trim, trim_end, is_whitespace, push_trimmed}
use timelord.Config.{
  AgentFileConfig, AgentConfig, CliOverrides, ConfigFile, Loading, holding, written, load, resolve,
  from_process_env, default_file, no_overrides, persist_controller_url,
}
use timelord.Config.Identity.{UuidText, load_twice, mistyped_id_replaces}
use timelord.Discovery.{
  Search, resolve_controller_url, search_once, settle_search, select_best, keep_url,
}
use timelord.Agent.{enqueue}
use timelord.Discovery.Kept.{found_url_kept}
use timelord.Discovery.Sweep.{Interface, v4, targets, local_sweep_subnets}
use timelord.Discovery.Swept.{is_swept, covers, swept_exactly}
use timelord.Examples.{started_agent, a_report}

abbrev mark : Char
mark = "x"

abbrev print : Uuid → String
print zero = String.◌∷◌ mark String.[]
print (suc n) = String.◌∷◌ mark (print n)

abbrev one_more : Option ℕ → Option ℕ
one_more none = none
one_more (some n) = some (suc n)

abbrev count_marks : String → Option ℕ
count_marks String.[] = some 0
count_marks (String.◌∷◌ c s) = if code c == b'x' then one_more (count_marks s) else none

abbrev one_less : Option ℕ → Option Uuid
one_less none = none
one_less (some zero) = none
one_less (some (suc n)) = some n

abbrev parse : String → Option Uuid
parse s = one_less (count_marks s)

count_marks-print : (n : ℕ) → count_marks (print n) ≡ some (suc n)
count_marks-print zero = refl
count_marks-print (suc n) = ap one_more (count_marks-print n)

marked_shows : (s : String) → is_empty (push_trimmed mark s) ≡ false
unfolding is_whitespace
marked_shows String.[] = refl
marked_shows (String.◌∷◌ c s) = refl

print_shows : (n : ℕ) → is_empty (trim (print n)) ≡ false
unfolding trim
print_shows zero = refl
print_shows (suc n) = marked_shows (trim_end (print n))

unary : UuidText parse print
unary = record { parses = λ n. ap one_less (count_marks-print n); shows = print_shows }

abbrev a_loading : Loading
a_loading = record {
  env = record {
    timelord_controller_url = none;
    timelord_device_id = none;
    timelord_device_name = none;
    timelord_discovery_enabled = none;
  };
  hostname = some "den";
  fresh = 3;
  write = written;
}

abbrev first_config : AgentConfig
first_config = resolve parse default_file (from_process_env a_loading.env) no_overrides "den" 3

abbrev file_with : String → String → AgentFileConfig
file_with id url = record default_file {
  agent = record default_file.agent { device_id = id };
  controller = record default_file.controller { url = url };
}

load_twice_example :
    load parse print
      (record a_loading { fresh = 9; write = written })
      no_overrides
      (holding (file_with (print 3) ""))
    ≡ (ok (record first_config { device_id_generated = false }), holding (file_with (print 3) ""))
unfolding load trim
load_twice_example =
    load_twice parse print unary a_loading no_overrides 9 written ConfigFile.missing
      (holding (file_with (print 3) "")) first_config refl refl refl

-- An id on the command line that does not parse.
abbrev mistyped : CliOverrides
mistyped = record no_overrides { device_id = some "y" }

abbrev later_config : AgentConfig
later_config =
    resolve parse (file_with (print 3) "") (from_process_env a_loading.env) no_overrides "den" 9

mistyped_id_replaces_example : later_config.device_id ≡ 3
unfolding load resolve trim
mistyped_id_replaces_example =
    mistyped_id_replaces parse print unary a_loading (record a_loading { fresh = 9 }) mistyped
      no_overrides (file_with (print 5) "") "y" later_config (holding (file_with (print 3) "")) refl
      refl refl refl refl refl

-- One round in which a controller answers.
abbrev a_round : Search
a_round = record {
  found = ok (
      record {
        controller_id = 1;
        controller_name = "home";
        controller_url = "http://home";
        priority = pos 5;
        response_time = 20;
      }
      ∷ []);
  start = a_report;
  outcome = a_report;
  write = written;
}

abbrev found_config : AgentConfig
found_config =
    resolve parse (file_with "" "http://home") (from_process_env a_loading.env) no_overrides "den" 3

found_url_kept_example :
    resolve_controller_url false found_config.controller_url [] started_agent
    ≡ (some "http://home", started_agent)
unfolding load resolve_controller_url trim search_once settle_search select_best keep_url
    persist_controller_url enqueue
found_url_kept_example =
    found_url_kept parse print a_loading no_overrides "http://home" found_config
      (holding (file_with (print 3) "http://home")) refl refl refl (a_round ∷ []) [] started_agent
      started_agent default_file (refl, tt) refl refl refl

-- 10.0.0.4 with the netmask of a subnet of two hosts, and a loopback.
abbrev two_interfaces : List Interface
two_interfaces =
    record { name = "eth0"; is_loopback = false; addr = v4 0x0a000005 0xfffffffc }
    ∷ record { name = "lo"; is_loopback = true; addr = v4 0x7f000001 0xff000000 }
    ∷ []

swept_exactly_example :
    any (λ y. y == 0x0a000006) (targets (local_sweep_subnets (some two_interfaces)))
    ≡ any (λ i. is_swept i && covers 0x0a000006 i.addr) two_interfaces
swept_exactly_example = swept_exactly 0x0a000006 two_interfaces (omega arith, (omega arith, tt))
