-- ===== src/Discovery/Sweep.antt =====
-- agent/src/discovery.rs: which addresses a sweep probes, and the replies that it listens for. An
-- IPv4 address is its 32 bits as a number. What the system answers about its interfaces, and what the
-- socket receives, are arguments.
use Prim.Native.Nat.{bit_and, bit_or}
use timelord.Prelude.{
  ℕ, zero, suc, ◌+◌, ◌-◌, ◌%◌, ◌^◌, Bool, not, ◌||◌, Option, none, some, List, [], ◌∷◌, ◌++◌,
  String, ltb, leb, ◌==◌, any, keep, length, if◌then◌else◌,
}
use timelord.Prelude.Result.{Result, ok, err}
use timelord.Prelude.Time.{Duration, Uuid}
use timelord.Discovery.{
  ControllerAvailableMessage, DiscoveredController, starts_with, validate_response,
}

abbrev pub Ipv4Addr : Type 0
Ipv4Addr = ℕ

abbrev pub excluded_interface_prefixes : List String
excluded_interface_prefixes = "docker" ∷ "veth" ∷ "br-" ∷ "virbr" ∷ "cni" ∷ "tun" ∷ "tap" ∷ []

abbrev pub max_sweep_hosts_per_subnet : ℕ
max_sweep_hosts_per_subnet = 1024

-- The addresses from `first`, `count` of them.
unfoldable pub range : ℕ → ℕ → List ℕ
range first zero = []
range first (suc count) = first ∷ range (first + 1) count

abbrev pub network : Ipv4Addr → Ipv4Addr → Ipv4Addr
network ip netmask = bit_and ip netmask

abbrev pub broadcast : Ipv4Addr → Ipv4Addr → Ipv4Addr
broadcast ip netmask = bit_or (network ip netmask) (2 ^ 32 - 1 - netmask)

-- The sums wrap around at 32 bits, as in a release build.
unfoldable pub hosts_in_subnet : Ipv4Addr → Ipv4Addr → List Ipv4Addr
unfolding range
hosts_in_subnet ip netmask =
    let first = (network ip netmask + 1) % 2 ^ 32 in
    if leb (broadcast ip netmask) first then [] else range first (broadcast ip netmask - first)

pub data IfAddr : Type 0 where
  v4 : Ipv4Addr → Ipv4Addr → IfAddr
  v6 : IfAddr

pub record Interface : Type 0 where
  pub name : String
  pub is_loopback : Bool
  pub addr : IfAddr

pub record SweepSubnet : Type 0 where
  pub interface_name : String
  pub own_addr : Ipv4Addr
  pub hosts : List Ipv4Addr

unfoldable pub is_excluded : String → Bool
is_excluded name = any (starts_with name) excluded_interface_prefixes

-- The part of the loop's body behind its two `continue`s.
unfoldable pub sweep_addr : String → IfAddr → List SweepSubnet
unfolding hosts_in_subnet
sweep_addr name v6 = []
sweep_addr name (v4 ip netmask) =
    let all_hosts = hosts_in_subnet ip netmask in
    if ltb max_sweep_hosts_per_subnet (length all_hosts)
    then []
    else record {
      interface_name = name;
      own_addr = ip;
      hosts = keep (λ addr. not (addr == ip)) all_hosts;
    }
      ∷ []

unfoldable pub sweep_interface : Interface → List SweepSubnet
unfolding is_excluded sweep_addr
sweep_interface i = if i.is_loopback || is_excluded i.name then [] else sweep_addr i.name i.addr

unfoldable pub sweep_all : List Interface → List SweepSubnet
unfolding sweep_interface
sweep_all [] = []
sweep_all (i ∷ interfaces) = sweep_interface i ++ sweep_all interfaces

-- `none` is a failure to list the interfaces.
unfoldable pub local_sweep_subnets : Option (List Interface) → List SweepSubnet
unfolding sweep_all
local_sweep_subnets none = []
local_sweep_subnets (some interfaces) = sweep_all interfaces

unfoldable pub targets : List SweepSubnet → List Ipv4Addr
targets [] = []
targets (s ∷ subnets) = s.hosts ++ targets subnets

-- What one wait for a packet ends with.
pub data Received : Type 0 where
  packet : Option ControllerAvailableMessage → Duration → Received
  receive_failed timed_out : Received

-- One turn of the loop that listens: the time since the start when it begins, and what it gets.
pub record Turn : Type 0 where
  pub begun : Duration
  pub received : Received

unfoldable pub listen : Uuid → Duration → List Turn → List DiscoveredController
listen request_id discovery_timeout [] = []
listen request_id discovery_timeout (t ∷ turns) =
    let rest = listen request_id discovery_timeout turns in
    let found : List DiscoveredController = elim t.received [
      | packet payload elapsed ↦ elim (validate_response payload request_id elapsed) [
        | none ↦ rest
        | some c ↦ c ∷ rest
      ]
      | receive_failed ↦ []
      | timed_out ↦ []
    ] in
    if leb discovery_timeout t.begun then [] else found

-- The whole call. `setup` is the error of binding the socket or of printing the request, if any; the
-- probes that cannot be sent are only logged.
unfoldable pub discover_on :
    Option (List Interface)
    → Option String
    → Uuid
    → Duration
    → List Turn
    → Result String (List DiscoveredController)
unfolding local_sweep_subnets targets listen
discover_on interfaces setup request_id discovery_timeout turns =
    elim (targets (local_sweep_subnets interfaces)) [
      | [] ↦ ok []
      | t ∷ rest ↦ elim setup [
        | none ↦ ok (listen request_id discovery_timeout turns)
        | some reason ↦ err reason
      ]
    ]
