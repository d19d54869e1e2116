-- ===== src/Discovery/Swept.antt =====
-- Which addresses a sweep probes.
use mathlib.Core.List.{append_assoc}
use timelord.Prelude.{
  ℕ, zero, suc, ◌+◌, ◌-◌, ◌^◌, ◌<◌, ◌≡◌, refl, sym, ap, ◌∙◌, Bool, false, not, ◌&&◌, ◌||◌, some,
  List, [], ◌∷◌, ◌++◌, String, ltb, leb, ◌==◌, any, any-append, keep, length, All, Bool-cases, inl,
  inr, arith, if◌then◌else◌,
}
use timelord.Discovery.Sweep.{
  Ipv4Addr, max_sweep_hosts_per_subnet, range, network, broadcast, hosts_in_subnet, IfAddr, v4, v6,
  Interface, SweepSubnet, is_excluded, sweep_addr, sweep_interface, sweep_all, local_sweep_subnets,
  targets,
}

any-range :
    (x first count : ℕ)
    → any (λ y. y == x) (range first count) ≡ leb first x && ltb x (first + count)
unfolding range
any-range x first zero = ground arith
any-range x first (suc count) = ground (arith, any-range x (first + 1) count)

length-range : (first count : ℕ) → length (range first count) ≡ count
unfolding range
length-range first zero = refl
length-range first (suc count) = omega (arith, length-range (first + 1) count)

any-others :
    (x ip : ℕ) (hosts : List ℕ)
    → any (λ y. y == x) (keep (λ y. not (y == ip)) hosts) ≡ any (λ y. y == x) hosts && not (x == ip)
any-others x ip [] = ground arith
any-others x ip (h ∷ hosts) = ground (arith, any-others x ip hosts)

-- An address that a sweep of one subnet is for: between the network's and the broadcast address, and
-- not the interface's own, in a subnet that is not too large.
abbrev pub covers : Ipv4Addr → IfAddr → Bool
covers x v6 = false
covers x (v4 ip netmask) =
    ltb (network ip netmask) x
    && ltb x (broadcast ip netmask)
    && not (x == ip)
    && leb (broadcast ip netmask - network ip netmask - 1) max_sweep_hosts_per_subnet

-- The network's address is not the last that there is.
abbrev pub IsOrdinary : IfAddr → Type 0
IsOrdinary v6 = Unit {0}
IsOrdinary (v4 ip netmask) = network ip netmask + 1 < 2 ^ 32

abbrev span : ℕ → ℕ → List Ipv4Addr
span first last = if leb last first then [] else range first (last - first)

any-span : (x n last : ℕ) → any (λ y. y == x) (span (n + 1) last) ≡ ltb n x && ltb x last
any-span x n last = elim (Bool-cases (leb last (n + 1))) [
  | inl none_left ↦ rw none_left (ground (arith, none_left))
  | inr more ↦ rw more (any-range x (n + 1) (last - (n + 1)) ∙ ground (arith, more))
]

length-span : (n last : ℕ) → length (span (n + 1) last) ≡ last - n - 1
length-span n last = elim (Bool-cases (leb last (n + 1))) [
  | inl none_left ↦ rw none_left (ground (arith, none_left))
  | inr more ↦ rw more (length-range (n + 1) (last - (n + 1)) ∙ omega arith)
]

hosts-span :
    (ip netmask : ℕ)
    → network ip netmask + 1 < 2 ^ 32
    → hosts_in_subnet ip netmask ≡ span (network ip netmask + 1) (broadcast ip netmask)
unfolding hosts_in_subnet
hosts-span ip netmask h = ap (λ first. span first (broadcast ip netmask)) (omega arith)

any-swept :
    (x : Ipv4Addr) (name : String) (a : IfAddr)
    → IsOrdinary a
    → any (λ y. y == x) (targets (sweep_addr name a)) ≡ covers x a
unfolding sweep_addr targets
any-swept x name v6 h = refl
any-swept x name (v4 ip netmask) h =
    let n = network ip netmask in
    let last = broadcast ip netmask in
    rw (hosts-span ip netmask h)
      (elim (Bool-cases (ltb max_sweep_hosts_per_subnet (length (span (n + 1) last)))) [
        | inl large ↦ rw large (ground (arith, large, length-span n last))
        | inr fits ↦ rw fits (
            any-append (λ y. y == x) (keep (λ y. not (y == ip)) (span (n + 1) last)) []
            ∙ ground (
              arith,
              fits,
              length-span n last,
              any-others x ip (span (n + 1) last),
              any-span x n last,
            ))
      ])

-- The interfaces that are swept at all.
abbrev pub is_swept : Interface → Bool
is_swept i = not (i.is_loopback || is_excluded i.name)

any-interface :
    (x : Ipv4Addr) (i : Interface)
    → IsOrdinary i.addr
    → any (λ y. y == x) (targets (sweep_interface i)) ≡ is_swept i && covers x i.addr
unfolding sweep_interface targets
any-interface x i h = elim (Bool-cases (i.is_loopback || is_excluded i.name)) [
  | inl skipped ↦ rw skipped refl
  | inr swept ↦ rw swept (any-swept x i.name i.addr h)
]

targets-append : (s t : List SweepSubnet) → targets (s ++ t) ≡ targets s ++ targets t
unfolding targets
targets-append [] t = refl
targets-append (u ∷ s) t =
    ap (λ l. u.hosts ++ l) (targets-append s t) ∙ sym (append_assoc u.hosts (targets s) (targets t))

-- A sweep probes an address exactly if some interface that is neither a loopback nor excluded by name
-- covers it: the address lies between the network's and the broadcast address of its subnet, which has
-- at most 1024 hosts, and is not the interface's own. No interface's network address may be the last
-- of all addresses.
pub swept_exactly :
    (x : Ipv4Addr) (interfaces : List Interface)
    → All (λ i. IsOrdinary i.addr) interfaces
    → any (λ y. y == x) (targets (local_sweep_subnets (some interfaces)))
      ≡ any (λ i. is_swept i && covers x i.addr) interfaces
unfolding local_sweep_subnets sweep_all targets
swept_exactly x [] h = refl
swept_exactly x (i ∷ interfaces) h =
    ap (any (λ y. y == x)) (targets-append (sweep_interface i) (sweep_all interfaces))
    ∙ any-append (λ y. y == x) (targets (sweep_interface i)) (targets (sweep_all interfaces))
    ∙ rw (any-interface x i h.0)
        (ap (λ b. (is_swept i && covers x i.addr) || b) (swept_exactly x interfaces h.1))
