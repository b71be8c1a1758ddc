-- ===== src/Peer/Ipam/Reservation.antt =====
-- Reserve of internal/peer/ipam.go, by which Reconcile tells the allocator of the addresses that the
-- database holds.
use mathlib.Core.Option
use shuosc_network_server_ba.Common.{
  ℕ, ◌+◌, ◌/◌, ◌%◌, ◌^◌, ◌<◌, ◌≡◌, ◌≢◌, sym, ◌∙◌, ap, subst, inl, inr, true, some, [], ◌∷◌, ◌++◌,
  arith, Option-cases,
}
use shuosc_network_server_ba.Common.Text.{
  Text, decimal, contains, add, text_eq_refl, contains-add, add-nil,
}
use shuosc_network_server_ba.Peer.Ipam.Dotted.{dotted, parse_ipv4, parse_ipv4-dotted}
use shuosc_network_server_ba.Peer.Ipam.{
  Ip, v4, Subnet, Ipam, Ip6Text, total_hosts, new_ipam, allocate, reserve, parse_form, parse_ip,
  print_ip, subnet_contains, same_network,
}
use shuosc_network_server_ba.Peer.Ipam.Allocation.{IsV4Subnet, allocate-lowest}

-- The first field and its dot say that the text is a dotted one.
form-decimal :
    (ip6 : Ip6Text) (t rest : Text) (b : ℕ)
    → b < 256
    → parse_form ip6 t (decimal b ++ (b'.' ∷ rest)) ≡ Option.map v4 (parse_ipv4 t)
unfolding parse_form decimal
form-decimal ip6 t rest b h = ground arith

form-dotted :
    (ip6 : Ip6Text) (n : ℕ)
    → parse_form ip6 (dotted n) (dotted n) ≡ Option.map v4 (parse_ipv4 (dotted n))
unfolding dotted
form-dotted ip6 n = form-decimal ip6 _ _ (n / 2 ^ 24 % 256) (omega arith)

-- The text of every 32-bit address is read back as this address.
pub parse_ip-dotted : (ip6 : Ip6Text) (n : ℕ) → n < 2 ^ 32 → parse_ip ip6 (dotted n) ≡ some (v4 n)
unfolding parse_ip
parse_ip-dotted ip6 n h = form-dotted ip6 n ∙ ap (Option.map v4) (parse_ipv4-dotted n h)

same_quotient : (n k p : ℕ) → n % p ≡ 0 → k < p → (n + k) / p ≡ n / p
same_quotient n k p m h = grind arith

pub subnet_contains-host :
    (s : Subnet) (network k : ℕ)
    → IsV4Subnet s network
    → k < total_hosts s
    → subnet_contains s (v4 (network + k)) ≡ true
unfolding subnet_contains same_network
subnet_contains-host s network k wf h =
    rw wf.address (ground (arith, same_quotient network k (total_hosts s) wf.masked h))

-- What Reserve does on success: the text is that of an address of the subnet, and this address in
-- its printed form is in use from then on.
pub reserve-some :
    (ip6 : Ip6Text) (t : Text) (i i' : Ipam)
    → reserve ip6 t i ≡ some i'
    → (a : Ip) × (parse_ip ip6 t ≡ some a)
      × (subnet_contains i.subnet a ≡ true)
      × (i' ≡ record i { used = add (print_ip ip6 a) i.used })
unfolding reserve
reserve-some ip6 t i i' e = elim (Option-cases (parse_ip ip6 t)) [
  | inl bad ↦ absurd (ground arith)
  | inr (a, parsed) ↦ (a, parsed, ground arith, ground arith)
]

module _ (ip6 : Ip6Text) (i i' : Ipam) (t : Text) (done : reserve ip6 t i ≡ some i') where
  pub subnet-reserve : i'.subnet ≡ i.subnet
  subnet-reserve =
      let (a, parsed, inside, after) = reserve-some ip6 t i i' done in
      ap (λ (j : Ipam). j.subnet) after

  pub used-reserve : (n : ℕ) → parse_ip ip6 t ≡ some (v4 n) → contains i'.used (dotted n) ≡ true
  unfolding print_ip
  used-reserve n is_n =
      let (a, parsed, inside, after) = reserve-some ip6 t i i' done in
      let same : a ≡ v4 n = cc in
      rw (after, contains-add, same) (ground (arith, text_eq_refl (dotted n)))

  -- An address that Reserve has accepted, in any spelling, is not allocated afterwards.
  pub allocate-reserve :
      (network n : ℕ) (ip : Text) (i'' : Ipam)
      → IsV4Subnet i.subnet network
      → parse_ip ip6 t ≡ some (v4 n)
      → allocate i' ≡ some (ip, i'')
      → ip ≢ dotted n
  allocate-reserve network n ip i'' wf is_n e same =
      let wf' = subst (λ s. IsV4Subnet s network) (sym subnet-reserve) wf in
      let (k, host, text, free, below, after) = allocate-lowest i' network wf' ip i'' e in
      cc (used-reserve n is_n, free, ap (contains i'.used) same)

-- An address that Allocate returned is accepted by Reserve on a new allocator for the same subnet,
-- and is then the one address in use.
pub reserve-allocate :
    (ip6 : Ip6Text) (i i' : Ipam) (network : ℕ) (ip : Text)
    → IsV4Subnet i.subnet network
    → allocate i ≡ some (ip, i')
    → reserve ip6 ip (new_ipam i.subnet) ≡ some (record { subnet = i.subnet; used = ip ∷ [] })
unfolding reserve print_ip new_ipam
reserve-allocate ip6 i i' network ip wf e =
    let (k, host, text, free, below, after) = allocate-lowest i network wf ip i' e in
    let in_range : network + k < 2 ^ 32 = omega (arith, wf.fits) in
    ground (
      arith,
      parse_ip-dotted ip6 (network + k) in_range,
      subnet_contains-host i.subnet network k wf (omega arith),
      add-nil (dotted (network + k)),
    )
