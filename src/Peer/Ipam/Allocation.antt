-- ===== src/Peer/Ipam/Allocation.antt =====
-- What Allocate, Release and Reserve of internal/peer/ipam.go promise each other.
use mathlib.Core.Option
use native.Mathlib.Nat.{pow-suc}
use native.Mathlib.Decide.{ℕ_discrete}
use shuosc_network_server_ba.Common.{
  subst, ℕ, zero, suc, ◌+◌, ◌-◌, ◌%◌, ◌^◌, ◌≤◌, ◌<◌, ◌≡◌, refl, ◌∙◌, ap, ◌↔◌, inl, inr, true, false,
  Option, none, some, ◌∷◌, arith, Bool-cases, Option-cases, if◌then◌else◌,
}
use shuosc_network_server_ba.Common.Text.{Text, TextSet, contains, add, delete-add, add-fresh}
use shuosc_network_server_ba.Peer.Ipam.Dotted.{dotted}
use shuosc_network_server_ba.Peer.Ipam.{
  Ip, v4, v6, Subnet, Ipam, total_hosts, scan, allocate_from, allocate, release,
}

-- An IPv4 subnet as net.ParseCIDR gives it: masked, and so inside the 32-bit range.
pub record IsV4Subnet (s : Subnet) (network : ℕ) : Type 0 where
  pub address : s.ip ≡ v4 network
  pub masked : network % total_hosts s ≡ 0
  pub fits : network + total_hosts s ≤ 2 ^ 32

-- A text that the loop returns is that of an index in its range, unused, and all below are used.
abbrev Found : TextSet → ℕ → ℕ → ℕ → Text → Type 0
Found used network rounds idx t =
    (k : ℕ) × (idx ≤ k)
    × (k < idx + rounds)
    × (t ≡ dotted (network + k))
    × (contains used t ≡ false)
    × ((j : ℕ) → idx ≤ j → j < k → contains used (dotted (network + j)) ≡ true)

no_wrap :
    (network idx : ℕ) → network + idx < 2 ^ 32 → (network + idx % 2 ^ 32) % 2 ^ 32 ≡ network + idx
no_wrap network idx h = omega arith

from_next :
    (P : ℕ → Type 0) (idx k : ℕ)
    → P idx
    → ((j : ℕ) → idx + 1 ≤ j → j < k → P j)
    → (j : ℕ) → idx ≤ j
    → j < k
    → P j
from_next P idx k here rest j lo hi = elim (ℕ_discrete idx j) [
  | yes e ↦ subst P e here
  | no ne ↦ rest j (omega arith) hi
]

scan_step :
    (used : TextSet) (network rounds idx : ℕ)
    → network + idx < 2 ^ 32
    → scan used network (suc rounds) idx ≡ (
        let rest = scan used network rounds (idx + 1) in
        if contains used (dotted (network + idx)) then rest else some (dotted (network + idx)))
unfolding scan
scan_step used network rounds idx h = rw (no_wrap network idx h)

scan-Found :
    (used : TextSet) (network rounds idx : ℕ) (t : Text)
    → network + idx + rounds ≤ 2 ^ 32
    → scan used network rounds idx ≡ some t
    → Found used network rounds idx t
scan-Found used network zero idx t h e = unfold scan in cc
scan-Found used network (suc rounds) idx t h e =
    let step = scan_step used network rounds idx (omega arith) in
    elim (Bool-cases (contains used (dotted (network + idx)))) [
      | inl taken ↦
          let (k, lo, hi, text, free, below) =
            scan-Found used network rounds (idx + 1) t (omega arith) (ground arith) in
          (
            k,
            omega arith,
            omega arith,
            text,
            free,
            from_next (λ j. contains used (dotted (network + j)) ≡ true) idx k taken below,
          )
      | inr free ↦
          let text : t ≡ dotted (network + idx) = ground arith in
          (idx, omega arith, omega arith, text, rw text free, λ j lo hi. absurd (omega arith))
    ]

-- The loop finds nothing only if every text of its range is used, and then it finds nothing.
scan-none :
    (used : TextSet) (network rounds idx : ℕ)
    → network + idx + rounds ≤ 2 ^ 32
    → (scan used network rounds idx ≡ none)
      ↔ ((j : ℕ) → idx ≤ j → j < idx + rounds → contains used (dotted (network + j)) ≡ true)
scan-none used network zero idx h = (λ e j lo hi. absurd (omega arith), λ all. unfold scan in refl)
scan-none used network (suc rounds) idx h =
    let step = scan_step used network rounds idx (omega arith) in
    let rest = scan-none used network rounds (idx + 1) (omega arith) in
    (
      λ e j lo hi.
          from_next (λ j. contains used (dotted (network + j)) ≡ true) idx (idx + suc rounds)
            (ground arith) (λ j lo hi. rest.0 (ground arith) j lo (omega arith)) j lo hi,
      λ all.
          let taken = all idx (omega arith) (omega arith) in
          let later = rest.1 (λ j lo hi. all j (omega arith) (omega arith)) in ground arith,
    )

-- The host addresses of the subnet: the network and the broadcast address are left out.
abbrev pub IsHost : Subnet → ℕ → Type 0
IsHost s k = (1 ≤ k) × (k + 1 < total_hosts s)

two_pow-pos : (n : ℕ) → 0 < 2 ^ n
two_pow-pos zero = omega arith
two_pow-pos (suc n) = omega (arith, pow-suc 2 n, two_pow-pos n)

range_fits :
    (s : Subnet) (network : ℕ)
    → IsV4Subnet s network
    → network + 1 + (total_hosts s - 1 - 1) ≤ 2 ^ 32
range_fits s network wf = omega (arith, wf.fits, two_pow-pos (32 - s.ones))

module _ (i : Ipam) (network : ℕ) (wf : IsV4Subnet i.subnet network) where
  scanned : Option Text
  scanned = scan i.used network (total_hosts i.subnet - 1 - 1) 1

  taken : Text → Text × Ipam
  taken ip = (ip, record i { used = add ip i.used })

  from_address : (ip : Ip) → ip ≡ v4 network → allocate_from ip i ≡ Option.map taken scanned
  unfolding allocate_from scanned taken
  from_address ip e = rw e

  allocate-scan : allocate i ≡ Option.map taken scanned
  unfolding allocate
  allocate-scan = from_address i.subnet.ip wf.address

  allocate-scanned :
      (ip : Text) (i' : Ipam)
      → allocate i ≡ some (ip, i')
      → (scanned ≡ some ip) × (i' ≡ record i { used = add ip i.used })
  unfolding taken
  allocate-scanned ip i' e = ground (arith, allocate-scan)

  allocate-Found :
      (ip : Text) (i' : Ipam)
      → allocate i ≡ some (ip, i')
      → Found i.used network (total_hosts i.subnet - 1 - 1) 1 ip
  unfolding scanned
  allocate-Found ip i' e =
      scan-Found i.used network _ 1 ip (range_fits i.subnet network wf) (allocate-scanned ip i' e).0

  -- A successful Allocate on an IPv4 subnet returns the text of a host address of the subnet that
  -- was not in use, and all lower host addresses were in use; it adds this text to the used ones and
  -- changes nothing else.
  pub allocate-lowest :
      (ip : Text) (i' : Ipam)
      → allocate i ≡ some (ip, i')
      → (k : ℕ) × IsHost i.subnet k
        × (ip ≡ dotted (network + k))
        × (contains i.used ip ≡ false)
        × ((j : ℕ) → 1 ≤ j → j < k → contains i.used (dotted (network + j)) ≡ true)
        × (i' ≡ record i { used = ip ∷ i.used })
  allocate-lowest ip i' e =
      let (k, lo, hi, text, free, below) = allocate-Found ip i' e in
      (
        k,
        (lo, omega arith),
        text,
        free,
        below,
        (allocate-scanned ip i' e).1
            ∙ ap (λ (ss : TextSet). record i { used = ss }) (add-fresh ip i.used free),
      )

  -- Allocate fails on an IPv4 subnet exactly when every host address of it is in use.
  pub allocate-none :
      (allocate i ≡ none)
      ↔ ((k : ℕ) → IsHost i.subnet k → contains i.used (dotted (network + k)) ≡ true)
  unfolding scanned
  allocate-none =
      let loop =
        scan-none i.used network (total_hosts i.subnet - 1 - 1) 1
          (range_fits i.subnet network wf) in
      (
        λ e k h. loop.0 (ground (arith, allocate-scan)) k h.0 (omega arith),
        λ all. rw allocate-scan (rw (loop.1 (λ j lo hi. all j (lo, omega arith)))),
      )

-- Whatever the subnet, the loop returns an unused text.
scan-fresh :
    (used : TextSet) (network rounds idx : ℕ) (t : Text)
    → scan used network rounds idx ≡ some t
    → contains used t ≡ false
unfolding scan
scan-fresh used network zero idx t e = ground arith
scan-fresh used network (suc rounds) idx t e =
    ground (arith, scan-fresh used network rounds (idx + 1) t)

fresh_from :
    (a : Ip) (i i' : Ipam) (ip : Text)
    → allocate_from a i ≡ some (ip, i')
    → (contains i.used ip ≡ false) × (i' ≡ record i { used = add ip i.used })
unfolding allocate_from
fresh_from (v4 network) i i' ip e =
    elim (Option-cases (scan i.used network (total_hosts i.subnet - 1 - 1) 1)) [
      | inl full ↦ absurd (ground arith)
      | inr (t, found) ↦
          ground (arith, scan-fresh i.used network (total_hosts i.subnet - 1 - 1) 1 t found)
    ]
fresh_from (v6 n) i i' ip e = absurd (ground arith)

pub allocate-fresh :
    (i i' : Ipam) (ip : Text)
    → allocate i ≡ some (ip, i')
    → (contains i.used ip ≡ false) × (i' ≡ record i { used = ip ∷ i.used })
unfolding allocate
allocate-fresh i i' ip e =
    let (free, after) = fresh_from i.subnet.ip i i' ip e in
    (free, after ∙ ap (λ (ss : TextSet). record i { used = ss }) (add-fresh ip i.used free))

-- Releasing the address that Allocate has just returned restores the allocator.
pub release-allocate : (i i' : Ipam) (ip : Text) → allocate i ≡ some (ip, i') → release ip i' ≡ i
unfolding release allocate
release-allocate i i' ip e =
    let (free, after) = fresh_from i.subnet.ip i i' ip e in
    rw after (ap (λ (ss : TextSet). record i { used = ss }) (delete-add ip i.used free))
