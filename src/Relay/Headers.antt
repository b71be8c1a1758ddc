-- ===== src/Relay/Headers.antt =====
-- What the backend learns of the client from the headers of a relayed request.
use shuosc_network_server_ba.Common.{
  String, ◌≡◌, refl, sym, ◌∙◌, ap, Bool, true, false, not, ◌||◌, ◌&&◌, List, [], ◌∷◌, arith, str_eq,
  eq_iff, select, count, Bool-cases, inl, inr,
}
use shuosc_network_server_ba.Common.Words.{is_empty}
use shuosc_network_server_ba.Relay.{
  Header, header, RequestEnvelope, Net, blocked, is_hop_by_hop, copy_request_headers, set_header,
  upstream_headers,
}

abbrev named : String → Header → Bool
named name h = str_eq h.name name

count-select-none :
    (p q : Header → Bool) (hs : List Header) → count q hs ≡ 0 → count q (select p hs) ≡ 0
count-select-none p q [] e = refl
count-select-none p q (h ∷ hs) e = ground (arith, count-select-none p q hs)

module _ (net : Net) (q : Header → Bool) where
  not_counted :
      (h : Header)
      → (is_empty h.name || blocked net h.name) ≡ false
      → ((name value : String)
          → q (header (net.canonical name) value) ≡ true
          → blocked net name ≡ true)
      → q (header (net.canonical h.name) h.value) ≡ false
  not_counted h good only = elim (Bool-cases (q (header (net.canonical h.name) h.value))) [
    | inr e ↦ e
    | inl e ↦ ground (arith, only h.name h.value e, good)
  ]

  -- Headers that the agent does not take over.
  count-copied :
      (hs : List Header)
      → ((name value : String)
          → q (header (net.canonical name) value) ≡ true
          → blocked net name ≡ true)
      → count q (copy_request_headers net hs) ≡ 0
  unfolding copy_request_headers
  count-copied [] only = refl
  count-copied (h ∷ hs) only = elim (Bool-cases (is_empty h.name || blocked net h.name)) [
    | inl bad ↦ rw bad (count-copied hs only)
    | inr good ↦ rw (good, not_counted h good only) (count-copied hs only)
  ]

  count-set :
      (name value : String) (hs : List Header)
      → count q hs ≡ 0
      → q (header (net.canonical name) value) ≡ false
      → count q (set_header net name value hs) ≡ 0
  unfolding set_header
  count-set name value hs none_there set = elim (Bool-cases (is_empty value)) [
    | inl empty ↦ rw empty none_there
    | inr given ↦ rw (given, set) (count-select-none _ q hs none_there)
  ]

and_true : (a b : Bool) → (a && b) ≡ true → a ≡ true
and_true true b e = refl
and_true false b e = ground arith

abbrev pub spoofed : String → Header → Bool
spoofed client_ip h = str_eq h.name "X-Forwarded-For" && not (str_eq h.value client_ip)

-- The address that the backend is told of a client is the relay's: no header X-Forwarded-For that the
-- client has sent reaches the backend, in whichever letters, if the canonical form of a name
-- changes no more than its case.
pub upstream_headers-forwarded_for :
    (net : Net) (r : RequestEnvelope)
    → ((name : String) → net.to_lower (net.canonical name) ≡ net.to_lower name)
    → net.to_lower "X-Forwarded-For" ≡ "x-forwarded-for"
    → net.canonical "X-Forwarded-For" ≡ "X-Forwarded-For"
    → net.canonical "X-Forwarded-Host" ≡ "X-Forwarded-Host"
    → net.canonical "X-Forwarded-Proto" ≡ "X-Forwarded-Proto"
    → net.canonical "X-SCNET-Client-Origin" ≡ "X-Scnet-Client-Origin"
    → count (spoofed r.client_ip) (upstream_headers net r) ≡ 0
unfolding upstream_headers is_hop_by_hop
upstream_headers-forwarded_for net r lower for for_name host proto origin =
    let q = spoofed r.client_ip in
    let lower_name = λ (name value : String) (e : q (header (net.canonical name) value) ≡ true).
      let same = (eq_iff (net.canonical name) "X-Forwarded-For").0 (and_true _ _ e) in
      sym (lower name) ∙ ap net.to_lower same ∙ for in
    count-set net q "X-SCNET-Client-Origin" r.client_origin _
      (count-set net q "X-Forwarded-For" r.client_ip _
        (count-set net q "X-Forwarded-Proto" r.forwarded_proto _
          (count-set net q "X-Forwarded-Host" r.forwarded_host _
            (count-copied net q r.headers λ name value e. rw (lower_name name value e) refl)
            (rw host refl))
          (rw proto refl))
        (rw (for_name, (eq_iff r.client_ip r.client_ip).1 refl) refl))
      (rw origin refl)
