-- ===== src/Punch/Probe/Answered.antt =====
-- What a probe returns.
use shuosc_network_server_ba.Common.{
  ℕ, ◌≡◌, refl, Option, none, some, List, [], ◌∷◌, if◌then◌else◌, Bool-cases, inl, inr,
}
use shuosc_network_server_ba.Common.Text.{Text, text_eq, text_eq_iff}
use shuosc_network_server_ba.Store.Rows.{update_where, delete_where}
use shuosc_network_server_ba.Punch.Stun.{done, Response}
use shuosc_network_server_ba.Punch.Stun.Total.{parse_binding_response_total}
use shuosc_network_server_ba.Punch.Probe.{
  Waiting, waits_for, put_result, deliver, handle_stun, read_packets, result_for, probe_one,
}

-- The packets as they are read.
abbrev response_in : List ℕ → Response
response_in packet = (parse_binding_response_total packet).0

abbrev keep_first : Option Text → Option Text → Option Text
keep_first none later = later
keep_first (some t) later = some t

abbrev answer_to : List ℕ → Response → Option Text
answer_to id r =
    if r.is_ok then if text_eq id r.transaction_id then some r.endpoint else none else none

-- The endpoint of the first answer to a transaction.
abbrev pub first_answer : List ℕ → List (List ℕ) → Option Text
first_answer id [] = none
first_answer id (p ∷ ps) = keep_first (answer_to id (response_in p)) (first_answer id ps)

-- One transaction waits, and no other.
abbrev alone : List ℕ → Option Text → List Waiting
alone id result = record { transaction = id; result = result } ∷ []

put_result-keep_first :
    (id : List ℕ) (endpoint : Text) (result : Option Text)
    → put_result endpoint (record { transaction = id; result = result })
      ≡ record { transaction = id; result = keep_first result (some endpoint) }
put_result-keep_first id endpoint none = refl
put_result-keep_first id endpoint (some t) = refl

keep_first-none : (result : Option Text) → keep_first result none ≡ result
keep_first-none none = refl
keep_first-none (some t) = refl

keep_first_assoc :
    (a b c : Option Text) → keep_first (keep_first a b) c ≡ keep_first a (keep_first b c)
keep_first_assoc none b c = refl
keep_first_assoc (some t) b c = refl

module _ (id : List ℕ) where
  delivered :
      (r : Response) (result : Option Text)
      → (deliver r (alone id result)).1 ≡ alone id (keep_first result (answer_to id r))
  unfolding deliver update_where
  delivered r result = elim (Bool-cases r.is_ok) [
    | inr skip ↦ rw (skip, keep_first-none result) refl
    | inl answers ↦ elim (Bool-cases (text_eq id r.transaction_id)) [
      | inr other ↦ rw (answers, other, keep_first-none result) refl
      | inl mine ↦ rw (answers, mine, put_result-keep_first id r.endpoint result) refl
    ]
  ]

  all-read :
      (packets : List (List ℕ)) (result : Option Text)
      → read_packets packets (alone id result)
        ≡ done (alone id (keep_first result (first_answer id packets)))
  unfolding read_packets handle_stun
  all-read [] result = rw (keep_first-none result) refl
  all-read (p ∷ ps) result =
      let r = response_in p in
      rw
        (
          (parse_binding_response_total p).1,
          delivered r result,
          all-read ps (keep_first result (answer_to id r)),
          keep_first_assoc result (answer_to id r) (first_answer id ps),
        )
        refl

  found-alone : (result : Option Text) → result_for id (alone id result) ≡ result
  unfolding result_for
  found-alone result = rw (result_for, (text_eq_iff id id).1 refl) refl

  dropped-alone : (result : Option Text) → delete_where (waits_for id) (alone id result) ≡ []
  unfolding delete_where
  dropped-alone result = rw ((text_eq_iff id id).1 refl) refl

  -- Where no other transaction waits, a probe whose request was sent returns, whatever packets arrive,
  -- with the endpoint of the first answer to its own transaction, and with no endpoint if none of
  -- the packets is one; and nothing waits afterwards.
  pub probe_one-first_answer :
      (packets : List (List ℕ))
      → probe_one id (some packets) [] ≡ done (first_answer id packets, [])
  unfolding probe_one delete_where
  probe_one-first_answer packets =
      rw
        (
          all-read packets none,
          found-alone (first_answer id packets),
          dropped-alone (first_answer id packets),
        )
        refl
