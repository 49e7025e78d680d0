-- ===== src/Libclient/InFlight.antt =====
-- libclient/src/async_proxy_client.cpp: user and thread take turns; how many requests are on their way.
use pancake.Base.Tests.{
  ℕ, suc, inl, inr, Bool-cases, ◌+◌, ◌≤◌, ◌<◌, ◌≡◌, refl, sym, ap, ◌∙◌, subst, Bool, true, false,
  Option, none, some, List, [], ◌∷◌, ◌++◌, arith, if◌then◌else◌, ltb,
}
use mathlib.Core.List.{append_assoc, append-nil}
use pancake.Base.Lists.{All, length, length-append}
use pancake.Base.Text.{Text, codes, text_eqb, text_eqb_iff}
use pancake.Base.Run.{
  Run, ok, fault, waiting, thrown, out_of_range, assertion, division_by_zero, aborted, no_return,
  exhausted, ok_inj, >>=-eq-ok, ◌>>=◌, ◌>>◌, guard,
}
use pancake.Wire.Protocol.{Protocol}
use pancake.Wire.Response.{recv_response}
use pancake.Libclient.{
  not_caught, Request, AsyncClient, op_code, encode, settles, request, take_request, read_response,
}

-- whose turn it is
pub data Event : Type 0 where
  asks : Request → Event
  takes : Event
  reads : Text → Event

abbrev pub asked : List Event → List Request
asked [] = []
asked (asks r ∷ events) = r ∷ asked events
asked (takes ∷ events) = asked events
asked (reads input ∷ events) = asked events

-- the bytes that the thread reads answers from
abbrev pub inputs : List Event → List Text
inputs [] = []
inputs (asks r ∷ events) = inputs events
inputs (takes ∷ events) = inputs events
inputs (reads input ∷ events) = input ∷ inputs events

abbrev pub op_codes : List Request → List ℕ
op_codes [] = []
op_codes (r ∷ rs) = op_code r ∷ op_codes rs

-- the requests without an answer: the one that the thread has taken, and those in the queue
abbrev pub in_hand : Option ℕ → List ℕ
in_hand none = []
in_hand (some type) = type ∷ []

abbrev pub held : AsyncClient → List ℕ
held c = in_hand c.reading ++ c.requests

-- A response was received, or the transport threw.
abbrev pub Ended : Run ((List Text × ℕ) × Text) → Type 0
Ended (ok answer) = Unit
Ended (fault e) = e ≡ thrown (codes "TTransportException")

-- how many results a response brought
abbrev pub brought : Run ((List Text × ℕ) × Text) → ℕ
brought (ok ((out, client_seq_no), rest)) = length out
brought (fault e) = 0

module _ (p : Protocol) where
  unfoldable pub step : Event → AsyncClient → Run AsyncClient
  unfolding request take_request read_response
  step (asks r) c = request p r c
  step takes c = take_request p c
  step (reads input) c = read_response p input c

  -- the turns, as long as none of them waits
  unfoldable pub run : List Event → AsyncClient → Run AsyncClient
  unfolding step
  run [] c = ok c
  run (e ∷ events) c = step e c >>= λ c'. run events c'

  -- the client after a request
  abbrev pub after : Request → AsyncClient → AsyncClient
  after r c = record c {
    seq_id = record c.seq_id { client_seq_no = c.sequence_num };
    sequence_num = c.sequence_num + 1;
    sent = c.sent ++ encode p (record c.seq_id { client_seq_no = c.sequence_num }) r;
    requests = c.requests ++ (op_code r ∷ []);
  }

  two_guards :
      (a b : Bool) (c c' : AsyncClient)
      → (guard a waiting >> (guard b waiting >> ok c)) ≡ ok c'
      → (a ≡ true) × (c ≡ c')
  two_guards true true c c' e = (refl, ok_inj c c' e)
  two_guards true false c c' e = cc
  two_guards false b c c' e = cc

  pub request-after :
      (r : Request) (c c' : AsyncClient)
      → request p r c ≡ ok c'
      → (length c.requests < 16) × (after r c ≡ c')
  unfolding request
  request-after r c c' e =
      let (room, same) =
        two_guards (ltb (length c.requests) 16) (settles r (c.requests ++ (op_code r ∷ [])))
          (after r c) c' e in
      (ground (arith, room), same)

  taken :
      (finished : Bool) (reading : Option ℕ) (requests : List ℕ) (c c' : AsyncClient)
      → finished ≡ false
      → (if finished then ok c else elim reading [
        | some type ↦ fault waiting
        | none ↦ elim requests [
          | [] ↦ fault waiting
          | type ∷ rest ↦ ok (record c { requests = rest; reading = some type })
        ]
      ])
        ≡ ok c'
      → (reading ≡ none)
        × ((type : ℕ) × (rest : List ℕ) × (requests ≡ type ∷ rest)
            × (record c { requests = rest; reading = some type } ≡ c'))
  taken true reading requests c c' h e = cc
  taken false (some type) requests c c' h e = cc
  taken false none [] c c' h e = cc
  taken false none (type ∷ rest) c c' h e = (refl, (type, rest, refl, ok_inj _ c' e))

  received :
      (reading : Option ℕ) (q : Run ((List Text × ℕ) × Text)) (c c' : AsyncClient)
      → elim reading as (λ _. Run AsyncClient) [
        | none ↦ fault waiting
        | some type ↦
            (elim q as (λ _. Run (List Text)) [
              | ok ((out, client_seq_no), rest) ↦ ok out
              | fault e ↦ not_caught e
            ])
            >>= λ out. ok (record c { total = c.total + length out; reading = none })
      ]
        ≡ ok c'
      → (type : ℕ) × (reading ≡ some type)
        × (record c { total = c.total + brought q; reading = none } ≡ c')
        × Ended q
  unfolding not_caught
  received none q c c' e = cc
  received (some type) (ok ((out, n), rest)) c c' e = (type, refl, ok_inj _ c' e, tt)
  received (some type) (fault (thrown what)) c c' e =
      elim (Bool-cases (text_eqb what (codes "TTransportException"))) [
        | inl same ↦ (
          type,
          refl,
          ok_inj _ c' (rw same at e),
          ap thrown ((text_eqb_iff what (codes "TTransportException")).0 same),
        )
        | inr differs ↦ let stopped = rw differs at e in cc
      ]
  received (some type) (fault out_of_range) c c' e = cc
  received (some type) (fault assertion) c c' e = cc
  received (some type) (fault division_by_zero) c c' e = cc
  received (some type) (fault aborted) c c' e = cc
  received (some type) (fault waiting) c c' e = cc
  received (some type) (fault no_return) c c' e = cc
  received (some type) (fault exhausted) c c' e = cc

  pub take_request-after :
      (c c' : AsyncClient)
      → c.finished ≡ false
      → take_request p c ≡ ok c'
      → (c.reading ≡ none)
        × ((type : ℕ) × (rest : List ℕ) × (c.requests ≡ type ∷ rest)
            × (record c { requests = rest; reading = some type } ≡ c'))
  unfolding take_request
  take_request-after c c' h e = taken c.finished c.reading c.requests c c' h e

  pub read_response-after :
      (input : Text) (c c' : AsyncClient)
      → read_response p input c ≡ ok c'
      → (type : ℕ) × (c.reading ≡ some type)
        × (record c { total = c.total + brought (recv_response p input); reading = none } ≡ c')
        × Ended (recv_response p input)
  unfolding read_response
  read_response-after input c c' e = received c.reading (recv_response p input) c c' e

  -- how many results the responses brought
  pub results : List Text → ℕ
  results [] = 0
  results (input ∷ more) = brought (recv_response p input) + results more

  -- What is on its way, and the numbers: `done` are the requests whose answer the thread has stopped
  -- to read.
  abbrev pub Balanced : AsyncClient → List Event → AsyncClient → Type 0
  Balanced c events c' =
      (c'.sequence_num ≡ c.sequence_num + length (asked events))
      × (length c'.requests ≤ 16)
      × (c'.total ≡ c.total + results (inputs events))
      × All (λ input. Ended (recv_response p input)) (inputs events)
      × (done : List ℕ) × (held c ++ op_codes (asked events) ≡ done ++ held c')
      × (length done ≡ length (inputs events))

  -- In any turns of user and thread in which none waits, before `finish` and from at most 16
  -- requests in the queue: each request takes one number, and the queue holds at most 16
  -- requests at the end. The requests that were taken or in the queue at first, followed by
  -- those that were made, are, in this order, one for each answer that the thread has stopped
  -- to read, and those now taken or in the queue. Each of these answers was a response or an
  -- exception of the transport, and the results of the responses are counted in `total_`.
  pub run-in_flight :
      (events : List Event) (c c' : AsyncClient)
      → c.finished ≡ false
      → length c.requests ≤ 16
      → run events c ≡ ok c'
      → Balanced c events c'
  unfolding run step results
  run-in_flight [] c c' h small e =
      subst (Balanced c []) (ok_inj c c' e)
        (omega arith, small, omega arith, tt, [], append-nil (held c), refl)
  run-in_flight (asks r ∷ events) c c' h small e =
      let (d, first, others) = >>=-eq-ok (request p r c) (λ x. run events x) c' e in
      let (room, same) = request-after r c d first in
      let fits : length d.requests ≤ 16 =
        subst (λ (x : AsyncClient). length x.requests ≤ 16) same
          (omega (arith, room, length-append c.requests (op_code r ∷ []))) in
      let (numbers, few, total, ended, done, order, count) =
        subst (λ (x : AsyncClient). Balanced x events c') (sym same)
          (run-in_flight events d c' (subst (λ (x : AsyncClient). x.finished ≡ false) same h) fits
            others) in
      (
        omega (arith, numbers),
        few,
        total,
        ended,
        done,
        sym (append_assoc (held c) (op_code r ∷ []) (op_codes (asked events)))
            ∙ ap (λ l. l ++ op_codes (asked events))
                (append_assoc (in_hand c.reading) c.requests (op_code r ∷ []))
            ∙ order,
        count,
      )
  run-in_flight (takes ∷ events) c c' h small e =
      let (d, first, others) = >>=-eq-ok (take_request p c) (λ x. run events x) c' e in
      let (idle, (type, rest, found, same)) = take_request-after c d h first in
      let fits : length d.requests ≤ 16 =
        subst (λ (x : AsyncClient). length x.requests ≤ 16) same
          (omega (arith, ap length found, small)) in
      let (numbers, few, total, ended, done, order, count) =
        subst (λ (x : AsyncClient). Balanced x events c') (sym same)
          (run-in_flight events d c' (subst (λ (x : AsyncClient). x.finished ≡ false) same h) fits
            others) in
      (
        numbers,
        few,
        total,
        ended,
        done,
        ap (λ r. (in_hand r ++ c.requests) ++ op_codes (asked events)) idle
            ∙ ap (λ l. l ++ op_codes (asked events)) found
            ∙ order,
        count,
      )
  run-in_flight (reads input ∷ events) c c' h small e =
      let (d, first, others) = >>=-eq-ok (read_response p input c) (λ x. run events x) c' e in
      let (type, busy, same, ended) = read_response-after input c d first in
      let fits : length d.requests ≤ 16 =
        subst (λ (x : AsyncClient). length x.requests ≤ 16) same small in
      let (numbers, few, total, others_ended, done, order, count) =
        subst (λ (x : AsyncClient). Balanced x events c') (sym same)
          (run-in_flight events d c' (subst (λ (x : AsyncClient). x.finished ≡ false) same h) fits
            others) in
      (
        numbers,
        few,
        omega (arith, total),
        (ended, others_ended),
        type ∷ done,
        ap (λ r. (in_hand r ++ c.requests) ++ op_codes (asked events)) busy
            ∙ ap (λ l. type ∷ l) order,
        ap suc count,
      )
