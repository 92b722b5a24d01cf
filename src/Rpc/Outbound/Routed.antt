-- ===== src/Rpc/Outbound/Routed.antt =====
-- internal/jsonrpc/conn.go: an answer of the client reaches the request that it answers.
use kotlsp.Prelude.{
  suc, ◌+◌, ◌^◌, ◌≤◌, ◌<◌, ◌≡◌, refl, Bool, List, [], ◌∷◌, Option, none, some, Bytes, leb, length,
  arith, Bool-cases, Option-cases, inl, inr,
}
use kotlsp.Rpc.{Message, Json, request_id_key}
use kotlsp.Rpc.Outbound.{
  max_pending, Returned, write_failed, context_error, connection_stopped, client_gone,
  answered_with, Outbound, no_requests, delete_pending, find_pending, request_key, finished,
  begin_request, deliver, Ending, context_done, stop_closed, peer_gone_closed, answer_ready,
  end_request, RequestEvent, begins, delivers, ends, request_step, request_run,
}
use kotlsp.Rpc.Outbound.Entries.{
  Answers, AreRouted, AreDistinct, AreRouted-mono, fresh_key, delete_absent, length-delete,
  delete-AreDistinct, delete-AreRouted, length-send, send-AreDistinct, send-AreRouted, find-Answers,
}

abbrev Answered : Json → Bytes → Returned → Type 0
Answered json key (answered_with m) = request_id_key json m.id ≡ some key
Answered json key _ = Unit

abbrev pub AreAnswered : Json → List (Bytes × Returned) → Type 0
AreAnswered json [] = Unit
AreAnswered json ((key, r) ∷ rs) = Answered json key r × AreAnswered json rs

pub record IsRouted (json : Json) (o : Outbound) : Type 0 where
  pub few : length o.pending ≤ max_pending
  pub distinct : AreDistinct o.pending
  pub routed : AreRouted json o.next_id o.pending
  pub answered : AreAnswered json o.returned

finished-IsRouted :
    (json : Json) (o : Outbound) (key : Bytes) (r : Returned)
    → IsRouted json o
    → Answered json key r
    → IsRouted json (finished o key r)
finished-IsRouted json o key r i a =
    let l = length-delete o.pending key in
    let f = i.few in
    record {
      few = omega arith;
      distinct = delete-AreDistinct o.pending key i.distinct;
      routed = delete-AreRouted json o.next_id o.pending key i.routed;
      answered = (a, i.answered);
    }

begin-IsRouted :
    (json : Json) (o : Outbound) (writes : Bool)
    → suc o.next_id < 2 ^ 63
    → IsRouted json o
    → IsRouted json (begin_request o writes)
unfolding begin_request
begin-IsRouted json o writes l i =
    let key = request_key (suc o.next_id) in
    let routed = AreRouted-mono json o.next_id o.pending i.routed in
    let absent = fresh_key json o.next_id o.pending l i.routed in
    let gone = delete_absent o.pending key absent in
    elim (Bool-cases (leb max_pending (length o.pending))) [
      | inl full ↦
          simp (begin_request, full)
            (record {
              few = i.few;
              distinct = i.distinct;
              routed = routed;
              answered = (tt, i.answered);
            })
      | inr full ↦
          let entered : IsRouted json (record o {
            next_id = suc o.next_id;
            pending = record { key = key; answer = none } ∷ delete_pending o.pending key;
          }) =
            rw gone (record {
              few = ground arith;
              distinct = (absent, i.distinct);
              routed = (tt, (suc o.next_id, omega arith, refl), routed);
              answered = i.answered;
            }) in
          elim (Bool-cases writes) [
            | inl w ↦ simp (begin_request, full, w) entered
            | inr w ↦
                simp (begin_request, full, w) (finished-IsRouted json _ key write_failed entered tt)
          ]
    ]

deliver-IsRouted :
    (json : Json) (o : Outbound) (m : Message) → IsRouted json o → IsRouted json (deliver json o m)
unfolding deliver
deliver-IsRouted json o m i = elim (Option-cases (request_id_key json m.id)) [
  | inl e ↦ simp (deliver, e) i
  | inr (key, e) ↦
      let l = length-send o.pending key m in
      let f = i.few in
      simp (deliver, e)
        (record {
          few = omega arith;
          distinct = send-AreDistinct o.pending key m i.distinct;
          routed = send-AreRouted json o.next_id o.pending key m e i.routed;
          answered = i.answered;
        })
]

ending-IsRouted :
    (json : Json) (o : Outbound) (key : Bytes) (how : Ending) (answer : Option Message)
    → IsRouted json o
    → Answers json key answer
    → IsRouted json (elim how [
      | context_done ↦ finished o key context_error
      | stop_closed ↦ finished o key connection_stopped
      | peer_gone_closed ↦ finished o key client_gone
      | answer_ready ↦ elim answer [ none ↦ o | some m ↦ finished o key (answered_with m) ]
    ])
ending-IsRouted json o key context_done answer i a = finished-IsRouted json o key context_error i tt
ending-IsRouted json o key stop_closed answer i a =
    finished-IsRouted json o key connection_stopped i tt
ending-IsRouted json o key peer_gone_closed answer i a =
    finished-IsRouted json o key client_gone i tt
ending-IsRouted json o key answer_ready none i a = i
ending-IsRouted json o key answer_ready (some m) i a =
    finished-IsRouted json o key (answered_with m) i a

end-IsRouted :
    (json : Json) (o : Outbound) (key : Bytes) (how : Ending)
    → IsRouted json o
    → IsRouted json (end_request o key how)
unfolding end_request
end-IsRouted json o key how i = elim (Option-cases (find_pending o.pending key)) [
  | inl e ↦ simp (end_request, e) i
  | inr (p, e) ↦
      simp (end_request, e)
        (ending-IsRouted json o key how p.answer i
          (find-Answers json o.next_id o.pending key p i.routed e))
]

step-IsRouted :
    (json : Json) (o : Outbound) (e : RequestEvent)
    → suc o.next_id < 2 ^ 63
    → IsRouted json o
    → IsRouted json (request_step json o e)
unfolding request_step
step-IsRouted json o (begins writes) l i = begin-IsRouted json o writes l i
step-IsRouted json o (delivers m) l i = deliver-IsRouted json o m i
step-IsRouted json o (ends key how) l i = end-IsRouted json o key how i

step_ids :
    (json : Json) (o : Outbound) (e : RequestEvent)
    → (request_step json o e).next_id ≤ suc o.next_id
unfolding request_step begin_request deliver end_request
step_ids json o (begins writes) = ground arith
step_ids json o (delivers m) = ground arith
step_ids json o (ends key how) = ground arith

from-IsRouted :
    (json : Json) (o : Outbound) (es : List RequestEvent)
    → o.next_id + length es < 2 ^ 63
    → IsRouted json o
    → IsRouted json (request_run json o es)
unfolding request_run
from-IsRouted json o [] l i = i
from-IsRouted json o (e ∷ es) l i =
    let s = step_ids json o e in
    from-IsRouted json (request_step json o e) es (omega arith)
      (step-IsRouted json o e (omega arith) i)

-- After fewer than 2 ^ 63 events, in whatever order calls begin and end and responses arrive, at
-- most 128 requests are pending, no two under one key, and an answer that a channel holds or that
-- a call has returned has the id of the request it was given to.
pub request_run-IsRouted :
    (json : Json) (es : List RequestEvent)
    → length es < 2 ^ 63
    → IsRouted json (request_run json no_requests es)
request_run-IsRouted json es l =
    from-IsRouted json no_requests es (omega arith)
      (record { few = omega arith; distinct = tt; routed = tt; answered = tt })
