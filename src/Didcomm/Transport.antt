-- ===== src/Didcomm/Transport.antt =====
-- trust-registry/src/didcomm/transport.rs, and `try_send` of didcomm/handlers/trust_tasks/mod.rs: the
-- messages that the registry answers with. New ids are given, the messaging library is a parameter.
use trust_registry_build_pip.Base.{
  String, Option, none, some, unwrap_or, Result, ◌>>=◌, ok_or, ◌≡◌, refl,
}
use trust_registry_build_pip.Domain.Json.{Value, string, object, lookup}
use trust_registry_build_pip.Didcomm.ProblemReport.{ProblemReport, to_body}
use trust_registry_build_pip.Didcomm.Routing.{Message, problem_report_type, context_of, or_else}

pub record Outgoing : Type 0 where
  pub id : String
  pub typ : String
  pub body : Value
  pub from : String
  pub to : String
  pub thid : Option String
  pub pthid : Option String

-- `fresh` and `fresh_thread` are new ids.
unfoldable pub build_response :
    (fresh fresh_thread type_ from to : String) → Value → (thid pthid : Option String) → Outgoing
build_response fresh fresh_thread type_ from to body thid pthid = record {
  id = fresh;
  typ = type_;
  body = body;
  from = from;
  to = to;
  thid = some (unwrap_or thid fresh_thread);
  pthid = pthid;
}

unfoldable pub build_problem_report :
    (fresh fresh_thread from to : String) → ProblemReport → (thid pthid : Option String) → Outgoing
build_problem_report fresh fresh_thread from to report thid pthid =
    build_response fresh fresh_thread problem_report_type from to (to_body report) thid pthid

-- The profile of the registry and the messaging library, with the texts of its errors.
pub record Mediation : Type 1 where
  pub Packed : Type 0
  pub did : String
  pub mediator : Option String
  pub pack_encrypted : Outgoing → String → String → Result String Packed
  pub forward_and_send_message : Packed → String → String → String → Result String (Unit {0})

-- The reply to a Trust Task, with the thread of its document.
abbrev pub as_str : Option Value → Option String
as_str (some (string s)) = some s
as_str _ = none

abbrev pub member : Value → String → Option Value
member (object m) k = lookup m k
member _ k = none

module _ (M : Mediation) where
  -- Packing, and the hand-over to the mediator.
  unfoldable pub send_message : Outgoing → String → Result String (Unit {0})
  send_message message recipient = do
    packed ← M.pack_encrypted message recipient M.did
    mediator ← ok_or M.mediator "Mediator not configured"
    M.forward_and_send_message packed message.id mediator recipient

  abbrev pub send_response :
      (fresh fresh_thread message_type : String)
      → Value
      → (recipient : String) → (thid pthid : Option String) → Result String (Unit {0})
  send_response fresh fresh_thread message_type body recipient thid pthid =
      send_message (build_response fresh fresh_thread message_type M.did recipient body thid pthid)
        recipient

  abbrev pub task_envelope :
      (fresh envelope_type : String) → Value → (sender_did : String) → Outgoing
  task_envelope fresh envelope_type body sender_did = record {
    id = fresh;
    typ = envelope_type;
    body = body;
    from = M.did;
    to = sender_did;
    thid = as_str (member body "threadId");
    pthid = none;
  }

  unfoldable pub try_send :
      (fresh envelope_type : String)
      → Result String Value
      → (sender_did : String) → Result String (Unit {0})
  try_send fresh envelope_type body sender_did =
      body >>= λ body. send_message (task_envelope fresh envelope_type body sender_did) sender_did

threaded :
    (id fresh : String) (thid : Option String)
    → some (unwrap_or (or_else (or_else thid (some id)) (some id)) fresh) ≡ some (unwrap_or thid id)
threaded id fresh none = refl
threaded id fresh (some _) = refl

parented :
    (id : String) (thid pthid : Option String)
    → or_else pthid (or_else thid (some id)) ≡ some (unwrap_or pthid (unwrap_or thid id))
parented id none none = refl
parented id (some _) none = refl
parented id thid (some _) = refl

-- A reply that is built in the context of a message is threaded to that message: by its thread, or by
-- its id where it starts one; no new thread is made. Its parent is that of the message.
pub build_response-threaded :
    (fresh fresh_thread type_ from to : String) (body : Value) (message : Message)
    → let ctx = context_of message in
      let reply = build_response fresh fresh_thread type_ from to body ctx.thid ctx.pthid in
      (reply.thid ≡ some (unwrap_or message.thid message.id))
      × (reply.pthid ≡ some (unwrap_or message.pthid (unwrap_or message.thid message.id)))
unfolding build_response context_of
build_response-threaded fresh fresh_thread type_ from to body message =
    (threaded message.id fresh_thread message.thid, parented message.id message.thid message.pthid)
