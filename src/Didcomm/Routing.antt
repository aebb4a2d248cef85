-- ===== src/Didcomm/Routing.antt =====
-- trust-registry/src/didcomm/handlers/mod.rs, build.rs and problem_report/mod.rs, with the threads of
-- trust-registry/src/didcomm/mod.rs: which handler takes an inbound message, and in what context. The
-- type of the Trust Task envelope is a library's.
use trust_registry_build_pip.Base.{
  String, Bool, true, false, Option, none, some, unwrap_or, Result, ok, List, [], ◌∷◌, contains,
  string_eq, if◌then◌else◌, ◌==◌, ◌≡◌, ◌↔◌, arith, refl, sym, ap, ◌∙◌, subst, Bool-cases, inl, inr,
}
use text.Mathlib.TextEquality.{eq_iff}
use trust_registry_build_pip.Domain.Json.{Value}
use trust_registry_build_pip.Didcomm.Admin
use trust_registry_build_pip.Didcomm.Trqp.{supported_inbound_message_types}

-- `Message` of the library, as far as it is read here.
pub record Message : Type 0 where
  pub id : String
  pub typ : String
  pub body : Value
  pub from : Option String
  pub thid : Option String
  pub pthid : Option String

abbrev pub or_else : Option String → Option String → Option String
or_else none o = o
or_else (some s) o = some s

abbrev pub get_thread_id : Message → Option String
get_thread_id message = or_else message.thid (some message.id)

abbrev pub get_parent_thread_id : Message → Option String
get_parent_thread_id message = or_else message.pthid (get_thread_id message)

-- `HandlerContext`, without the connection and the profile.
unfoldable pub context_of : Message → Admin.HandlerContext
context_of message = record {
  sender_did = unwrap_or message.from "anon";
  thid = or_else (get_thread_id message) (some message.id);
  pthid = get_parent_thread_id message;
}

pub data Protocol : Type 0 where
  trqp tr_admin problem_report trust_tasks : Protocol

abbrev pub problem_report_type : String
problem_report_type = "https://didcomm.org/report-problem/2.0/problem-report"

abbrev pub protocols_handlers : List Protocol
protocols_handlers = trqp ∷ tr_admin ∷ problem_report ∷ trust_tasks ∷ []

module _ (envelope_type : String) where
  abbrev pub supported : Protocol → List String
  supported trqp = supported_inbound_message_types
  supported tr_admin = Admin.get_supported_inbound_message_types
  supported problem_report = problem_report_type ∷ []
  supported trust_tasks = envelope_type ∷ []

  -- `find` over the handlers
  abbrev pub find_handler : List Protocol → String → Option Protocol
  find_handler [] message_type = none
  find_handler (p ∷ ps) message_type =
      let rest = find_handler ps message_type in
      if contains (supported p) message_type then some p else rest

  unfoldable pub handler_of : String → Option Protocol
  handler_of message_type = find_handler protocols_handlers message_type

  abbrev pub handle_by :
      {W : Type 0}
      → (Protocol → Admin.HandlerContext → Message → W → Result String (Unit {0}) × W)
      → Option Protocol
      → Message
      → W
      → Result String (Unit {0}) × W
  handle_by run none message w = (ok tt, w)
  handle_by run (some p) message w = run p (context_of message) message w

  -- `handle` of `BaseHandler`, over the handlers of the protocols.
  unfoldable pub handle :
      {W : Type 0}
      → (Protocol → Admin.HandlerContext → Message → W → Result String (Unit {0}) × W)
      → Message
      → W
      → Result String (Unit {0}) × W
  handle run message w = handle_by run (handler_of message.typ) message w

  -- None of the first types is among the second.
  abbrev Apart : List String → List String → Type 0
  Apart [] ts = Unit
  Apart (s ∷ ss) ts = (contains ts s ≡ false) × Apart ss ts

  Apart-contains :
      (ss ts : List String) (t : String)
      → Apart ss ts
      → contains ss t ≡ true
      → contains ts t ≡ false
  Apart-contains [] ts t apart there = ground (arith, there)
  Apart-contains (s ∷ ss) ts t apart there = elim (Bool-cases (s == t)) [
    | inl same ↦ ap (contains ts) (sym ((eq_iff s t).0 same)) ∙ apart.0
    | inr other ↦ Apart-contains ss ts t apart.1 (ground (arith, there, other))
  ]

  -- At most one of four tests holds, and the first that holds decides.
  abbrev is_of : Bool → Bool → Bool → Bool → Protocol → Bool
  is_of a b c d trqp = a
  is_of a b c d tr_admin = b
  is_of a b c d problem_report = c
  is_of a b c d trust_tasks = d

  first_iff :
      (a b c d : Bool) (p : Protocol)
      → (a ≡ true → (b ≡ false) × (c ≡ false) × (d ≡ false))
      → (b ≡ true → (c ≡ false) × (d ≡ false))
      → (c ≡ true → d ≡ false)
      → ((if a
            then some trqp
            else if b
            then some tr_admin
            else if c
            then some problem_report
            else if d
            then some trust_tasks
            else none)
          ≡ some p)
        ↔ (is_of a b c d p ≡ true)
  first_iff a b c d trqp x y z = ground (arith, x, y, z)
  first_iff a b c d tr_admin x y z = ground (arith, x, y, z)
  first_iff a b c d problem_report x y z = ground (arith, x, y, z)
  first_iff a b c d trust_tasks x y z = ground (arith, x, y, z)

  -- A protocol without the type of the envelope supports no message of that type.
  not_envelope :
      (ts : List String) (t : String)
      → contains ts envelope_type ≡ false
      → contains ts t ≡ true
      → contains (envelope_type ∷ []) t ≡ false
  not_envelope ts t free there = elim (Bool-cases (envelope_type == t)) [
    | inl same ↦
        ground (arith, there, ap (contains ts) (sym ((eq_iff envelope_type t).0 same)) ∙ free)
    | inr other ↦ ground (arith, other)
  ]

  is_of-supported :
      (p : Protocol) (t : String)
      → is_of
          (contains (supported trqp) t)
          (contains (supported tr_admin) t)
          (contains (supported problem_report) t)
          (contains (supported trust_tasks) t)
          p
        ≡ contains (supported p) t
  is_of-supported trqp t = refl
  is_of-supported tr_admin t = refl
  is_of-supported problem_report t = refl
  is_of-supported trust_tasks t = refl

  -- Where no other protocol has the type of the envelope, each supported type is that of one handler
  -- alone: a message goes to a handler exactly if that handler supports its type.
  pub handler_of_iff :
      (p : Protocol) (message_type : String)
      → contains (supported trqp) envelope_type ≡ false
      → contains (supported tr_admin) envelope_type ≡ false
      → contains (supported problem_report) envelope_type ≡ false
      → (handler_of message_type ≡ some p) ↔ (contains (supported p) message_type ≡ true)
  unfolding handler_of
  handler_of_iff p t a b c =
      subst (λ b. (handler_of t ≡ some p) ↔ (b ≡ true)) (is_of-supported p t)
        (first_iff (contains (supported trqp) t) (contains (supported tr_admin) t)
          (contains (supported problem_report) t) (contains (supported trust_tasks) t) p
          (λ q. (
            Apart-contains (supported trqp) (supported tr_admin) t (ground arith) q,
            Apart-contains (supported trqp) (supported problem_report) t (ground arith) q,
            not_envelope (supported trqp) t a q,
          ))
          (λ q. (
            Apart-contains (supported tr_admin) (supported problem_report) t (ground arith) q,
            not_envelope (supported tr_admin) t b q,
          ))
          (not_envelope (supported problem_report) t c))

  -- Under the same conditions: a message whose type a protocol supports is handled by that protocol, in
  -- the context of the message, and by no other.
  pub handle-supported :
      {W : Type 0}
      (run : Protocol → Admin.HandlerContext → Message → W → Result String (Unit {0}) × W)
      (p : Protocol) (message : Message) (w : W)
      → contains (supported trqp) envelope_type ≡ false
      → contains (supported tr_admin) envelope_type ≡ false
      → contains (supported problem_report) envelope_type ≡ false
      → contains (supported p) message.typ ≡ true
      → handle run message w ≡ run p (context_of message) message w
  unfolding handle
  handle-supported run p message w a b c there =
      ap (λ o. handle_by run o message w) ((handler_of_iff p message.typ a b c).1 there)
