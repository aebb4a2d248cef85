-- ===== src/Dedup.antt =====
-- trust-registry/src/dedup/mod.rs: the claim protocol for message ids, the store in memory, and the
-- dispatch of a document through it. A clock reading is an argument; times and durations are numbers
-- of one unit. `chrono::Duration::from_std` is a parameter.
pub mod Key
pub mod Store
pub mod Remembers
pub mod Replay
pub mod Exclusion
pub mod Retry
use trust_registry_build_pip.Base.{
  ℕ, ◌+◌, ◌*◌, String, Bool, true, false, not, Option, none, some, unwrap_or, Result, ok, err, ltb,
  if◌then◌else◌, ◌==◌, string_eq, List, [], ◌∷◌, format,
}
use trust_registry_build_pip.Base.HashMap
use trust_registry_build_pip.Base.HashMap.{HashMap}
use trust_registry_build_pip.TrustTasks.Framework.{Framework, TaskOutcome, Handler, task_failed}
use trust_registry_build_pip.TrustTasks.Proof.{is_write_slug}

abbrev pub default_ttl : ℕ
default_ttl = 24 * 60 * 60

abbrev pub default_in_flight_ttl : ℕ
default_in_flight_ttl = 5 * 60

pub data DedupError : Type 0 where
  unavailable : String → DedupError

module _ (F : Framework) where
  open F use {Document, ErrorResponse, id, issuer, slug, reject_with, retryable, with_retryable}

  unfoldable pub message_key : Document → String
  message_key doc = format ("MID#" ∷ unwrap_or (issuer doc) "anonymous" ∷ "#" ∷ id doc ∷ [])

  pub data StoredOutcome : Type 0 where
    completed : Document → StoredOutcome
    rejected : ErrorResponse → StoredOutcome

  unfoldable pub from_outcome : TaskOutcome F → StoredOutcome
  from_outcome (ok response) = completed response
  from_outcome (err error) = rejected error

  unfoldable pub into_outcome : StoredOutcome → TaskOutcome F
  into_outcome (completed response) = ok response
  into_outcome (rejected error) = err error

  pub data Claim : Type 0 where
    acquired : Claim
    replay : StoredOutcome → Claim
    in_flight : Claim

  -- `MessageIdStore`: each method is given the reading of the clock at its call.
  pub record MessageIdStore : Type 1 where
    pub State : Type 0
    pub claim : ℕ → String → State → Result DedupError Claim × State
    pub complete : ℕ → String → StoredOutcome → State → Result DedupError (Unit {0}) × State
    pub release : ℕ → String → State → Result DedupError (Unit {0}) × State

  pub data Entry : Type 0 where
    in_flight : ℕ → Entry
    done : StoredOutcome → ℕ → Entry

  pub record MemoryMessageIdStore : Type 0 where
    pub ttl : ℕ
    pub in_flight_ttl : ℕ
    pub entries : HashMap String Entry

  unfoldable pub new : ℕ → ℕ → MemoryMessageIdStore
  new ttl in_flight_ttl = record { ttl = ttl; in_flight_ttl = in_flight_ttl; entries = [] }

  -- `now.signed_duration_since(claimed_at) < in_flight`, with `claimed_at` on the other side.
  unfoldable pub is_live : ℕ → ℕ → Entry → Bool
  is_live now in_flight_ttl (done outcome expires_at) = ltb now expires_at
  is_live now in_flight_ttl (in_flight claimed_at) = ltb now (claimed_at + in_flight_ttl)

  unfoldable pub is_cacheable : TaskOutcome F → Bool
  is_cacheable (ok response) = true
  is_cacheable (err error) = not (retryable error)

  module _ (from_std : ℕ → Option ℕ) where
    unfoldable pub evict_expired : HashMap String Entry → ℕ → ℕ → HashMap String Entry
    evict_expired entries now in_flight_ttl =
        HashMap.retain ⦃e = string_eq⦄ (is_live now (unwrap_or (from_std in_flight_ttl) 0)) entries

    unfoldable pub claim :
        ℕ → String → MemoryMessageIdStore → Result DedupError Claim × MemoryMessageIdStore
    claim now key s =
        let entries = evict_expired s.entries now s.in_flight_ttl in
        elim (HashMap.get entries key) [
          | some entry ↦ (elim entry [
            | done outcome expires_at ↦ (ok (replay outcome), record s { entries = entries })
            | in_flight claimed_at ↦ (ok Claim.in_flight, record s { entries = entries })
          ])
          | none ↦
              (ok acquired, record s { entries = HashMap.insert entries key (Entry.in_flight now) })
        ]

    unfoldable pub complete :
        ℕ
        → String
        → StoredOutcome
        → MemoryMessageIdStore
        → Result DedupError (Unit {0}) × MemoryMessageIdStore
    complete now key outcome s =
        let expires_at = now + unwrap_or (from_std s.ttl) 0 in
        (ok tt, record s { entries = HashMap.insert s.entries key (done outcome expires_at) })

    unfoldable pub release :
        ℕ → String → MemoryMessageIdStore → Result DedupError (Unit {0}) × MemoryMessageIdStore
    release now key s = (ok tt, record s { entries = HashMap.remove s.entries key })

    -- `impl MessageIdStore for MemoryMessageIdStore`
    abbrev pub memory : MessageIdStore
    memory = record {
      State = MemoryMessageIdStore;
      claim = claim;
      complete = complete;
      release = release;
    }

  -- `handle_document` with its dispatcher is the argument `handle`. The clock is read at the claim
  -- and when the claim is resolved; `fresh` is the new id of a rejection. A failed resolution is
  -- only logged.
  module _ {W : Type 0} (handle : Document → Handler F W) (store : MessageIdStore) where
    open store use {State}

    abbrev resolve : ℕ → String → TaskOutcome F → State → Result DedupError (Unit {0}) × State
    resolve now key outcome s =
        if is_cacheable outcome
        then store.complete now key (from_outcome outcome) s
        else store.release now key s

    abbrev run : ℕ → Document → State × W → TaskOutcome F × State × W
    run later doc (s, w) =
        let (outcome, w') = handle doc w in
        (outcome, (resolve later (message_key doc) outcome s).1, w')

    abbrev bypass : Document → State × W → TaskOutcome F × State × W
    bypass doc (s, w) = let (outcome, w') = handle doc w in (outcome, s, w')

    abbrev pub busy : String → Document → ErrorResponse
    busy fresh doc =
        with_retryable
          (reject_with doc fresh (task_failed "an identical document is currently being processed"))
          true

    abbrev decide :
        ℕ → String → Document → Result DedupError Claim → State × W → TaskOutcome F × State × W
    decide later fresh doc (ok (replay stored)) (s, w) = (into_outcome stored, s, w)
    decide later fresh doc (ok Claim.in_flight) (s, w) = (err (busy fresh doc), s, w)
    decide later fresh doc (ok acquired) (s, w) = run later doc (s, w)
    decide later fresh doc (err e) (s, w) = bypass doc (s, w)

    unfoldable pub dispatch_idempotent :
        ℕ → ℕ → String → Document → State × W → TaskOutcome F × State × W
    dispatch_idempotent now later fresh doc (s, w) =
        if not (is_write_slug (slug doc))
        then bypass doc (s, w)
        else (let (claimed, s') = store.claim now (message_key doc) s in
            decide later fresh doc claimed (s', w))
