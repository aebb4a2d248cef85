-- ===== src/Tests/Dedup.antt =====
-- Two deliveries of one write, with another write in between, and a claim that stands.
use trust_registry_build_pip.Base.{ℕ, suc, ◌≡◌, ◌≢◌, refl, arith, Option, some, ok, err, [], ◌∷◌}
use trust_registry_build_pip.Base.HashMap
use trust_registry_build_pip.Base.HashMap.{Distinct}
use trust_registry_build_pip.TrustTasks.Framework.{Handler}
use trust_registry_build_pip.TrustTasks.Proof.{is_write_slug}
use trust_registry_build_pip.Dedup.{
  MemoryMessageIdStore, acquired, claim, is_cacheable, evict_expired, default_ttl,
  default_in_flight_ttl,
}
use trust_registry_build_pip.Dedup.Store.{live, after_claim}
use trust_registry_build_pip.Dedup.Replay.{Delivery, deliver, deliver_all, write_applied_once}
use trust_registry_build_pip.Dedup.Exclusion.{Moment, here, next, tick, claim_exclusive}
use trust_registry_build_pip.TrustTasks.Framework.{RejectReason, internal_error}
use trust_registry_build_pip.Dedup.Retry.{transient_write_retried}
use trust_registry_build_pip.Tests.Fixtures.{Doc, framework, write_doc, other_doc}

-- The world counts the documents that were handled.
abbrev handle : Doc → Handler framework ℕ
handle doc w = (ok doc, suc w)

abbrev from_std : ℕ → Option ℕ
from_std d = some d

abbrev empty_store : MemoryMessageIdStore framework
empty_store = record { ttl = default_ttl; in_flight_ttl = default_in_flight_ttl; entries = [] }

abbrev first : Delivery framework
first = record { doc = write_doc; now = 10; later = 12; fresh = "x" }

abbrev other : Delivery framework
other = record { doc = other_doc; now = 20; later = 21; fresh = "y" }

abbrev again : Delivery framework
again = record { doc = write_doc; now = 30; later = 31; fresh = "z" }

write_applied_once_example :
    let a = deliver framework from_std handle first (empty_store, 0) in
    let reached = deliver_all framework from_std handle (other ∷ []) (a.1, a.2) in
    let b = deliver framework from_std handle again reached in
    (a.0 ≡ ok write_doc) × (a.2 ≡ 1) × (b.0 ≡ a.0) × (b.2 ≡ reached.1)
unfolding is_write_slug live is_cacheable HashMap.get
write_applied_once_example =
    write_applied_once framework from_std handle first again empty_store 0 (other ∷ []) tt refl refl
      refl refl (omega arith, tt) (omega arith)

abbrev start : Moment framework from_std
start = record { store = empty_store; now = 10 }

abbrev claimed_start : Moment framework from_std
claimed_start = record start { store = after_claim framework from_std empty_store 10 "k" }

abbrev later : Moment framework from_std
later = record claimed_start { now = 40 }

claim_exclusive_example :
    (claim framework from_std 40 "k" (after_claim framework from_std empty_store 10 "k")).0
    ≢ ok acquired
unfolding claim evict_expired HashMap.get HashMap.retain
claim_exclusive_example =
    claim_exclusive framework from_std "k" 300 start later tt refl (omega arith) (omega arith)
      (next here (tick 40 (omega arith) refl)) (omega arith)

abbrev down : RejectReason
down = internal_error "store is down"

-- A handler that always fails transiently, and counts its calls.
abbrev failing : Doc → Handler framework ℕ
failing doc w = (err (framework.reject_with doc "e" down), suc w)

transient_write_retried_example :
    let a = deliver framework from_std failing first (empty_store, 0) in
    let b = deliver framework from_std failing again (a.1, a.2) in
    (a.0 ≡ err (framework.reject_with write_doc "e" down))
    × (b.0 ≡ (failing write_doc a.2).0)
    × (b.2 ≡ (failing write_doc a.2).1)
unfolding is_write_slug live HashMap.get
transient_write_retried_example =
    transient_write_retried framework from_std failing first again empty_store 0 "e" "store is down"
      tt refl refl refl refl
