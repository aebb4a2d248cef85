-- ===== src/Client/Error.antt =====
-- trql-client/src/transport.rs and error.rs: transports, and the errors that a caller must tell apart.
use trust_registry_build_pip.Base.{
  ℕ, String, Bool, true, false, Option, List, [], ◌∷◌, PartialEq, ◌≡◌, ◌↔◌, arith, format,
}

pub data TransportKind : Type 0 where
  https didcomm tsp : TransportKind

-- `Display`
unfoldable pub to_string : TransportKind → String
to_string https = "https"
to_string didcomm = "didcomm"
to_string tsp = "tsp"

abbrev pub kind_beq : TransportKind → TransportKind → Bool
kind_beq https https = true
kind_beq didcomm didcomm = true
kind_beq tsp tsp = true
kind_beq _ _ = false

pub kind_beq_iff : (a b : TransportKind) → (kind_beq a b ≡ true) ↔ (a ≡ b)
kind_beq_iff https b = ground arith
kind_beq_iff a b = ground arith

-- `PartialEq`
instance abbrev pub kind_eq : PartialEq TransportKind
kind_eq = record { equal = kind_beq; decides = kind_beq_iff }

-- The code and the retry time of a rejection are carried through unread.
pub data TrqlError : Type 0 where
  config contract : String → TrqlError
  transport : TransportKind → String → TrqlError
  timeout : TransportKind → ℕ → TrqlError
  rejected : String → Bool → Option ℕ → Option String → TrqlError
  no_matching_transport : List TransportKind → List TransportKind → TrqlError

join_rest : List TransportKind → String
join_rest [] = ""
join_rest (k ∷ ks) = format (", " ∷ to_string k ∷ join_rest ks ∷ [])

unfoldable pub format_kinds : List TransportKind → String
unfolding join_rest to_string
format_kinds [] = "none"
format_kinds (k ∷ ks) = format (to_string k ∷ join_rest ks ∷ [])

unfoldable pub is_retryable : TrqlError → Bool
is_retryable (transport kind detail) = true
is_retryable (timeout kind waited_secs) = true
is_retryable (rejected code retryable retry_after message) = retryable
is_retryable (config m) = false
is_retryable (contract m) = false
is_retryable (no_matching_transport ours theirs) = false
