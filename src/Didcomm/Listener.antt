-- ===== src/Didcomm/Listener.antt =====
-- trust-registry/src/didcomm/listener/mod.rs: the check, before the listener starts, that the DID
-- document of a `did:web` can be fetched. Requests and waiting act on a world; the decoding of a URL and
-- the building of the HTTP client are parameters.
pub mod Bounds
use Prim.Native.Nat.{◌%◌, ◌^◌}
use trust_registry_build_pip.Base.{
  ℕ, zero, suc, ◌+◌, ◌*◌, String, Bool, true, false, ◌&&◌, Option, none, some, Result, ok, err,
  if◌then◌else◌, leb, ltb, List, [], ◌∷◌, format,
}
use trust_registry_build_pip.Base.Text.{strip_prefix, split, join}

-- The errors that the check returns.
pub data DidCommError : Type 0 where
  invalid_did unreachable_did_document : DidCommError
  http_request : String → DidCommError

abbrev pub min : ℕ → ℕ → ℕ
min a b = if leb a b then a else b

-- `http_get` gives the status of a response, `build_client` fails or not.
pub record Web (W : Type 0) : Type 0 where
  pub decode : String → Option String
  pub build_client : Result String (Unit {0})
  pub http_get : String → W → Result String ℕ × W
  pub sleep : ℕ → W → W

abbrev pub is_success : Result String ℕ → Bool
is_success (ok status) = leb 200 status && ltb status 300
is_success (err e) = false

abbrev pub url_of : Option String → List String → Result DidCommError String
url_of none path = err invalid_did
url_of (some domain) [] = ok (format ("https://" ∷ domain ∷ "/.well-known/did.json" ∷ []))
url_of (some domain) (p ∷ path) =
    ok (format ("https://" ∷ domain ∷ "/" ∷ join "/" (p ∷ path) ∷ "/did.json" ∷ []))

-- The first part is the domain.
abbrev pub url_of_parts : (String → Option String) → List String → Result DidCommError String
url_of_parts decode [] = url_of (decode "") []
url_of_parts decode (domain ∷ path) = url_of (decode domain) path

module _ {W : Type 0} (web : Web W) (max_attempts max_delay_secs : ℕ) where
  -- The delay of the next round, doubled as a `u64`.
  abbrev pub next_delay : ℕ → ℕ
  next_delay delay = min (delay * 2 % 2 ^ 64) max_delay_secs

  -- The loop over the attempts that are left, from one attempt on.
  unfoldable pub attempts : String → ℕ → ℕ → ℕ → W → Result DidCommError (Unit {0}) × W
  attempts url zero attempt delay w = (err unreachable_did_document, w)
  attempts url (suc left) attempt delay w =
      let (response, w') = web.http_get url w in
      elim (is_success response) [
        | true ↦ (ok tt, w')
        | false ↦ elim (ltb attempt max_attempts) [
          | true ↦ attempts url left (attempt + 1) (next_delay delay) (web.sleep delay w')
          | false ↦ attempts url left (attempt + 1) delay w'
        ]
      ]

  abbrev pub with_client :
      Result String (Unit {0}) → String → ℕ → W → Result DidCommError (Unit {0}) × W
  with_client (err e) url delay w = (err (http_request e), w)
  with_client (ok _) url delay w = attempts url max_attempts 1 delay w

  abbrev pub check_url : Result DidCommError String → ℕ → W → Result DidCommError (Unit {0}) × W
  check_url (err e) delay w = (err e, w)
  check_url (ok url) delay w = with_client web.build_client url delay w

  abbrev pub check_path : Option String → ℕ → W → Result DidCommError (Unit {0}) × W
  check_path none delay w = (ok tt, w)
  check_path (some did_path) delay w =
      check_url (url_of_parts web.decode (split b':' did_path)) delay w

  unfoldable pub check_did_document_availability :
      String → ℕ → W → Result DidCommError (Unit {0}) × W
  check_did_document_availability profile_did initial_delay_secs w =
      check_path (strip_prefix "did:web:" profile_did) initial_delay_secs w
