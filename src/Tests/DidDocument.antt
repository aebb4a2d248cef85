-- ===== src/Tests/DidDocument.antt =====
-- The DID document of a registry with one key, and the start of its listener.
use trust_registry_build_pip.Base.{
  ℕ, ◌≤◌, String, true, false, ◌≡◌, ◌⊎◌, refl, ap, suc, List, Option, none, some, ok, [], ◌∷◌,
  is_some, contains,
}
use trust_registry_build_pip.Base.Text.{trim_end_matches, trim_start_matches}
use trust_registry_build_pip.Domain.Json.{lookup}
use trust_registry_build_pip.Client.Error.{TransportKind, https, didcomm, tsp, kind_eq}
use trust_registry_build_pip.Client.Discovery.{select, from_document}
use trust_registry_build_pip.Client.Discovery.Selection.{rank}
use trust_registry_build_pip.Didcomm.DidDocument.{
  ec, jwk, ProfileConfig, TransportFlags, advertised_url, build_services, build_did_document,
}
use trust_registry_build_pip.Didcomm.DidDocument.Advertised.{serves, served, select-serves}
use trust_registry_build_pip.Didcomm.DidDocument.Checks.{build_did_document-private}
use trust_registry_build_pip.Didcomm.Listener.{Web, check_did_document_availability}
use trust_registry_build_pip.Didcomm.Listener.Bounds.{Ended, check-Ended}

abbrev profile : Option String → ProfileConfig
profile d = record {
  did = "did:web:r";
  alias = "r";
  secrets =
      record {
        id = "k";
        secret_material = jwk (record { key_id = none; params = ec "P-256" "x" "y" d });
      }
      ∷ [];
}

abbrev flags : TransportFlags
flags = record { rest = true; didcomm = true; tsp = false }

selected :
    select
      (from_document (build_did_document (profile none) "did:m" (some " https://r/ ") flags))
      (tsp ∷ didcomm ∷ https ∷ [])
    ≡ ok (record { kind = didcomm; endpoint = "did:m" })
unfolding select from_document build_did_document build_services lookup trim_end_matches
    trim_start_matches
selected = refl

select-serves_example :
    (serves flags didcomm ≡ true)
    × (served flags "did:m" (advertised_url (some " https://r/ ")) didcomm ≡ some "did:m")
    × ((k : TransportKind)
        → contains ⦃e = kind_eq⦄ (tsp ∷ didcomm ∷ https ∷ []) k ≡ true
        → is_some (served flags "did:m" (advertised_url (some " https://r/ ")) k) ≡ true
        → rank didcomm ≤ rank k)
select-serves_example =
    select-serves (profile none) "did:m" (some " https://r/ ") flags (tsp ∷ didcomm ∷ https ∷ [])
      (record { kind = didcomm; endpoint = "did:m" }) selected

build_did_document-private_example :
    build_did_document (profile (some "secret")) "did:m" none flags
    ≡ build_did_document (profile none) "did:m" none flags
build_did_document-private_example =
    build_did_document-private (profile (some "secret")) (profile none) "did:m" none flags refl

-- A web in which no document is there; the world is the number of requests and the delays.
abbrev web : Web (ℕ × List ℕ)
web = record {
  decode = some;
  build_client = ok tt;
  http_get = λ url w. (ok 404, (suc w.0, w.1));
  sleep = λ d w. (w.0, d ∷ w.1);
}

abbrev AllWithin : ℕ → ℕ → List ℕ → Type 0
AllWithin initial most [] = Unit
AllWithin initial most (d ∷ ds) = ((d ≤ initial) ⊎ (d ≤ most)) × AllWithin initial most ds

-- So many requests were made, and no delay was longer than allowed.
abbrev Seen : ℕ → ℕ × List ℕ → Type 0
Seen n w = (w.0 ≡ n) × AllWithin 2 20 w.1

check-Ended_example :
    Ended web 3 20 2 Seen
      (λ url n w seen. (ap suc seen.0, seen.1))
      (λ d n w small seen. (seen.0, (small, seen.1)))
      3
      (check_did_document_availability web 3 20 "did:web:r" 2 (0, []))
check-Ended_example =
    check-Ended web 3 20 2 Seen (λ url n w seen. (ap suc seen.0, seen.1))
      (λ d n w small seen. (seen.0, (small, seen.1))) "did:web:r" (0, []) (refl, tt)
