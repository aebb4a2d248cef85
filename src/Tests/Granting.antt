-- ===== src/Tests/Granting.antt =====
-- A grant that is posted to a registry whose git-trust capability is enabled.
use trust_registry_build_pip.Base.{
  String, true, false, ◌≡◌, refl, arith, none, some, ok, err, List, [], ◌∷◌, string_eq,
}
use text.Mathlib.TextEquality.{eq_iff}
use trust_registry_build_pip.Base.HashMap
use trust_registry_build_pip.Domain.Json.{null, string, object, field, end, lookup}
use trust_registry_build_pip.Domain.Record.{TrustRecord, is_authorized}
use trust_registry_build_pip.Storage.Repository.{by_key}
use trust_registry_build_pip.Storage.Local.{LocalStorage, repository}
use trust_registry_build_pip.Storage.Local.Laws.{IsReady, view, repository-Contract}
use trust_registry_build_pip.TrustTasks.Router.Dispatch.{Entry, build_query_dispatcher}
use trust_registry_build_pip.Client.Query.{TrustTask}
use trust_registry_build_pip.Capabilities.Set.{CapabilityState, memory_store, compose}
use trust_registry_build_pip.Capabilities.Set.Enablement.{InStep}
use trust_registry_build_pip.Capabilities.GitTrust.{authority_of}
use trust_registry_build_pip.Capabilities.GitTrust.Lifecycle.{tuple_key}
use trust_registry_build_pip.Capabilities.GitTrust.Definition.{Specs, governance, definition}
use trust_registry_build_pip.Http.TrustTasks.{Binding, handle_trust_task}
use trust_registry_build_pip.Http.TrustTasks.Live.{LiveSet, Serving, Apart, handle_trust_task-grant}
use trust_registry_build_pip.Tests.Payloads.{serializers}
use trust_registry_build_pip.Tests.Wire.{framework, payloads, dispatching, crate}

abbrev specs : Specs framework
specs = record {
  grant = "grant";
  revoke = "revoke";
  grant_payload = λ d. ok ("did:s", "repo");
  revoke_payload = λ d. ok ("did:s", "repo");
}

abbrev governed : String → Entry framework LocalStorage
governed type_uri = (type_uri, λ d. err "no payload")

abbrev doc : TrustTask
doc = crate.new "urn:1" "grant" null

abbrev binding : Binding framework
binding = record {
  parse = λ body. ok doc;
  resolve_parties = λ vid d. ok tt;
  validate_basic = λ now vid d. ok tt;
  status_for_code = λ e. 422;
  error_to_value = λ e. ok null;
  document_to_value = λ d. ok d.payload;
}

abbrev on : CapabilityState
on = record {
  version = "0.1";
  enabled = true;
  config = some (object (field "authority" (string "did:a") end));
  enabled_at = 7;
  delegate = none;
}

abbrev queries : List (Entry framework LocalStorage)
queries = build_query_dispatcher framework serializers payloads repository dispatching "r" 5

abbrev set :
    LiveSet framework binding serializers payloads repository dispatching specs
      (governed "list")
      (governed "enable")
      (governed "disable")
      memory_store
      "r"
      "did:r"
      5
set =
    let G =
      governance framework repository specs "r" (governed "list") (governed "enable")
        (governed "disable") in
    let available =
      (
        "git-trust",
        definition framework repository specs "r" (governed "list") (governed "enable")
            (governed "disable") memory_store,
      )
      ∷ [] in
    record {
      available = available;
      state = ("git-trust", on) ∷ [];
      store = ("git-trust", on) ∷ [];
      base = [];
      base_query = queries;
      dispatcher = compose G memory_store [] available (("git-trust", on) ∷ []) true;
      query_dispatcher = compose G memory_store queries available (("git-trust", on) ∷ []) false;
    }

set-InStep :
    InStep
      (governance framework repository specs "r"
        (governed "list")
        (governed "enable")
        (governed "disable"))
      memory_store
      set
set-InStep = record { serves = refl; answers = refl; persisted = refl }

serving :
    Serving framework binding serializers payloads repository dispatching specs
      (governed "list")
      (governed "enable")
      (governed "disable")
      memory_store
      "r"
      "did:r"
      5
      set
      "did:a"
unfolding HashMap.get authority_of lookup
serving = record {
  in_step = set-InStep;
  available = refl;
  queries = refl;
  entry = on;
  stored = refl;
  on = refl;
  configured = refl;
}

apart :
    Apart framework binding serializers payloads repository dispatching specs
      (governed "list")
      (governed "enable")
      (governed "disable")
      memory_store
      "r"
      "did:r"
      5
apart = (
  λ e. ground (arith, (eq_iff "revoke" "grant").1 e),
  λ e. ground (arith, (eq_iff "list" "grant").1 e),
  λ e. ground (arith, (eq_iff "recognition" "grant").1 e),
  λ e. ground (arith, (eq_iff "authorization" "grant").1 e),
)

abbrev nothing : LocalStorage
nothing = record { records = []; poisoned = false }

nothing-IsReady : IsReady nothing
nothing-IsReady = record { unpoisoned = refl; keyed = tt; distinct = tt }

nothing-view : view nothing (tuple_key "did:a" "did:s" "repo") ≡ none
unfolding view HashMap.get
nothing-view = refl

handle_trust_task-grant_example :
    let response =
      handle_trust_task framework binding serializers payloads repository dispatching
        set.query_dispatcher "r" "did:r" 5 "body" nothing in
    (response.0.status ≡ 200)
    × (r : TrustRecord) × (view response.1 (tuple_key "did:a" "did:s" "repo") ≡ some r)
    × (is_authorized r ≡ true)
handle_trust_task-grant_example =
    handle_trust_task-grant framework binding serializers payloads repository dispatching specs
      (governed "list") (governed "enable") (governed "disable") memory_store "r" "did:r" 5 by_key
      IsReady view repository-Contract set "did:a" "did:s" "repo" "body" doc nothing serving apart
      refl refl refl refl refl nothing-IsReady nothing-view
