-- ===== src/Didcomm/TrustTasks/Rotation.antt =====
-- trust-registry/src/trust_tasks/payloads.rs and configs/vta.rs: the rotation of keys as the handler of
-- didcomm/handlers/trust_tasks/mod.rs calls it, over the client library of the VTA.
use trust_registry_build_pip.Base.{
  ℕ, String, Option, none, some, Result, ok, err, [], ◌∷◌, format, ◌≡◌,
}
use trust_registry_build_pip.Domain.Json.{Value, string, object, field, end}
use trust_registry_build_pip.TrustTasks.Framework.{Framework, task_failed}
use trust_registry_build_pip.Configs.{Environment, Loaders}
use trust_registry_build_pip.Configs.SecretStore.{SeedStores}
use trust_registry_build_pip.Configs.Vta.{Sdk, Rotated, scid_of, rotate_did}
use trust_registry_build_pip.Didcomm.TrustTasks.{Vta, handle_did_rotate}

pub record DidRotateRequest : Type 0 where
  pub pre_rotation_count : Option ℕ
  pub label : Option String

-- `DidRotateResponse` as JSON.
abbrev did_rotate_response : Rotated → Value
did_rotate_response r = object (
    field "did" (string r.did)
      (field "new_scid" (string r.new_scid) (field "new_version_id" (string r.new_version_id) end)))

module _ (F : Framework) (S : SeedStores) (sdk : Sdk S) (keyring : String) (loaders : Loaders)
    (env : Environment) (from_value : F.Document → Result String DidRotateRequest) where
  abbrev pub rotation : {W : Type 0} → Vta F W
  rotation = record {
    Request = DidRotateRequest;
    Response = Rotated;
    parse_request = from_value;
    rotate_did = λ my_did req w.
        (rotate_did S sdk keyring loaders env my_did req.pre_rotation_count req.label, w);
    to_value = did_rotate_response;
  }

  refused :
      (my_did : String) (n : Option ℕ) (label : Option String) (uri context_id : String)
      → env "TR_VTA_CREDENTIAL" ≡ some uri
      → env "TR_VTA_CONTEXT_ID" ≡ some context_id
      → scid_of my_did ≡ none
      → rotate_did S sdk keyring loaders env my_did n label
        ≡ err (format ("DID " ∷ my_did ∷ " is not a did:webvh; cannot rotate its keys" ∷ []))
  unfolding rotate_did
  refused my_did n label uri context_id given context plain = simp (given, context, plain)

  -- With a VTA configured, a rotation for a registry whose DID names no SCID of did:webvh is answered with
  -- a failure that says so, and the VTA is not asked.
  pub handle_did_rotate-plain :
      {W : Type 0} (my_did fresh : String) (doc : F.Document) (w : W) (request : DidRotateRequest)
      (uri context_id : String)
      → from_value doc ≡ ok request
      → env "TR_VTA_CREDENTIAL" ≡ some uri
      → env "TR_VTA_CONTEXT_ID" ≡ some context_id
      → scid_of my_did ≡ none
      → handle_did_rotate F (some rotation) my_did fresh doc w ≡ (
        err (
            F.reject_with doc fresh (
              task_failed
                (format ("DID " ∷ my_did ∷ " is not a did:webvh; cannot rotate its keys" ∷ [])))),
        w,
      )
  unfolding handle_did_rotate
  handle_did_rotate-plain my_did fresh doc w request uri context_id parsed given context plain =
      simp (
        parsed,
        refused my_did request.pre_rotation_count request.label uri context_id given context plain,
      )
