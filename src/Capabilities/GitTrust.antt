-- ===== src/Capabilities/GitTrust.antt =====
-- trust-registry/src/capabilities/git_trust.rs: grants and revocations of commit-signing authority as
-- trust records of a repository.
pub mod Lifecycle
pub mod Definition
use Prim.Native.String.{String}
use text.Mathlib.Text.{starts_with}
use trust_registry_build_pip.Base.{
  Bool, true, false, Option, none, some, Result, ok, err, ok_or, ◌>>=◌, if◌then◌else◌,
}
use trust_registry_build_pip.Domain.Json.{Value, string, bool, object, field, end, lookup, empty}
use trust_registry_build_pip.Domain.RecordType.{authorization}
use trust_registry_build_pip.Domain.Record
use trust_registry_build_pip.Domain.Record.{TrustRecord, is_recognized}
use trust_registry_build_pip.Domain.Key.{TrustRecordQuery, query_new}
use trust_registry_build_pip.Storage.Repository.{
  RepositoryError, record_not_found, record_already_exists, error_to_string, Repository,
}
use trust_registry_build_pip.TrustTasks.Framework.{
  Framework, task_failed, internal_error, TaskOutcome, Handler,
}

abbrev pub action : String
action = "git.commit.sign"

-- `Value::get` at the key `authority`
abbrev authority_member : Value → Option Value
authority_member (object m) = lookup m "authority"
authority_member _ = none

-- `validate_config` of the definition
unfoldable pub validate_config : Value → Result String (Unit {0})
validate_config config = elim (authority_member config) [
  | some (string did) ↦
      if starts_with did "did:" then ok tt else err "`authority` must be a DID string"
  | some _ ↦ err "`authority` must be a DID string"
  | none ↦ err "git-trust config requires `authority` (the community's authority DID)"
]

-- Its argument is the `config` of the enablement state.
unfoldable pub authority_of : Option Value → Option String
authority_of none = none
authority_of (some config) = elim (authority_member config) [
  | some (string did) ↦ if starts_with did "did:" then some did else none
  | _ ↦ none
]

abbrev pub granted_payload : String → String → Value
granted_payload subject resource = object (
    field "subject" (string subject)
      (field "resource" (string resource) (field "granted" (bool true) end)))

abbrev pub revoked_payload : String → String → Value
revoked_payload subject resource = object (
    field "subject" (string subject)
      (field "resource" (string resource) (field "revoked" (bool true) end)))

abbrev pub already_granted : String
already_granted = "already_granted: an active grant exists for this subject and resource"

abbrev pub not_granted : String
not_granted = "not_granted: no active grant exists for this subject and resource"

unfoldable pub grant_record : String → String → String → TrustRecord
unfolding Record.new empty
grant_record authority subject resource =
    Record.new subject authority action resource true true empty authorization

unfoldable pub grant_query : String → String → String → TrustRecordQuery
unfolding query_new
grant_query authority subject resource = query_new subject authority action resource

-- The record of a revoked grant: the flags and the context of the existing one, unauthorized.
unfoldable pub revoked_record : String → String → String → TrustRecord → TrustRecord
unfolding Record.new
revoked_record authority subject resource existing =
    Record.new subject authority action resource (is_recognized existing) false existing.context
      authorization

module _ (F : Framework) (R : Repository) where
  open F use {Document, ErrorResponse, reject_with, respond_with}
  open R use {Store}

  unfoldable pub require_authority : Option String → String → Document → Result ErrorResponse String
  require_authority authority fresh doc = ok_or authority (
      reject_with doc fresh
        (internal_error "git-trust is enabled without an authority DID in its config"))

  abbrev pub answer_grant :
      String → Document → Value → Result RepositoryError (Unit {0}) → TaskOutcome F
  answer_grant fresh doc payload (ok _) = ok (respond_with doc fresh payload)
  answer_grant fresh doc payload (err (record_already_exists m)) =
      err (reject_with doc fresh (task_failed already_granted))
  answer_grant fresh doc payload (err e) =
      err (reject_with doc fresh (internal_error (error_to_string e)))

  unfoldable pub handle_grant :
      Option String → String → Document → String → String → Handler F Store
  unfolding require_authority
  handle_grant configured fresh doc subject resource s =
      elim (require_authority configured fresh doc) [
        | err e ↦ (err e, s)
        | ok authority ↦
            let (outcome, s') = R.create (grant_record authority subject resource) s in
            (answer_grant fresh doc (granted_payload subject resource) outcome, s')
      ]

  abbrev pub answer_revoke :
      String → Document → Value → Result RepositoryError (Unit {0}) → TaskOutcome F
  answer_revoke fresh doc payload (ok _) = ok (respond_with doc fresh payload)
  answer_revoke fresh doc payload (err e) =
      err (reject_with doc fresh (internal_error (error_to_string e)))

  abbrev pub revoke_existing :
      String
      → String
      → Document
      → String
      → String
      → Result RepositoryError TrustRecord
      → Handler F Store
  revoke_existing authority fresh doc subject resource (err (record_not_found m)) s =
      (err (reject_with doc fresh (task_failed not_granted)), s)
  revoke_existing authority fresh doc subject resource (err e) s =
      (err (reject_with doc fresh (internal_error (error_to_string e))), s)
  revoke_existing authority fresh doc subject resource (ok existing) s =
      let (outcome, s') = R.update (revoked_record authority subject resource existing) s in
      (answer_revoke fresh doc (revoked_payload subject resource) outcome, s')

  unfoldable pub handle_revoke :
      Option String → String → Document → String → String → Handler F Store
  unfolding require_authority
  handle_revoke configured fresh doc subject resource s =
      elim (require_authority configured fresh doc) [
        | err e ↦ (err e, s)
        | ok authority ↦
            let (existing, s') = R.read (grant_query authority subject resource) s in
            revoke_existing authority fresh doc subject resource existing s'
      ]
