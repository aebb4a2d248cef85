-- ===== src/Tests/Fixtures.antt =====
-- A framework of documents and errors as plain records, and a few records, keys and documents.
use trust_registry_build_pip.Base.{String, Bool, true, Option, none, some}
use trust_registry_build_pip.Domain.Json.{Value, null, object, end}
use trust_registry_build_pip.Domain.RecordType.{authorization}
use trust_registry_build_pip.Domain.Record.{TrustRecord}
use trust_registry_build_pip.TrustTasks.Framework.{Framework, default_retryable}

pub record Doc : Type 0 where
  pub id : String
  pub issuer : Option String
  pub slug : String
  pub has_proof : Bool
  pub payload : Value

abbrev pub framework : Framework
framework = record {
  Document = Doc;
  ErrorResponse = Bool × String;
  id = λ d. d.id;
  issuer = λ d. d.issuer;
  slug = λ d. d.slug;
  has_proof = λ d. d.has_proof;
  respond_with = λ d fresh v. record d { id = fresh; payload = v };
  reject_with = λ d fresh reason. (default_retryable reason, fresh);
  retryable = λ e. e.0;
  with_retryable = λ e flag. (flag, e.1);
  retryable-with_retryable = λ e flag i. flag;
  retryable-reject_with = λ d fresh reason i. default_retryable reason;
}

abbrev pub write_doc : Doc
write_doc = record {
  id = "urn:1";
  issuer = some "did:a";
  slug = "registry/record/create";
  has_proof = true;
  payload = null;
}

abbrev pub other_doc : Doc
other_doc = record write_doc { id = "urn:2" }

abbrev pub trust_record : TrustRecord
trust_record = record {
  entity_id = "did:e";
  authority_id = "did:a";
  action = "issue";
  resource = "badge";
  recognized = some true;
  authorized = none;
  context = object end;
  record_type = authorization;
}
