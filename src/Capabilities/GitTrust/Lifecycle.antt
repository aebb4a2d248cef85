-- ===== src/Capabilities/GitTrust/Lifecycle.antt =====
-- What a grant and a revocation do to the trust records, over any repository that meets its contract.
use trust_registry_build_pip.Base.{
  String, true, false, ◌≡◌, refl, sym, ap, subst, ◌∙◌, arith, none, some, Result, ok, err,
}
use trust_registry_build_pip.Domain.Json.{Value}
use trust_registry_build_pip.Domain.Record.{TrustRecord, is_recognized, is_authorized}
use trust_registry_build_pip.Domain.Key.{TrustRecordKey, key_eq, from_record, from_query}
use trust_registry_build_pip.Storage.Repository.{
  put_self, put_ne, Repository, Contract, Slots, FailsWith, already_exists, not_found, put, View,
  RepositoryError,
}
use trust_registry_build_pip.TrustTasks.Framework.{Framework, TaskOutcome, task_failed}
use trust_registry_build_pip.Capabilities.GitTrust.{
  handle_grant, handle_revoke, grant_record, grant_query, revoked_record, granted_payload,
  revoked_payload, answer_grant, answer_revoke, already_granted, not_granted, revoke_existing,
}

abbrev pub tuple_key : String → String → String → TrustRecordKey
tuple_key authority subject resource = from_query (grant_query authority subject resource)

grant_record-key : (a s r : String) → from_record (grant_record a s r) ≡ tuple_key a s r
unfolding grant_record grant_query from_record from_query
grant_record-key a s r = refl

revoked_record-key :
    (a s r : String) (x : TrustRecord) → from_record (revoked_record a s r x) ≡ tuple_key a s r
unfolding revoked_record grant_query from_record from_query
revoked_record-key a s r x = refl

grant_record_flags :
    (a s r : String)
    → (is_authorized (grant_record a s r) ≡ true) × (is_recognized (grant_record a s r) ≡ true)
unfolding grant_record
grant_record_flags a s r = (refl, refl)

revoked_record_flags :
    (a s r : String) (x : TrustRecord)
    → (is_authorized (revoked_record a s r x) ≡ false)
      × (is_recognized (revoked_record a s r x) ≡ is_recognized x)
      × ((revoked_record a s r x).context ≡ x.context)
unfolding revoked_record
revoked_record_flags a s r x = (refl, refl, refl)

module _ (F : Framework) (R : Repository) (N : Slots) (IsReady : R.Store → Type 0)
    (view : R.Store → View) (C : Contract R N IsReady view) where
  open F use {Document, respond_with, reject_with}

  answer_grant_old :
      (fresh : String) (doc : Document) (p : Value) (o : Result RepositoryError (Unit {0}))
      → FailsWith already_exists o
      → answer_grant F R fresh doc p o ≡ err (reject_with doc fresh (task_failed already_granted))
  answer_grant_old fresh doc p (ok u) h = elim h [ ]
  answer_grant_old fresh doc p (err e) h = ground arith

  answer_revoke_missing :
      (a fresh : String) (doc : Document) (x y : String) (o : Result RepositoryError TrustRecord)
      (s : R.Store)
      → FailsWith not_found o
      → revoke_existing F R a fresh doc x y o s
        ≡ (err (reject_with doc fresh (task_failed not_granted)), s)
  answer_revoke_missing a fresh doc x y (ok u) s h = elim h [ ]
  answer_revoke_missing a fresh doc x y (err e) s h = ground arith

  module _ (authority fresh : String) (doc : Document) (subject resource : String) (s : R.Store)
      (ready : IsReady s) where
    abbrev pub k : TrustRecordKey
    k = tuple_key authority subject resource

    abbrev pub grant : TaskOutcome F × R.Store
    grant = handle_grant F R (some authority) fresh doc subject resource s

    abbrev pub revoke : TaskOutcome F × R.Store
    revoke = handle_revoke F R (some authority) fresh doc subject resource s

    -- On a ready store of a repository that meets its contract, and with a configured authority, a
    -- grant for a subject and a resource that have no record succeeds, and stores an authorized
    -- and recognized record for them; the records in other places are as before, and the store is ready.
    pub grant_authorizes :
        view s k ≡ none
        → (grant.0 ≡ ok (respond_with doc fresh (granted_payload subject resource)))
          × IsReady grant.1
          × ((r : TrustRecord) × (view grant.1 k ≡ some r)
              × (is_authorized r ≡ true)
              × (is_recognized r ≡ true))
          × ((j : TrustRecordKey) → N.same k j ≡ false → view grant.1 j ≡ view s j)
    unfolding handle_grant
    grant_authorizes e =
        let r = grant_record authority subject resource in
        let same = grant_record-key authority subject resource in
        let made = C.create_new r s ready (subst (λ i. view s i ≡ none) (sym same) e) in
        let shown : (j : TrustRecordKey) → view (R.create r s).1 j ≡ put N (view s) k (some r) j =
          subst (λ i. (j : TrustRecordKey) → view (R.create r s).1 j ≡ put N (view s) i (some r) j)
            same made.2 in
        let flags = grant_record_flags authority subject resource in
        (
          ap (answer_grant F R fresh doc (granted_payload subject resource)) made.0,
          made.1,
          (r, shown k ∙ put_self N (view s) k (some r), flags.0, flags.1),
          λ j ne. shown j ∙ put_ne N (view s) k j (some r) ne,
        )

    -- On a ready store of a repository that meets its contract, and with a configured authority, a
    -- grant for a subject and a resource that have any record, authorized or not, is refused as
    -- already granted, and changes nothing.
    pub grant_refused :
        (x : TrustRecord)
        → view s k ≡ some x
        → grant ≡ (err (reject_with doc fresh (task_failed already_granted)), s)
    unfolding handle_grant
    grant_refused x e =
        let r = grant_record authority subject resource in
        let (fails, kept) =
          C.create_old r x s ready (
            subst (λ i. view s i ≡ some x) (sym (grant_record-key authority subject resource)) e) in
        λ i. (
          answer_grant_old fresh doc (granted_payload subject resource) (R.create r s).0 fails i,
          kept i,
        )

    revoke-eq :
        (x : TrustRecord)
        → view s k ≡ some x
        → let updated = R.update (revoked_record authority subject resource x) s in
          revoke
          ≡ (answer_revoke F R fresh doc (revoked_payload subject resource) updated.0, updated.1)
    unfolding handle_revoke
    revoke-eq x e = rw (C.read_old (grant_query authority subject resource) x s ready e)

    -- On a ready store of a repository that meets its contract, and with a configured authority, a
    -- revocation for a subject and a resource that have a record succeeds: the record stays, with
    -- its recognition and its context, and is not authorized; the records in other places are as before, and
    -- the store is ready.
    pub revoke_unauthorizes :
        (x : TrustRecord)
        → view s k ≡ some x
        → (revoke.0 ≡ ok (respond_with doc fresh (revoked_payload subject resource)))
          × IsReady revoke.1
          × ((r : TrustRecord) × (view revoke.1 k ≡ some r)
              × (is_authorized r ≡ false)
              × (is_recognized r ≡ is_recognized x)
              × (r.context ≡ x.context))
          × ((j : TrustRecordKey) → N.same k j ≡ false → view revoke.1 j ≡ view s j)
    revoke_unauthorizes x e =
        let r = revoked_record authority subject resource x in
        let same = revoked_record-key authority subject resource x in
        let made = C.update_old r x s ready (subst (λ i. view s i ≡ some x) (sym same) e) in
        let shown : (j : TrustRecordKey) → view (R.update r s).1 j ≡ put N (view s) k (some r) j =
          subst (λ i. (j : TrustRecordKey) → view (R.update r s).1 j ≡ put N (view s) i (some r) j)
            same made.2 in
        let flags = revoked_record_flags authority subject resource x in
        rw (revoke-eq x e) (
          ap (answer_revoke F R fresh doc (revoked_payload subject resource)) made.0,
          made.1,
          (r, shown k ∙ put_self N (view s) k (some r), flags.0, flags.1, flags.2),
          λ j ne. shown j ∙ put_ne N (view s) k j (some r) ne,
        )

    -- On a ready store of a repository that meets its contract, and with a configured authority, a
    -- revocation for a subject and a resource that have no record is refused and changes nothing.
    pub revoke_refused :
        view s k ≡ none → revoke ≡ (err (reject_with doc fresh (task_failed not_granted)), s)
    unfolding handle_revoke
    revoke_refused e =
        let (fails, kept) = C.read_new (grant_query authority subject resource) s ready e in
        answer_revoke_missing authority fresh doc subject resource _ _ fails ∙ λ i.
        (err (reject_with doc fresh (task_failed not_granted)), kept i)

  -- On a ready store of a repository that meets its contract, once a grant that has a record has
  -- been revoked it cannot be given again: the record is then found and is not authorized, and a
  -- grant is refused with the message that an active grant exists.
  pub regrant_refused :
      (authority fresh again : String) (doc doc' : Document) (subject resource : String)
      (s : R.Store) (ready : IsReady s) (x : TrustRecord)
      → view s (tuple_key authority subject resource) ≡ some x
      → let s' = (revoke authority fresh doc subject resource s ready).1 in
        ((r : TrustRecord) × (R.find_by_query (grant_query authority subject resource) s'
            ≡ (ok (some r), s'))
          × (is_authorized r ≡ false))
        × (handle_grant F R (some authority) again doc' subject resource s'
            ≡ (err (reject_with doc' again (task_failed already_granted)), s'))
  regrant_refused authority fresh again doc doc' subject resource s ready x e =
      let (answered, ready', (r, stored, off, recognized, context), others) =
        revoke_unauthorizes authority fresh doc subject resource s ready x e in
      (
        (
          r,
          C.find_ready (grant_query authority subject resource) _ ready'
              ∙ ap (λ o. (ok o, (revoke authority fresh doc subject resource s ready).1)) stored,
          off,
        ),
        grant_refused authority again doc' subject resource _ ready' r stored,
      )
