-- ===== src/TrustTasks/Router/Queries.antt =====
-- What a recognition query and an authorization query are answered with, over any repository that
-- meets its contract.
use trust_registry_build_pip.Base.{ℕ, String, true, ◌≡◌, ◌↔◌, refl, arith, Option, none, some}
use trust_registry_build_pip.Domain.Record.{TrustRecord}
use trust_registry_build_pip.Domain.Key.{from_query}
use trust_registry_build_pip.Storage.Repository.{Repository, View, Contract, Slots}
use trust_registry_build_pip.TrustTasks.Framework.{Framework}
use trust_registry_build_pip.TrustTasks.Router.{
  KeyPayload, query_of, Serializers, respond, recognition_response, handle_recognition,
  authorization_response, handle_authorization,
}

module _ (F : Framework) (J : Serializers) (R : Repository) (N : Slots) (IsReady : R.Store → Type 0)
    (view : R.Store → View) (C : Contract R N IsReady view) where
  recognized_answer :
      (t : ℕ) (p : KeyPayload) (found : Option TrustRecord)
      → ((recognition_response F J R t p found).answer ≡ true)
        ↔ ((r : TrustRecord) × (found ≡ some r) × (r.recognized ≡ some true))
  unfolding recognition_response
  recognized_answer t p none = ground arith
  recognized_answer t p (some r) = (λ e. (r, refl, ground arith), λ h. ground (arith, h.1, h.2))

  authorized_answer :
      (t : ℕ) (p : KeyPayload) (found : Option TrustRecord)
      → ((authorization_response F J R t p found).answer ≡ true)
        ↔ ((r : TrustRecord) × (found ≡ some r) × (r.authorized ≡ some true))
  unfolding authorization_response
  authorized_answer t p none = ground arith
  authorized_answer t p (some r) = (λ e. (r, refl, ground arith), λ h. ground (arith, h.1, h.2))

  module _ (fresh : String) (t : ℕ) (doc : F.Document) (p : KeyPayload) (s : R.Store)
      (ready : IsReady s) where
    -- On a ready store of a repository that meets its contract, a recognition query leaves the
    -- store as it is. Its answer is true exactly if a record stands under the four identifiers and
    -- its recognized flag is set and true.
    pub handle_recognition-view :
        let response = recognition_response F J R t p (view s (from_query (query_of p))) in
        (handle_recognition F J R fresh t doc p s
          ≡ (respond F J R J.recognition_to_value fresh doc response, s))
        × ((response.answer ≡ true) ↔ (
            (r : TrustRecord) × (view s (from_query (query_of p)) ≡ some r)
            × (r.recognized ≡ some true)))
    unfolding handle_recognition
    handle_recognition-view = (rw (C.find_ready (query_of p) s ready), recognized_answer t p _)

    -- On a ready store of a repository that meets its contract, an authorization query leaves the
    -- store as it is. Its answer is true exactly if a record stands under the four identifiers and
    -- its authorized flag is set and true.
    pub handle_authorization-view :
        let response = authorization_response F J R t p (view s (from_query (query_of p))) in
        (handle_authorization F J R fresh t doc p s
          ≡ (respond F J R J.authorization_to_value fresh doc response, s))
        × ((response.answer ≡ true) ↔ (
            (r : TrustRecord) × (view s (from_query (query_of p)) ≡ some r)
            × (r.authorized ≡ some true)))
    unfolding handle_authorization
    handle_authorization-view = (rw (C.find_ready (query_of p) s ready), authorized_answer t p _)
