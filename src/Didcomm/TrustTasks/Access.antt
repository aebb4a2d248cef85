-- ===== src/Didcomm/TrustTasks/Access.antt =====
-- A write that is not authorized changes nothing, over DIDComm.
use trust_registry_build_pip.Base.{
  String, true, ◌≡◌, ap, ◌∙◌, Option, some, Result, ok, err, inl, inr, Result-cases,
}
use trust_registry_build_pip.Domain.Json.{Value}
use trust_registry_build_pip.TrustTasks.Framework.{Framework, Handler}
use trust_registry_build_pip.TrustTasks.Proof.{is_write_slug}
use trust_registry_build_pip.TrustTasks.Gate.{Checks, gate}
use trust_registry_build_pip.TrustTasks.Gate.Access.{IsAuthorized, gate_open}
use trust_registry_build_pip.Dedup.{MessageIdStore}
use trust_registry_build_pip.Didcomm.TrustTasks.{
  HandlerContext, Arrival, Vta, receive, admit, handle,
}

module _ (F : Framework) (checks : Checks F) (parse : Value → Result String F.Document) {W : Type 0}
    (rotate : Option (Vta F W)) (dispatch : F.Document → Handler F W)
    (store : MessageIdStore F) where
  -- A write whose sender is no admin, or that has no proof that verifies, is answered with an error;
  -- neither the message-id store nor the handlers' world changes, so its id stays free and no key is
  -- rotated.
  pub handle_unauthorized_write :
      (ctx : HandlerContext) (at : Arrival) (body : Value) (doc : F.Document) (s : store.State)
      (w : W)
      → parse body ≡ ok doc
      → is_write_slug (F.slug doc) ≡ true
      → ¬ IsAuthorized F checks ctx.admin_dids ctx.my_did ctx.sender_did at.now at.fresh doc
      → (e : F.ErrorResponse) × (handle F checks parse rotate dispatch store ctx at body (s, w)
          ≡ (some (err e), s, w))
  unfolding handle
  handle_unauthorized_write ctx at body doc s w parsed write refused =
      elim (Result-cases
        (gate F checks ctx.admin_dids ctx.my_did ctx.sender_did at.now at.fresh doc)) [
          | inl (e, shut) ↦ (
            e,
            ap (λ d. receive F checks parse rotate dispatch store ctx at d (s, w)) parsed
                ∙ ap (λ g. admit F checks parse rotate dispatch store ctx at doc g (s, w)) shut,
          )
          | inr (u, open_) ↦
              (let (parties, basic, allowed) =
                  (gate_open F checks ctx.admin_dids ctx.my_did ctx.sender_did at.now at.fresh
                      doc).0
                    open_ in
                elim allowed [
                  | inl read ↦ absurd (cc (read, write))
                  | inr authorized ↦ absurd (refused authorized)
                ])
        ]
