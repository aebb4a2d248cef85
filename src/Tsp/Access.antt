-- ===== src/Tsp/Access.antt =====
-- A write that is not authorized changes nothing, over TSP.
use trust_registry_build_pip.Base.{ℕ, String, true, ◌≡◌, ap, err, inl, inr, Result-cases, List}
use trust_registry_build_pip.TrustTasks.Framework.{Framework, Handler}
use trust_registry_build_pip.TrustTasks.Proof.{is_write_slug}
use trust_registry_build_pip.TrustTasks.Gate.{Checks, gate}
use trust_registry_build_pip.TrustTasks.Gate.Access.{IsAuthorized, gate_open}
use trust_registry_build_pip.Dedup.{MessageIdStore}
use trust_registry_build_pip.Tsp.{Codec, admit, handle_inbound}

module _ (F : Framework) (codec : Codec F) (checks : Checks F) {W : Type 0}
    (dispatch : F.Document → Handler F W) (store : MessageIdStore F) (admin_dids : List String)
    (my_vid : String) where
  -- A write whose sender is no admin, or that has no proof that verifies, is answered with an error,
  -- and neither the message-id store nor the handlers' world changes.
  pub handle_inbound_unauthorized :
      (now claimed_at resolved_at : ℕ) (fresh sender_did : String) (doc : F.Document)
      (s : store.State) (w : W)
      → is_write_slug (F.slug doc) ≡ true
      → ¬ IsAuthorized F checks admin_dids my_vid sender_did now fresh doc
      → (e : F.ErrorResponse) × (handle_inbound F codec checks dispatch store admin_dids my_vid now
            claimed_at resolved_at fresh sender_did doc
            (s, w)
          ≡ (err e, s, w))
  unfolding handle_inbound
  handle_inbound_unauthorized now claimed_at resolved_at fresh sender_did doc s w write refused =
      elim (Result-cases (gate F checks admin_dids my_vid sender_did now fresh doc)) [
        | inl (e, shut) ↦ (
          e,
          ap
              (λ g.
                admit F codec checks dispatch store admin_dids my_vid claimed_at resolved_at fresh
                  doc g (s, w))
              shut,
        )
        | inr (u, open_) ↦
            (let (parties, basic, allowed) =
                (gate_open F checks admin_dids my_vid sender_did now fresh doc).0 open_ in
              elim allowed [
                | inl read ↦ absurd (cc (read, write))
                | inr authorized ↦ absurd (refused authorized)
              ])
      ]
