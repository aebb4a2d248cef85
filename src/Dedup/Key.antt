-- ===== src/Dedup/Key.antt =====
-- Message keys of different senders, or of different documents of one sender, are different.
use text.Mathlib.TextLemmas.{append_cancel_left, append-nil}
use trust_registry_build_pip.Base.{String, ◌≡◌, sym, ◌∙◌, unwrap_or}
use trust_registry_build_pip.Base.Strings.{Free, hash_inj}
use trust_registry_build_pip.TrustTasks.Framework.{Framework}
use trust_registry_build_pip.Dedup.{message_key}

module _ (F : Framework) where
  open F use {Document, id, issuer}

  abbrev pub sender : Document → String
  sender doc = unwrap_or (issuer doc) "anonymous"

  -- Two documents whose senders hold no `#` have the same message key only if they have the same
  -- sender, where a document with no issuer counts as sent by `anonymous`, and the same id.
  pub message_key_inj :
      (a b : Document)
      → Free b'#' (sender a)
      → Free b'#' (sender b)
      → message_key F a ≡ message_key F b
      → (sender a ≡ sender b) × (id a ≡ id b)
  unfolding message_key
  message_key_inj a b fa fb e =
      let p = hash_inj (sender a) (sender b) _ _ fa fb (append_cancel_left "MID#" _ _ e) in
      (p.0, sym (append-nil (id a)) ∙ p.1 ∙ append-nil (id b))
