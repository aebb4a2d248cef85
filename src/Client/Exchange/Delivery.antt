-- ===== src/Client/Exchange/Delivery.antt =====
-- What an exchange over a mediator returns, and what it leaves of its waiter.
use text.Mathlib.TextEquality.{eq_iff}
use trust_registry_build_pip.Base.{
  ℕ, String, false, ◌≡◌, refl, sym, ap, subst, ◌∙◌, arith, Option, none, some, Result, ok, err,
  string_eq, nat_eq, List, [], ◌∷◌, ◌++◌, contains, inl, inr,
}
use trust_registry_build_pip.Base.HashMap
use trust_registry_build_pip.Base.HashMap.{get-remove}
use trust_registry_build_pip.Client.Error.{TrqlError}
use trust_registry_build_pip.Client.Pending.{register, abandon}
use trust_registry_build_pip.Client.Query.{TrustTask}
use trust_registry_build_pip.Client.Exchange.{
  Pending, thread_of, Binding, Ending, wait, after_send, send_body, exchange_to, exchange,
}
use trust_registry_build_pip.Client.Exchange.Waiting.{IsSound, IsWaiting, register-IsWaiting}
use trust_registry_build_pip.Client.Exchange.Rounds.{
  AllForeign, arrival-cases, step-IsWaiting, step_own, wait_arrived, wait_goes_on, wait_over,
}

module _ (B : Binding) (reply_timeout_secs : ℕ) (dropped : List ℕ) where
  abbrev waited :
      String → ℕ → Ending → List B.Polled → Pending → Result TrqlError TrustTask × Pending
  waited = wait B reply_timeout_secs dropped

  -- A reply ends the wait, once the frames before it have been handled.
  wait-reply :
      (k : String) (tx : ℕ) (ending : Ending) (before : List B.Polled) (x : B.Polled)
      (after : List B.Polled) (d : TrustTask) (p : Pending)
      → AllForeign B reply_timeout_secs dropped k before
      → B.arrives x ≡ some d
      → d.thread_id ≡ some k
      → contains dropped tx ≡ false
      → IsWaiting thread_of k tx p
      → (waited k tx ending (before ++ x ∷ after) p).0 ≡ ok d
  wait-reply k tx ending [] x after d p foreign got own open_ w =
      ap (λ o. o.0)
        (wait_goes_on B reply_timeout_secs dropped k tx ending x after p w.silent
          ∙ wait_arrived B reply_timeout_secs dropped k tx ending after d (B.step dropped x p)
              (step_own B reply_timeout_secs dropped k tx x d p got own open_ w).0)
  wait-reply k tx ending (y ∷ before) x after d p foreign got own open_ w =
      ap (λ o. o.0)
        (wait_goes_on B reply_timeout_secs dropped k tx ending y (before ++ x ∷ after) p w.silent)
      ∙ wait-reply k tx ending before x after d (B.step dropped y p) foreign.1 got own open_
          (step-IsWaiting B reply_timeout_secs dropped k tx y p foreign.0 w)

  abandoned_none : (k : String) (p : Pending) → HashMap.get (abandon thread_of k p).inner k ≡ none
  unfolding abandon
  abandoned_none k p = ground (arith, get-remove p.inner k k, eq_iff k k)

  -- What is right of an outcome: a document is a reply of the thread, and no waiter is left.
  abbrev pub Settled : String → Result TrqlError TrustTask × Pending → Type 0
  Settled k o =
      ((d : TrustTask) → o.0 ≡ ok d → d.thread_id ≡ some k) × (HashMap.get o.1.inner k ≡ none)

  wait-Settled :
      (k : String) (tx : ℕ) (ending : Ending) (xs : List B.Polled) (p : Pending)
      → contains dropped tx ≡ false
      → IsWaiting thread_of k tx p
      → Settled k (waited k tx ending xs p)
  wait-Settled k tx ending [] p open_ w =
      subst (Settled k) (sym (wait_over B reply_timeout_secs dropped k tx ending p w.silent))
        (λ d e. ground (arith, e), abandoned_none k p)
  wait-Settled k tx ending (x ∷ xs) p open_ w =
      subst (Settled k)
        (sym (wait_goes_on B reply_timeout_secs dropped k tx ending x xs p w.silent))
        (elim (arrival-cases B reply_timeout_secs dropped k x (B.arrives x) refl) [
          | inl own ↦
              let there =
                step_own B reply_timeout_secs dropped k tx x own.0 p own.1 own.2 open_ w in
              subst (Settled k)
                (sym (
                  wait_arrived B reply_timeout_secs dropped k tx ending xs own.0
                    (B.step dropped x p) there.0))
                (λ d e. cc (e, own.2), there.1)
          | inr other ↦
              wait-Settled k tx ending xs (B.step dropped x p) open_
                (step-IsWaiting B reply_timeout_secs dropped k tx x p other w)
        ])

  after_send-Settled :
      (k : String) (ending : Ending) (xs : List B.Polled) (sent : Result TrqlError (Unit {0}))
      (p : Pending)
      → contains dropped p.next ≡ false
      → IsSound thread_of p
      → Settled k
          (after_send B reply_timeout_secs dropped k ending xs sent (register thread_of k p))
  unfolding register
  after_send-Settled k ending xs (err e) p open_ sound =
      (λ d bad. ground (arith, bad), abandoned_none k (register thread_of k p).1)
  after_send-Settled k ending xs (ok _) p open_ sound =
      wait-Settled k p.next ending xs (register thread_of k p).1 open_
        (register-IsWaiting thread_of k p sound)

  send_body-Settled :
      (request : TrustTask) (dest : String) (ending : Ending) (xs : List B.Polled)
      (body : Result TrqlError B.Body) (p : Pending)
      → contains dropped p.next ≡ false
      → IsSound thread_of p
      → HashMap.get p.inner request.id ≡ none
      → Settled request.id (send_body B reply_timeout_secs dropped request dest ending xs body p)
  send_body-Settled request dest ending xs (err e) p open_ sound fresh =
      (λ d bad. ground (arith, bad), fresh)
  send_body-Settled request dest ending xs (ok body) p open_ sound fresh =
      after_send-Settled request.id ending xs (B.send dest request.id body) p open_ sound

  exchange_to-Settled :
      (request : TrustTask) (ending : Ending) (xs : List B.Polled) (dest : Option String)
      (p : Pending)
      → contains dropped p.next ≡ false
      → IsSound thread_of p
      → HashMap.get p.inner request.id ≡ none
      → Settled request.id (exchange_to B reply_timeout_secs dropped request ending xs dest p)
  exchange_to-Settled request ending xs none p open_ sound fresh =
      (λ d bad. ground (arith, bad), fresh)
  exchange_to-Settled request ending xs (some dest) p open_ sound fresh =
      send_body-Settled request dest ending xs (B.encode request) p open_ sound fresh

  -- Where every channel was made before the next one, no waiter stands under the id of the request, and
  -- the exchange keeps its receiver: whatever the outcome, no waiter stands under the id afterwards, and
  -- a document that is returned is a reply to the request.
  pub exchange-Settled :
      (request : TrustTask) (ending : Ending) (polls : List B.Polled) (p : Pending)
      → contains dropped p.next ≡ false
      → IsSound thread_of p
      → HashMap.get p.inner request.id ≡ none
      → Settled request.id (exchange B reply_timeout_secs dropped request ending polls p)
  unfolding exchange
  exchange-Settled request ending polls p open_ sound fresh =
      exchange_to-Settled request ending polls request.recipient p open_ sound fresh

  -- Where every channel was made before the next one and the exchange keeps its receiver: an exchange
  -- whose envelope is encoded and sent returns the first readable reply to its request that the loop
  -- takes in. The frames before it are passed over, a reply whose body is no document among them.
  pub exchange-reply :
      (request : TrustTask) (dest : String) (body : B.Body) (ending : Ending)
      (before : List B.Polled) (x : B.Polled) (after : List B.Polled) (d : TrustTask) (p : Pending)
      → contains dropped p.next ≡ false
      → IsSound thread_of p
      → request.recipient ≡ some dest
      → B.encode request ≡ ok body
      → B.send dest request.id body ≡ ok tt
      → AllForeign B reply_timeout_secs dropped request.id before
      → B.arrives x ≡ some d
      → d.thread_id ≡ some request.id
      → (exchange B reply_timeout_secs dropped request ending (before ++ x ∷ after) p).0 ≡ ok d
  unfolding exchange register
  exchange-reply request dest body ending before x after d p open_ sound to encoded sent foreign got
        own =
      simp (to, encoded, sent)
        (wait-reply request.id p.next ending before x after d (register thread_of request.id p).1
          foreign got own open_ (register-IsWaiting thread_of request.id p sound))
