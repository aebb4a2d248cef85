-- ===== src/Client/Exchange/Rounds.antt =====
-- What a round of the wait for a reply does, by what the poll brings.
use text.Mathlib.TextEquality.{eq_iff}
use trust_registry_build_pip.Base.{
  ℕ, String, false, ◌≡◌, ◌≢◌, ◌⊎◌, refl, sym, ap, subst, ◌∙◌, arith, Option, none, some, ok,
  string_eq, nat_eq, List, [], ◌∷◌, contains, ◌==◌, Bool-cases, nat_beq_iff, inl, inr,
}
use trust_registry_build_pip.Base.HashMap
use trust_registry_build_pip.Base.HashMap.{get-remove}
use trust_registry_build_pip.Client.Pending.{route}
use trust_registry_build_pip.Client.Pending.Routing.{route_waiting}
use trust_registry_build_pip.Client.Query.{TrustTask}
use trust_registry_build_pip.Client.Exchange.{
  Pending, thread_of, routed, Binding, Ending, give_up, ending_error, wait,
}
use trust_registry_build_pip.Client.Exchange.Waiting.{IsWaiting, route_to-IsWaiting}

module _ (B : Binding) (reply_timeout_secs : ℕ) (dropped : List ℕ) where
  -- What a poll brings is no reply of the thread.
  abbrev Foreign : String → B.Polled → Type 0
  Foreign k x = (d : TrustTask) → B.arrives x ≡ some d → d.thread_id ≢ some k

  abbrev pub AllForeign : String → List B.Polled → Type 0
  AllForeign k [] = Unit
  AllForeign k (x ∷ xs) = Foreign k x × AllForeign k xs

  abbrev Own : String → B.Polled → Type 0
  Own k x = (d : TrustTask) × (B.arrives x ≡ some d) × (d.thread_id ≡ some k)

  thread-cases : (k : String) (t : Option String) → (t ≡ some k) ⊎ (t ≢ some k)
  thread-cases k none = inr (λ e. ground (arith, e))
  thread-cases k (some t) = elim (Bool-cases (t == k)) [
    | inl same ↦ inl (ap some ((eq_iff t k).0 same))
    | inr apart ↦ inr (λ e. ground (arith, apart, e, eq_iff t k))
  ]

  pub arrival-cases :
      (k : String) (x : B.Polled) (o : Option TrustTask) → B.arrives x ≡ o → Own k x ⊎ Foreign k x
  arrival-cases k x none e = inr (λ d got thread. ground (arith, e, got))
  arrival-cases k x (some d) e = elim (thread-cases k d.thread_id) [
    | inl own ↦ inl (d, e, own)
    | inr other ↦ inr (λ d' got thread. other (cc (e, got, thread)))
  ]

  routed-IsWaiting :
      (k : String) (tx : ℕ) (o : Option TrustTask) (p : Pending)
      → ((d : TrustTask) → o ≡ some d → d.thread_id ≢ some k)
      → IsWaiting thread_of k tx p
      → IsWaiting thread_of k tx (routed dropped o p)
  unfolding route
  routed-IsWaiting k tx none p other w = w
  routed-IsWaiting k tx (some d) p other w =
      route_to-IsWaiting thread_of k tx dropped d.thread_id d p (other d refl) w

  pub step-IsWaiting :
      (k : String) (tx : ℕ) (x : B.Polled) (p : Pending)
      → Foreign k x
      → IsWaiting thread_of k tx p
      → IsWaiting thread_of k tx (B.step dropped x p)
  step-IsWaiting k tx x p other w =
      subst (IsWaiting thread_of k tx) (sym (B.step-routed dropped x p))
        (routed-IsWaiting k tx (B.arrives x) p other w)

  delivered_first :
      (tx : ℕ) (d : TrustTask) (rest : List (ℕ × TrustTask))
      → HashMap.get ((tx, d) ∷ rest) tx ≡ some d
  unfolding HashMap.get
  delivered_first tx d rest = simp ((nat_beq_iff tx tx).1 refl)

  routed_own :
      (k : String) (tx : ℕ) (d : TrustTask) (p : Pending)
      → d.thread_id ≡ some k
      → contains dropped tx ≡ false
      → IsWaiting thread_of k tx p
      → (HashMap.get (routed dropped (some d) p).delivered tx ≡ some d)
        × (HashMap.get (routed dropped (some d) p).inner k ≡ none)
  unfolding route
  routed_own k tx d p own open_ w =
      let sent = route_waiting thread_of k tx dropped d.thread_id d p own w.held open_ in
      (
        ap (λ (m : List (ℕ × TrustTask)). HashMap.get m tx) sent.1
            ∙ delivered_first tx d p.delivered,
        sent.2,
      )

  abbrev Arrived : String → ℕ → TrustTask → Pending → Type 0
  Arrived k tx d p = (HashMap.get p.delivered tx ≡ some d) × (HashMap.get p.inner k ≡ none)

  pub step_own :
      (k : String) (tx : ℕ) (x : B.Polled) (d : TrustTask) (p : Pending)
      → B.arrives x ≡ some d
      → d.thread_id ≡ some k
      → contains dropped tx ≡ false
      → IsWaiting thread_of k tx p
      → Arrived k tx d (B.step dropped x p)
  step_own k tx x d p got own open_ w =
      subst (Arrived k tx d) (sym (B.step-routed dropped x p ∙ ap (λ o. routed dropped o p) got))
        (routed_own k tx d p own open_ w)

  pub wait_arrived :
      (k : String) (tx : ℕ) (ending : Ending) (xs : List B.Polled) (d : TrustTask) (p : Pending)
      → HashMap.get p.delivered tx ≡ some d
      → wait B reply_timeout_secs dropped k tx ending xs p ≡ (ok d, p)
  unfolding wait
  wait_arrived k tx ending [] d p got = simp (wait, got)
  wait_arrived k tx ending (x ∷ xs) d p got = simp (wait, got)

  pub wait_goes_on :
      (k : String) (tx : ℕ) (ending : Ending) (x : B.Polled) (xs : List B.Polled) (p : Pending)
      → HashMap.get p.delivered tx ≡ none
      → wait B reply_timeout_secs dropped k tx ending (x ∷ xs) p
        ≡ wait B reply_timeout_secs dropped k tx ending xs (B.step dropped x p)
  unfolding wait
  wait_goes_on k tx ending x xs p got = simp (wait, got)

  pub wait_over :
      (k : String) (tx : ℕ) (ending : Ending) (p : Pending)
      → HashMap.get p.delivered tx ≡ none
      → wait B reply_timeout_secs dropped k tx ending [] p
        ≡ give_up B reply_timeout_secs dropped k
            (ending_error B reply_timeout_secs dropped ending)
            p
  unfolding wait
  wait_over k tx ending p got = simp (wait, got)
