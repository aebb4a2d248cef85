-- ===== src/Tsp/Frame.antt =====
-- A frame whose unpacking recovers in time is processed.
use trust_registry_build_pip.Base.{
  ℕ, ◌+◌, ◌≤◌, ◌<◌, String, true, false, ltb, Bool-cases, Option, some, Result, ok, List, ◌≡◌, inl,
  inr, ◌⊎◌, ap, ◌∙◌, arith,
}
use trust_registry_build_pip.TrustTasks.Framework.{Framework, Handler}
use trust_registry_build_pip.TrustTasks.Gate.{Checks}
use trust_registry_build_pip.Dedup.{MessageIdStore}
use trust_registry_build_pip.Tsp.{
  AtmError, unpack_max_attempts, unpack_initial_backoff, unpack_max_backoff, Codec, parse_envelope,
  build_envelope, handle_inbound, process_unpacked, processed, answer, sent, retry_transient,
  process_tsp_frame,
}
use trust_registry_build_pip.Tsp.Retry.{transient, before, retry_transient-Stops}

-- The loop stops at the first attempt that does not fail transiently, where that is an allowed one.
module _ {T W : Type 0} (op : W → Result AtmError T × W) (sleep : ℕ → W → W)
    (attempts max_backoff backoff : ℕ) (w : W) where
  abbrev at : ℕ → Result AtmError T × W
  at n = op (before op sleep attempts max_backoff n backoff w)

  stops_at :
      (k n : ℕ)
      → k < attempts
      → ((m : ℕ) → m < k → transient (at m).0 ≡ true)
      → transient (at k).0 ≡ false
      → ((m : ℕ) → m < n → transient (at m).0 ≡ true)
      → (transient (at n).0 ≡ false) ⊎ (attempts ≤ 1 + n)
      → n ≡ k
  stops_at k n lt earlier settled before_n at_n = elim (Bool-cases (ltb n k)) [
    | inl below ↦ absurd (ground (arith, at_n, earlier n (ground arith)))
    | inr from_k ↦ elim (Bool-cases (ltb k n)) [
      | inl above ↦ absurd (ground (arith, settled, before_n k (ground arith)))
      | inr to_k ↦ ground arith
    ]
  ]

  pub retry_transient-first :
      (k : ℕ)
      → k < attempts
      → ((m : ℕ) → m < k → transient (at m).0 ≡ true)
      → transient (at k).0 ≡ false
      → retry_transient op sleep attempts max_backoff backoff w ≡ some (at k)
  retry_transient-first k lt earlier settled =
      let stops = retry_transient-Stops op sleep attempts max_backoff backoff w in
      stops.outcome
      ∙ ap (λ n. some (at n)) (stops_at k stops.n lt earlier settled stops.earlier stops.settled)

-- The attempt of the given number at unpacking a frame.
abbrev pub attempt :
    {T N : Type 0} → (N → Result AtmError T × N) → (ℕ → N → N) → ℕ → N → Result AtmError T × N
attempt unpack sleep k n =
    unpack (before unpack sleep unpack_max_attempts unpack_max_backoff k unpack_initial_backoff n)

module _ (F : Framework) (codec : Codec F) (checks : Checks F) {W N : Type 0}
    (dispatch : F.Document → Handler F W) (store : MessageIdStore F) (admin_dids : List String)
    (my_vid : String) (unpack : N → Result AtmError (codec.Bytes × String) × N) (sleep : ℕ → N → N)
    (send : String → codec.Bytes → N → Result String (Unit {0}) × N) where
  -- Where one of the three attempts at unpacking a frame succeeds and the earlier ones fail transiently,
  -- and the frame carries a document, that document is handled once, as one of the sender that the
  -- unpacking names, and the outcome is sent to that sender in an envelope.
  pub process_tsp_frame-recovers :
      (now claimed_at resolved_at : ℕ) (fresh : String) (n : N) (sw : store.State × W) (k : ℕ)
      (payload : codec.Bytes) (sender_did : String) (doc : F.Document)
      → k < unpack_max_attempts
      → ((m : ℕ) → m < k → transient (attempt unpack sleep m n).0 ≡ true)
      → (attempt unpack sleep k n).0 ≡ ok (payload, sender_did)
      → parse_envelope F codec payload ≡ ok doc
      → let (outcome, s, w) =
          handle_inbound F codec checks dispatch store admin_dids my_vid now claimed_at resolved_at
            fresh sender_did doc sw in
        process_tsp_frame F codec checks dispatch store admin_dids my_vid unpack sleep send now
          claimed_at resolved_at fresh n sw
        ≡ some (
          (send sender_did (build_envelope F codec outcome) (attempt unpack sleep k n).1).1,
          (s, w),
        )
  unfolding process_tsp_frame process_unpacked
  process_tsp_frame-recovers now claimed_at resolved_at fresh n sw k payload sender_did doc lt
        earlier unpacked parsed =
      let end_ = (attempt unpack sleep k n).1 in
      ap (λ o. finish o)
        (retry_transient-first unpack sleep unpack_max_attempts unpack_max_backoff
          unpack_initial_backoff n k lt earlier (ap transient unpacked))
      ∙ ap (λ u. finish (some (u, end_))) unpacked
      ∙ ap (λ d. reply_with d end_) parsed
    where
      finish : Option (Result AtmError (codec.Bytes × String) × N) → Option (N × (store.State × W))
      finish o =
          processed F codec checks dispatch store admin_dids my_vid unpack sleep send now claimed_at
            resolved_at fresh o sw

      reply_with : Result String F.Document → N → Option (N × (store.State × W))
      reply_with d end_ =
          let (reply, sw') =
            answer F codec checks dispatch store admin_dids my_vid now claimed_at resolved_at fresh
              sender_did d sw in
          some
            (sent F codec checks dispatch store admin_dids my_vid unpack sleep send reply end_, sw')
