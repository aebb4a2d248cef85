-- ===== src/Didcomm/Listener/Bounds.antt =====
-- How often the check asks for the DID document, and how long it waits in between.
use trust_registry_build_pip.Base.{
  ℕ, zero, suc, ◌+◌, ◌≤◌, ◌≡◌, ◌≢◌, List, [], ◌∷◌, arith, String, Option, none, some, Result, ok,
  err, ltb, ◌⊎◌, inl, inr, Bool-cases,
}
use trust_registry_build_pip.Didcomm.Listener.{
  DidCommError, unreachable_did_document, Web, is_success, next_delay, attempts, with_client,
  url_of, url_of_parts, check_url, check_path, check_did_document_availability,
}
use trust_registry_build_pip.Base.Text.{strip_prefix, split}

module _ {W : Type 0} (web : Web W) (max_attempts max_delay_secs initial_delay_secs : ℕ)
    (Seen : ℕ → W → Type 0)
    (asked : (url : String) (n : ℕ) (w : W) → Seen n w → Seen (suc n) (web.http_get url w).1)
    (slept : (d n : ℕ) (w : W)
      → (d ≤ initial_delay_secs) ⊎ (d ≤ max_delay_secs)
      → Seen n w
      → Seen n (web.sleep d w)) where
  abbrev Within : ℕ → Type 0
  Within d = (d ≤ initial_delay_secs) ⊎ (d ≤ max_delay_secs)

  next_delay-Within : (d : ℕ) → next_delay web max_attempts max_delay_secs d ≤ max_delay_secs
  next_delay-Within d = ground arith

  -- What the loop leaves, where so many requests were made before.
  abbrev pub Ended : ℕ → Result DidCommError (Unit {0}) × W → Type 0
  Ended most o = (n : ℕ) × (n ≤ most) × Seen n o.1 × (o.0 ≡ err unreachable_did_document → n ≡ most)

  more :
      (left n : ℕ) (o : Result DidCommError (Unit {0}) × W)
      → Ended (suc n + left) o
      → Ended (n + suc left) o
  more left n o e = (e.0, omega (arith, e.1), e.2, λ bad. omega (arith, e.3 bad))

  attempts-Ended :
      (url : String) (left attempt delay n : ℕ) (w : W)
      → Within delay
      → Seen n w
      → Ended (n + left) (attempts web max_attempts max_delay_secs url left attempt delay w)
  unfolding attempts
  attempts-Ended url zero attempt delay n w small seen = (n, omega arith, seen, λ e. omega arith)
  attempts-Ended url (suc left) attempt delay n w small seen =
      let w' = (web.http_get url w).1 in
      let seen' = asked url n w seen in
      elim (Bool-cases (is_success (web.http_get url w).0)) [
        | inl good ↦ simp (attempts, good) (suc n, omega arith, seen', λ e. ground (arith, e))
        | inr bad ↦ elim (Bool-cases (ltb attempt max_attempts)) [
          | inl again ↦
              simp (attempts, bad, again)
                (more left n _ (
                  attempts-Ended url left (attempt + 1)
                    (next_delay web max_attempts max_delay_secs delay) (suc n) (web.sleep delay w')
                    (inr (next_delay-Within delay)) (slept delay (suc n) w' small seen')))
          | inr last ↦
              simp (attempts, bad, last)
                (more left n _ (attempts-Ended url left (attempt + 1) delay (suc n) w' small seen'))
        ]
      ]

  with_client-Ended :
      (client : Result String (Unit {0})) (url : String) (w : W)
      → Seen 0 w
      → Ended max_attempts
          (with_client web max_attempts max_delay_secs client url initial_delay_secs w)
  with_client-Ended (err e) url w seen = (0, omega arith, seen, λ bad. ground (arith, bad))
  with_client-Ended (ok _) url w seen =
      let there =
        attempts-Ended url max_attempts 1 initial_delay_secs 0 w (inl (omega arith)) seen in
      (there.0, omega (arith, there.1), there.2, λ bad. omega (arith, there.3 bad))

  check_url-Ended :
      (url : Result DidCommError String) (w : W)
      → url ≢ err unreachable_did_document
      → Seen 0 w
      → Ended max_attempts (check_url web max_attempts max_delay_secs url initial_delay_secs w)
  check_url-Ended (err e) w other seen = (0, omega arith, seen, λ bad. absurd (other (cc bad)))
  check_url-Ended (ok url) w other seen = with_client-Ended web.build_client url w seen

  url_of-other :
      (domain : Option String) (path : List String)
      → url_of domain path ≢ err unreachable_did_document
  url_of-other none path e = ground (arith, e)
  url_of-other (some d) [] e = ground (arith, e)
  url_of-other (some d) (p ∷ path) e = ground (arith, e)

  url_of_parts-other :
      (parts : List String) → url_of_parts web.decode parts ≢ err unreachable_did_document
  url_of_parts-other [] = url_of-other (web.decode "") []
  url_of_parts-other (d ∷ path) = url_of-other (web.decode d) path

  check_path-Ended :
      (did_path : Option String) (w : W)
      → Seen 0 w
      → Ended max_attempts
          (check_path web max_attempts max_delay_secs did_path initial_delay_secs w)
  check_path-Ended none w seen = (0, omega arith, seen, λ bad. ground (arith, bad))
  check_path-Ended (some path) w seen =
      check_url-Ended (url_of_parts web.decode (split b':' path)) w
        (url_of_parts-other (split b':' path)) seen

  -- Whatever a request and a wait of at most the initial or the maximal delay keep of a world in which
  -- so many requests were made holds at the end. There are at most as many requests as attempts are
  -- allowed, and the check gives up only after all of them.
  pub check-Ended :
      (profile_did : String) (w : W)
      → Seen 0 w
      → Ended max_attempts (
          check_did_document_availability web max_attempts max_delay_secs profile_did
            initial_delay_secs w)
  unfolding check_did_document_availability
  check-Ended profile_did w seen = check_path-Ended (strip_prefix "did:web:" profile_did) w seen
