-- ===== src/Client/Https.antt =====
-- trql-client/src/https.rs: an exchange over HTTPS. The HTTP client is a parameter: what `send` gave,
-- with the body of the response as read, or the error of reading it.
use trust_registry_build_pip.Base.{
  ℕ, String, Bool, true, false, ◌&&◌, Result, ok, err, ◌≡◌, ◌↔◌, refl, sym, ap, ◌∙◌, arith,
  if◌then◌else◌, leb, ltb, format, [], ◌∷◌,
}
use trust_registry_build_pip.Client.Error.{
  https, TrqlError, contract, transport, timeout, is_retryable,
}
use trust_registry_build_pip.Client.Query.{TrustTask}

-- `reqwest::Error` of `send`, and a response.
pub record SendError : Type 0 where
  pub is_timeout : Bool
  pub is_connect : Bool
  pub message : String

pub record Response : Type 0 where
  pub status : ℕ
  pub status_text : String
  pub bytes : Result String String

abbrev pub is_success : ℕ → Bool
is_success status = leb 200 status && ltb status 300

-- `TrustTask` from a body, the endpoint and the timeout of the transport.
module _ (from_slice : String → Result String TrustTask) (endpoint : String) (waited_secs : ℕ) where
  unfoldable pub send_error : SendError → TrqlError
  send_error e =
      if e.is_timeout
      then timeout https waited_secs
      else if e.is_connect
      then transport https (format ("could not connect to " ∷ endpoint ∷ ": " ∷ e.message ∷ []))
      else transport https e.message

  abbrev pub read_document :
      Bool → String → String → Result String TrustTask → Result TrqlError TrustTask
  read_document success status_text body (ok document) = ok document
  read_document success status_text body (err e) =
      if success
      then err (
          contract
            (format ("HTTP " ∷ status_text ∷ " body is not a Trust Task document: " ∷ e ∷ [])))
      else err (
          transport https
            (format ("HTTP " ∷ status_text ∷ " with non-Trust-Task body: " ∷ body ∷ [])))

  abbrev pub read_body : Bool → String → Result String String → Result TrqlError TrustTask
  read_body success status_text (err e) =
      err (transport https (format ("failed reading response body: " ∷ e ∷ [])))
  read_body success status_text (ok body) = read_document success status_text body (from_slice body)

  -- `exchange`, from what the request got.
  unfoldable pub exchange : Result SendError Response → Result TrqlError TrustTask
  exchange (err e) = err (send_error e)
  exchange (ok response) =
      read_body (is_success response.status) response.status_text response.bytes

  send_error-is_retryable : (e : SendError) → is_retryable (send_error e) ≡ true
  unfolding send_error is_retryable
  send_error-is_retryable e = ground arith

  -- What was read where a failure is for good.
  read_document-final :
      (success : Bool) (status_text body : String) (parsed : Result String TrustTask)
      (e : TrqlError)
      → read_document success status_text body parsed ≡ err e
      → is_retryable e ≡ false
      → (success ≡ true) × ((reason : String) × (parsed ≡ err reason))
  unfolding is_retryable
  read_document-final success status_text body (ok d) e failed final = ground (arith, failed)
  read_document-final true status_text body (err reason) e failed final = (refl, (reason, refl))
  read_document-final false status_text body (err reason) e failed final =
      ground (arith, failed, final)

  read_body-final :
      (success : Bool) (status_text : String) (bytes : Result String String) (e : TrqlError)
      → read_body success status_text bytes ≡ err e
      → is_retryable e ≡ false
      → (success ≡ true)
        × ((body : String) × ((reason : String) × (bytes ≡ ok body)
              × (from_slice body ≡ err reason)))
  unfolding is_retryable
  read_body-final success status_text (err m) e failed final = ground (arith, failed, final)
  read_body-final success status_text (ok body) e failed final =
      let there = read_document-final success status_text body (from_slice body) e failed final in
      (there.0, (body, (there.1.0, refl, there.1.1)))

  exchange-final :
      (got : Result SendError Response) (e : TrqlError)
      → exchange got ≡ err e
      → is_retryable e ≡ false
      → (response : Response) × (body : String) × (reason : String) × (got ≡ ok response)
        × (is_success response.status ≡ true)
        × (response.bytes ≡ ok body)
        × (from_slice body ≡ err reason)
  unfolding exchange
  exchange-final (err m) e failed final = cc (failed, final, send_error-is_retryable m)
  exchange-final (ok response) e failed final =
      let there =
        read_body-final (is_success response.status) response.status_text response.bytes e failed
          final in
      (response, there.1.0, there.1.1.0, refl, there.0, there.1.1.1, there.1.1.2)

  read_document-contract :
      (status_text body reason : String) (parsed : Result String TrustTask) (e : TrqlError)
      → parsed ≡ err reason
      → read_document true status_text body parsed ≡ err e
      → is_retryable e ≡ false
  unfolding is_retryable
  read_document-contract status_text body reason (ok d) e parses failed = ground (arith, failed)
  read_document-contract status_text body reason (err r) e parses failed = ground (arith, failed)

  read_body-contract :
      (success : Bool) (status_text : String) (bytes : Result String String) (body reason : String)
      (e : TrqlError)
      → success ≡ true
      → bytes ≡ ok body
      → from_slice body ≡ err reason
      → read_body success status_text bytes ≡ err e
      → is_retryable e ≡ false
  unfolding is_retryable
  read_body-contract true status_text (ok b) body reason e good read parsed failed =
      read_document-contract status_text b reason (from_slice b) e (cc (read, parsed)) failed
  read_body-contract false status_text bytes body reason e good read parsed failed =
      ground (arith, good)
  read_body-contract true status_text (err b) body reason e good read parsed failed =
      ground (arith, read)

  -- An exchange over HTTPS that fails is not to be tried again exactly if a response with a status of
  -- success was read whose body is no document.
  pub exchange-is_retryable :
      (got : Result SendError Response) (e : TrqlError)
      → exchange got ≡ err e
      → (is_retryable e ≡ false) ↔ (
          (response : Response) × (body : String) × (reason : String) × (got ≡ ok response)
          × (is_success response.status ≡ true)
          × (response.bytes ≡ ok body)
          × (from_slice body ≡ err reason))
  unfolding exchange
  exchange-is_retryable got e failed = (
    exchange-final got e failed,
    λ there.
        read_body-contract (is_success there.0.status) there.0.status_text there.0.bytes there.1
          there.2 e there.4 there.5 there.6 (sym (ap exchange there.3) ∙ failed),
  )
