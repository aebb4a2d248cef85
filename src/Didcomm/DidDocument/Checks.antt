-- ===== src/Didcomm/DidDocument/Checks.antt =====
-- What the checks at the start let through, and what the DID document keeps to itself.
use Prim.Native.String
use text.Mathlib.Text.{starts_with}
use trust_registry_build_pip.Base.{
  ℕ, suc, String, Bool, true, false, ◌≡◌, ◌↔◌, ◌⊎◌, refl, sym, ap, ◌∙◌, arith, Option, none, List,
  [], ◌∷◌, map, Result, ok, err, ◌>>=◌, Bool-cases, inl, inr,
}
use text.Mathlib.TextLemmas.{nil-append, cons-append}
use trust_registry_build_pip.Base.Text.{strip_prefix, split_first}
use trust_registry_build_pip.Base.Text.Laws.{strip_prefix-append, split_first-append}
use trust_registry_build_pip.Didcomm.DidDocument.{
  Params, ec, okp, other_params, SecretMaterial, jwk, other_material, Secret, ProfileConfig,
  TransportFlags, Environment, env_flag, validate, from_env, build_public_jwk, public_material,
  methods_from, build_verification_methods, key_refs_from, build_did_document, validate_public_url,
  is_loopback,
}

-- A profile without the private parts of its keys.
abbrev pub public_part : Params → Params
public_part (ec curve x y d) = ec curve x y none
public_part (okp curve x d) = okp curve x none
public_part other_params = other_params

abbrev pub public_secret : SecretMaterial → SecretMaterial
public_secret (jwk key) = jwk (record key { params = public_part key.params })
public_secret other_material = other_material

abbrev pub forget : Secret → Secret
forget secret = record secret { secret_material = public_secret secret.secret_material }

abbrev pub without_private : ProfileConfig → ProfileConfig
without_private profile = record profile { secrets = map forget profile.secrets }

public_jwk-forget :
    (kid : Option String) (p : Params)
    → build_public_jwk (record { key_id = kid; params = public_part p })
      ≡ build_public_jwk (record { key_id = kid; params = p })
unfolding build_public_jwk
public_jwk-forget kid (ec curve x y d) = refl
public_jwk-forget kid (okp curve x d) = refl
public_jwk-forget kid other_params = refl

public_material-forget :
    (m : SecretMaterial) → public_material (public_secret m) ≡ public_material m
public_material-forget (jwk key) = public_jwk-forget key.key_id key.params
public_material-forget other_material = refl

methods_from-forget :
    (did : String) (i : ℕ) (secrets : List Secret)
    → methods_from did i (map forget secrets) ≡ methods_from did i secrets
unfolding methods_from
methods_from-forget did i [] = refl
methods_from-forget did i (s ∷ secrets) =
    simp (public_material-forget s.secret_material, methods_from-forget did (suc i) secrets)

key_refs_from-forget :
    (did : String) (i : ℕ) (secrets : List Secret)
    → key_refs_from did i (map forget secrets) ≡ key_refs_from did i secrets
unfolding key_refs_from
key_refs_from-forget did i [] = refl
key_refs_from-forget did i (s ∷ secrets) = simp (key_refs_from-forget did (suc i) secrets)

build_did_document-without_private :
    (p : ProfileConfig) (mediator_did : String) (public_url : Option String)
    (flags : TransportFlags)
    → build_did_document (without_private p) mediator_did public_url flags
      ≡ build_did_document p mediator_did public_url flags
unfolding build_did_document build_verification_methods
build_did_document-without_private p m url flags =
    simp (methods_from-forget p.did 0 p.secrets, key_refs_from-forget p.did 0 p.secrets)

-- The document is the same for two profiles that differ in the private parts of their keys alone: it
-- tells nothing of them.
pub build_did_document-private :
    (a b : ProfileConfig) (mediator_did : String) (public_url : Option String)
    (flags : TransportFlags)
    → without_private a ≡ without_private b
    → build_did_document a mediator_did public_url flags
      ≡ build_did_document b mediator_did public_url flags
build_did_document-private a b m url flags same =
    sym (build_did_document-without_private a m url flags)
    ∙ ap (λ p. build_did_document p m url flags) same
    ∙ build_did_document-without_private b m url flags

-- Flags that the code starts with: a transport is on, and TSP runs only beside DIDComm and in a build
-- that has it.
pub record IsCoherent (has_tsp : Bool) (flags : TransportFlags) : Type 0 where
  pub one_on : (flags.rest ≡ true) ⊎ (flags.didcomm ≡ true)
  pub tsp_needs_didcomm : flags.tsp ≡ true → flags.didcomm ≡ true
  pub tsp_needs_build : flags.tsp ≡ true → has_tsp ≡ true

pub validate_iff :
    (has_tsp : Bool) (flags : TransportFlags)
    → (validate has_tsp flags ≡ ok tt) ↔ IsCoherent has_tsp flags
unfolding validate
validate_iff has_tsp flags = (
  λ e. record {
    one_on = ground (arith, e);
    tsp_needs_didcomm = ground (arith, e);
    tsp_needs_build = ground (arith, e);
  },
  λ c. ground (arith, c.one_on, c.tsp_needs_didcomm, c.tsp_needs_build),
)

checked :
    (v : Result String (Unit {0})) (f flags : TransportFlags)
    → (v >>= λ _. ok f) ≡ ok flags
    → (v ≡ ok tt) × (f ≡ flags)
checked (ok u) f flags e = (refl, cc e)
checked (err m) f flags e = ground (arith, e)

read_flags :
    (has_tsp : Bool) (rest didcomm tsp : Result String Bool) (flags : TransportFlags)
    → (rest >>= λ r. didcomm >>= λ d. tsp >>= λ t.
        let f : TransportFlags = record { rest = r; didcomm = d; tsp = t } in
        validate has_tsp f >>= λ _. ok f)
      ≡ ok flags
    → (validate has_tsp flags ≡ ok tt)
      × (rest ≡ ok flags.rest)
      × (didcomm ≡ ok flags.didcomm)
      × (tsp ≡ ok flags.tsp)
read_flags has_tsp (ok r) (ok d) (ok t) flags e =
    let f : TransportFlags = record { rest = r; didcomm = d; tsp = t } in
    let there = checked (validate has_tsp f) f flags e in
    (
      sym (ap (validate has_tsp) there.1) ∙ there.0,
      ap (λ g. ok g.rest) there.1,
      ap (λ g. ok g.didcomm) there.1,
      ap (λ g. ok g.tsp) there.1,
    )
read_flags has_tsp (err m) didcomm tsp flags e = ground (arith, e)
read_flags has_tsp (ok r) (err m) tsp flags e = ground (arith, e)
read_flags has_tsp (ok r) (ok d) (err m) flags e = ground (arith, e)

-- The flags that are read from the environment are those of the three variables, and coherent.
pub from_env-IsCoherent :
    (has_tsp : Bool) (env : Environment) (flags : TransportFlags)
    → from_env has_tsp env ≡ ok flags
    → IsCoherent has_tsp flags
      × (env_flag env "ENABLE_REST" true ≡ ok flags.rest)
      × (env_flag env "ENABLE_DIDCOMM" true ≡ ok flags.didcomm)
      × (env_flag env "ENABLE_TSP" false ≡ ok flags.tsp)
unfolding from_env
from_env-IsCoherent has_tsp env flags e =
    let there =
      read_flags has_tsp (env_flag env "ENABLE_REST" true) (env_flag env "ENABLE_DIDCOMM" true)
        (env_flag env "ENABLE_TSP" false) flags e in
    ((validate_iff has_tsp flags).0 there.0, there.1, there.2, there.3)

loopback_ok :
    (url : String)
    → is_loopback (strip_prefix "http://" url) ≡ true
    → validate_public_url url ≡ ok tt
unfolding validate_public_url
loopback_ok url loopback = elim (Bool-cases (starts_with url "https://")) [
  | inl secure ↦ simp secure
  | inr other ↦ simp (other, loopback)
]

host-localhost :
    (rest : String)
    → split_first (b'/' ∷ b':' ∷ b'?' ∷ []) (String.◌++◌ "localhost" (String.◌++◌ ":" rest))
      ≡ "localhost"
host-localhost rest =
    ap (λ t. split_first (b'/' ∷ b':' ∷ b'?' ∷ []) (String.◌++◌ "localhost" t))
      (cons-append ":" String.[] rest ∙ ap (String.◌∷◌ ":") (nil-append rest))
    ∙ split_first-append (b'/' ∷ b':' ∷ b'?' ∷ []) "localhost" ":" rest (ground arith) refl

-- A cleartext URL is let through whatever follows `http://localhost:`, also where that makes `localhost`
-- the name of a user and the host another one.
pub validate_public_url-localhost :
    (rest : String)
    → validate_public_url (String.◌++◌ "http://" (String.◌++◌ "localhost" (String.◌++◌ ":" rest)))
      ≡ ok tt
validate_public_url-localhost rest = loopback_ok _ (
    rw (strip_prefix-append "http://" (String.◌++◌ "localhost" (String.◌++◌ ":" rest)))
      (rw (host-localhost rest) refl))
