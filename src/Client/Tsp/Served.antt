-- ===== src/Client/Tsp/Served.antt =====
-- The envelope of trql-client/src/tsp.rs as the registry's trust-registry/src/tsp/mod.rs reads it.
use text.Mathlib.TextEquality.{eq_iff}
use trust_registry_build_pip.Base.{◌≡◌, sym, ok}
use trust_registry_build_pip.Domain.Json.{Value, lookup}
use trust_registry_build_pip.Client.Query.{TrustTask}
use trust_registry_build_pip.Client.Tsp.{Library, build_envelope, framed, build_envelope-to_vec}
use trust_registry_build_pip.TrustTasks.Framework.{Framework}
use trust_registry_build_pip.Tsp.{Codec, parse_envelope}

-- Where both sides name the envelope the same way, and JSON reads back what it wrote, the registry reads
-- the document that the client put into the envelope.
pub parse_envelope-served :
    (L : Library) (F : Framework) (codec : Codec F) (document : TrustTask) (v : Value)
    (bytes : L.Bytes) (received : codec.Bytes) (doc : F.Document)
    → codec.envelope_type ≡ L.envelope_type
    → L.to_value document ≡ ok v
    → codec.from_value v ≡ ok doc
    → ((w : Value) → L.to_vec w ≡ ok bytes → codec.from_slice received ≡ ok w)
    → build_envelope L document ≡ ok bytes
    → parse_envelope F codec received ≡ ok doc
unfolding parse_envelope lookup
parse_envelope-served L F codec document v bytes received doc types wrote read slices built =
    let back = slices (framed L v) (build_envelope-to_vec L document v bytes wrote built) in
    simp (back, (eq_iff L.envelope_type codec.envelope_type).1 (sym types), read)
