-- ===== src/Client/Discovery/Selection.antt =====
-- The transport that is chosen is the best one that both sides speak.
use trust_registry_build_pip.Base.{ℕ, ◌≤◌, true, ◌≡◌, arith, some, is_some, ok, err, List, contains}
use trust_registry_build_pip.Client.Error.{
  TransportKind, https, didcomm, tsp, kind_eq, no_matching_transport,
}
use trust_registry_build_pip.Client.Discovery.{
  ServiceCapabilities, TransportChoice, endpoint, advertised, select,
}

abbrev pub rank : TransportKind → ℕ
rank tsp = 0
rank didcomm = 1
rank https = 2

-- We speak the transport and the peer advertises an endpoint for it.
abbrev pub IsShared : ServiceCapabilities → List TransportKind → TransportKind → Type 0
IsShared caps ours k = (contains ⦃e = kind_eq⦄ ours k ≡ true) × (is_some (endpoint caps k) ≡ true)

select-IsShared :
    (caps : ServiceCapabilities) (ours : List TransportKind) (c : TransportChoice)
    → select caps ours ≡ ok c
    → IsShared caps ours c.kind
unfolding select
select-IsShared caps ours c e = ground arith

select_endpoint :
    (caps : ServiceCapabilities) (ours : List TransportKind) (c : TransportChoice)
    → select caps ours ≡ ok c
    → endpoint caps c.kind ≡ some c.endpoint
unfolding select
select_endpoint caps ours c e = ground arith

select-rank :
    (caps : ServiceCapabilities) (ours : List TransportKind) (c : TransportChoice)
    (k : TransportKind)
    → select caps ours ≡ ok c
    → IsShared caps ours k
    → rank c.kind ≤ rank k
unfolding select
select-rank caps ours c tsp e h = ground arith
select-rank caps ours c k e h = ground arith

-- A choice is the advertised endpoint of a shared transport, and every shared transport ranks no
-- better.
pub select_best :
    (caps : ServiceCapabilities) (ours : List TransportKind) (c : TransportChoice)
    → select caps ours ≡ ok c
    → IsShared caps ours c.kind
      × (endpoint caps c.kind ≡ some c.endpoint)
      × ((k : TransportKind) → IsShared caps ours k → rank c.kind ≤ rank k)
select_best caps ours c e = (
  select-IsShared caps ours c e,
  select_endpoint caps ours c e,
  λ k h. select-rank caps ours c k e h,
)

-- If the two sides share no transport, the error lists what each side offers.
pub select_none :
    (caps : ServiceCapabilities) (ours : List TransportKind)
    → ((k : TransportKind) → ¬ IsShared caps ours k)
    → select caps ours ≡ err (no_matching_transport ours (advertised caps))
unfolding select
select_none caps ours h = ground (arith, h tsp, h didcomm, h https)
