-- ===== src/Dns/Resolver/Fallback.antt =====
-- The branches of `resolve`: its own answers, the first forwarder that answers, or an empty reply.
use dockermock.Prelude.{◌≡◌, refl, ℕ, Option, none, some, List, [], ◌∷◌, ◌++◌, string_eq, map, All}
use dockermock.Prelude.Text.{Text}
use dockermock.Dns.Resolver.{
  DynamicResolver, Request, answered, forwarded, lower, host_ip, resolve, rr, forward_from,
  answer_or,
}

answer_or-empty :
    {A R : Type 0} (qname : Text) (ips : List A)
    → answer_or {R = R} qname ips (answered []) ≡ answered (map (rr qname) ips)
answer_or-empty qname [] = refl
answer_or-empty qname (ip ∷ ips) = refl

module _ {F R A : Type 0} (ask : F → Option R) where
  -- Where the forwarders before one have failed and that one answers, the reply is its record.
  forward_from-answer :
      (before after : List F) (f : F) (data' : R)
      → All (λ g. ask g ≡ none) before
      → ask f ≡ some data'
      → forward_from {A = A} ask (before ++ f ∷ after) ≡ forwarded data'
  unfolding forward_from
  forward_from-answer [] after f d failed e = rw e
  forward_from-answer (g ∷ before) after f d failed e =
      rw failed.0 (forward_from-answer before after f d failed.1 e)

  forward_from-failed :
      (fs : List F) → All (λ g. ask g ≡ none) fs → forward_from {A = A} ask fs ≡ answered []
  unfolding forward_from
  forward_from-failed [] failed = refl
  forward_from-failed (g ∷ fs) failed =
      rw (forward_from, failed.0) (forward_from-failed fs failed.1)

  -- Where the network of the client has no address for the query, the reply is the record of the
  -- first forwarder that answers, the ones before it having failed.
  pub resolve-forwarded :
      (before after : List F) (f : F) (record_back : R) (client_ip : ℕ) (request : Request)
      (r : DynamicResolver A)
      → host_ip client_ip request r ≡ []
      → All (λ g. ask g ≡ none) before
      → ask f ≡ some record_back
      → resolve ask (before ++ f ∷ after) client_ip request r ≡ forwarded record_back
  resolve-forwarded before after f d client_ip request r nothing failed e =
      unfold resolve in rw nothing (forward_from-answer before after f d failed e)

  -- Where every forwarder fails, the reply holds the addresses that `host_ip` has found, in their
  -- order, and no other answer.
  pub resolve-offline :
      (fs : List F) (client_ip : ℕ) (request : Request) (r : DynamicResolver A)
      → All (λ g. ask g ≡ none) fs
      → resolve ask fs client_ip request r
        ≡ answered (map (rr (lower request.qname)) (host_ip client_ip request r))
  resolve-offline fs client_ip request r failed =
      unfold resolve in
      rw (forward_from-failed fs failed)
        (answer_or-empty (lower request.qname) (host_ip client_ip request r))
