-- ===== src/Access/Request.antt =====
-- `verifyAccessRequest` of src/crypto/envelope.ts and the store of seen nonces.
use mathlib.Core.List.{Mem}
use j41_sovagent_sdk.Prelude.{ℕ, ◌+◌, ◌≤◌, ◌≡◌, Bool, true, some, Str}
use j41_sovagent_sdk.Access.{
  AccessRequest, VerifyOptions, Resolver, buyer_addresses, request_message,
}

-- One of the buyer's addresses signed the request, and its time is within the allowed age of the
-- present on both sides.
pub record IsSigned (show : ℕ → Str) (verify : Str → Str → Str → Bool) (r : AccessRequest)
    (resolver : Resolver) (o : VerifyOptions) : Type 0 where
  pub address : Str
  pub known : Mem address (buyer_addresses r.buyer_verus_id resolver)
  pub signed : verify (request_message show r) address r.buyer_signature ≡ true
  pub issued : ℕ
  pub stamped : r.timestamp ≡ some issued
  pub recent : o.now ≤ issued + o.max_age_seconds
  pub begun : issued ≤ o.now + o.max_age_seconds
