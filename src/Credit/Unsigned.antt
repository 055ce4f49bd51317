-- ===== src/Credit/Unsigned.antt =====
-- src/buyer/credit-watcher.ts, the branch where `signer.signMessage` throws after `sendVrsc` has
-- paid: it neither records the spend nor arms the debounce.
use j41_sovagent_sdk.Prelude.{ℕ, zero, suc, ◌≡◌, ◌/◌, true, false, List, [], ◌∷◌, Str}
use j41_sovagent_sdk.Prelude.Int.{pos}
use j41_sovagent_sdk.Credit.{
  Reading, finite, Config, sending, Watcher, resolved, rejected, Event, observed, send_settled,
  sign_settled, after_send, after_sign,
}

-- `k` rounds at one moment: a low reading, a payment that succeeds, a signer that fails.
abbrev pub unsigned_rounds : ℕ → ℕ → ℕ → List (ℕ × Event)
unsigned_rounds zero now low = []
unsigned_rounds (suc k) now low =
    (now, observed (finite (pos low)))
    ∷ (now, send_settled (resolved []) [])
    ∷ (now, sign_settled (rejected []))
    ∷ unsigned_rounds k now low

abbrev IsIdle : Watcher → Type 0
IsIdle w = (w.pending ≡ false) × (w.last_top_up_at ≡ 0) × (w.spends ≡ [])

module _ (show : ℕ → Str) (parse_float : Str → Reading) (c : Config) where
  after_round : ℕ → Watcher → Watcher
  unfolding after_send after_sign
  after_round now w =
      (after_sign show parse_float c now
        (record {
          buyer_verus_id = c.seller.buyer_verus_id;
          seller_verus_id = c.seller.seller_verus_id;
          txid = [];
          amount = c.policy.top_up_amount;
          nonce = [];
          timestamp = now / 1000;
        })
        (rejected [])
        (after_send show parse_float c now now (resolved []) []
          (record w { pending = true; flight = sending now })).0).0
