-- ===== src/Signing.antt =====
-- src/signing/messages.ts: the builders of the canonical messages that are signed.
-- `show` is the text that a template literal makes of a number.
pub mod Plain
pub mod Kind
mod Tests
use j41_sovagent_sdk.Prelude.{ℕ, Str, codes, List, [], ◌∷◌, ◌++◌, take}

pub record AcceptMessageParams : Type 0 where
  pub job_hash : Str
  pub buyer_verus_id : Str
  pub amount : ℕ
  pub currency : Str
  pub timestamp : ℕ

pub record DeliverMessageParams : Type 0 where
  pub job_hash : Str
  pub delivery_hash : Str
  pub timestamp : ℕ

pub data DisputeAction : Type 0 where
  refund rework rejected : DisputeAction

abbrev pub action_text : DisputeAction → Str
action_text refund = codes "refund"
action_text rework = codes "rework"
action_text rejected = codes "rejected"

pub record DisputeRespondMessageParams : Type 0 where
  pub job_hash : Str
  pub action : DisputeAction
  pub timestamp : ℕ

pub record ReworkAcceptMessageParams : Type 0 where
  pub job_hash : Str
  pub timestamp : ℕ

pub record DepositReportParams : Type 0 where
  pub buyer_verus_id : Str
  pub seller_verus_id : Str
  pub txid : Str
  pub amount : ℕ
  pub nonce : Str
  pub timestamp : ℕ

-- `ids.join(',')`
pub join_comma : List Str → Str
join_comma [] = []
join_comma (s ∷ []) = s
join_comma (s ∷ t ∷ ts) = s ++ codes "," ++ join_comma (t ∷ ts)

module _ (show : ℕ → Str) where
  unfoldable pub build_accept_message : AcceptMessageParams → Str
  build_accept_message p =
      codes "J41-ACCEPT|Job:"
      ++ (p.job_hash
          ++ (codes "|Buyer:"
              ++ (p.buyer_verus_id
                  ++ (codes "|Amt:"
                      ++ (show p.amount
                          ++ (codes " "
                              ++ (p.currency
                                  ++ (codes "|Ts:"
                                      ++ (show p.timestamp
                                          ++ codes
                                              "|I accept this job and commit to delivering the work.")))))))))

  unfoldable pub build_deliver_message : DeliverMessageParams → Str
  build_deliver_message p =
      codes "J41-DELIVER|Job:"
      ++ (p.job_hash
          ++ (codes "|Delivery:"
              ++ (p.delivery_hash
                  ++ (codes "|Ts:"
                      ++ (show p.timestamp ++ codes "|I have delivered the work for this job.")))))

  unfoldable pub build_dispute_respond_message : DisputeRespondMessageParams → Str
  build_dispute_respond_message p =
      codes "J41-DISPUTE-RESPOND|Job:"
      ++ (take 16 p.job_hash
          ++ (codes "|Action:" ++ (action_text p.action ++ (codes "|Ts:" ++ show p.timestamp))))

  unfoldable pub build_rework_accept_message : ReworkAcceptMessageParams → Str
  build_rework_accept_message p =
      codes "J41-REWORK-ACCEPT|Job:" ++ (take 16 p.job_hash ++ (codes "|Ts:" ++ show p.timestamp))

  unfoldable pub build_complete_message : Str → ℕ → Str
  build_complete_message job_hash timestamp =
      codes "J41-COMPLETE|Job:"
      ++ (job_hash
          ++ (codes "|Ts:"
              ++ (show timestamp
                  ++ codes "|I confirm the work has been delivered satisfactorily.")))

  unfoldable pub build_dispute_message : Str → Str → ℕ → Str
  build_dispute_message job_hash reason timestamp =
      codes "J41-DISPUTE|Job:"
      ++ (job_hash
          ++ (codes "|Reason:"
              ++ (reason
                  ++ (codes "|Ts:"
                      ++ (show timestamp ++ codes "|I am raising a dispute on this job.")))))

  unfoldable pub build_post_bounty_message : Str → ℕ → Str → ℕ → Str
  build_post_bounty_message title amount currency timestamp =
      codes "J41-BOUNTY|Post:"
      ++ (title
          ++ (codes "|Amount:"
              ++ (show amount
                  ++ (codes "|Currency:"
                      ++ (currency
                          ++ (codes "|Ts:"
                              ++ (show timestamp ++ codes "|I commit to funding this bounty.")))))))

  unfoldable pub build_apply_bounty_message : Str → ℕ → Str
  build_apply_bounty_message bounty_id timestamp =
      codes "J41-BOUNTY-APPLY|Bounty:" ++ (bounty_id ++ (codes "|Ts:" ++ show timestamp))

  unfoldable pub build_select_claimants_message : Str → List Str → ℕ → Str
  unfolding join_comma
  build_select_claimants_message bounty_id applicant_ids timestamp =
      codes "J41-BOUNTY-SELECT|Bounty:"
      ++ (bounty_id
          ++ (codes "|Selected:" ++ (join_comma applicant_ids ++ (codes "|Ts:" ++ show timestamp))))

  unfoldable pub build_deposit_report_message : DepositReportParams → Str
  build_deposit_report_message p =
      codes "J41-DEPOSIT-REPORT|Buyer:"
      ++ (p.buyer_verus_id
          ++ (codes "|Seller:"
              ++ (p.seller_verus_id
                  ++ (codes "|Txid:"
                      ++ (p.txid
                          ++ (codes "|Amt:"
                              ++ (show p.amount
                                  ++ (codes "|Nonce:"
                                      ++ (p.nonce
                                          ++ (codes "|Ts:"
                                              ++ (show p.timestamp
                                                  ++ codes
                                                      "|I attest I sent this deposit and claim its credit.")))))))))))
