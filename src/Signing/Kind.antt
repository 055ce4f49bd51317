-- ===== src/Signing/Kind.antt =====
-- The kinds of message of src/signing/messages.ts, told apart by their text.
use j41_sovagent_sdk.Prelude.{
  ℕ, Option, some, none, str_discrete, ◌===◌, if◌then◌else◌, ◌≡◌, refl, ap, sym, ◌∙◌, List, [], ◌∷◌,
  ◌++◌, Str, codes,
}
use j41_sovagent_sdk.Signing.{
  AcceptMessageParams, DeliverMessageParams, DisputeRespondMessageParams, ReworkAcceptMessageParams,
  DepositReportParams, build_accept_message, build_deliver_message, build_dispute_respond_message,
  build_rework_accept_message, build_complete_message, build_dispute_message,
  build_post_bounty_message, build_apply_bounty_message, build_select_claimants_message,
  build_deposit_report_message,
}
use j41_sovagent_sdk.Signing.Plain.{IsFree, cut}

-- What is signed: a message of one of the kinds.
pub data Message : Type 0 where
  accept : AcceptMessageParams → Message
  deliver : DeliverMessageParams → Message
  dispute_respond : DisputeRespondMessageParams → Message
  rework_accept : ReworkAcceptMessageParams → Message
  complete : (job_hash : Str) (timestamp : ℕ) → Message
  dispute : (job_hash reason : Str) (timestamp : ℕ) → Message
  post_bounty : (title : Str) (amount : ℕ) (currency : Str) (timestamp : ℕ) → Message
  apply_bounty : (bounty_id : Str) (timestamp : ℕ) → Message
  select_claimants : (bounty_id : Str) (applicant_ids : List Str) (timestamp : ℕ) → Message
  deposit_report : DepositReportParams → Message

pub data Kind : Type 0 where
  accepts delivers responds reworks completes disputes posts applies selects reports : Kind

abbrev pub kind : Message → Kind
kind (accept p) = accepts
kind (deliver p) = delivers
kind (dispute_respond p) = responds
kind (rework_accept p) = reworks
kind (complete h t) = completes
kind (dispute h r t) = disputes
kind (post_bounty h a c t) = posts
kind (apply_bounty h t) = applies
kind (select_claimants h s t) = selects
kind (deposit_report p) = reports

abbrev heading : Kind → Str
heading accepts = codes "J41-ACCEPT"
heading delivers = codes "J41-DELIVER"
heading responds = codes "J41-DISPUTE-RESPOND"
heading reworks = codes "J41-REWORK-ACCEPT"
heading completes = codes "J41-COMPLETE"
heading disputes = codes "J41-DISPUTE"
heading posts = codes "J41-BOUNTY"
heading applies = codes "J41-BOUNTY-APPLY"
heading selects = codes "J41-BOUNTY-SELECT"
heading reports = codes "J41-DEPOSIT-REPORT"

heading-IsFree : (k : Kind) → IsFree b'|' (heading k)
heading-IsFree accepts = refl
heading-IsFree delivers = refl
heading-IsFree responds = refl
heading-IsFree reworks = refl
heading-IsFree completes = refl
heading-IsFree disputes = refl
heading-IsFree posts = refl
heading-IsFree applies = refl
heading-IsFree selects = refl
heading-IsFree reports = refl

-- A heading, read.
kind_of : List Kind → Str → Option Kind
kind_of [] s = none
kind_of (k ∷ ks) s = if s === heading k then some k else kind_of ks s

abbrev kinds : List Kind
kinds =
    accepts ∷ delivers ∷ responds ∷ reworks ∷ completes ∷ disputes ∷ posts ∷ applies ∷ selects
    ∷ reports ∷ []

kind_of-heading : (k : Kind) → kind_of kinds (heading k) ≡ some k
unfolding kind_of str_discrete
kind_of-heading accepts = refl
kind_of-heading delivers = refl
kind_of-heading responds = refl
kind_of-heading reworks = refl
kind_of-heading completes = refl
kind_of-heading disputes = refl
kind_of-heading posts = refl
kind_of-heading applies = refl
kind_of-heading selects = refl
kind_of-heading reports = refl

some_inj : {a b : Kind} → some a ≡ some b → a ≡ b
some_inj h = cc

module _ (show : ℕ → Str) where
  abbrev pub text : Message → Str
  text (accept p) = build_accept_message show p
  text (deliver p) = build_deliver_message show p
  text (dispute_respond p) = build_dispute_respond_message show p
  text (rework_accept p) = build_rework_accept_message show p
  text (complete h t) = build_complete_message show h t
  text (dispute h r t) = build_dispute_message show h r t
  text (post_bounty h a c t) = build_post_bounty_message show h a c t
  text (apply_bounty h t) = build_apply_bounty_message show h t
  text (select_claimants h s t) = build_select_claimants_message show h s t
  text (deposit_report p) = build_deposit_report_message show p

  text-heading : (m : Message) → (rest : Str) × (text m ≡ heading (kind m) ++ b'|' ∷ rest)
  unfolding build_accept_message build_deliver_message build_dispute_respond_message
      build_rework_accept_message build_complete_message build_dispute_message
      build_post_bounty_message build_apply_bounty_message build_select_claimants_message
      build_deposit_report_message
  text-heading (accept p) = (_, refl)
  text-heading (deliver p) = (_, refl)
  text-heading (dispute_respond p) = (_, refl)
  text-heading (rework_accept p) = (_, refl)
  text-heading (complete h t) = (_, refl)
  text-heading (dispute h r t) = (_, refl)
  text-heading (post_bounty h a c t) = (_, refl)
  text-heading (apply_bounty h t) = (_, refl)
  text-heading (select_claimants h s t) = (_, refl)
  text-heading (deposit_report p) = (_, refl)

  -- Two messages with the same text are of the same kind, whatever texts are in their fields.
  pub text-kind : (m n : Message) → text m ≡ text n → kind m ≡ kind n
  text-kind m n h =
      let (s, p) = text-heading m in
      let (t, q) = text-heading n in
      let same =
        cut b'|' (heading (kind m)) (heading (kind n)) (heading-IsFree (kind m))
          (heading-IsFree (kind n)) (sym p ∙ (h ∙ q)) in
      some_inj
        (sym (kind_of-heading (kind m)) ∙ (ap (kind_of kinds) same.0 ∙ kind_of-heading (kind n)))
