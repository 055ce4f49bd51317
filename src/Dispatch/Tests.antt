-- ===== src/Dispatch/Tests.antt =====
-- Events of the chat server as src/agent.ts handles them.
use j41_sovagent_sdk.Prelude.{
  ◌≡◌, refl, true, false, [], ◌∷◌, none, some, Str, codes, str_discrete, All,
}
use j41_sovagent_sdk.Prelude.Json.{Json}
use j41_sovagent_sdk.Inbox.Single.{Platform}
use j41_sovagent_sdk.Dispatch.{
  Self, Answers, emits, delivers, session_end, delivered, review_came, ends, reviewed,
  message_received, dispatch,
}
use j41_sovagent_sdk.Dispatch.Permitted.{IsPermitted, dispatch-IsPermitted}

abbrev stringify : Json → Str
stringify v = codes "{}"

abbrev self : Self
self = record {
  i_address = some (codes "iAgent");
  identity_name = none;
  has_wif = false;
  has_signer = true;
}

abbrev empty_inbox : Platform
empty_inbox = record {
  item = none;
  identity = none;
  utxos = none;
  height = none;
  build = λ entries expiry. none;
  broadcast = λ tx. none;
  ack = false;
}

abbrev answers : Answers
answers = record {
  status_of = λ job. some (codes "in_progress");
  hook_returns = λ h. true;
  signs = true;
  delivery_taken = true;
  inbox = λ id. empty_inbox;
}

delivered_lem :
    dispatch stringify self false none answers 0 (ends (codes "j"))
    ≡ emits session_end ∷ delivers (codes "j") ∷ emits delivered ∷ []
unfolding str_discrete
delivered_lem = refl

-- A review is left pending in broker mode, and an own message is dropped.
left_pending :
    dispatch stringify self false none answers 0 (reviewed (codes "r")) ≡ emits review_came ∷ []
left_pending = refl

own_message :
    dispatch stringify self true none answers 0 (message_received (codes "j") (codes "iAgent")) ≡ []
unfolding str_discrete
own_message = refl

dispatch-IsPermitted_example :
    All (IsPermitted self answers) (dispatch stringify self false none answers 0 (ends (codes "j")))
dispatch-IsPermitted_example =
    dispatch-IsPermitted self answers stringify false none 0 (ends (codes "j"))
