-- ===== src/Wallet/NoDoubleSpend.antt =====
-- Over any history of sends of src/agent.ts no output is handed to the platform as an input twice.
use mathlib.Core.List.{Nodup, Nodup-nil, append_assoc, append-nil}
use mathlib.Core.Path.{subst}
use j41_sovagent_sdk.Prelude.{
  evict, evict_small, ℕ, ◌≤◌, ◌≡◌, refl, sym, ap, Bool, true, false, if◌then◌else◌, ◌∙◌, List, [],
  ◌∷◌, ◌++◌, arith, length, length-append, filter, Str, Option, none, some, Bool-cases,
  Option-cases, inl, inr,
}
use j41_sovagent_sdk.Payment.{
  Coins, Utxo, Transaction, PaymentResult, Result, ok, err, build_payment, default_fee,
  PaymentOutput,
}
use j41_sovagent_sdk.Payment.Inputs.{Drawn, build_payment-Drawn, build_multi_payment-Drawn}
use j41_sovagent_sdk.Wallet.{
  Wallet, SendError, failed, build_failed, add_all, empty, Attempt, Platform, Sender,
  CurrencyRequest, keys, merge_utxos, choose_source, choose_change, same_address, resolve,
  merge_utxos, still_pending, wallet_empty, is_empty, is_self, refuse, compute_expiry_height,
  default_tx_expiry_delta, wallet_empty, no_source, foreign_change, chain_info_failed, no_wif,
  login_failed, untrusted_resolution, utxos_failed, conclude, finish, send_from, send_currency,
  send_multi_payment, Send, currency, multi, attempt, input_keys, run_sends, max_spent_utxos,
  positive,
}
use j41_sovagent_sdk.Wallet.Fresh.{add_all_new, unspent-Nodup_spent, Nodup-filter, Nodup-part}

module _ (coins : Coins) (id_of : Transaction → Str) (show : ℕ → Str)
    (is_i_address : Str → Bool) where
  -- What a call adds to the marks is what it handed over, and none of that was marked before.
  record Marks (old : List Str) (a : Attempt) : Type 0 where
    fresh : Nodup (old ++ input_keys coins id_of show is_i_address a.1)
    marked :
        length (old ++ input_keys coins id_of show is_i_address a.1) ≤ max_spent_utxos
        → a.0.spent ≡ old ++ input_keys coins id_of show is_i_address a.1

  refuse-Marks : (w : Wallet) (e : SendError) → Nodup w.spent → Marks w.spent (w, none, failed e)
  refuse-Marks w e d = record {
    fresh = rw (append-nil w.spent) d;
    marked = λ _. sym (append-nil w.spent);
  }

  mark_all :
      (bound : Bool) (max : ℕ) (old ks : List Str)
      → Nodup (old ++ ks)
      → length (old ++ ks) ≤ max
      → (if bound then evict max (add_all ks old) else add_all ks old) ≡ old ++ ks
  mark_all true max old ks d h = rw (add_all_new ks old d) (evict_small max (old ++ ks) h)
  mark_all false max old ks d h = add_all_new ks old d

  conclude-Marks :
      (bound : Bool) (us : List Utxo) (built : PaymentResult) (broadcast : Option Str) (w : Wallet)
      → Drawn us built
      → Nodup (w.spent ++ keys show us)
      → Marks w.spent (conclude coins id_of show is_i_address bound built broadcast w)
  unfolding conclude
  conclude-Marks bound us built broadcast w drawn d =
      let part = Nodup-part show w.spent built.transaction.inputs drawn.rest us drawn.part d in
      let ks = keys show built.transaction.inputs in
      go broadcast part (λ h. rw (drawn.spent) (mark_all bound max_spent_utxos w.spent ks part h))
    where
      go :
          (b : Option Str)
          → Nodup (w.spent ++ keys show built.transaction.inputs)
          → (length (w.spent ++ keys show built.transaction.inputs) ≤ max_spent_utxos
              → (if bound
                  then evict max_spent_utxos (add_all (keys show built.spent_utxos) w.spent)
                  else add_all (keys show built.spent_utxos) w.spent)
                ≡ w.spent ++ keys show built.transaction.inputs)
          → Marks w.spent (conclude coins id_of show is_i_address bound built b w)
      go none f m = record { fresh = f; marked = m }
      go (some txid) f m = record { fresh = f; marked = m }

  finish-Marks :
      (bound : Bool) (us : List Utxo) (built : Result PaymentResult) (p : Platform) (w : Wallet)
      → ((r : PaymentResult) → built ≡ ok r → Drawn us r)
      → Nodup w.spent
      → Nodup (w.spent ++ keys show us)
      → Marks w.spent (finish coins id_of show is_i_address bound built p w)
  finish-Marks bound us (err e) p w drawn d0 d = refuse-Marks w (build_failed e) d0
  finish-Marks bound us (ok r) p w drawn d0 d =
      conclude-Marks bound us r p.broadcast w (drawn r refl) d

  send_from-Marks :
      (sender : Sender) (r : CurrencyRequest coins id_of show is_i_address) (p : Platform)
      (to : Str) (merged : List Utxo) (w : Wallet)
      → Nodup w.spent
      → Nodup (w.spent ++ keys show merged)
      → Marks w.spent (send_from coins id_of show is_i_address sender r p to merged w)
  unfolding send_from choose_source
  send_from-Marks sender r p to merged w d0 d = elim (Bool-cases (is_empty merged)) [
    | inl e ↦ rw e (refuse-Marks w wallet_empty d0)
    | inr e1 ↦ elim (Bool-cases (is_empty utxos)) [
      | inl e ↦ rw (e1, e) (refuse-Marks w no_source d0)
      | inr e2 ↦ elim (Bool-cases (is_self sender change)) [
        | inr e ↦ rw (e1, e2, e) (refuse-Marks w (foreign_change change) d0)
        | inl e3 ↦ rw (e1, e2, e3) (go p.chain_info)
      ]
    ]
  ]
    where
      utxos : List Utxo
      utxos = choose_source coins id_of show is_i_address r.source_address merged

      change : Str
      change = choose_change coins id_of show is_i_address sender r.change_address utxos

      chosen :
          (source : Option Str)
          → Nodup (w.spent ++ keys show (choose_source coins id_of show is_i_address source merged))
      chosen none = d
      chosen (some []) = d
      chosen (some (c ∷ cs)) =
          Nodup-filter show w.spent (λ u. same_address (c ∷ cs) u.address) merged d

      go :
          (tip : Option (Option ℕ))
          → Marks w.spent (elim tip [
            | none ↦ refuse coins id_of show is_i_address w chain_info_failed
            | some tip ↦
                finish coins id_of show is_i_address true
                  (build_payment coins id_of to r.amount utxos default_fee change
                    (compute_expiry_height tip default_tx_expiry_delta))
                  p
                  w
          ])
      go none = refuse-Marks w chain_info_failed d0
      go (some tip) =
          finish-Marks true utxos _ p w
            (build_payment-Drawn coins id_of to r.amount utxos default_fee change
              (compute_expiry_height tip default_tx_expiry_delta))
            d0 (chosen r.source_address)

  merged-Nodup :
      (w : Wallet) (api : List Utxo)
      → Nodup w.spent
      → Nodup (w.spent ++ keys show (merge_utxos show w api).1)
  unfolding merge_utxos
  merged-Nodup w api d =
      unspent-Nodup_spent show w.spent []
        (api ++ filter (still_pending show w.spent (keys show api)) w.pending_change) d

  send_currency-Marks :
      (sender : Sender) (r : CurrencyRequest coins id_of show is_i_address) (p : Platform)
      (w : Wallet)
      → Nodup w.spent
      → Marks w.spent (send_currency coins id_of show is_i_address sender r p w)
  unfolding send_currency merge_utxos
  send_currency-Marks sender r p w d = elim (Bool-cases sender.has_wif) [
    | inr e ↦ rw e (refuse-Marks w no_wif d)
    | inl e1 ↦ elim (Bool-cases p.login) [
      | inr e ↦ rw (e1, e) (refuse-Marks w login_failed d)
      | inl e2 ↦ elim (Option-cases (resolve coins id_of show is_i_address sender r p)) [
        | inl e ↦ rw (e1, e2, e) (refuse-Marks w untrusted_resolution d)
        | inr (to, e3) ↦ elim (Option-cases p.utxos) [
          | inl e ↦ rw (e1, e2, e3, e) (refuse-Marks w utxos_failed d)
          | inr (api, e4) ↦
              rw (e1, e2, e3, e4)
                (send_from-Marks sender r p to _ _ d (merged-Nodup w (filter positive api) d))
        ]
      ]
    ]
  ]

  send_multi_payment-Marks :
      (sender : Sender) (outputs : List (PaymentOutput coins)) (p : Platform) (w : Wallet)
      → Nodup w.spent
      → Marks w.spent (send_multi_payment coins id_of show is_i_address sender outputs p w)
  unfolding send_multi_payment merge_utxos
  send_multi_payment-Marks sender outputs p w d = elim (Bool-cases sender.has_wif) [
    | inr e ↦ rw e (refuse-Marks w no_wif d)
    | inl e1 ↦ elim (Bool-cases p.login) [
      | inr e ↦ rw (e1, e) (refuse-Marks w login_failed d)
      | inl e2 ↦ elim (Option-cases p.utxos) [
        | inl e ↦ rw (e1, e2, e) (refuse-Marks w utxos_failed d)
        | inr (api, e3) ↦
            let merged = (merge_utxos show w (filter positive api)).1 in
            let w' = (merge_utxos show w (filter positive api)).0 in
            elim (Bool-cases (is_empty merged)) [
              | inl e ↦ rw (e1, e2, e3, e) (refuse-Marks w' wallet_empty d)
              | inr e4 ↦ elim (Option-cases p.chain_info) [
                | inl e ↦ rw (e1, e2, e3, e4, e) (refuse-Marks w' chain_info_failed d)
                | inr (tip, e5) ↦
                    rw (e1, e2, e3, e4, e5)
                      (finish-Marks false merged _ p w' (build_multi_payment-Drawn coins id_of _) d
                        (merged-Nodup w (filter positive api) d))
              ]
            ]
      ]
    ]
  ]

  attempt-Marks :
      (s : Send coins id_of show is_i_address) (w : Wallet)
      → Nodup w.spent
      → Marks w.spent (attempt coins id_of show is_i_address s w)
  unfolding attempt
  attempt-Marks (currency sender r p) w d = send_currency-Marks sender r p w d
  attempt-Marks (multi sender outputs p) w d = send_multi_payment-Marks sender outputs p w d

  run-Nodup :
      (ss : List (Send coins id_of show is_i_address)) (w : Wallet)
      → Nodup w.spent
      → length (w.spent ++ (run_sends coins id_of show is_i_address ss w).1) ≤ max_spent_utxos
      → Nodup (w.spent ++ (run_sends coins id_of show is_i_address ss w).1)
  unfolding run_sends
  run-Nodup [] w d h = rw (append-nil w.spent) d
  run-Nodup (s ∷ ss) w d h =
      let a = attempt coins id_of show is_i_address s w in
      let used = input_keys coins id_of show is_i_address a.1 in
      let more = (run_sends coins id_of show is_i_address ss a.0).1 in
      let m = attempt-Marks s w d in
      let shifted = append_assoc w.spent used more in
      let e : a.0.spent ≡ w.spent ++ used =
        m.marked (omega (arith, h, ap length shifted, length-append (w.spent ++ used) more)) in
      let joined : a.0.spent ++ more ≡ w.spent ++ (used ++ more) =
        ap (λ xs. xs ++ more) e ∙ shifted in
      subst Nodup joined (
        run-Nodup ss a.0 (subst Nodup (sym e) m.fresh)
          (subst (λ xs. length xs ≤ max_spent_utxos) (sym joined) h))

  -- However many sends run one after another, of either kind and with whatever answers, the inputs of
  -- all the transactions handed to the platform are distinct outputs. The condition is that there are
  -- at most as many of them as the wallet remembers.
  pub run_sends-Nodup :
      (ss : List (Send coins id_of show is_i_address))
      → length (run_sends coins id_of show is_i_address ss empty).1 ≤ max_spent_utxos
      → Nodup (run_sends coins id_of show is_i_address ss empty).1
  run_sends-Nodup ss h = run-Nodup ss empty Nodup-nil h
