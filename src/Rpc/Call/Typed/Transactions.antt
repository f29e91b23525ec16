-- ===== src/Rpc/Call/Typed/Transactions.antt =====
-- What the commands that send a transaction return.
use mile_csa_jsonrpc_client.Base.{ℕ, ◌≡◌, refl, true, Option, none, some, List}
use mile_csa_jsonrpc_client.Effects.{M, Report, continue_with}
use mile_csa_jsonrpc_client.Rpc.Env.{Env}
use mile_csa_jsonrpc_client.Rpc.World.{World, log_reports}
use mile_csa_jsonrpc_client.Rpc.Client.{send_transaction}
use mile_csa_jsonrpc_client.Rpc.Transaction.{no_value}
use mile_csa_jsonrpc_client.Rpc.Transaction.{
  text_at, float_at, generate_trx_id, get_private, get_asset,
}
use mile_csa_jsonrpc_client.Rpc.Transaction.{
  submit, current_block_id, description_of, send_transfer, send_emission, register_node,
  unregister_node, vote_for_rate,
}
use mile_csa_jsonrpc_client.Rpc.Call.{Method}
use mile_csa_jsonrpc_client.Rpc.Call.Typed.{
  Typed, allowed, answers, requires, Typed-pure, Typed-step, response-allowed, guarded, optional,
}

module _ (E : Env) (m : Method) where
  submit-Typed :
      (p : Option (Option E.Json) × List Report) (w : World E)
      → answers m ≡ true
      → Typed m (submit E p w)
  unfolding submit allowed
  submit-Typed (none, rs) w h = record { typed = tt }
  submit-Typed (some none, rs) w h = Typed-pure no_value _ refl
  submit-Typed (some (some body), rs) w h =
      Typed-step (E.dump body, record w { log = log_reports rs w.log })
        λ d w1.
          Typed-step (send_transaction E body w1) λ r w2. Typed-pure _ w2 (response-allowed E m r h)

  -- The block id, the transaction's id, and the transaction.
  signed-Typed :
      {B : Type 0} (q : M (World E) B)
      (prepared : E.BlockId → B → ℕ → Option (Option E.Json) × List Report) (w : World E)
      → answers m ≡ true
      → Typed m (
          continue_with
            (λ id. λ w1.
              continue_with
                (λ b.
                  λ w2. continue_with (λ trx. submit E (prepared id b trx)) (generate_trx_id E w2))
                (q w1))
            (current_block_id E w))
  signed-Typed q prepared w h = Typed-step (current_block_id E w) λ id w1.
      Typed-step (q w1) λ b w2. Typed-step (generate_trx_id E w2) λ trx w3. submit-Typed _ w3 h

  pub send_transfer-Typed :
      (params : E.Json) (w : World E)
      → requires m ≡ true
      → answers m ≡ true
      → Typed m (send_transfer E params w)
  unfolding send_transfer
  send_transfer-Typed params w q h = guarded E m (E.has "to" params) _ _ w q (
      Typed-step (get_private E params w) λ ppk w1. optional E m ppk _ w1 q λ pair.
        guarded E m (E.has "amount" params) _ _ w1 q (
          Typed-step (float_at E "amount" params w1) λ amount w2.
            Typed-step (get_asset E params w2) λ asset w3. optional E m asset _ w3 q λ token.
              Typed-step (description_of E (E.has "description" params) params w3) λ d w4.
                signed-Typed (text_at E "to" params)
                  (λ id to trx. E.transfer_request pair to id trx token amount E.zero d) w4 h))

  pub send_emission-Typed :
      (params : E.Json) (w : World E)
      → requires m ≡ true
      → answers m ≡ true
      → Typed m (send_emission E params w)
  unfolding send_emission
  send_emission-Typed params w q h = Typed-step (get_private E params w) λ ppk w1.
      optional E m ppk _ w1 q λ pair. Typed-step (get_asset E params w1) λ asset w2.
        optional E m asset _ w2 q λ token.
          Typed-step (current_block_id E w2)
            λ id w3. Typed-step (generate_trx_id E w3) λ trx w4. submit-Typed _ w4 h

  pub register_node-Typed :
      (params : E.Json) (w : World E)
      → requires m ≡ true
      → answers m ≡ true
      → Typed m (register_node E params w)
  unfolding register_node
  register_node-Typed params w q h = Typed-step (get_private E params w) λ ppk w1.
      optional E m ppk _ w1 q λ pair. guarded E m (E.has "amount" params) _ _ w1 q (
        Typed-step (float_at E "amount" params w1) λ amount w2.
          guarded E m (E.has "address" params) _ _ w2 q (
            Typed-step (E.index_const "address" params, w2)
              λ address w3.
                signed-Typed (λ w. (E.as_text address, w))
                  (λ id a trx. E.register_request pair a id trx amount E.zero) w3 h))

  pub unregister_node-Typed :
      (params : E.Json) (w : World E)
      → requires m ≡ true
      → answers m ≡ true
      → Typed m (unregister_node E params w)
  unfolding unregister_node
  unregister_node-Typed params w q h = Typed-step (get_private E params w) λ ppk w1.
      optional E m ppk _ w1 q λ pair.
        Typed-step (current_block_id E w1)
          λ id w2. Typed-step (generate_trx_id E w2) λ trx w3. submit-Typed _ w3 h

  pub vote_for_rate-Typed :
      (params : E.Json) (w : World E)
      → requires m ≡ true
      → answers m ≡ true
      → Typed m (vote_for_rate E params w)
  unfolding vote_for_rate
  vote_for_rate-Typed params w q h = Typed-step (get_private E params w) λ ppk w1.
      optional E m ppk _ w1 q λ pair. guarded E m (E.has "amount" params) _ _ w1 q (
        Typed-step (float_at E "amount" params w1) λ amount w2.
          Typed-step (current_block_id E w2)
            λ id w3. Typed-step (generate_trx_id E w3) λ trx w4. submit-Typed _ w4 h)
