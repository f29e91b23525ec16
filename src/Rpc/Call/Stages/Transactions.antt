-- ===== src/Rpc/Call/Stages/Transactions.antt =====
-- The stages of the commands that send a transaction.
use mile_csa_jsonrpc_client.Base.{◌≡◌, none}
use mile_csa_jsonrpc_client.Rpc.Env.{Env}
use mile_csa_jsonrpc_client.Rpc.World.{World}
use mile_csa_jsonrpc_client.Rpc.Transaction.{get_private, get_asset, generate_trx_id}
use mile_csa_jsonrpc_client.Rpc.Transaction.{
  send_transfer, send_emission, register_node, unregister_node,
}
use mile_csa_jsonrpc_client.Rpc.Transaction.{vote_for_rate, text_at, float_at, description_of}
use mile_csa_jsonrpc_client.Rpc.Call.{Method}
use mile_csa_jsonrpc_client.Rpc.Ends.{Stays, step-Ends, lift-Ends}
use mile_csa_jsonrpc_client.Rpc.Ends.Parts.{text_at-Stays, float_at-Stays}
use mile_csa_jsonrpc_client.Rpc.Ends.Parts.{description_of-Stays, get_private-Stays}
use mile_csa_jsonrpc_client.Rpc.Ends.Parts.{get_asset-Stays}
use mile_csa_jsonrpc_client.Rpc.Call.Stages.{
  Stages, query_of, quiet, guarded, optional, block_then, drawn-Stays,
}

module _ (E : Env) (m : Method) (st : Stages E m) where
  open st use {
    before, between, after, before_Stable, between_Stable, after_Stable, before_after,
    between_after,
  }

  pub send_transfer-Stays :
      (params : E.Json) (w : World E)
      → query_of m ≡ none
      → before w
      → Stays after (send_transfer E params w)
  unfolding send_transfer generate_trx_id
  send_transfer-Stays params w q h = guarded E m st (E.has "to" params) _ _ _ w h (
      quiet E m st (get_private E params w) (get_private-Stays E before before_Stable params w h)
        λ ppk w1 h1. optional E m st ppk _ w1 h1 λ pair.
          guarded E m st (E.has "amount" params) _ _ _ w1 h1 (
            quiet E m st (float_at E "amount" params w1)
              (float_at-Stays E before before_Stable "amount" params w1 h1)
              λ amount w2 h2.
                quiet E m st (get_asset E params w2)
                  (get_asset-Stays E before before_Stable params w2 h2)
                  λ asset w3 h3. optional E m st asset _ w3 h3 λ token.
                    quiet E m st (description_of E (E.has "description" params) params w3)
                      (description_of-Stays E before before_Stable (E.has "description" params)
                        params w3 h3)
                      λ description w4 h4. block_then E m st w4 q h4 λ id w5 h5.
                        step-Ends (text_at E "to" params w5) (between_after q)
                          (text_at-Stays E between between_Stable "to" params w5 h5)
                          λ to w6 h6. drawn-Stays E m st _ w6 q h6))

  pub send_emission-Stays :
      (params : E.Json) (w : World E)
      → query_of m ≡ none
      → before w
      → Stays after (send_emission E params w)
  unfolding send_emission generate_trx_id
  send_emission-Stays params w q h =
      quiet E m st (get_private E params w) (get_private-Stays E before before_Stable params w h)
        λ ppk w1 h1. optional E m st ppk _ w1 h1 λ pair.
          quiet E m st (get_asset E params w1) (get_asset-Stays E before before_Stable params w1 h1)
            λ asset w2 h2.
              optional E m st asset _ w2 h2
                λ token. block_then E m st w2 q h2 λ id w3 h3. drawn-Stays E m st _ w3 q h3

  pub register_node-Stays :
      (params : E.Json) (w : World E)
      → query_of m ≡ none
      → before w
      → Stays after (register_node E params w)
  unfolding register_node generate_trx_id
  register_node-Stays params w q h =
      quiet E m st (get_private E params w) (get_private-Stays E before before_Stable params w h)
        λ ppk w1 h1. optional E m st ppk _ w1 h1 λ pair.
          guarded E m st (E.has "amount" params) _ _ _ w1 h1 (
            quiet E m st (float_at E "amount" params w1)
              (float_at-Stays E before before_Stable "amount" params w1 h1)
              λ amount w2 h2. guarded E m st (E.has "address" params) _ _ _ w2 h2 (
                lift-Ends (E.index_const "address" params) _ (before_after w2 h2) λ address.
                  block_then E m st w2 q h2 λ id w3 h3.
                    lift-Ends (E.as_text address) _ (between_after q w3 h3)
                      λ address'. drawn-Stays E m st _ w3 q h3))

  pub unregister_node-Stays :
      (params : E.Json) (w : World E)
      → query_of m ≡ none
      → before w
      → Stays after (unregister_node E params w)
  unfolding unregister_node generate_trx_id
  unregister_node-Stays params w q h =
      quiet E m st (get_private E params w) (get_private-Stays E before before_Stable params w h)
        λ ppk w1 h1.
          optional E m st ppk _ w1 h1
            λ pair. block_then E m st w1 q h1 λ id w2 h2. drawn-Stays E m st _ w2 q h2

  pub vote_for_rate-Stays :
      (params : E.Json) (w : World E)
      → query_of m ≡ none
      → before w
      → Stays after (vote_for_rate E params w)
  unfolding vote_for_rate generate_trx_id
  vote_for_rate-Stays params w q h =
      quiet E m st (get_private E params w) (get_private-Stays E before before_Stable params w h)
        λ ppk w1 h1. optional E m st ppk _ w1 h1 λ pair.
          guarded E m st (E.has "amount" params) _ _ _ w1 h1 (
            quiet E m st (float_at E "amount" params w1)
              (float_at-Stays E before before_Stable "amount" params w1 h1)
              λ amount w2 h2. block_then E m st w2 q h2 λ id w3 h3. drawn-Stays E m st _ w3 q h3)
