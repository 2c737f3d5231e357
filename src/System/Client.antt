-- ===== src/System/Client.antt =====
-- infra/blockchain/solana.rs as the client of the whole service.
use testable_rust_architectu.Base.{String, ◌≡◌, refl, ◌∙◌}
use testable_rust_architectu.Domain.Items.{Time}
use testable_rust_architectu.World.{World}
use testable_rust_architectu.Rpc.Client.{RpcBlockchainClient, blockchain_client}
use testable_rust_architectu.Rpc.Costs.{IsCost}
use testable_rust_architectu.Rpc.Spending.{submit-Costs, health-Costs}
use testable_rust_architectu.System.Handlers.{IsQuiet}

keeping : IsCost (λ n (w w' : World). w'.tables ≡ w.tables)
keeping = record { free = λ w. refl; both = λ s t u h k. k ∙ h; weaker = λ s t fits h. h }

-- The client leaves the tables alone when it submits and when its health is checked, if its
-- requests, sleeps and signatures do.
pub rpc_client-IsQuiet :
    (client : RpcBlockchainClient World)
    (asks : (method params : String) (w : World)
      → (client.provider.send_request method params w).1.tables ≡ w.tables)
    (sleeps : (t : Time) (w : World) → (client.sleep t w).tables ≡ w.tables)
    (signs : (m : String) (w : World) → (client.signer.sign_message m w).1.tables ≡ w.tables)
    → IsQuiet (blockchain_client client)
rpc_client-IsQuiet client asks sleeps signs = record {
  submits = λ memo existing w. submit-Costs keeping client asks sleeps signs memo existing w;
  checks = λ w. health-Costs keeping client asks sleeps signs w;
}
