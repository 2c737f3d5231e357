-- ===== src/Rpc/Build.antt =====
-- infra/blockchain/solana.rs: how the client and its provider are built.
use testable_rust_architectu.Base.{String, ◌≡◌, arith}
use testable_rust_architectu.Base.Effects.{Result, ok, err}
use testable_rust_architectu.Domain.Errors.{BlockchainError, network_error}
use testable_rust_architectu.Domain.Items.{Time}
use testable_rust_architectu.Domain.Ports.{TransactionSigner}
use testable_rust_architectu.Rpc.Provider.{
  JsonRpcRequest, HttpOutcome, SolanaRpcProvider, http_provider,
}
use testable_rust_architectu.Rpc.Calls.{RpcClientConfig, rpc_client_config_default}
use testable_rust_architectu.Rpc.Client.{Sdk, RpcBlockchainClient}

-- The libraries under the client: reqwest, which builds a client of HTTP with a timeout that posts
-- requests to a URL, solana-sdk, and the clock of tokio.
pub record Libraries (S : Type 0) : Type 0 where
  pub build_http_client : Time → Result String (String → JsonRpcRequest → S → HttpOutcome × S)
  pub sdk : Sdk
  pub sleep : Time → S → S
  pub instant : S → Time

module _ {S : Type 0} (libraries : Libraries S) where
  -- `HttpSolanaRpcProvider::new`.
  unfoldable pub provider_new : String → Time → Result BlockchainError (SolanaRpcProvider S)
  provider_new rpc_url timeout = elim (libraries.build_http_client timeout) [
    | err m ↦ err (network_error m "")
    | ok post ↦ ok (http_provider (post rpc_url))
  ]

  -- `RpcBlockchainClient::with_provider`.
  abbrev pub with_provider :
      SolanaRpcProvider S → TransactionSigner S → RpcClientConfig → RpcBlockchainClient S
  with_provider provider signer config = record {
    provider = provider;
    signer = signer;
    config = config;
    sdk = libraries.sdk;
    sleep = libraries.sleep;
    instant = libraries.instant;
  }

  -- `RpcBlockchainClient::new`.
  unfoldable pub rpc_client_new :
      String
      → TransactionSigner S
      → RpcClientConfig
      → Result BlockchainError (RpcBlockchainClient S)
  unfolding provider_new
  rpc_client_new rpc_url signer config = elim (provider_new rpc_url config.timeout) [
    | err e ↦ err e
    | ok provider ↦ ok (with_provider provider signer config)
  ]

  -- `RpcBlockchainClient::with_defaults`.
  unfoldable pub rpc_client_with_defaults :
      String → TransactionSigner S → Result BlockchainError (RpcBlockchainClient S)
  rpc_client_with_defaults rpc_url signer = rpc_client_new rpc_url signer rpc_client_config_default

  -- A client that was built has the signer and the configuration that it was given.
  pub rpc_client_new-keeps :
      (rpc_url : String) (signer : TransactionSigner S) (config : RpcClientConfig)
      (client : RpcBlockchainClient S)
      → rpc_client_new rpc_url signer config ≡ ok client
      → (client.signer ≡ signer) × (client.config ≡ config)
  unfolding rpc_client_new provider_new
  rpc_client_new-keeps rpc_url signer config client h = ground arith
