-- ===== src/Rpc/Logs.antt =====
-- infra/blockchain/solana.rs: the requests that the node has got, as a log.
use mathlib.Core.List.{append_assoc}
use testable_rust_architectu.Base.{
  All-implies, ℕ, String, ◌≡◌, refl, sym, ap, ◌∙◌, some, List, [], ◌∷◌, ◌++◌, All,
}
use testable_rust_architectu.Base.Effects.{Result, ok, err}
use testable_rust_architectu.Domain.Errors.{BlockchainError}
use testable_rust_architectu.Domain.Items.{Time}
use testable_rust_architectu.Rpc.Client.{RpcBlockchainClient, call}
use testable_rust_architectu.Rpc.Calls.{decoded, retry_loop, rpc_call}
use testable_rust_architectu.Rpc.Costs.{IsCost}
use testable_rust_architectu.Rpc.Spending.{call-Costs, retry_loop-Costs}

-- A method and its parameters.
abbrev pub Sent : Type 0
Sent = String × String

-- Each request is logged, and sleeping and signing log nothing.
pub record IsLogged {S : Type 0} (client : RpcBlockchainClient S) (log : S → List Sent)
    : Type 0 where
  pub asks :
      (method params : String) (s : S)
      → log (client.provider.send_request method params s).1 ≡ (method, params) ∷ log s
  pub sleeps : (t : Time) (s : S) → log (client.sleep t s) ≡ log s
  pub signs : (m : String) (s : S) → log (client.signer.sign_message m s).1 ≡ log s

-- Between two states, only requests of one kind were sent.
abbrev pub SendsOnly : {S : Type 0} → (S → List Sent) → (Sent → Type 0) → S → S → Type 0
SendsOnly log P s t = (new : List Sent) × (log t ≡ new ++ log s) × All P new

-- The latest request is of one kind.
abbrev pub Latest : {S : Type 0} → (S → List Sent) → (Sent → Type 0) → S → Type 0
Latest log P t = (r : Sent) × (rest : List Sent) × (log t ≡ r ∷ rest) × P r

All-append : (P : Sent → Type 0) (xs ys : List Sent) → All P xs → All P ys → All P (xs ++ ys)
All-append P [] ys h k = k
All-append P (x ∷ xs) ys (h, t) k = (h, All-append P xs ys t k)

pub only :
    {S : Type 0} (log : S → List Sent) (P : Sent → Type 0) → IsCost (λ n s t. SendsOnly log P s t)
only log P = record {
  free = λ s. ([], refl, tt);
  both = λ s t u (xs, e, h) (ys, e', k). (
    ys ++ xs,
    e' ∙ ap (λ l. ys ++ l) e ∙ sym (append_assoc ys xs (log s)),
    All-append P ys xs k h,
  );
  weaker = λ s t fits h. h;
}

module _ {S : Type 0} (log : S → List Sent) where
  abbrev pub Only : (Sent → Type 0) → ℕ → S → S → Type 0
  Only P n s t = SendsOnly log P s t

  pub silent : (P : Sent → Type 0) (s t : S) → log t ≡ log s → SendsOnly log P s t
  silent P s t e = ([], e, tt)

  pub widened :
      (P Q : Sent → Type 0) {s t : S}
      → ((r : Sent) → P r → Q r)
      → SendsOnly log P s t
      → SendsOnly log Q s t
  widened P Q fits (new, e, h) = (new, e, All-implies P Q new fits h)

  latest : (q : Sent) → IsCost (λ n s t. Latest log (λ r. r ≡ q) s → Latest log (λ r. r ≡ q) t)
  latest q = record { free = λ s h. h; both = λ s t u f g h. g (f h); weaker = λ s t fits h. h }

module _ {S : Type 0} (client : RpcBlockchainClient S) (log : S → List Sent)
    (logged : IsLogged client log) where
  pub called :
      {A : Type 0} (P : Sent → Type 0) (decode : String → Result String A) (method params : String)
      → P (method, params)
      → (s : S) → SendsOnly log P s (call client decode method params s).1
  called P decode method params fits s =
      call-Costs {R = Only log P} (only log P) client (λ t s. silent log P s _ (logged.sleeps t s))
        method params (λ s. ((method, params) ∷ [], logged.asks method params s, (fits, tt))) decode
        s

  pub call-Latest :
      {A : Type 0} (decode : String → Result String A) (method params : String) (s : S)
      → Latest log (λ r. r ≡ (method, params)) (call client decode method params s).1
  unfolding rpc_call
  call-Latest {A = A} decode method params s =
      let q : Sent = (method, params) in
      let (r, s') = client.provider.send_request method params s in
      let asked : Latest log (λ r. r ≡ q) s' = (q, log s, logged.asks method params s, refl) in
      answered r s' asked
    where
      answered :
          (r : Result BlockchainError String) (s' : S)
          → Latest log (λ r. r ≡ (method, params)) s'
          → Latest log
              (λ r. r ≡ (method, params))
              (elim r as (λ x. Result BlockchainError A × S) [
                | ok v ↦ (decoded client.provider client.sleep decode v, s')
                | err e ↦
                    retry_loop client.provider client.sleep decode client.config
                      client.config.max_retries method params
                      (some e)
                      s'
              ]).1
      answered (ok v) s' h = h
      answered (err e) s' h =
          retry_loop-Costs
            {R = λ n s t.
              Latest log (λ r. r ≡ (method, params)) s → Latest log (λ r. r ≡ (method, params)) t}
            (latest log (method, params)) client
            (λ t s (p, rest, l, same). (p, rest, logged.sleeps t s ∙ l, same)) method params
            (λ s h. ((method, params), log s, logged.asks method params s, refl)) decode
            client.config client.config.max_retries (some e) s' h
