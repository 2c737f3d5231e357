-- ===== src/Setup/Start.antt =====
-- src/main.rs: what a start that succeeds has found, and the key that it falls back to.
use testable_rust_architectu.Base.{
  ℕ, String, Bool, true, false, str_eq, str_eq_sound, Option, none, some, List, ◌≡◌, refl, sym, ap,
  ◌∙◌, ◌⊎◌, inl, inr, arith, length, if◌then◌else◌, ◌==◌, Bool-cases, Option-cases,
}
use testable_rust_architectu.Base.Effects.{ok, Result-cases, ok_injective, map_err_result}
use testable_rust_architectu.Domain.Ports.{TransactionSigner}
use testable_rust_architectu.Signer.{
  local_signer_new, signing_key_from_secret, key_array, local_sign,
}
use testable_rust_architectu.Rpc.Calls.{rpc_client_config_default}
use testable_rust_architectu.Rpc.Build.{rpc_client_with_defaults, rpc_client_new-keeps}
use testable_rust_architectu.Worker.{WorkerConfig, worker_config_default}
use testable_rust_architectu.Api.Router.{Quota, rate_limit_state_new}
use testable_rust_architectu.Setup.{
  Surroundings, Config, Started, flag, placeholder, issuer_key, load_local, load_signer, from_env,
  start, or_default, limiters, signer_failed,
}

-- No key of its own: none, an empty one, or the placeholder.
abbrev pub IsUnusable : Option String → Type 0
IsUnusable o = (o ≡ none) ⊎ (o ≡ some "") ⊎ (o ≡ some placeholder)

-- A variable with the text "true" or "1".
abbrev pub IsOn : Option String → Type 0
IsOn o = (o ≡ some "true") ⊎ (o ≡ some "1")

text-IsOn : (v : String) → flag false (some v) ≡ true → IsOn (some v)
text-IsOn v h = elim (Bool-cases (str_eq v "true")) [
  | inl e ↦ inl (ap some (str_eq_sound v "true" e))
  | inr e ↦ inr (ap some (str_eq_sound v "1" (ground (arith, e, h))))
]

IsOn-flag : (d : Bool) (o : Option String) → IsOn o → flag d o ≡ true
IsOn-flag d o (inl e) = rw e refl
IsOn-flag d o (inr e) = rw e refl

flag-IsOn :
    (o : Option String) → ((flag false o ≡ true) × IsOn o) ⊎ ((flag false o ≡ false) × ¬ IsOn o)
flag-IsOn o = elim (Bool-cases (flag false o)) [
  | inl e ↦ inl (e, on o e)
  | inr e ↦ inr (e, λ h. let t = IsOn-flag false o h in cc)
]
  where
    on : (o : Option String) → flag false o ≡ true → IsOn o
    on none h = cc
    on (some v) h = text-IsOn v h

flag-IsUnset :
    (o : Option String)
    → ((flag true o ≡ true) × ((o ≡ none) ⊎ IsOn o))
      ⊎ ((flag true o ≡ false) × ¬ ((o ≡ none) ⊎ IsOn o))
flag-IsUnset o = elim (Bool-cases (flag true o)) [
  | inl e ↦ inl (e, on o e)
  | inr e ↦ inr (e, λ h. let t = set o h in cc)
]
  where
    on : (o : Option String) → flag true o ≡ true → (o ≡ none) ⊎ IsOn o
    on none h = inl refl
    on (some v) h = inr (text-IsOn v h)

    set : (o : Option String) → (o ≡ none) ⊎ IsOn o → flag true o ≡ true
    set o (inl e) = rw e refl
    set o (inr h) = IsOn-flag true o h

module _ {S Key Pool : Type 0} (os : Surroundings S Key Pool) where
  unusable-fresh :
      (o : Option String) (s : S)
      → IsUnusable o
      → let (bytes, s') = os.generate s in issuer_key os o s ≡ (os.crypto.bs58_encode bytes, s')
  unfolding issuer_key
  unusable-fresh o s (inl e) = rw e refl
  unusable-fresh o s (inr (inl e)) = rw e refl
  unusable-fresh o s (inr (inr e)) = rw e refl

  -- What the worker does follows its variable, and a worker that is started is enabled.
  abbrev pub IsRunning : Option WorkerConfig → Type 0
  IsRunning worker =
      let asked = os.var "ENABLE_BACKGROUND_WORKER" in
      (((asked ≡ none) ⊎ IsOn asked)
        × ((c : WorkerConfig) × (worker ≡ some c) × (c.enabled ≡ true)))
      ⊎ (¬ ((asked ≡ none) ⊎ IsOn asked) × (worker ≡ none))

  -- Requests are limited exactly if the variable says so.
  abbrev pub IsLimiting : Option (Quota × Quota) → Type 0
  IsLimiting limits =
      let asked = os.var "ENABLE_RATE_LIMITING" in
      (IsOn asked × ((q : Quota × Quota) × (limits ≡ some q))) ⊎ (¬ IsOn asked × (limits ≡ none))

  config_ok :
      (s : S) (c : Config S)
      → (from_env os s).0 ≡ ok c
      → (os.var "DATABASE_URL" ≡ some c.database_url)
        × (os.var "API_AUTH_KEY" ≡ some c.api_auth_key)
        × (c.enable_background_worker ≡ flag true (os.var "ENABLE_BACKGROUND_WORKER"))
        × (c.worker_config.enabled ≡ c.enable_background_worker)
        × (c.enable_rate_limiting ≡ flag false (os.var "ENABLE_RATE_LIMITING"))
  unfolding from_env worker_config_default
  config_ok s c h = ground arith

  started_from :
      (s : S) (c : Config S) (started : Started S)
      → (from_env os s).0 ≡ ok c
      → (start os s).0 ≡ ok started
      → (started.config ≡ c)
        × (started.worker ≡ (if c.enable_background_worker then some c.worker_config else none))
        × (limiters os c ≡ ok started.limits)
        × (rpc_client_with_defaults os.libraries c.blockchain_rpc_url c.signer ≡ ok started.client)
  unfolding start
  started_from s c started x h = ground arith

  limited :
      (c : Config S) (limits : Option (Quota × Quota))
      → c.enable_rate_limiting ≡ flag false (os.var "ENABLE_RATE_LIMITING")
      → limiters os c ≡ ok limits
      → IsLimiting limits
  limited c limits asked h = elim (flag-IsOn (os.var "ENABLE_RATE_LIMITING")) [
    | inr (off, unset) ↦
        let e : c.enable_rate_limiting ≡ false = asked ∙ off in
        inr (unset, sym (ok_injective (sym (rw (e, limiters) refl) ∙ h)))
    | inl (on, set) ↦
        let e : c.enable_rate_limiting ≡ true = asked ∙ on in
        elim (Option-cases (rate_limit_state_new c.rate_limit_config)) [
          | inl n ↦ absurd (ground (arith, e, n, h))
          | inr (q, n) ↦ inl (set, (q, ground (arith, e, n, h)))
        ]
  ]

  abbrev pub fresh_signer : List ℕ → TransactionSigner S
  fresh_signer bytes = record {
    sign_message = local_sign os.crypto (os.crypto.bs58_encode bytes);
    public_key = os.crypto.bs58_encode (os.crypto.verifying_key (os.crypto.from_bytes bytes));
  }

  built :
      (bytes : List ℕ)
      → os.crypto.bs58_decode (os.crypto.bs58_encode bytes) ≡ ok bytes
      → length bytes ≡ 32
      → local_signer_new os.crypto (os.crypto.bs58_encode bytes) ≡ ok (fresh_signer bytes)
  unfolding local_signer_new signing_key_from_secret key_array
  built bytes decodes fresh =
      let sixty_four : (length bytes == 64) ≡ false = ground (arith, fresh) in
      let thirty_two : (length bytes == 32) ≡ true = ground (arith, fresh) in
      rw (decodes, sixty_four, thirty_two, local_signer_new, signing_key_from_secret, key_array)
        refl

  chosen :
      (s : S)
      → os.to_uppercase (or_default "LOCAL" (os.var "SIGNER_TYPE")) ≡ "LOCAL"
      → load_signer os s ≡ load_local os s
  unfolding load_signer
  chosen s local = rw local refl

  -- A process that starts has found the URL of the database and the API key; it runs the worker
  -- exactly if ENABLE_BACKGROUND_WORKER is unset, "true" or "1", and then enabled; and it limits
  -- requests exactly if ENABLE_RATE_LIMITING is "true" or "1". Its client of the chain has the signer
  -- of its configuration, and is configured by default.
  pub start_ok :
      (s : S) (started : Started S)
      → (start os s).0 ≡ ok started
      → (os.var "DATABASE_URL" ≡ some started.config.database_url)
        × (os.var "API_AUTH_KEY" ≡ some started.config.api_auth_key)
        × IsRunning started.worker
        × IsLimiting started.limits
        × (started.client.signer ≡ started.config.signer)
        × (started.client.config ≡ rpc_client_config_default)
  unfolding start
  start_ok s started h = elim (Result-cases (from_env os s).0) [
    | inl (e, x) ↦ absurd (ground (arith, x, h))
    | inr (c, x) ↦
        let (url, key, background, enabled, limiting) = config_ok s c x in
        let (config, worker, limits, client) = started_from s c started x h in
        let (signer, defaults) =
          rpc_client_new-keeps os.libraries c.blockchain_rpc_url c.signer rpc_client_config_default
            started.client client in
        (
          url ∙ ap (λ (k : Config S). some k.database_url) (sym config),
          key ∙ ap (λ (k : Config S). some k.api_auth_key) (sym config),
          elim (flag-IsUnset (os.var "ENABLE_BACKGROUND_WORKER")) [
            | inl (on, asked) ↦
                let e : c.enable_background_worker ≡ true = background ∙ on in
                inl (asked, (c.worker_config, worker ∙ rw e refl, enabled ∙ e))
            | inr (off, asked) ↦
                let e : c.enable_background_worker ≡ false = background ∙ off in
                inr (asked, worker ∙ rw e refl)
          ],
          limited c started.limits limiting limits,
          signer ∙ ap (λ (k : Config S). k.signer) (sym config),
          defaults,
        )
  ]

  -- If a fresh key has 32 bytes and base58 decodes it from its text: with the local signer chosen
  -- and no private key of its own, the process gets a signer for the fresh key.
  pub load_signer-fallback :
      (s : S)
      → os.crypto.bs58_decode (os.crypto.bs58_encode (os.generate s).0) ≡ ok (os.generate s).0
      → length (os.generate s).0 ≡ 32
      → os.to_uppercase (or_default "LOCAL" (os.var "SIGNER_TYPE")) ≡ "LOCAL"
      → IsUnusable (os.var "ISSUER_PRIVATE_KEY")
      → let (bytes, s') = os.generate s in
        (signer : TransactionSigner S) × (load_signer os s ≡ (ok signer, s'))
        × (signer.public_key
            ≡ os.crypto.bs58_encode (os.crypto.verifying_key (os.crypto.from_bytes bytes)))
  unfolding load_local
  load_signer-fallback s decodes fresh local unusable =
      let (bytes, s') = os.generate s in
      let key = unusable-fresh (os.var "ISSUER_PRIVATE_KEY") s unusable in
      let signer = fresh_signer bytes in
      let loaded : load_local os s ≡ (ok signer, s') =
        ap
          (λ (p : String × S). (
            map_err_result (signer_failed "Failed to parse ISSUER_PRIVATE_KEY")
                (local_signer_new os.crypto p.0),
            p.1,
          ))
          key
        ∙ ap (λ r. (map_err_result (signer_failed "Failed to parse ISSUER_PRIVATE_KEY") r, s'))
            (built bytes decodes fresh) in
      (signer, chosen s local ∙ loaded, refl)
