-- ===== src/Fork/Client.antt =====
-- The client of the backend of the forked provider: crates/storage/fork/src/lib.rs.
use mathlib.Core.Option
use katana.Base.{
  ℕ, ◌≡◌, refl, sym, ◌∙◌, ◌||◌, arith, ap, Bool, true, false, Option, none, some, List, All,
  if◌then◌else◌,
}
use katana.Storage.Table.Contents.{some-value}
use katana.Fork.Backend.{
  BackendRequest, BackendRequestIdentifier, nonce_id, class_id, class_hash_id, storage_id,
  BackendError, starknet_provider, backend_thread_init, unexpected_receive_result, BackendResponse,
  nonce_response, storage_response, class_hash_at, class_at, Result, ok, err, map_err, Network,
  Delivery, Backend,
}
use katana.Fork.Serves.{Any, Any-map, All-map, FromNetwork, rpc_call}
use katana.Fork.Runs.{Runs, Runs-conserve}

module _ (BlockId Class ProviderError : Type 0) where
  -- The errors of the conversions of classes are numbers.
  pub data BackendClientError : Type 0 where
    failed_send_request failed_receive_result : BackendClientError
    backend_error : BackendError BlockId Class ProviderError → BackendClientError
    class_conversion class_compilation class_hash_computation : ℕ → BackendClientError
    unexpected_response : BackendResponse BlockId Class ProviderError → BackendClientError

  abbrev pub ClientResult : Type 0 → Type 0
  ClientResult A = Result BackendClientError A

module _ {BlockId Class ProviderError : Type 0} where
  -- `ContractNotFound` and `ClassHashNotFound` are told apart from the provider's other errors by two tests.
  module _ (contract_not_found class_hash_not_found : ProviderError → Bool) where
    abbrev pub handle_not_found_err :
        {A : Type 0}
        → Result (BackendError BlockId Class ProviderError) A
        → ClientResult BlockId Class ProviderError (Option A)
    handle_not_found_err (ok value) = ok (some value)
    handle_not_found_err (err (starknet_provider e)) =
        if contract_not_found e
        then ok none
        else if class_hash_not_found e
        then ok none
        else err (backend_error (starknet_provider e))
    handle_not_found_err (err (backend_thread_init e)) = err (backend_error (backend_thread_init e))
    handle_not_found_err (err (unexpected_receive_result e)) =
        err (backend_error (unexpected_receive_result e))

    -- A request that the channel takes or not, and what is received: `none` if the sender is gone.
    abbrev pub receive :
        Bool
        → Option (BackendResponse BlockId Class ProviderError)
        → ClientResult BlockId Class ProviderError (BackendResponse BlockId Class ProviderError)
    receive false answer = err failed_send_request
    receive true none = err failed_receive_result
    receive true (some response) = ok response

    abbrev pub get_nonce :
        ClientResult BlockId Class ProviderError (BackendResponse BlockId Class ProviderError)
        → ClientResult BlockId Class ProviderError (Option ℕ)
    get_nonce (err e) = err e
    get_nonce (ok (nonce_response res)) = handle_not_found_err res
    get_nonce (ok (storage_response res)) = err (unexpected_response (storage_response res))
    get_nonce (ok (class_hash_at res)) = err (unexpected_response (class_hash_at res))
    get_nonce (ok (class_at res)) = err (unexpected_response (class_at res))

    abbrev pub get_storage :
        ClientResult BlockId Class ProviderError (BackendResponse BlockId Class ProviderError)
        → ClientResult BlockId Class ProviderError (Option ℕ)
    get_storage (err e) = err e
    get_storage (ok (storage_response res)) = handle_not_found_err res
    get_storage (ok (nonce_response res)) = err (unexpected_response (nonce_response res))
    get_storage (ok (class_hash_at res)) = err (unexpected_response (class_hash_at res))
    get_storage (ok (class_at res)) = err (unexpected_response (class_at res))

    abbrev pub get_class_hash_at :
        ClientResult BlockId Class ProviderError (BackendResponse BlockId Class ProviderError)
        → ClientResult BlockId Class ProviderError (Option ℕ)
    get_class_hash_at (err e) = err e
    get_class_hash_at (ok (class_hash_at res)) = handle_not_found_err res
    get_class_hash_at (ok (nonce_response res)) = err (unexpected_response (nonce_response res))
    get_class_hash_at (ok (storage_response res)) = err (unexpected_response (storage_response res))
    get_class_hash_at (ok (class_at res)) = err (unexpected_response (class_at res))

    abbrev some_class :
        {Contract : Type 0}
        → ClientResult BlockId Class ProviderError Contract
        → ClientResult BlockId Class ProviderError (Option Contract)
    some_class (ok contract) = ok (some contract)
    some_class (err e) = err e

    -- Two conversions of the class follow, which are one parameter here.
    abbrev pub convert_class :
        {Contract : Type 0}
        → (Class → ClientResult BlockId Class ProviderError Contract)
        → ClientResult BlockId Class ProviderError (Option Class)
        → ClientResult BlockId Class ProviderError (Option Contract)
    convert_class convert (err e) = err e
    convert_class convert (ok none) = ok none
    convert_class convert (ok (some c)) = some_class (convert c)

    abbrev pub get_class_at :
        {Contract : Type 0}
        → (Class → ClientResult BlockId Class ProviderError Contract)
        → ClientResult BlockId Class ProviderError (BackendResponse BlockId Class ProviderError)
        → ClientResult BlockId Class ProviderError (Option Contract)
    get_class_at convert (err e) = err e
    get_class_at convert (ok (class_at res)) = convert_class convert (handle_not_found_err res)
    get_class_at convert (ok (nonce_response res)) = err (unexpected_response (nonce_response res))
    get_class_at convert (ok (storage_response res)) =
        err (unexpected_response (storage_response res))
    get_class_at convert (ok (class_hash_at res)) = err (unexpected_response (class_hash_at res))

    -- What the provider's result means to the client.
    abbrev pub meaning :
        {A : Type 0} → Result ProviderError A → ClientResult BlockId Class ProviderError (Option A)
    meaning (ok value) = ok (some value)
    meaning (err e) =
        if contract_not_found e || class_hash_not_found e
        then ok none
        else err (backend_error (starknet_provider e))

    handle-meaning :
        {A : Type 0} (res : Result ProviderError A)
        → handle_not_found_err (map_err starknet_provider res) ≡ meaning res
    handle-meaning (ok value) = refl
    handle-meaning (err e) = ground arith

    module _ {Contract : Type 0}
        (convert : Class → ClientResult BlockId Class ProviderError Contract) where
      -- The method for the key reads the answer as what the network gives to the key's call.
      abbrev pub Reads :
          BlockId
          → BackendRequestIdentifier
          → BackendResponse BlockId Class ProviderError
          → Network BlockId Class ProviderError
          → Type 0
      Reads block (nonce_id a) r n =
          (res : Result ProviderError ℕ) × (n.get_nonce block a ≡ some res)
          × (get_nonce (receive true (some r)) ≡ meaning res)
      Reads block (storage_id k) r n =
          (res : Result ProviderError ℕ) × (n.get_storage_at k.0 k.1 block ≡ some res)
          × (get_storage (receive true (some r)) ≡ meaning res)
      Reads block (class_hash_id a) r n =
          (res : Result ProviderError ℕ) × (n.get_class_hash_at block a ≡ some res)
          × (get_class_hash_at (receive true (some r)) ≡ meaning res)
      Reads block (class_id h) r n =
          (res : Result ProviderError Class) × (n.get_class block h ≡ some res)
          × (get_class_at convert (receive true (some r)) ≡ convert_class convert (meaning res))

      mapped :
          {A : Type 0} (o : Option (Result ProviderError A))
          (make : Result ProviderError A → BackendResponse BlockId Class ProviderError)
          (r : BackendResponse BlockId Class ProviderError)
          → Option.map make o ≡ some r
          → (res : Result ProviderError A) × (o ≡ some res) × (make res ≡ r)
      mapped none make r h = cc
      mapped (some res) make r h = (res, refl, some-value _ _ h)

      call-Reads :
          (block : BlockId) (d : Delivery BlockId Class ProviderError)
          (n : Network BlockId Class ProviderError)
          → rpc_call block d.key n ≡ some d.response
          → Reads block d.key d.response n
      call-Reads block d n h = go d.key h
        where
          go :
              (k : BackendRequestIdentifier)
              → rpc_call block k n ≡ some d.response
              → Reads block k d.response n
          go (nonce_id a) q =
              let (res, e, m) = mapped (n.get_nonce block a) _ _ q in
              (res, e, ap (λ r. get_nonce (receive true (some r))) (sym m) ∙ handle-meaning res)
          go (storage_id k) q =
              let (res, e, m) = mapped (n.get_storage_at k.0 k.1 block) _ _ q in
              (res, e, ap (λ r. get_storage (receive true (some r))) (sym m) ∙ handle-meaning res)
          go (class_hash_id a) q =
              let (res, e, m) = mapped (n.get_class_hash_at block a) _ _ q in
              (
                res,
                e,
                ap (λ r. get_class_hash_at (receive true (some r))) (sym m) ∙ handle-meaning res,
              )
          go (class_id h) q =
              let (res, e, m) = mapped (n.get_class block h) _ _ q in
              (
                res,
                e,
                ap (λ r. get_class_at convert (receive true (some r))) (sym m)
                    ∙ ap (convert_class convert) (handle-meaning res),
              )

      -- The client's method for a request reads the answer that the backend sent as what the network
      -- gave, in one of the rounds so far, to the call for the request's contract, key or class at the pinned block: its
      -- value (a class is then converted), none if the error is that there is no such contract or class, or its error.
      pub Runs-Reads :
          (block : BlockId) (rs : List BackendRequest)
          (networks : List (Network BlockId Class ProviderError))
          (b : Backend BlockId Class ProviderError)
          → Runs block rs networks b
          → All (λ d. Any (Reads block d.key d.response) networks) b.sent
      Runs-Reads block rs networks b run =
          All-map (FromNetwork networks block) (λ d. Any (Reads block d.key d.response) networks)
            b.sent (λ d. Any-map _ _ networks (call-Reads block d))
            (Runs-conserve block rs networks b run).2
