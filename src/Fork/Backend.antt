-- ===== src/Fork/Backend.antt =====
-- The backend of the forked provider: crates/storage/fork/src/lib.rs. A sender of a oneshot channel
-- is a number; what is sent is kept in the order of sending, with the key of the call it answers.
use mathlib.Core.Option
use katana.Base.{
  ℕ, zero, suc, Bool, false, ◌&&◌, Option, none, some, List, [], ◌∷◌, ◌++◌, length, ◌==◌,
  if◌then◌else◌,
}
use katana.Pool.Notify.{swap_remove}

pub data Result (E A : Type 0) : Type 0 where
  ok : A → Result E A
  err : E → Result E A

abbrev pub map_err : {E F A : Type 0} → (E → F) → Result E A → Result F A
map_err f (ok a) = ok a
map_err f (err e) = err (f e)

pub record Request (P : Type 0) : Type 0 where
  pub payload : P
  pub sender : ℕ

pub data BackendRequest : Type 0 where
  nonce class class_hash : Request ℕ → BackendRequest
  storage : Request (ℕ × ℕ) → BackendRequest

pub data BackendRequestIdentifier : Type 0 where
  nonce_id class_id class_hash_id : ℕ → BackendRequestIdentifier
  storage_id : ℕ × ℕ → BackendRequestIdentifier

-- The derived `PartialEq`.
abbrev pub same : BackendRequestIdentifier → BackendRequestIdentifier → Bool
same (nonce_id a) (nonce_id b) = a == b
same (nonce_id a) (class_id b) = false
same (nonce_id a) (class_hash_id b) = false
same (nonce_id a) (storage_id b) = false
same (class_id a) (nonce_id b) = false
same (class_id a) (class_id b) = a == b
same (class_id a) (class_hash_id b) = false
same (class_id a) (storage_id b) = false
same (class_hash_id a) (nonce_id b) = false
same (class_hash_id a) (class_id b) = false
same (class_hash_id a) (class_hash_id b) = a == b
same (class_hash_id a) (storage_id b) = false
same (storage_id a) (nonce_id b) = false
same (storage_id a) (class_id b) = false
same (storage_id a) (class_hash_id b) = false
same (storage_id a) (storage_id b) = (a.0 == b.0) && (a.1 == b.1)

-- The calls of `HashMap` on the map of the current requests.
abbrev pub RequestMap : Type 0
RequestMap = List (BackendRequestIdentifier × List ℕ)

abbrev pub get_senders : BackendRequestIdentifier → RequestMap → Option (List ℕ)
get_senders k [] = none
get_senders k (e ∷ m) = let rest = get_senders k m in if same k e.0 then some e.1 else rest

abbrev pub push_sender : BackendRequestIdentifier → ℕ → RequestMap → RequestMap
push_sender k s [] = []
push_sender k s (e ∷ m) =
    let rest = push_sender k s m in if same k e.0 then (e.0, e.1 ++ s ∷ []) ∷ m else e ∷ rest

abbrev pub remove_key : BackendRequestIdentifier → RequestMap → RequestMap
remove_key k [] = []
remove_key k (e ∷ m) = let rest = remove_key k m in if same k e.0 then m else e ∷ rest

module _ (BlockId Class ProviderError : Type 0) where
  pub data BackendError : Type 0 where
    backend_thread_init : ℕ → BackendError
    starknet_provider : ProviderError → BackendError
    unexpected_receive_result : ℕ → BackendError

  pub data BackendResponse : Type 0 where
    nonce_response : Result BackendError ℕ → BackendResponse
    storage_response : Result BackendError ℕ → BackendResponse
    class_hash_at : Result BackendError ℕ → BackendResponse
    class_at : Result BackendError Class → BackendResponse

  -- The Starknet provider at one moment: `none` while a call has no answer.
  pub record Network : Type 0 where
    pub get_nonce : BlockId → ℕ → Option (Result ProviderError ℕ)
    pub get_storage_at : ℕ → ℕ → BlockId → Option (Result ProviderError ℕ)
    pub get_class_hash_at : BlockId → ℕ → Option (Result ProviderError ℕ)
    pub get_class : BlockId → ℕ → Option (Result ProviderError Class)

  -- A future, by what polling it gives.
  abbrev pub BackendRequestFuture : Type 0
  BackendRequestFuture = Network → Option BackendResponse

  pub record Delivery : Type 0 where
    pub key : BackendRequestIdentifier
    pub sender : ℕ
    pub response : BackendResponse

  -- The channel of incoming requests is in the polls' arguments, the answers sent are in `sent`.
  pub record Backend : Type 0 where
    pub request_dedup_map : RequestMap
    pub pending_requests : List (BackendRequestIdentifier × BackendRequestFuture)
    pub queued_requests : List BackendRequest
    pub block : BlockId
    pub sent : List Delivery

  -- What a turn of the poll's loop finds: the requests in the channel, whether it is closed behind
  -- them, and the provider.
  pub record Wake : Type 0 where
    pub incoming : List BackendRequest
    pub closed : Bool
    pub network : Network

  pub data Step : Type 0 where
    goes_on yields resolves : Step

module _ {BlockId Class ProviderError : Type 0} where
  abbrev pub new_inner : BlockId → Backend BlockId Class ProviderError
  new_inner block = record {
    request_dedup_map = [];
    pending_requests = [];
    queued_requests = [];
    block = block;
    sent = [];
  }

  -- The two cases of the map's entry.
  abbrev pub dedup_entry :
      Option (List ℕ)
      → BackendRequestIdentifier
      → ℕ
      → BackendRequestFuture BlockId Class ProviderError
      → Backend BlockId Class ProviderError
      → Backend BlockId Class ProviderError
  dedup_entry none req_key sender rpc_call_future b = record b {
    pending_requests = b.pending_requests ++ (req_key, rpc_call_future) ∷ [];
    request_dedup_map = (req_key, sender ∷ []) ∷ b.request_dedup_map;
  }
  dedup_entry (some senders) req_key sender rpc_call_future b = record b {
    request_dedup_map = push_sender req_key sender b.request_dedup_map;
  }

  abbrev pub dedup_request :
      BackendRequestIdentifier
      → ℕ
      → BackendRequestFuture BlockId Class ProviderError
      → Backend BlockId Class ProviderError
      → Backend BlockId Class ProviderError
  dedup_request req_key sender rpc_call_future b =
      dedup_entry (get_senders req_key b.request_dedup_map) req_key sender rpc_call_future b

  abbrev pub handle_requests :
      BackendRequest → Backend BlockId Class ProviderError → Backend BlockId Class ProviderError
  handle_requests (nonce r) b =
      dedup_request (nonce_id r.payload) r.sender
        (λ n.
          Option.map (λ res. nonce_response (map_err starknet_provider res))
            (n.get_nonce b.block r.payload))
        b
  handle_requests (storage r) b =
      dedup_request (storage_id r.payload) r.sender
        (λ n.
          Option.map (λ res. storage_response (map_err starknet_provider res))
            (n.get_storage_at r.payload.0 r.payload.1 b.block))
        b
  handle_requests (class_hash r) b =
      dedup_request (class_hash_id r.payload) r.sender
        (λ n.
          Option.map (λ res. class_hash_at (map_err starknet_provider res))
            (n.get_class_hash_at b.block r.payload))
        b
  handle_requests (class r) b =
      dedup_request (class_id r.payload) r.sender
        (λ n.
          Option.map (λ res. class_at (map_err starknet_provider res))
            (n.get_class b.block r.payload))
        b

  abbrev pub handle_queued :
      List BackendRequest
      → Backend BlockId Class ProviderError
      → Backend BlockId Class ProviderError
  handle_queued [] b = b
  handle_queued (r ∷ rs) b = handle_queued rs (handle_requests r b)

  abbrev pub deliver :
      BackendRequestIdentifier
      → BackendResponse BlockId Class ProviderError
      → List ℕ
      → List (Delivery BlockId Class ProviderError)
  deliver k res [] = []
  deliver k res (s ∷ ss) = record { key = k; sender = s; response = res } ∷ deliver k res ss

  -- `none` is the panic of `expect`.
  abbrev pub answer_all :
      Option (List ℕ)
      → BackendRequestIdentifier
      → BackendResponse BlockId Class ProviderError
      → Backend BlockId Class ProviderError
      → Option (Backend BlockId Class ProviderError)
  answer_all none k res b = none
  answer_all (some senders) k res b = some (record b {
    sent = b.sent ++ deliver k res senders;
    request_dedup_map = remove_key k b.request_dedup_map;
  })

  -- What is done after a future is polled: it is pushed back while it is pending.
  abbrev pub poll_one :
      BackendRequestIdentifier
      → BackendRequestFuture BlockId Class ProviderError
      → Option (BackendResponse BlockId Class ProviderError)
      → Backend BlockId Class ProviderError
      → Option (Backend BlockId Class ProviderError)
  poll_one k fut none b = some (record b { pending_requests = b.pending_requests ++ (k, fut) ∷ [] })
  poll_one k fut (some res) b = answer_all (get_senders k b.request_dedup_map) k res b

  -- The loop over the pending requests, from the last index down.
  unfoldable pub poll_pending :
      Network BlockId Class ProviderError
      → ℕ
      → Backend BlockId Class ProviderError
      → Option (Backend BlockId Class ProviderError)
  poll_pending n zero b = some b
  poll_pending n (suc i) b = elim (swap_remove i b.pending_requests) [
    | none ↦ none
    | some (e, rest) ↦ elim (poll_one e.0 e.1 (e.1 n) (record b { pending_requests = rest })) [
      | none ↦ none
      | some b' ↦ poll_pending n i b'
    ]
  ]

  abbrev pub after_polling :
      Option (Backend BlockId Class ProviderError)
      → Option (Step BlockId Class ProviderError × Backend BlockId Class ProviderError)
  after_polling none = none
  after_polling (some b) = some (if length b.queued_requests == 0 then yields else goes_on, b)

  -- The queue is emptied, then filled from the channel.
  abbrev pub take_in :
      List BackendRequest
      → Backend BlockId Class ProviderError
      → Backend BlockId Class ProviderError
  take_in incoming b = record (handle_queued b.queued_requests b) { queued_requests = incoming }

  -- A round of the loop of `poll`: the next one follows at once (`goes_on`), or when the backend is
  -- polled again (`yields`).
  abbrev pub turn :
      Wake BlockId Class ProviderError
      → Backend BlockId Class ProviderError
      → Option (Step BlockId Class ProviderError × Backend BlockId Class ProviderError)
  turn w b =
      let b' = take_in w.incoming b in
      if w.closed
      then some (resolves, b')
      else after_polling (poll_pending w.network (length b'.pending_requests) b')
