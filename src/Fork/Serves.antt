-- ===== src/Fork/Serves.antt =====
-- What the backend holds and takes in, for the backend of the forked provider: crates/storage/fork/src/lib.rs.
use mathlib.Core.Option
use katana.Base.{
  ℕ, ◌+◌, ◌≤◌, ◌≡◌, refl, sym, ap, subst, ◌∙◌, none, some, List, [], ◌∷◌, ◌++◌, All, All-append,
  arith, Option-cases, Bool-cases, inl, inr, ◌⊎◌,
}
use katana.Fork.Backend.{
  Backend, BackendRequest, nonce, storage, class, class_hash, BackendRequestIdentifier, nonce_id,
  storage_id, class_id, class_hash_id, same, BackendRequestFuture, Delivery, Network,
  starknet_provider, nonce_response, storage_response, class_hash_at, class_at, map_err,
  get_senders, dedup_entry, dedup_request, handle_requests, handle_queued,
}
use katana.Fork.Sums.{sum_by, sum_by-append}
use katana.Fork.Keys.{
  hit, map_keys, waiting, same-eq, get_senders-none, waiting-push_sender, map_keys-push_sender,
}

-- The key and the sender of a request.
abbrev pub id_of : BackendRequest → BackendRequestIdentifier
id_of (nonce r) = nonce_id r.payload
id_of (class r) = class_id r.payload
id_of (class_hash r) = class_hash_id r.payload
id_of (storage r) = storage_id r.payload

abbrev pub sender_of : BackendRequest → ℕ
sender_of (nonce r) = r.sender
sender_of (class r) = r.sender
sender_of (class_hash r) = r.sender
sender_of (storage r) = r.sender

abbrev pub Weight : Type 0
Weight = BackendRequestIdentifier → ℕ → ℕ

abbrev pub asked : Weight → List BackendRequest → ℕ
asked w rs = sum_by (λ r. w (id_of r) (sender_of r)) rs

abbrev added : BackendRequestIdentifier → ℕ → (Weight → ℕ) → Weight → ℕ
added k s total w = total w + w k s

-- One of the elements satisfies `P`.
abbrev pub Any : {A : Type 0} → (A → Type 0) → List A → Type 0
Any P [] = ⊥
Any P (x ∷ xs) = P x ⊎ Any P xs

pub Any-map :
    {A : Type 0} (P Q : A → Type 0) (xs : List A) → ((x : A) → P x → Q x) → Any P xs → Any Q xs
Any-map P Q (x ∷ xs) f (inl p) = inl (f x p)
Any-map P Q (x ∷ xs) f (inr r) = inr (Any-map P Q xs f r)
Any-map P Q [] f h = absurd h

pub All-map :
    {A : Type 0} (P Q : A → Type 0) (xs : List A) → ((x : A) → P x → Q x) → All P xs → All Q xs
All-map P Q [] f h = tt
All-map P Q (x ∷ xs) f h = (f x h.0, All-map P Q xs f h.1)

module _ {BlockId Class ProviderError : Type 0} where
  -- The call of the network that a key stands for.
  abbrev pub rpc_call :
      BlockId → BackendRequestIdentifier → BackendRequestFuture BlockId Class ProviderError
  rpc_call block (nonce_id a) n =
      Option.map (λ res. nonce_response (map_err starknet_provider res)) (n.get_nonce block a)
  rpc_call block (storage_id k) n =
      Option.map (λ res. storage_response (map_err starknet_provider res))
        (n.get_storage_at k.0 k.1 block)
  rpc_call block (class_hash_id a) n =
      Option.map (λ res. class_hash_at (map_err starknet_provider res))
        (n.get_class_hash_at block a)
  rpc_call block (class_id h) n =
      Option.map (λ res. class_at (map_err starknet_provider res)) (n.get_class block h)

  abbrev pub answered : Weight → List (Delivery BlockId Class ProviderError) → ℕ
  answered w ds = sum_by (λ d. w d.key d.sender) ds

  -- The answer is what one of the networks gave to the call of the request's key.
  abbrev pub FromNetwork :
      List (Network BlockId Class ProviderError)
      → BlockId
      → Delivery BlockId Class ProviderError
      → Type 0
  FromNetwork networks block d = Any (λ n. rpc_call block d.key n ≡ some d.response) networks

  abbrev pub IsCall :
      BlockId → BackendRequestIdentifier × BackendRequestFuture BlockId Class ProviderError → Type 0
  IsCall block e = e.1 ≡ rpc_call block e.0

  abbrev pub pending_keys : BackendRequestIdentifier → Backend BlockId Class ProviderError → ℕ
  pending_keys k b = sum_by (λ e. hit k e.0) b.pending_requests

  -- `networks` are the provider's states in the rounds so far, the last one first.
  module _ (networks : List (Network BlockId Class ProviderError)) where
    -- The keys that wait are those of the pending calls, each once, and no request gets lost.
    pub record Serves (total : Weight → ℕ) (block : BlockId)
        (b : Backend BlockId Class ProviderError) : Type 0 where
      pub pinned : b.block ≡ block
      pub calls : All (IsCall block) b.pending_requests
      pub keys : (k : BackendRequestIdentifier) → pending_keys k b ≡ map_keys k b.request_dedup_map
      pub once : (k : BackendRequestIdentifier) → pending_keys k b ≤ 1
      pub conserved : (w : Weight) → answered w b.sent + waiting w b.request_dedup_map ≡ total w
      pub genuine : All (FromNetwork networks block) b.sent

    dedup_request-Serves :
        (total : Weight → ℕ) (block : BlockId) (k : BackendRequestIdentifier) (s : ℕ)
        (fut : BackendRequestFuture BlockId Class ProviderError)
        (b : Backend BlockId Class ProviderError)
        → fut ≡ rpc_call block k
        → Serves total block b
        → Serves (added k s total) block (dedup_request k s fut b)
    dedup_request-Serves total block k s fut b call h =
        elim (Option-cases (get_senders k b.request_dedup_map)) [
          | inl e ↦
              subst (λ o. Serves (added k s total) block (dedup_entry o k s fut b)) (sym e)
                (record {
                  pinned = h.pinned;
                  calls =
                      All-append (IsCall block) b.pending_requests ((k, fut) ∷ []) h.calls
                        (call, tt);
                  keys = λ j.
                      let a = sum_by-append (λ e. hit j e.0) b.pending_requests ((k, fut) ∷ []) in
                      let q = h.keys j in omega (arith, a, q);
                  once = λ j. new_once e j;
                  conserved = λ w. let c = h.conserved w in omega (arith, c);
                  genuine = h.genuine;
                })
          | inr (ss, e) ↦
              subst (λ o. Serves (added k s total) block (dedup_entry o k s fut b)) (sym e)
                (record {
                  pinned = h.pinned;
                  calls = h.calls;
                  keys = λ j. h.keys j ∙ sym (map_keys-push_sender k j s b.request_dedup_map);
                  once = h.once;
                  conserved = λ w.
                      let c = h.conserved w in
                      let p = waiting-push_sender k w s b.request_dedup_map ss e in
                      omega (arith, c, p);
                  genuine = h.genuine;
                })
        ]
      where
        new_once :
            get_senders k b.request_dedup_map ≡ none
            → (j : BackendRequestIdentifier)
            → sum_by (λ e. hit j e.0) (b.pending_requests ++ (k, fut) ∷ []) ≤ 1
        new_once e j =
            let a = sum_by-append (λ e. hit j e.0) b.pending_requests ((k, fut) ∷ []) in
            let q = h.once j in
            elim (Bool-cases (same j k)) [
              | inl y ↦
                  let n : pending_keys j b ≡ 0 =
                    subst (λ x. pending_keys x b ≡ 0) (sym (same-eq j k y))
                      (h.keys k ∙ get_senders-none k b.request_dedup_map e) in
                  let one : hit j k ≡ 1 = rw y refl in omega (arith, a, n, one)
              | inr y ↦ let none_here : hit j k ≡ 0 = rw y refl in omega (arith, a, q, none_here)
            ]

    handle_requests-Serves :
        (total : Weight → ℕ) (block : BlockId) (r : BackendRequest)
        (b : Backend BlockId Class ProviderError)
        → Serves total block b
        → Serves (added (id_of r) (sender_of r) total) block (handle_requests r b)
    handle_requests-Serves total block (nonce r) b h =
        let k = nonce_id r.payload in
        dedup_request-Serves total block k r.sender (rpc_call b.block k) b
          (ap (λ c. rpc_call c k) h.pinned) h
    handle_requests-Serves total block (storage r) b h =
        let k = storage_id r.payload in
        dedup_request-Serves total block k r.sender (rpc_call b.block k) b
          (ap (λ c. rpc_call c k) h.pinned) h
    handle_requests-Serves total block (class_hash r) b h =
        let k = class_hash_id r.payload in
        dedup_request-Serves total block k r.sender (rpc_call b.block k) b
          (ap (λ c. rpc_call c k) h.pinned) h
    handle_requests-Serves total block (class r) b h =
        let k = class_id r.payload in
        dedup_request-Serves total block k r.sender (rpc_call b.block k) b
          (ap (λ c. rpc_call c k) h.pinned) h

    -- Counted differently, the requests are the same.
    pub Serves-total :
        (t u : Weight → ℕ) (block : BlockId) (b : Backend BlockId Class ProviderError)
        → ((w : Weight) → t w ≡ u w)
        → Serves t block b
        → Serves u block b
    Serves-total t u block b e h = record {
      pinned = h.pinned;
      calls = h.calls;
      keys = h.keys;
      once = h.once;
      conserved = λ w. h.conserved w ∙ e w;
      genuine = h.genuine;
    }

    pub handle_queued-Serves :
        (total : Weight → ℕ) (block : BlockId) (rs : List BackendRequest)
        (b : Backend BlockId Class ProviderError)
        → Serves total block b
        → Serves (λ w. total w + asked w rs) block (handle_queued rs b)
    handle_queued-Serves total block [] b h = Serves-total total _ block b (λ w. omega arith) h
    handle_queued-Serves total block (r ∷ rs) b h =
        Serves-total (λ w. added (id_of r) (sender_of r) total w + asked w rs) _ block
          (handle_queued rs (handle_requests r b)) (λ w. omega arith)
          (handle_queued-Serves (added (id_of r) (sender_of r) total) block rs (handle_requests r b)
            (handle_requests-Serves total block r b h))
