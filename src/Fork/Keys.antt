-- ===== src/Fork/Keys.antt =====
-- The keys of the fork backend's requests, and what the map of the current requests answers.
use katana.Base.{
  ℕ, ◌+◌, ◌≡◌, refl, sym, ap, ap₂, Bool, true, false, none, some, List, [], ◌∷◌, ◌++◌, arith,
  ==_iff, ==_refl, if◌then◌else◌,
}
use katana.Fork.Backend.{
  BackendRequestIdentifier, nonce_id, class_id, class_hash_id, storage_id, same, RequestMap,
  get_senders, push_sender, remove_key,
}
use katana.Storage.Table.Contents.{some-value}
use katana.Fork.Sums.{sum_by, sum_by-append}

pub same_refl : (k : BackendRequestIdentifier) → same k k ≡ true
same_refl (nonce_id a) = ==_refl a
same_refl (class_id a) = ==_refl a
same_refl (class_hash_id a) = ==_refl a
same_refl (storage_id a) = rw (==_refl a.0) (==_refl a.1)

pub same-eq : (j k : BackendRequestIdentifier) → same j k ≡ true → j ≡ k
same-eq (nonce_id a) (nonce_id b) h = ap nonce_id ((==_iff a b).0 h)
same-eq (nonce_id a) (class_id b) h = cc
same-eq (nonce_id a) (class_hash_id b) h = cc
same-eq (nonce_id a) (storage_id b) h = cc
same-eq (class_id a) (nonce_id b) h = cc
same-eq (class_id a) (class_id b) h = ap class_id ((==_iff a b).0 h)
same-eq (class_id a) (class_hash_id b) h = cc
same-eq (class_id a) (storage_id b) h = cc
same-eq (class_hash_id a) (nonce_id b) h = cc
same-eq (class_hash_id a) (class_id b) h = cc
same-eq (class_hash_id a) (class_hash_id b) h = ap class_hash_id ((==_iff a b).0 h)
same-eq (class_hash_id a) (storage_id b) h = cc
same-eq (storage_id a) (nonce_id b) h = cc
same-eq (storage_id a) (class_id b) h = cc
same-eq (storage_id a) (class_hash_id b) h = cc
same-eq (storage_id (a, b)) (storage_id (c, d)) h =
    let e : (a ≡ c) × (b ≡ d) = ground arith in ap₂ (λ x y. storage_id (x, y)) e.0 e.1

-- 1 for the key itself, 0 for others.
abbrev pub hit : BackendRequestIdentifier → BackendRequestIdentifier → ℕ
hit j k = if same j k then 1 else 0

abbrev pub map_keys : BackendRequestIdentifier → RequestMap → ℕ
map_keys k m = sum_by (λ e. hit k e.0) m

-- The waiting senders, each weighed with its key.
abbrev pub waiting : (BackendRequestIdentifier → ℕ → ℕ) → RequestMap → ℕ
waiting w m = sum_by (λ e. sum_by (w e.0) e.1) m

pub get_senders-none :
    (k : BackendRequestIdentifier) (m : RequestMap) → get_senders k m ≡ none → map_keys k m ≡ 0
get_senders-none k [] h = refl
get_senders-none k (e ∷ m) h = ground (arith, get_senders-none k m)

pub map_keys-none :
    (k : BackendRequestIdentifier) (m : RequestMap) → map_keys k m ≡ 0 → get_senders k m ≡ none
map_keys-none k [] h = refl
map_keys-none k (e ∷ m) h = ground (arith, map_keys-none k m)

module _ (k : BackendRequestIdentifier) where
  -- The senders of a key are taken out of the map with the key.
  pub remove_key-splits :
      (w : BackendRequestIdentifier → ℕ → ℕ) (m : RequestMap) (ss : List ℕ)
      → get_senders k m ≡ some ss
      → waiting w m ≡ sum_by (w k) ss + waiting w (remove_key k m)
  remove_key-splits w [] ss h = cc
  remove_key-splits w (e ∷ m) ss h = go (same k e.0) refl h (λ g. remove_key-splits w m ss g)
    where
      go :
          (b : Bool)
          → same k e.0 ≡ b
          → (if b then some e.1 else get_senders k m) ≡ some ss
          → (get_senders k m ≡ some ss → waiting w m ≡ sum_by (w k) ss + waiting w (remove_key k m))
          → waiting w (e ∷ m) ≡ sum_by (w k) ss + waiting w (if b then m else e ∷ remove_key k m)
      go true q g rest =
          let v : e.1 ≡ ss = some-value _ _ g in
          ap₂ (λ x y. sum_by (w x) y + waiting w m) (sym (same-eq k e.0 q)) v
      go false q g rest = let r = rest g in omega (arith, r)

  pub map_keys-remove_key :
      (j : BackendRequestIdentifier) (m : RequestMap) (ss : List ℕ)
      → get_senders k m ≡ some ss
      → map_keys j m ≡ hit j k + map_keys j (remove_key k m)
  map_keys-remove_key j [] ss h = cc
  map_keys-remove_key j (e ∷ m) ss h = go (same k e.0) refl h (λ g. map_keys-remove_key j m ss g)
    where
      go :
          (b : Bool)
          → same k e.0 ≡ b
          → (if b then some e.1 else get_senders k m) ≡ some ss
          → (get_senders k m ≡ some ss → map_keys j m ≡ hit j k + map_keys j (remove_key k m))
          → map_keys j (e ∷ m) ≡ hit j k + map_keys j (if b then m else e ∷ remove_key k m)
      go true q g rest = ap (λ x. hit j x + map_keys j m) (sym (same-eq k e.0 q))
      go false q g rest = let r = rest g in omega (arith, r)

  pub waiting-push_sender :
      (w : BackendRequestIdentifier → ℕ → ℕ) (s : ℕ) (m : RequestMap) (ss : List ℕ)
      → get_senders k m ≡ some ss
      → waiting w (push_sender k s m) ≡ waiting w m + w k s
  waiting-push_sender w s [] ss h = cc
  waiting-push_sender w s (e ∷ m) ss h =
      go (same k e.0) refl h (λ g. waiting-push_sender w s m ss g)
    where
      go :
          (b : Bool)
          → same k e.0 ≡ b
          → (if b then some e.1 else get_senders k m) ≡ some ss
          → (get_senders k m ≡ some ss → waiting w (push_sender k s m) ≡ waiting w m + w k s)
          → waiting w (if b then (e.0, e.1 ++ s ∷ []) ∷ m else e ∷ push_sender k s m)
            ≡ waiting w (e ∷ m) + w k s
      go true q g rest =
          let added = sum_by-append (w e.0) e.1 (s ∷ []) in
          let key : w k s ≡ w e.0 s = ap (λ x. w x s) (same-eq k e.0 q) in omega (arith, added, key)
      go false q g rest = let r = rest g in omega (arith, r)

  pub map_keys-push_sender :
      (j : BackendRequestIdentifier) (s : ℕ) (m : RequestMap)
      → map_keys j (push_sender k s m) ≡ map_keys j m
  map_keys-push_sender j s [] = refl
  map_keys-push_sender j s (e ∷ m) = ground (arith, map_keys-push_sender j s m)
