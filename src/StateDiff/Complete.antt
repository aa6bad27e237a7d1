-- ===== src/StateDiff/Complete.antt =====
-- The round trip of whole state updates: crates/primitives/src/da/encoding.rs.
use katana.Base.{
  ℕ, ◌+◌, ◌^◌, ◌<◌, ◌≡◌, refl, subst, ◌∙◌, ap, sym, Option, none, some, List, [], ◌∷◌, arith, All,
  append-nil, length, unwrap_or, lt→ltb,
}
use katana.Transaction.Encode.{prime}
use katana.Storage.Table.{Table, nat_key, get}
use katana.Storage.Table.Laws.{IsAscending}
use katana.Storage.Table.Contents.{
  insert_some, collect_some, collect_some_all, collect_some-eq, and_then, All-get, get-All,
  some-value, none-some,
}
use katana.Storage.Db.{StateUpdates}
use katana.StateDiff.Updates.{
  ContractUpdate, contract_updates, encode_state_updates, decode_state_updates, read_declarations,
  ok, to_usize, no_updates, insert_storages, missing_class_hash, missing_compiled_class_hash,
  push_entries,
}
use katana.StateDiff.Merge.{
  gathered, update_of, get-contract_updates, contract_updates-IsAscending,
  length-contract_updates-le,
}
use katana.StateDiff.Words.{
  Small, IsReadable, Readable, insert_updates, read_entries-push_entries,
  read_updates-encode_updates,
}

-- The storage updates of a contract: at least one, in order, in elements of the field.
pub record StorageFits (t : Table ℕ ℕ) : Type 0 where
  pub ordered : IsAscending t
  pub small : All Small t
  pub some_entry : 0 < length t
  pub few : length t < 2 ^ 64

abbrev ContractFits : ℕ → Table ℕ ℕ → Type 0
ContractFits address t = (address < prime) × StorageFits t

abbrev NonceFits : ℕ → ℕ → Type 0
NonceFits address nonce = (address < prime) × (0 < nonce) × (nonce < 2 ^ 64)

-- Maps in order with elements of the field as keys and values, nonces that are not zero and have 64
-- bits, contracts with storage updates that have one, and fewer entries than 2^64.
pub record IsEncodable (s : StateUpdates) : Type 0 where
  pub nonces : IsAscending s.nonce_updates
  pub nonces_fit : All (λ e. NonceFits e.0 e.1) s.nonce_updates
  pub storages : IsAscending s.storage_updates
  pub storages_fit : All (λ e. ContractFits e.0 e.1) s.storage_updates
  pub contracts : IsAscending s.deployed_contracts
  pub contracts_fit : All Small s.deployed_contracts
  pub classes : IsAscending s.declared_classes
  pub classes_fit : All Small s.declared_classes
  pub few_contracts :
      length s.nonce_updates + length s.deployed_contracts + length s.storage_updates < 2 ^ 64
  pub few_classes : length s.declared_classes < 2 ^ 64

abbrev nonce_of : ContractUpdate → Option ℕ
nonce_of u = u.metadata.new_nonce

abbrev class_of : ContractUpdate → Option ℕ
class_of u = u.class_hash

abbrev if_any : Table ℕ ℕ → Option (Table ℕ ℕ)
if_any [] = none
if_any (e ∷ t) = some (e ∷ t)

abbrev storages_of : ContractUpdate → Option (Table ℕ ℕ)
storages_of u = if_any u.storage_updates

-- The maps that the loop over the contracts fills.
abbrev filled : Table ℕ ContractUpdate → StateUpdates → StateUpdates
filled updates su = record su {
  nonce_updates = collect_some nonce_of updates su.nonce_updates;
  deployed_contracts = collect_some class_of updates su.deployed_contracts;
  storage_updates = collect_some storages_of updates su.storage_updates;
}

insert_storages-if_any :
    (a : ℕ) (t : Table ℕ ℕ) (m : Table ℕ (Table ℕ ℕ))
    → insert_storages a t m ≡ insert_some a (if_any t) m
insert_storages-if_any a [] m = refl
insert_storages-if_any a (e ∷ t) m = refl

insert_updates-filled :
    (updates : Table ℕ ContractUpdate) (su : StateUpdates)
    → insert_updates updates su ≡ filled updates su
unfolding insert_updates collect_some
insert_updates-filled [] su = refl
insert_updates-filled ((a, u) ∷ updates) su =
    rw (insert_storages-if_any a u.storage_updates su.storage_updates)
      (insert_updates-filled updates _)

nonce_of-gathered :
    (n c : Option ℕ) (t : Option (Table ℕ ℕ)) → and_then nonce_of (gathered n c t) ≡ n
nonce_of-gathered none none none = refl
nonce_of-gathered none none (some t) = refl
nonce_of-gathered none (some c) t = refl
nonce_of-gathered (some n) c t = refl

class_of-gathered :
    (n c : Option ℕ) (t : Option (Table ℕ ℕ)) → and_then class_of (gathered n c t) ≡ c
class_of-gathered none none none = refl
class_of-gathered none none (some t) = refl
class_of-gathered none (some c) t = refl
class_of-gathered (some n) c t = refl

if_any-some : (t : Table ℕ ℕ) → 0 < length t → if_any t ≡ some t
if_any-some [] h = absurd (omega arith)
if_any-some (e ∷ t) h = refl

storages_of-gathered :
    (n c : Option ℕ) (t : Option (Table ℕ ℕ))
    → ((m : Table ℕ ℕ) → t ≡ some m → 0 < length m)
    → and_then storages_of (gathered n c t) ≡ t
storages_of-gathered none none none h = refl
storages_of-gathered none none (some t) h = if_any-some t (h t refl)
storages_of-gathered none (some c) none h = refl
storages_of-gathered none (some c) (some t) h = if_any-some t (h t refl)
storages_of-gathered (some n) c none h = refl
storages_of-gathered (some n) c (some t) h = if_any-some t (h t refl)

module _ (a : ℕ) (n c : Option ℕ) (t : Option (Table ℕ ℕ))
    (has_nonce : (k : ℕ) → n ≡ some k → NonceFits a k)
    (has_class : (k : ℕ) → c ≡ some k → Small (a, k))
    (has_storages : (m : Table ℕ ℕ) → t ≡ some m → ContractFits a m) where
  update_of-IsReadable : IsReadable (update_of n c t)
  update_of-IsReadable = record {
    flag = refl;
    total = refl;
    nonce = λ k e. ((has_nonce k e).1, (has_nonce k e).2);
    class = λ k e. (has_class k e).1;
    few = few_of t has_storages;
    ordered = ordered_of t has_storages;
    small = small_of t has_storages;
  }
    where
      few_of :
          (t : Option (Table ℕ ℕ))
          → ((m : Table ℕ ℕ) → t ≡ some m → ContractFits a m)
          → length (unwrap_or [] t) < 2 ^ 64
      few_of none h = omega arith
      few_of (some m) h = (h m refl).1.few

      ordered_of :
          (t : Option (Table ℕ ℕ))
          → ((m : Table ℕ ℕ) → t ≡ some m → ContractFits a m)
          → IsAscending (unwrap_or [] t)
      ordered_of none h = tt
      ordered_of (some m) h = (h m refl).1.ordered

      small_of :
          (t : Option (Table ℕ ℕ))
          → ((m : Table ℕ ℕ) → t ≡ some m → ContractFits a m)
          → All Small (unwrap_or [] t)
      small_of none h = tt
      small_of (some m) h = (h m refl).1.small

gathered-Readable :
    (a : ℕ) (n c : Option ℕ) (t : Option (Table ℕ ℕ)) (u : ContractUpdate)
    → ((k : ℕ) → n ≡ some k → NonceFits a k)
    → ((k : ℕ) → c ≡ some k → Small (a, k))
    → ((m : Table ℕ ℕ) → t ≡ some m → ContractFits a m)
    → gathered n c t ≡ some u
    → Readable (a, u)
gathered-Readable a none none none u hn hc ht e = absurd (none-some u e)
gathered-Readable a (some n) c t u hn hc ht e =
    subst (λ u. Readable (a, u)) (some-value _ u e)
      ((hn n refl).0, update_of-IsReadable a (some n) c t hn hc ht)
gathered-Readable a none (some c) t u hn hc ht e =
    subst (λ u. Readable (a, u)) (some-value _ u e)
      ((hc c refl).0, update_of-IsReadable a none (some c) t hn hc ht)
gathered-Readable a none none (some t) u hn hc ht e =
    subst (λ u. Readable (a, u)) (some-value _ u e)
      ((ht t refl).0, update_of-IsReadable a none none (some t) hn hc ht)

to_usize_small : (n : ℕ) → n < 2 ^ 64 → to_usize n ≡ ok n
unfolding to_usize
to_usize_small n h = rw (to_usize, lt→ltb n (2 ^ 64) h) refl

module _ (s : StateUpdates) (v : IsEncodable s) where
  has_storages : (a : ℕ) (m : Table ℕ ℕ) → get a s.storage_updates ≡ some m → ContractFits a m
  has_storages a m = All-get ContractFits s.storage_updates a m v.storages_fit

  gathered_at :
      (a : ℕ)
      → get a (contract_updates s)
        ≡ gathered (get a s.nonce_updates) (get a s.deployed_contracts) (get a s.storage_updates)
  gathered_at a = get-contract_updates s a v.nonces v.contracts v.storages

  contract_updates-Readable : All Readable (contract_updates s)
  contract_updates-Readable =
      get-All (λ a u. Readable (a, u)) (contract_updates s) (contract_updates-IsAscending s)
        (λ a u e.
          gathered-Readable a (get a s.nonce_updates) (get a s.deployed_contracts)
            (get a s.storage_updates) u (λ k. All-get NonceFits s.nonce_updates a k v.nonces_fit)
            (λ k. All-get (λ a k. Small (a, k)) s.deployed_contracts a k v.contracts_fit)
            (has_storages a) (sym (gathered_at a) ∙ e))

  abbrev without_classes : StateUpdates
  without_classes = record no_updates {
    nonce_updates = s.nonce_updates;
    deployed_contracts = s.deployed_contracts;
    storage_updates = s.storage_updates;
  }

  -- The loop over the contracts gives the maps back.
  filled_lem : filled (contract_updates s) no_updates ≡ without_classes
  filled_lem =
      let us = contract_updates s in
      let asc = contract_updates-IsAscending s in
      rw
        (
          collect_some-eq nonce_of us s.nonce_updates asc v.nonces
              (λ a. ap (and_then nonce_of) (gathered_at a) ∙ nonce_of-gathered _ _ _),
          collect_some-eq class_of us s.deployed_contracts asc v.contracts
              (λ a. ap (and_then class_of) (gathered_at a) ∙ class_of-gathered _ _ _),
          collect_some-eq storages_of us s.storage_updates asc v.storages (λ a.
              ap (and_then storages_of) (gathered_at a)
              ∙ storages_of-gathered _ _ _ (λ m e. (has_storages a m e).1.some_entry)),
        )
        refl

  read_declarations_lem :
      (su : StateUpdates)
      → su.declared_classes ≡ []
      → read_declarations su (length s.declared_classes ∷ push_entries s.declared_classes)
        ≡ ok (record su { declared_classes = s.declared_classes })
  unfolding read_declarations
  read_declarations_lem su e =
      rw
        (
          to_usize_small (length s.declared_classes) v.few_classes,
          e,
          sym (append-nil (push_entries s.declared_classes)),
          read_entries-push_entries missing_class_hash missing_compiled_class_hash
              s.declared_classes [] [] v.classes_fit,
          collect_some_all s.declared_classes v.classes,
        )
        refl

  -- State updates whose maps are in order, with elements of the field as keys and values, nonces that are not zero and have
  -- 64 bits, storage updates only of contracts that have one, and fewer than 2^64 entries, are
  -- encoded without a panic. Decoded, they come back but for the deprecated declared classes and the
  -- replaced classes, which the encoding does not have.
  pub decode_state_updates-encode_state_updates :
      (ws : List ℕ) × (encode_state_updates s ≡ some ws)
      × (decode_state_updates ws
          ≡ ok (record s { deprecated_declared_classes = []; replaced_classes = [] }))
  unfolding encode_state_updates decode_state_updates
  decode_state_updates-encode_state_updates =
      let r =
        read_updates-encode_updates (contract_updates s)
          (length s.declared_classes ∷ push_entries s.declared_classes) contract_updates-Readable in
      (
        length (contract_updates s) ∷ r.0,
        rw (r.1) refl,
        rw
            (
              to_usize_small (length (contract_updates s))
                  (omega (arith, length-contract_updates-le s, v.few_contracts)),
              r.2 no_updates,
              insert_updates-filled (contract_updates s) no_updates,
              filled_lem,
              read_declarations_lem without_classes refl,
            )
            refl,
      )
