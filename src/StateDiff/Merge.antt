-- ===== src/StateDiff/Merge.antt =====
-- What the encoder of crates/primitives/src/da/encoding.rs gathers for each contract.
use katana.Base.{
  ℕ, ◌+◌, ◌≤◌, ◌≡◌, refl, subst, ◌∙◌, ap, sym, inl, inr, Option, none, some, [], ◌∷◌, arith,
  Bool-cases, length, unwrap_or, is_some,
}
use katana.Storage.Table.{Table, nat_key, get}
use katana.Storage.Table.Laws.{IsAscending, get-Above, get-put_other, get-put_self, put-IsAscending}
use katana.Storage.Table.Contents.{length-put-le, get_cons_self, get_cons_other}
use katana.Storage.Db.{StateUpdates}
use katana.StateDiff.Updates.{
  ContractUpdate, default, on_entry, write_all, write_nonce, write_class, write_storage,
  contract_updates,
}

module _ {V : Type 0} (write : V → ContractUpdate → ContractUpdate) where
  abbrev written : Option V → Option ContractUpdate → Option ContractUpdate
  written none entry = entry
  written (some v) entry = some (write v (unwrap_or default entry))

  get-write_all :
      (t : Table ℕ V) (updates : Table ℕ ContractUpdate) (a : ℕ)
      → IsAscending t
      → get a (write_all write t updates) ≡ written (get a t) (get a updates)
  unfolding write_all get
  get-write_all [] updates a s = refl
  get-write_all ((k, v) ∷ t) updates a s = elim (Bool-cases (nat_key.eq a k)) [
    | inl q ↦
        subst
          (λ i.
            get i (write_all write t (on_entry k (write v) updates))
            ≡ written (get i ((k, v) ∷ t)) (get i updates))
          (sym ((nat_key.eq_iff a k).0 q))
          (get-write_all t (on_entry k (write v) updates) k s.1
            ∙ ap (λ o. written o (get k (on_entry k (write v) updates))) (get-Above k t s.0)
            ∙ get-put_self k (write v (unwrap_or default (get k updates))) updates
            ∙ ap (λ o. written o (get k updates)) (sym (get_cons_self k v t)))
    | inr n ↦
        get-write_all t (on_entry k (write v) updates) a s.1
        ∙ ap (written (get a t))
            (get-put_other k a (write v (unwrap_or default (get k updates))) updates n)
        ∙ ap (λ o. written o (get a updates)) (sym (get_cons_other a (k, v) t n))
  ]

  write_all-IsAscending :
      (t : Table ℕ V) (updates : Table ℕ ContractUpdate)
      → IsAscending updates
      → IsAscending (write_all write t updates)
  unfolding write_all
  write_all-IsAscending [] updates s = s
  write_all-IsAscending ((k, v) ∷ t) updates s =
      write_all-IsAscending t (on_entry k (write v) updates)
        (put-IsAscending k (write v (unwrap_or default (get k updates))) updates s)

  length-write_all-le :
      (t : Table ℕ V) (updates : Table ℕ ContractUpdate)
      → length (write_all write t updates) ≤ length t + length updates
  unfolding write_all
  length-write_all-le [] updates = omega arith
  length-write_all-le ((k, v) ∷ t) updates = omega (
    arith,
    length-write_all-le t (on_entry k (write v) updates),
    length-put-le k (write v (unwrap_or default (get k updates))) updates,
  )

-- The entry of a contract with a nonce, a class and storage updates, if it has any.
abbrev pub update_of : Option ℕ → Option ℕ → Option (Table ℕ ℕ) → ContractUpdate
update_of nonce class_hash storages = record {
  metadata = record {
    class_information_flag = is_some class_hash;
    new_nonce = nonce;
    total_storage_updates = length (unwrap_or [] storages);
  };
  class_hash = class_hash;
  storage_updates = unwrap_or [] storages;
}

abbrev pub gathered : Option ℕ → Option ℕ → Option (Table ℕ ℕ) → Option ContractUpdate
gathered none none none = none
gathered (some n) c t = some (update_of (some n) c t)
gathered none (some c) t = some (update_of none (some c) t)
gathered none none (some t) = some (update_of none none (some t))

gathered_lem :
    (n c : Option ℕ) (t : Option (Table ℕ ℕ))
    → written write_storage t (written write_class c (written write_nonce n none)) ≡ gathered n c t
gathered_lem none none none = refl
gathered_lem none none (some t) = refl
gathered_lem none (some c) none = refl
gathered_lem none (some c) (some t) = refl
gathered_lem (some n) none none = refl
gathered_lem (some n) none (some t) = refl
gathered_lem (some n) (some c) none = refl
gathered_lem (some n) (some c) (some t) = refl

module _ (s : StateUpdates) where
  pub get-contract_updates :
      (a : ℕ)
      → IsAscending s.nonce_updates
      → IsAscending s.deployed_contracts
      → IsAscending s.storage_updates
      → get a (contract_updates s)
        ≡ gathered (get a s.nonce_updates) (get a s.deployed_contracts) (get a s.storage_updates)
  unfolding contract_updates get
  get-contract_updates a n c t =
      rw
        (
          get-write_all write_storage s.storage_updates
              (write_all write_class s.deployed_contracts
                (write_all write_nonce s.nonce_updates []))
              a t,
          get-write_all write_class s.deployed_contracts (write_all write_nonce s.nonce_updates [])
              a c,
          get-write_all write_nonce s.nonce_updates [] a n,
        )
        (gathered_lem (get a s.nonce_updates) (get a s.deployed_contracts)
          (get a s.storage_updates))

  pub contract_updates-IsAscending : IsAscending (contract_updates s)
  unfolding contract_updates
  contract_updates-IsAscending = write_all-IsAscending write_storage s.storage_updates _ (
      write_all-IsAscending write_class s.deployed_contracts _
        (write_all-IsAscending write_nonce s.nonce_updates [] tt))

  pub length-contract_updates-le :
      length (contract_updates s)
      ≤ length s.nonce_updates + length s.deployed_contracts + length s.storage_updates
  unfolding contract_updates
  length-contract_updates-le =
      let n = write_all write_nonce s.nonce_updates [] in
      omega (
        arith,
        length-write_all-le write_nonce s.nonce_updates [],
        length-write_all-le write_class s.deployed_contracts n,
        length-write_all-le write_storage s.storage_updates
            (write_all write_class s.deployed_contracts n),
      )
