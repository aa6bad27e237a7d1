-- ===== src/StateDiff/Words.antt =====
-- Reading back the words of contracts and classes: crates/primitives/src/da/encoding.rs.
use katana.Base.{
  ℕ, ◌^◌, ◌<◌, ◌≡◌, refl, Option, none, some, List, [], ◌∷◌, ◌++◌, arith, All, append_assoc, length,
  is_some,
}
use katana.Transaction.Encode.{prime}
use katana.Storage.Table.{Table, nat_key, put}
use katana.Storage.Table.Laws.{IsAscending}
use katana.Storage.Table.Contents.{collect_some, collect_some_all}
use katana.Storage.Db.{StateUpdates}
use katana.StateDiff.{decode}
use katana.StateDiff.RoundTrip.{decode-encode}
use katana.StateDiff.Updates.{
  ContractUpdate, push_entries, push_class, encode_update, encode_updates, EncodingError, ok, felt,
  read_entries, read_class, read_update, read_updates, insert_update, missing_storage_key,
  missing_storage_value,
}

abbrev pub Small : ℕ × ℕ → Type 0
Small e = (e.0 < prime) × (e.1 < prime)

felt_small : (x : ℕ) → x < prime → felt x ≡ x
felt_small x h = omega arith

pub read_entries-push_entries :
    (no_key no_value : EncodingError) (entries acc : Table ℕ ℕ) (rest : List ℕ)
    → All Small entries
    → read_entries no_key no_value (length entries) acc (push_entries entries ++ rest)
      ≡ ok (collect_some some entries acc, rest)
unfolding read_entries push_entries collect_some
read_entries-push_entries no_key no_value [] acc rest h = refl
read_entries-push_entries no_key no_value ((k, v) ∷ entries) acc rest h =
    rw (felt_small k h.0.0, felt_small v h.0.1)
      (read_entries-push_entries no_key no_value entries (put k v acc) rest h.1)

-- An update whose metadata tells its parts, and whose numbers fit.
pub record IsReadable (u : ContractUpdate) : Type 0 where
  pub flag : u.metadata.class_information_flag ≡ is_some u.class_hash
  pub total : u.metadata.total_storage_updates ≡ length u.storage_updates
  pub nonce : (n : ℕ) → u.metadata.new_nonce ≡ some n → (0 < n) × (n < 2 ^ 64)
  pub class : (h : ℕ) → u.class_hash ≡ some h → h < prime
  pub few : length u.storage_updates < 2 ^ 64
  pub ordered : IsAscending u.storage_updates
  pub small : All Small u.storage_updates

read_class-push_class :
    (c : Option ℕ) (rest : List ℕ)
    → ((h : ℕ) → c ≡ some h → h < prime)
    → read_class (is_some c) (push_class c ++ rest) ≡ ok (c, rest)
read_class-push_class none rest h = refl
read_class-push_class (some c) rest h = rw (felt_small c (h c refl)) refl

read_update-words :
    (u : ContractUpdate) (word address : ℕ) (rest : List ℕ) (su : StateUpdates)
    → IsReadable u
    → address < prime
    → decode word ≡ u.metadata
    → read_update su
        (address ∷ word ∷ ((push_class u.class_hash ++ push_entries u.storage_updates) ++ rest))
      ≡ ok (insert_update address u.metadata.new_nonce u.class_hash u.storage_updates su, rest)
unfolding read_update
read_update-words u word address rest su v small e =
    simp
      (
        e,
        v.flag,
        v.total,
        append_assoc,
        read_class-push_class u.class_hash (push_entries u.storage_updates ++ rest) v.class,
        read_entries-push_entries missing_storage_key missing_storage_value u.storage_updates []
            rest v.small,
        collect_some_all u.storage_updates v.ordered,
        felt_small address small,
      )
      refl

-- The loop over contracts, on the contracts themselves.
unfoldable pub insert_updates : Table ℕ ContractUpdate → StateUpdates → StateUpdates
insert_updates [] su = su
insert_updates ((address, u) ∷ updates) su =
    insert_updates updates
      (insert_update address u.metadata.new_nonce u.class_hash u.storage_updates su)

abbrev pub Readable : ℕ × ContractUpdate → Type 0
Readable e = (e.0 < prime) × IsReadable e.1

-- Readable updates are encoded, and read back.
pub read_updates-encode_updates :
    (updates : Table ℕ ContractUpdate) (rest : List ℕ)
    → All Readable updates
    → (ws : List ℕ) × (encode_updates updates rest ≡ some ws)
      × ((su : StateUpdates)
          → read_updates (length updates) su ws ≡ ok (insert_updates updates su, rest))
unfolding encode_updates encode_update read_updates insert_updates
read_updates-encode_updates [] rest h = (rest, refl, λ su. refl)
read_updates-encode_updates ((address, u) ∷ updates) rest h =
    let m = decode-encode u.metadata (h.0.1.nonce, rw (h.0.1.total) h.0.1.few) in
    let r = read_updates-encode_updates updates rest h.1 in
    (
      address ∷ m.0 ∷ ((push_class u.class_hash ++ push_entries u.storage_updates) ++ r.0),
      rw (m.1, r.1) refl,
      λ su.
          rw (read_update-words u m.0 address r.0 su h.0.1 h.0.0 m.2)
            (r.2 (insert_update address u.metadata.new_nonce u.class_hash u.storage_updates su)),
    )
