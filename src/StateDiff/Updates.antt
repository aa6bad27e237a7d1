-- ===== src/StateDiff/Updates.antt =====
-- Whole state updates as words of a state diff: `encode_state_updates` and `decode_state_updates` of
-- crates/primitives/src/da/encoding.rs. A BTreeMap is the table of its entries.
use katana.Base.{
  ℕ, zero, suc, ◌%◌, ◌^◌, Bool, true, false, Option, none, some, List, [], ◌∷◌, ◌++◌, ltb, length,
  unwrap_or,
}
use katana.Transaction.Encode.{prime}
use katana.Storage.Table.{Table, nat_key, get, put}
use katana.Storage.Table.Contents.{insert_some}
use katana.Storage.Db.{StateUpdates}
use katana.StateDiff.{Metadata, encode, decode}

pub record ContractUpdate : Type 0 where
  pub metadata : Metadata
  pub class_hash : Option ℕ
  pub storage_updates : Table ℕ ℕ

abbrev pub default : ContractUpdate
default = record {
  metadata = record { class_information_flag = false; new_nonce = none; total_storage_updates = 0 };
  class_hash = none;
  storage_updates = [];
}

-- `entry(address).or_default()`, and what is then written into the entry.
abbrev pub on_entry :
    ℕ → (ContractUpdate → ContractUpdate) → Table ℕ ContractUpdate → Table ℕ ContractUpdate
on_entry address write updates =
    put address (write (unwrap_or default (get address updates))) updates

abbrev pub write_nonce : ℕ → ContractUpdate → ContractUpdate
write_nonce nonce entry = record entry {
  metadata = record (entry.metadata) { new_nonce = some nonce };
}

abbrev pub write_class : ℕ → ContractUpdate → ContractUpdate
write_class class_hash entry = record entry {
  metadata = record (entry.metadata) { class_information_flag = true };
  class_hash = some class_hash;
}

abbrev pub write_storage : Table ℕ ℕ → ContractUpdate → ContractUpdate
write_storage storages entry = record entry {
  metadata = record (entry.metadata) { total_storage_updates = length storages };
  storage_updates = storages;
}

-- A loop that writes a map's values into the entries of its keys.
unfoldable pub write_all :
    {V : Type 0}
    → (V → ContractUpdate → ContractUpdate)
    → Table ℕ V
    → Table ℕ ContractUpdate
    → Table ℕ ContractUpdate
write_all write [] updates = updates
write_all write ((address, v) ∷ entries) updates =
    write_all write entries (on_entry address (write v) updates)

unfoldable pub contract_updates : StateUpdates → Table ℕ ContractUpdate
contract_updates value =
    write_all write_storage value.storage_updates (
      write_all write_class value.deployed_contracts (write_all write_nonce value.nonce_updates []))

-- The words of a map: each key and its value.
unfoldable pub push_entries : Table ℕ ℕ → List ℕ
push_entries [] = []
push_entries ((key, value) ∷ entries) = key ∷ value ∷ push_entries entries

abbrev pub push_class : Option ℕ → List ℕ
push_class none = []
push_class (some class_hash) = class_hash ∷ []

-- What an update pushes to the buffer, or `none` where its metadata panics.
abbrev pub after_metadata : Option ℕ → List ℕ → Option (List ℕ)
after_metadata none words = none
after_metadata (some word) words = some (word ∷ words)

unfoldable pub encode_update : ContractUpdate → Option (List ℕ)
encode_update update =
    after_metadata (encode update.metadata)
      (push_class update.class_hash ++ push_entries update.storage_updates)

abbrev pub push_update : ℕ → Option (List ℕ) → Option (List ℕ) → Option (List ℕ)
push_update address (some words) (some rest) = some (address ∷ (words ++ rest))
push_update address (some words) none = none
push_update address none rest = none

-- The updates of the contracts, followed by `rest`.
unfoldable pub encode_updates : Table ℕ ContractUpdate → List ℕ → Option (List ℕ)
encode_updates [] rest = some rest
encode_updates ((address, update) ∷ updates) rest =
    push_update address (encode_update update) (encode_updates updates rest)

abbrev pub with_count : ℕ → Option (List ℕ) → Option (List ℕ)
with_count count none = none
with_count count (some words) = some (count ∷ words)

unfoldable pub encode_state_updates : StateUpdates → Option (List ℕ)
encode_state_updates value =
    let updates = contract_updates value in
    with_count (length updates)
      (encode_updates updates (length value.declared_classes ∷ push_entries value.declared_classes))

-- The variants that decoding gives. `ParseInt` and `InvalidMetadata` do not occur, since the digits
-- of a number in base 2 are at least 256, and 0 or 1.
pub data EncodingError : Type 0 where
  missing_updates_count missing_declarations_count missing_address : EncodingError
  missing_metadata missing_storage_key missing_storage_value : EncodingError
  missing_new_class_hash missing_class_hash missing_compiled_class_hash : EncodingError
  invalid_value : EncodingError

pub data DecodeResult (A : Type 0) : Type 0 where
  ok : A → DecodeResult A
  err : EncodingError → DecodeResult A

module _ {A B : Type 0} where
  infixl 1 ◌>>=◌
  abbrev pub ◌>>=◌ : DecodeResult A → (A → DecodeResult B) → DecodeResult B
  ok a >>= f = f a
  err e >>= f = err e

-- `iter.next().ok_or(..)`, with the words that the iterator has left.
abbrev pub next : EncodingError → List ℕ → DecodeResult (ℕ × List ℕ)
next e [] = err e
next e (word ∷ words) = ok (word, words)

-- `Felt::from`.
abbrev pub felt : ℕ → ℕ
felt word = word % prime

unfoldable pub to_usize : ℕ → DecodeResult ℕ
to_usize word = elim (ltb word (2 ^ 64)) [ true ↦ ok word | false ↦ err invalid_value ]

-- A loop that reads `rounds` keys and values into a map; the errors are those for a key and for a value.
unfoldable pub read_entries :
    EncodingError → EncodingError → ℕ → Table ℕ ℕ → List ℕ → DecodeResult (Table ℕ ℕ × List ℕ)
read_entries no_key no_value zero entries words = ok (entries, words)
read_entries no_key no_value (suc rounds) entries words = do
  (key, words) ← next no_key words
  (value, words) ← next no_value words
  read_entries no_key no_value rounds (put (felt key) (felt value) entries) words

abbrev pub read_class : Bool → List ℕ → DecodeResult (Option ℕ × List ℕ)
read_class false words = ok (none, words)
read_class true words = do
  (hash, words) ← next missing_new_class_hash words
  ok (some (felt hash), words)

abbrev pub insert_storages : ℕ → Table ℕ ℕ → Table ℕ (Table ℕ ℕ) → Table ℕ (Table ℕ ℕ)
insert_storages address [] t = t
insert_storages address (e ∷ storages) t = put address (e ∷ storages) t

abbrev pub insert_update : ℕ → Option ℕ → Option ℕ → Table ℕ ℕ → StateUpdates → StateUpdates
insert_update address nonce class_hash storages updates = record updates {
  storage_updates = insert_storages address storages updates.storage_updates;
  nonce_updates = insert_some address nonce updates.nonce_updates;
  deployed_contracts = insert_some address class_hash updates.deployed_contracts;
}

-- A round of the loop over the contracts.
unfoldable pub read_update : StateUpdates → List ℕ → DecodeResult (StateUpdates × List ℕ)
read_update updates words = do
  (address, words) ← next missing_address words
  (word, words) ← next missing_metadata words
  (class_hash, words) ← read_class (decode word).class_information_flag words
  (storages, words) ←
      read_entries missing_storage_key missing_storage_value (decode word).total_storage_updates []
        words
  ok (insert_update (felt address) (decode word).new_nonce class_hash storages updates, words)

unfoldable pub read_updates : ℕ → StateUpdates → List ℕ → DecodeResult (StateUpdates × List ℕ)
read_updates zero updates words = ok (updates, words)
read_updates (suc rounds) updates words = do
  (updates, words) ← read_update updates words
  read_updates rounds updates words

abbrev pub no_updates : StateUpdates
no_updates = record {
  nonce_updates = [];
  storage_updates = [];
  deployed_contracts = [];
  declared_classes = [];
  deprecated_declared_classes = [];
  replaced_classes = [];
}

-- The class declarations, which come after the contracts.
unfoldable pub read_declarations : StateUpdates → List ℕ → DecodeResult StateUpdates
read_declarations updates words = do
  (count, words) ← next missing_declarations_count words
  total ← to_usize count
  (classes, words) ←
      read_entries missing_class_hash missing_compiled_class_hash total updates.declared_classes
        words
  ok (record updates { declared_classes = classes })

unfoldable pub decode_state_updates : List ℕ → DecodeResult StateUpdates
decode_state_updates [] = ok no_updates
decode_state_updates (count ∷ words) = do
  total ← to_usize count
  (updates, words) ← read_updates total no_updates words
  read_declarations updates words
