-- ===== src/StateDiff/UpdateTests.antt =====
-- Runs of the state diff encoding of crates/primitives/src/da/encoding.rs.
use katana.Base.{ℕ, ◌≡◌, refl, some, none, List, [], ◌∷◌, ◌^◌, ◌+◌, arith}
use katana.Storage.Table.{get, put, nat_key}
use katana.Storage.Db.{StateUpdates}
use katana.StateDiff.{encode, decode, leading_bits}
use katana.StateDiff.Updates.{
  contract_updates, encode_state_updates, decode_state_updates, encode_updates, encode_update,
  push_entries, write_all, read_updates, read_update, read_entries, read_declarations, to_usize, ok,
  err, missing_storage_value, invalid_value,
}
use katana.StateDiff.Complete.{IsEncodable, decode_state_updates-encode_state_updates}

-- Contract 7 has a nonce and a storage update, contract 9 is deployed, and a class is declared.
abbrev updates : StateUpdates
updates = record {
  nonce_updates = (7, 1) ∷ [];
  storage_updates = (7, (100, 200) ∷ []) ∷ [];
  deployed_contracts = (9, 30) ∷ [];
  declared_classes = (40, 41) ∷ [];
  deprecated_declared_classes = 5 ∷ [];
  replaced_classes = (7, 31) ∷ [];
}

encode_updates_words :
    encode_state_updates updates
    ≡ some (2 ∷ 7 ∷ (2 ^ 64 + 1) ∷ 100 ∷ 200 ∷ 9 ∷ (2 ^ 128) ∷ 30 ∷ 1 ∷ 40 ∷ 41 ∷ [])
unfolding encode_state_updates contract_updates write_all get put encode_updates encode_update
    encode push_entries
encode_updates_words = refl

-- The words end within an entry.
decode-cut_off : decode_state_updates (1 ∷ 7 ∷ 1 ∷ 100 ∷ []) ≡ err missing_storage_value
unfolding decode_state_updates read_updates read_update read_entries decode leading_bits put
    to_usize
decode-cut_off = refl

-- A number of contracts of 65 bits.
decode-too_many : decode_state_updates (2 ^ 64 ∷ []) ≡ err invalid_value
unfolding decode_state_updates to_usize
decode-too_many = refl

updates-IsEncodable : IsEncodable updates
updates-IsEncodable = record {
  nonces = (tt, tt);
  nonces_fit = (omega arith, tt);
  storages = (tt, tt);
  storages_fit = (
    (
      omega arith,
      record {
        ordered = (tt, tt);
        small = (omega arith, tt);
        some_entry = omega arith;
        few = omega arith;
      },
    ),
    tt,
  );
  contracts = (tt, tt);
  contracts_fit = (omega arith, tt);
  classes = (tt, tt);
  classes_fit = (omega arith, tt);
  few_contracts = omega arith;
  few_classes = omega arith;
}

decode_state_updates-encode_state_updates_example :
    (ws : List ℕ) × (encode_state_updates updates ≡ some ws)
    × (decode_state_updates ws
        ≡ ok (record updates { deprecated_declared_classes = []; replaced_classes = [] }))
decode_state_updates-encode_state_updates_example =
    decode_state_updates-encode_state_updates updates updates-IsEncodable

abbrev no_change : StateUpdates
no_change = record {
  nonce_updates = [];
  storage_updates = [];
  deployed_contracts = [];
  declared_classes = [];
  deprecated_declared_classes = [];
  replaced_classes = [];
}

-- A nonce update to zero reads as none, an empty map of storage updates too, and a nonce of 65 bits is a panic.
zero_nonce-lost :
    (encode_state_updates (record no_change { nonce_updates = (7, 0) ∷ [] })
      ≡ some (1 ∷ 7 ∷ 0 ∷ 0 ∷ []))
    × (decode_state_updates (1 ∷ 7 ∷ 0 ∷ 0 ∷ []) ≡ ok no_change)
unfolding encode_state_updates contract_updates write_all get put encode_updates encode_update
    encode push_entries decode_state_updates read_updates read_update read_entries decode
    leading_bits to_usize read_declarations
zero_nonce-lost = (refl, refl)

empty_storage-lost :
    encode_state_updates (record no_change { storage_updates = (7, []) ∷ [] })
    ≡ encode_state_updates (record no_change { nonce_updates = (7, 0) ∷ [] })
unfolding encode_state_updates contract_updates write_all get put encode_updates encode_update
    encode push_entries
empty_storage-lost = refl

wide_nonce-panics :
    encode_state_updates (record no_change { nonce_updates = (7, 2 ^ 64) ∷ [] }) ≡ none
unfolding encode_state_updates contract_updates write_all get put encode_updates encode_update
    encode push_entries
wide_nonce-panics = refl
