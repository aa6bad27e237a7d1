-- ===== src/Events/Filter.antt =====
-- The event filter: `Filter` and `FilteredEvents` of crates/rpc/rpc/src/utils/events.rs.
use katana.Base.{
  ℕ, suc, ◌≡◌, refl, ◌⊎◌, inl, inr, ◌↔◌, Bool, true, false, ◌&&◌, ◌||◌, Option, none, some, List,
  [], ◌∷◌, arith, ltb, ◌==◌, any, get_elem?, length, retain, unwrap_or, Bool-cases,
}

pub record Event : Type 0 where
  pub from_address : ℕ
  pub keys : List ℕ
  pub payload : List ℕ

pub record Filter : Type 0 where
  pub address : Option ℕ
  pub keys : Option (List (List ℕ))

abbrev is_empty : List ℕ → Bool
is_empty [] = true
is_empty (k ∷ ks) = false

abbrev contains : List ℕ → ℕ → Bool
contains ks k = any (λ x. x == k) ks

-- The closure of `filters.iter().enumerate().all(..)` at position `i`.
unfoldable key_allowed : List ℕ → ℕ → List ℕ → Bool
key_allowed event_keys i keys =
    ltb i (length event_keys)
    && (is_empty keys || contains keys (unwrap_or 0 (get_elem? event_keys i)))

unfoldable keys_allowed : List ℕ → ℕ → List (List ℕ) → Bool
keys_allowed event_keys i [] = true
keys_allowed event_keys i (keys ∷ filters) =
    key_allowed event_keys i keys && keys_allowed event_keys (suc i) filters

abbrev keys_matched : Option (List (List ℕ)) → Event → Bool
keys_matched none event = true
keys_matched (some filters) event = keys_allowed event.keys 0 filters

abbrev address_matched : Option ℕ → Event → Bool
address_matched none event = true
address_matched (some a) event = a == event.from_address

unfoldable pub is_matched : Filter → Event → Bool
unfolding key_allowed keys_allowed
is_matched filter event = address_matched filter.address event && keys_matched filter.keys event

-- What the iterator `FilteredEvents` yields.
unfoldable pub filtered_events : Filter → List Event → List Event
filtered_events filter events = retain (is_matched filter) events

-- The address is the one asked for, if any is.
abbrev pub IsFrom : Option ℕ → ℕ → Type 0
IsFrom none sender = Unit
IsFrom (some a) sender = a ≡ sender

abbrev pub Contains : List ℕ → ℕ → Type 0
Contains [] k = ⊥
Contains (x ∷ xs) k = (x ≡ k) ⊎ Contains xs k

-- Position by position, an event key is among the keys asked for, where no keys mean any.
abbrev pub KeysMatch : List (List ℕ) → List ℕ → Type 0
KeysMatch [] event_keys = Unit
KeysMatch (keys ∷ filters) [] = ⊥
KeysMatch (keys ∷ filters) (k ∷ event_keys) =
    ((keys ≡ []) ⊎ Contains keys k) × KeysMatch filters event_keys

abbrev pub OptKeysMatch : Option (List (List ℕ)) → List ℕ → Type 0
OptKeysMatch none event_keys = Unit
OptKeysMatch (some filters) event_keys = KeysMatch filters event_keys

Contains→contains : (xs : List ℕ) (k : ℕ) → Contains xs k → contains xs k ≡ true
Contains→contains [] k h = absurd h
Contains→contains (x ∷ xs) k (inl e) = ground arith
Contains→contains (x ∷ xs) k (inr h) = ground (arith, Contains→contains xs k h)

contains→Contains : (xs : List ℕ) (k : ℕ) → contains xs k ≡ true → Contains xs k
contains→Contains [] k h = cc
contains→Contains (x ∷ xs) k h = elim (Bool-cases (x == k)) [
  | inl e ↦ inl (ground arith)
  | inr e ↦ inr (contains→Contains xs k (ground arith))
]

-- One more key in front of the event moves every position by one.
keys_allowed-cons :
    (k : ℕ) (ks : List ℕ) (i : ℕ) (fs : List (List ℕ))
    → keys_allowed (k ∷ ks) (suc i) fs ≡ keys_allowed ks i fs
unfolding keys_allowed key_allowed
keys_allowed-cons k ks i [] = refl
keys_allowed-cons k ks i (f ∷ fs) = ground (arith, keys_allowed-cons k ks (suc i) fs)

key→ :
    (keys : List ℕ) (k : ℕ)
    → (is_empty keys || contains keys k) ≡ true
    → (keys ≡ []) ⊎ Contains keys k
key→ [] k h = inl refl
key→ (x ∷ xs) k h = inr (contains→Contains (x ∷ xs) k h)

key← :
    (keys : List ℕ) (k : ℕ)
    → (keys ≡ []) ⊎ Contains keys k
    → (is_empty keys || contains keys k) ≡ true
key← [] k h = refl
key← (x ∷ xs) k (inl e) = cc
key← (x ∷ xs) k (inr h) = Contains→contains (x ∷ xs) k h

keys→ : (fs : List (List ℕ)) (ks : List ℕ) → keys_allowed ks 0 fs ≡ true → KeysMatch fs ks
unfolding keys_allowed key_allowed
keys→ [] ks h = tt
keys→ (f ∷ fs) [] h = ground arith
keys→ (f ∷ fs) (k ∷ ks) h =
    (key→ f k (ground arith), keys→ fs ks (ground (arith, keys_allowed-cons k ks 0 fs)))

keys← : (fs : List (List ℕ)) (ks : List ℕ) → KeysMatch fs ks → keys_allowed ks 0 fs ≡ true
unfolding keys_allowed key_allowed
keys← [] ks h = refl
keys← (f ∷ fs) [] h = absurd h
keys← (f ∷ fs) (k ∷ ks) h =
    ground (arith, key← f k h.0, keys← fs ks h.1, keys_allowed-cons k ks 0 fs)

matched→ :
    (a : Option ℕ) (fs : Option (List (List ℕ))) (e : Event)
    → is_matched (record { address = a; keys = fs }) e ≡ true
    → IsFrom a e.from_address × OptKeysMatch fs e.keys
unfolding is_matched
matched→ none none e h = (tt, tt)
matched→ none (some fs) e h = (tt, keys→ fs e.keys h)
matched→ (some a) none e h = (ground arith, tt)
matched→ (some a) (some fs) e h = (ground arith, keys→ fs e.keys (ground arith))

matched← :
    (a : Option ℕ) (fs : Option (List (List ℕ))) (e : Event)
    → IsFrom a e.from_address × OptKeysMatch fs e.keys
    → is_matched (record { address = a; keys = fs }) e ≡ true
unfolding is_matched
matched← none none e h = refl
matched← none (some fs) e h = keys← fs e.keys h.1
matched← (some a) none e h = ground arith
matched← (some a) (some fs) e h = ground (arith, keys← fs e.keys h.1)

-- An event passes the filter exactly when it is from the address asked for (if one is given) and
-- each filter position lists no key at all or the event's key at that position.
pub is_matched_iff :
    (filter : Filter) (e : Event)
    → (is_matched filter e ≡ true)
      ↔ (IsFrom filter.address e.from_address × OptKeysMatch filter.keys e.keys)
is_matched_iff filter e =
    (matched→ filter.address filter.keys e, matched← filter.address filter.keys e)
