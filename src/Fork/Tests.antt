-- ===== src/Fork/Tests.antt =====
-- A backend of a fork at work: crates/storage/fork/src/lib.rs.
use katana.Base.{ℕ, ◌+◌, ◌≤◌, ◌≡◌, ◌≢◌, ◌==◌, refl, false, none, some, List, [], ◌∷◌, All, length}
use katana.Fork.Backend.{
  Backend, BackendRequest, nonce, storage, BackendRequestIdentifier, nonce_id, class_id,
  class_hash_id, storage_id, Network, ok, err, Wake, Step, goes_on, yields, turn, new_inner,
  nonce_response, storage_response, starknet_provider, poll_pending,
}
use katana.Pool.Notify.{swap_remove}
use katana.Fork.Serves.{Any, Weight, answered, asked, FromNetwork, pending_keys}
use katana.Fork.Polls.{AnswersAll}
use katana.Fork.Client.{Reads, Runs-Reads}
use katana.Fork.Runs.{Runs, starts, turns, occurrences, Runs-conserve, turn-answers}

abbrev silent : Network ℕ ℕ ℕ
silent = record {
  get_nonce = λ block a. none;
  get_storage_at = λ a k block. none;
  get_class_hash_at = λ block a. none;
  get_class = λ block h. none;
}

abbrev live : Network ℕ ℕ ℕ
live = record {
  get_nonce = λ block a. some (ok (block + a));
  get_storage_at = λ a k block. some (err 404);
  get_class_hash_at = λ block a. some (ok 6);
  get_class = λ block h. some (ok 9);
}

abbrev three : List BackendRequest
three =
    nonce (record { payload = 7; sender = 1 })
    ∷ storage (record { payload = (7, 0); sender = 2 })
    ∷ nonce (record { payload = 7; sender = 3 })
    ∷ []

abbrev arrival : Wake ℕ ℕ ℕ
arrival = record { incoming = three; closed = false; network = silent }

abbrev quiet : Wake ℕ ℕ ℕ
quiet = record { incoming = []; closed = false; network = silent }

abbrev reply : Wake ℕ ℕ ℕ
reply = record { incoming = []; closed = false; network = live }

abbrev after_turn : Wake ℕ ℕ ℕ → Backend ℕ ℕ ℕ → Backend ℕ ℕ ℕ
after_turn w b = elim (turn w b) [ none ↦ b | some (s, b') ↦ b' ]

abbrev first : Backend ℕ ℕ ℕ
first = new_inner 5

-- Three requests come in, and wait for two calls.
abbrev received : Backend ℕ ℕ ℕ
received = after_turn arrival first

abbrev called : Backend ℕ ℕ ℕ
called = after_turn quiet received

called-shares : (length called.pending_requests ≡ 2) × (pending_keys (nonce_id 7) called ≡ 1)
unfolding poll_pending swap_remove
called-shares = (refl, refl)

abbrev replied : Backend ℕ ℕ ℕ
replied = after_turn reply called

replied-sent :
    replied.sent
    ≡ record { key = nonce_id 7; sender = 1; response = nonce_response (ok 12) }
      ∷ record { key = nonce_id 7; sender = 3; response = nonce_response (ok 12) }
      ∷ record {
        key = storage_id (7, 0);
        sender = 2;
        response = storage_response (err (starknet_provider 404));
      }
      ∷ []
unfolding poll_pending swap_remove
replied-sent = refl

called-Runs : Runs 5 three (silent ∷ silent ∷ []) called
unfolding poll_pending swap_remove
called-Runs = turns (turns starts arrival goes_on received refl) quiet yields called refl

Runs-conserve_example :
    ((v : Weight) → occurrences v called ≡ asked v three)
    × ((k : BackendRequestIdentifier) → pending_keys k called ≤ 1)
    × All (FromNetwork (silent ∷ silent ∷ []) 5) called.sent
    × ((w : Wake ℕ ℕ ℕ) → turn w called ≢ none)
Runs-conserve_example = Runs-conserve 5 three (silent ∷ silent ∷ []) called called-Runs

live-AnswersAll : AnswersAll 5 live
live-AnswersAll (nonce_id a) = (_, refl)
live-AnswersAll (class_id h) = (_, refl)
live-AnswersAll (class_hash_id a) = (_, refl)
live-AnswersAll (storage_id k) = (_, refl)

turn-answers_example :
    (s : Step ℕ ℕ ℕ) × (b' : Backend ℕ ℕ ℕ) × (turn reply called ≡ some (s, b'))
    × ((v : Weight) → answered v b'.sent ≡ asked v three)
turn-answers_example =
    turn-answers 5 three (silent ∷ silent ∷ []) called reply called-Runs refl live-AnswersAll

replied-Runs : Runs 5 three (live ∷ silent ∷ silent ∷ []) replied
unfolding poll_pending swap_remove
replied-Runs = turns called-Runs reply yields replied refl

Runs-Reads_example :
    All
      (λ d.
        Any
          (Reads (λ e. e == 404) (λ e. false) (λ (c : ℕ). ok c) 5 d.key d.response)
          (live ∷ silent ∷ silent ∷ []))
      replied.sent
Runs-Reads_example =
    Runs-Reads (λ e. e == 404) (λ e. false) (λ (c : ℕ). ok c) 5 three (live ∷ silent ∷ silent ∷ [])
      replied replied-Runs
