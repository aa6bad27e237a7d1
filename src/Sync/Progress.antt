-- ===== src/Sync/Progress.antt =====
-- The checkpoints before and after a run of the pipeline: `run_once_until` of
-- crates/sync/pipeline/src/lib.rs.
use katana.Base.{
  ℕ, ◌≤◌, ◌<◌, ◌≡◌, ◌≢◌, refl, sym, ap, ◌∙◌, Bool, true, false, Option, none, some, List, [], ◌∷◌,
  arith, leb, ◌==◌, if◌then◌else◌, unwrap_or, any, inl, inr, Bool-cases, ◌||◌, last?,
}
use katana.Sync.Pipeline.{
  StageExecutionInput, Outcome, ok, err, panicked, Answer, answer, fault, Machine, is_last,
  run_stage, run_checked, store_checkpoint, stored_checkpoint, after_stage, run_stages,
  run_once_until,
}

-- The block that a stage has reached, as the pipeline reads its checkpoint.
abbrev pub block_of : Answer (Option ℕ) → ℕ
block_of (answer stored) = unwrap_or 0 stored
block_of (fault e) = 0

abbrev pub reached : (m : Machine) → ℕ → m.St → ℕ
reached m id s = block_of (m.checkpoint id s)

-- What the storage and the stages keep to: a stored checkpoint is read again, and those of the other
-- stages stay; a stage that runs stores none.
pub record IsSound (m : Machine) : Type 0 where
  pub stored :
      (id n : ℕ) (s s' : m.St)
      → m.set_checkpoint id n s ≡ (answer tt, s')
      → m.checkpoint id s' ≡ answer (some n)
  pub others :
      (id j n : ℕ) (s s' : m.St)
      → id ≢ j
      → m.set_checkpoint id n s ≡ (answer tt, s')
      → m.checkpoint j s' ≡ m.checkpoint j s
  pub executed :
      (id j : ℕ) (input : StageExecutionInput) (s s' : m.St)
      → m.execute id input s ≡ (answer tt, s')
      → m.checkpoint j s' ≡ m.checkpoint j s

-- A block number, raised to another one.
abbrev pub raised : ℕ → ℕ → ℕ
raised to n = if leb to n then n else to

raise_twice :
    (to x y z : ℕ) (b c : Bool)
    → y ≡ (if b then raised to x else x)
    → z ≡ (if c then raised to y else y)
    → z ≡ (if b || c then raised to x else x)
raise_twice to x y z true true h k = ground (arith, h, k)
raise_twice to x y z true false h k = k ∙ h
raise_twice to x y z false true h k = rw (← h) k
raise_twice to x y z false false h k = k ∙ h

pub any-last : (ids : List ℕ) (l : ℕ) → last? ids ≡ some l → any (λ id. id == l) ids ≡ true
any-last [] l h = cc
any-last (id ∷ []) l h = let q : id ≡ l = cc in ground arith
any-last (id ∷ i ∷ is) l h = ground (arith, any-last (i ∷ is) l h)

-- What a round of the loop over the stages returns, where its stage has reached `n` after it.
abbrev Returned : Bool → ℕ → ℕ → Option ℕ → Type 0
Returned last to n none = last ≡ true → n ≡ to
Returned last to n (some returned) = (last ≡ true) × (returned ≡ n)

module _ (m : Machine) (v : IsSound m) where
  -- A round raises the stage to the block, and leaves the others where they are.
  record Raises (to id : ℕ) (last : Bool) (s s' : m.St) (o : Option ℕ) : Type 0 where
    raises :
        (j : ℕ) → reached m j s' ≡ (if id == j then raised to (reached m j s) else reached m j s)
    returned : Returned last to (reached m id s') o

  stored-reached :
      (to id : ℕ) (last : Bool) (s t s' : m.St) (o : Option ℕ) (r : Answer (Unit {0}) × m.St)
      → reached m id s < to
      → ((j : ℕ) → m.checkpoint j t ≡ m.checkpoint j s)
      → m.set_checkpoint id to t ≡ r
      → stored_checkpoint m r ≡ (ok o, s')
      → Raises to id last s s' o
  stored-reached to id last s t s' o (fault e, u) lt k h e' = cc (ap (λ p. p.0) e')
  stored-reached to id last s t s' o (answer tt, u) lt k h e' =
      let (a, b) : (none ≡ o) × (u ≡ s') = (cc (ap (λ p. p.0) e'), ap (λ p. p.1) e') in
      let own : m.checkpoint id s' ≡ answer (some to) = v.stored id to t s' (rw (← b) h) in
      rw (← a) (record {
        raises = λ j. elim (Bool-cases (id == j)) [
          | inl e ↦ let q : id ≡ j = ground arith in rw (e, ← q, own) (ground (arith, lt))
          | inr e ↦
              rw e (ap block_of (v.others id j to t s' (λ q. ground arith) (rw (← b) h) ∙ k j))
        ];
        returned = λ l. ap block_of own;
      })

  executed-reached :
      (to id : ℕ) (last : Bool) (input : StageExecutionInput) (s s' : m.St) (o : Option ℕ)
      (r : Answer (Unit {0}) × m.St)
      → reached m id s < to
      → m.execute id input s ≡ r
      → store_checkpoint m id to r ≡ (ok o, s')
      → Raises to id last s s' o
  executed-reached to id last input s s' o (fault e, t) lt h e' = cc (ap (λ p. p.0) e')
  executed-reached to id last input s s' o (answer tt, t) lt h e' =
      stored-reached to id last s t s' o _ lt (λ j. v.executed id j input s t h) refl e'

  skip-raises :
      (to id : ℕ) (s : m.St)
      → to ≤ reached m id s
      → (j : ℕ) → reached m j s ≡ (if id == j then raised to (reached m j s) else reached m j s)
  skip-raises to id s le j = elim (Bool-cases (id == j)) [
    | inl e ↦ let q : id ≡ j = ground arith in rw (e, ← q) (ground (arith, le))
    | inr e ↦ rw e
  ]

  skip-Raises :
      (to id : ℕ) (last : Bool) (s : m.St)
      → to ≤ reached m id s
      → Raises to id last s s (if last then some (reached m id s) else none)
  skip-Raises to id true s le = record { raises = skip-raises to id s le; returned = (refl, refl) }
  skip-Raises to id false s le = record { raises = skip-raises to id s le; returned = λ l. cc }

  checked-Raises :
      (to id : ℕ) (last : Bool) (s s' : m.St) (o : Option ℕ) (r : Answer (Option ℕ))
      → m.checkpoint id s ≡ r
      → run_checked m to id last r s ≡ (ok o, s')
      → Raises to id last s s' o
  checked-Raises to id last s s' o (fault e) h e' = cc (ap (λ p. p.0) e')
  checked-Raises to id last s s' o (answer c) h e' =
      let q : reached m id s ≡ unwrap_or 0 c = ap block_of h in
      elim (Bool-cases (leb to (unwrap_or 0 c))) [
        | inl l ↦
            let k = rw l at e' in
            let (a, b) : ((if last then some (unwrap_or 0 c) else none) ≡ o) × (s ≡ s') =
              (cc (ap (λ p. p.0) k), ap (λ p. p.1) k) in
            rw (← a, ← b, ← q) (skip-Raises to id last s (ground (arith, q)))
        | inr l ↦ executed-reached to id last _ s s' o _ (ground (arith, q)) refl (rw l at e')
      ]

  run_stage-Raises :
      (to id : ℕ) (last : Bool) (s s' : m.St) (o : Option ℕ)
      → run_stage m to id last s ≡ (ok o, s')
      → Raises to id last s s' o
  unfolding run_stage
  run_stage-Raises to id last s s' o h = checked-Raises to id last s s' o _ refl h

  -- After all rounds, the stages that ran are raised to the block, and the number is what the last one has reached.
  record RaisesAll (to : ℕ) (ids : List ℕ) (n : ℕ) (s s' : m.St) : Type 0 where
    raises :
        (j : ℕ)
        → reached m j s'
          ≡ (if any (λ id. id == j) ids then raised to (reached m j s) else reached m j s)
    returned : (l : ℕ) → last? ids ≡ some l → n ≡ reached m l s'

  after_stage-RaisesAll :
      (to id : ℕ) (ids : List ℕ) (n : ℕ) (s s' : m.St) (r : Outcome (Option ℕ) × m.St)
      → run_stage m to id (is_last ids) s ≡ r
      → ((t : m.St) → run_stages m to ids t ≡ (ok n, s') → RaisesAll to ids n t s')
      → after_stage m r (run_stages m to ids) ≡ (ok n, s')
      → RaisesAll to (id ∷ ids) n s s'
  unfolding run_stages
  after_stage-RaisesAll to id ids n s s' (err e, t) h ih e' = cc (ap (λ p. p.0) e')
  after_stage-RaisesAll to id ids n s s' (panicked, t) h ih e' = cc (ap (λ p. p.0) e')
  after_stage-RaisesAll to id [] n s s' (ok (some k), t) h ih e' =
      let (a, b) : (k ≡ n) × (t ≡ s') = (cc (ap (λ p. p.0) e'), ap (λ p. p.1) e') in
      let first = run_stage-Raises to id true s t (some k) h in
      rw (← a, ← b)
        (record {
          raises = λ j. ground (arith, first.raises j);
          returned = λ l e. let q : id ≡ l = cc in rw (← q) first.returned.1;
        })
  after_stage-RaisesAll to id (i ∷ is) n s s' (ok (some k), t) h ih e' =
      cc ((run_stage-Raises to id false s t (some k) h).returned.0)
  after_stage-RaisesAll to id [] n s s' (ok none, t) h ih e' =
      let (a, b) : (to ≡ n) × (t ≡ s') = (cc (ap (λ p. p.0) e'), ap (λ p. p.1) e') in
      let first = run_stage-Raises to id true s t none h in
      rw (← a, ← b)
        (record {
          raises = λ j. ground (arith, first.raises j);
          returned = λ l e. let q : id ≡ l = cc in rw (← q) (sym (first.returned refl));
        })
  after_stage-RaisesAll to id (i ∷ is) n s s' (ok none, t) h ih e' =
      let first = run_stage-Raises to id false s t none h in
      let rest = ih t e' in
      record {
        raises = λ j. raise_twice to _ _ _ (id == j) _ (first.raises j) (rest.raises j);
        returned = rest.returned;
      }

  run_stages-RaisesAll :
      (to : ℕ) (ids : List ℕ) (n : ℕ) (s s' : m.St)
      → run_stages m to ids s ≡ (ok n, s')
      → RaisesAll to ids n s s'
  unfolding run_stages
  run_stages-RaisesAll to [] n s s' h =
      rw (← (ap (λ p. p.1) h)) (record { raises = λ j. refl; returned = λ l e. cc })
  run_stages-RaisesAll to (id ∷ ids) n s s' h =
      after_stage-RaisesAll to id ids n s s' _ refl (λ t. run_stages-RaisesAll to ids n t s') h

  -- If a run up to a block succeeds, every stage has reached that block or the one that it had reached
  -- before, whichever is higher, no other checkpoint has moved, and the number that is returned is the
  -- block that the last stage has reached.
  pub run_once_until-raises :
      (to l n : ℕ) (ids : List ℕ) (s s' : m.St)
      → last? ids ≡ some l
      → run_once_until m to ids s ≡ (ok n, s')
      → ((j : ℕ)
          → reached m j s'
            ≡ (if any (λ id. id == j) ids then raised to (reached m j s) else reached m j s))
        × (n ≡ reached m l s')
  unfolding run_once_until
  run_once_until-raises to l n [] s s' e h = cc
  run_once_until-raises to l n (id ∷ ids) s s' e h =
      let all = run_stages-RaisesAll to (id ∷ ids) n s s' h in (all.raises, all.returned l e)

  pub returned-ge :
      (to l n : ℕ) (ids : List ℕ) (s s' : m.St)
      → last? ids ≡ some l
      → run_once_until m to ids s ≡ (ok n, s')
      → to ≤ n
  returned-ge to l n ids s s' e h =
      let (raises, returned) = run_once_until-raises to l n ids s s' e h in
      ground (arith, raises l, returned, any-last ids l e)
