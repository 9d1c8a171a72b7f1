-- ===== src/RunService/Chain.antt =====
-- The event log of each run is a hash chain: what `_append_event` keeps, and what the validation of
-- a snapshot accepts.
use mathlib.Core.List.{append-nil}
use sacm_agent_runtime.Base.{
  Bool-cases, Key, List, Option, String, [], arith, inl, inr, leb, length, none, order_by, refl,
  same_refl, select, select-append, some, suc, sym, true, ℕ, ◌++◌, ◌+◌, ◌==◌, ◌∷◌, ◌≡◌, ◌≤◌,
}
use sacm_agent_runtime.Model.{Env, EventPayload, Payload, Run, RuntimeEvent, Store}
use sacm_agent_runtime.RunService.Events.{
  append_event, check_chain, event_after, hash_of, last_event, latest, of_run,
}

pub same_run : {r : Key} (b : EventPayload) → b.run_id ≡ r → record b { run_id = r } ≡ b
same_run b h = λ i. record b { run_id = sym h i }

module _ (env : Env) (run_id : Key) where
  -- Events numbered from `n` on, each with the hash of the one before and its own hash.
  abbrev pub IsChain : ℕ → Option Key → List RuntimeEvent → Type 0
  IsChain n previous [] = Unit
  IsChain n previous (e ∷ es) =
      (e.run_id ≡ run_id)
      × (e.sequence ≡ n)
      × (e.previous_event_hash ≡ previous)
      × (e.event_hash ≡ env.event_digest e.body)
      × IsChain (n + 1) (some e.event_hash) es

  abbrev pub end_hash : Option Key → List RuntimeEvent → Option Key
  end_hash previous [] = previous
  end_hash previous (e ∷ es) = end_hash (some e.event_hash) es

  IsChain-append :
      (n : ℕ) (previous : Option Key) (es : List RuntimeEvent) (y : RuntimeEvent)
      → IsChain n previous es
      → y.run_id ≡ run_id
      → y.sequence ≡ n + length es
      → y.previous_event_hash ≡ end_hash previous es
      → y.event_hash ≡ env.event_digest y.body
      → IsChain n previous (es ++ y ∷ [])
  IsChain-append n previous [] y c r s p h = (r, omega arith, p, h, tt)
  IsChain-append n previous (e ∷ es) y c r s p h =
      (c.0, c.1, c.2, c.3, IsChain-append (n + 1) (some e.event_hash) es y c.4 r (omega arith) p h)

  -- In a chain the last event has the greatest number.
  pub last_sequence :
      (n : ℕ) (previous : Option Key) (e : RuntimeEvent) (es : List RuntimeEvent)
      → IsChain n previous (e ∷ es)
      → (f : RuntimeEvent) × (last_event env (e ∷ es) ≡ some f)
        × (f.sequence ≡ n + length es)
        × (hash_of (some f) ≡ end_hash (some e.event_hash) es)
  last_sequence n previous e [] c = (e, refl, omega arith, refl)
  last_sequence n previous e (g ∷ es) c =
      let (f, is_last, number, hash) = last_sequence (n + 1) (some e.event_hash) g es c.4 in
      (f, is_last, omega arith, hash)

  pub latest-chain :
      (n : ℕ) (previous : Option Key) (es : List RuntimeEvent)
      → IsChain n previous es
      → latest run_id es ≡ last_event env es
  unfolding latest
  latest-chain n previous [] c = refl
  latest-chain n previous (e ∷ []) c = ground arith
  latest-chain n previous (e ∷ g ∷ es) c =
      let (f, is_last, number, hash) = last_sequence (n + 1) (some e.event_hash) g es c.4 in
      ground (arith, latest-chain (n + 1) (some e.event_hash) (g ∷ es) c.4)

  pub order_by-chain :
      (n : ℕ) (previous : Option Key) (es : List RuntimeEvent)
      → IsChain n previous es
      → order_by (λ e. e.sequence) es ≡ es
  order_by-chain n previous [] c = refl
  order_by-chain n previous (e ∷ []) c = refl
  order_by-chain n previous (e ∷ g ∷ es) c =
      rw (order_by-chain (n + 1) (some e.event_hash) (g ∷ es) c.4) (ground arith)

  pub check_chain-chain :
      (n : ℕ) (previous : Option Key) (es : List RuntimeEvent)
      → IsChain n previous es
      → check_chain env run_id n previous es ≡ true
  unfolding check_chain
  check_chain-chain n previous [] c = refl
  check_chain-chain n previous (e ∷ es) c = ground (
    arith,
    same_run e.body c.0,
    same_refl previous,
    check_chain-chain (n + 1) (some e.event_hash) es c.4,
  )

  -- All the numbers of a chain are at most the last one.
  pub select_up_to :
      (n : ℕ) (previous : Option Key) (es : List RuntimeEvent) (m : ℕ)
      → IsChain n previous es
      → n + length es ≤ suc m
      → select (λ e. leb e.sequence m) es ≡ es
  select_up_to n previous [] m c h = refl
  select_up_to n previous (e ∷ es) m c h =
      ground (arith, select_up_to (n + 1) (some e.event_hash) es m c.4)

module _ (env : Env) where
  -- Every run's events, in the order in which they were written, are a chain from number 1.
  pub record IsLogged (events : List RuntimeEvent) : Type 0 where
    pub chain : (run_id : Key) → IsChain env run_id 1 none (select (of_run run_id) events)

  pub latest-select :
      (run_id : Key) (events : List RuntimeEvent)
      → latest run_id events ≡ latest run_id (select (of_run run_id) events)
  unfolding latest
  latest-select run_id [] = refl
  latest-select run_id (e ∷ es) = ground (arith, latest-select run_id es)

  next_event-IsChain :
      (run_id : Key) (es : List RuntimeEvent) (event_type actor : String) (payload : Payload)
      (step_id : Option Key)
      → IsChain env run_id 1 none es
      → IsChain env run_id 1 none
          (es ++ event_after env (last_event env es) run_id event_type actor payload step_id ∷ [])
  next_event-IsChain run_id [] event_type actor payload step_id c = (refl, refl, refl, refl, tt)
  next_event-IsChain run_id (e ∷ es) event_type actor payload step_id c =
      let (f, is_last, number, hash) = last_sequence env run_id 1 none e es c in
      rw is_last (
        IsChain-append env run_id 1 none (e ∷ es)
          (event_after env (some f) run_id event_type actor payload step_id) c refl (omega arith)
          hash refl)

  -- Appending an event keeps the log of every run a hash chain, of the run that it is about and of
  -- all others.
  pub append_event-IsLogged :
      (run : Run) (event_type actor : String) (payload : Payload) (step_id : Option Key) (s : Store)
      → IsLogged s.events
      → IsLogged (append_event env run event_type actor payload step_id s).events
  unfolding append_event
  append_event-IsLogged run event_type actor payload step_id s v = record {
    chain = λ r.
        let y = event_after env (latest run.id s.events) run.id event_type actor payload step_id in
        rw (select-append (of_run r) s.events y) (elim (Bool-cases (run.id == r)) [
          | inl e ↦
              let same_id : run.id ≡ r = ground arith in
              rw e (
                rw (latest-select run.id s.events) (
                  rw same_id (
                    rw (latest-chain env r 1 none (select (of_run r) s.events) (v.chain r)) (
                      next_event-IsChain r (select (of_run r) s.events) event_type actor payload
                        step_id (v.chain r)))))
          | inr e ↦ rw e (rw append-nil (v.chain r))
        ]);
  }
