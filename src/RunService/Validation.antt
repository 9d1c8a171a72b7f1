-- ===== src/RunService/Validation.antt =====
-- `_validate_event_chain` accepts exactly the hash chains.
use sacm_agent_runtime.Base.{
  ==_iff, Key, List, Option, [], ap, arith, every, every-order_by, every-select, leb, length, none,
  ok, order_by, select, select-and, some, sym, true, ℕ, ◌&&◌, ◌+◌, ◌∙◌, ◌∷◌, ◌≡◌,
}
use sacm_agent_runtime.Model.{Env, RuntimeEvent}
use sacm_agent_runtime.RunService.Events.{
  anchored, check_chain, last_event, latest, of_run, validate_event_chain,
}
use sacm_agent_runtime.RunService.Chain.{
  IsChain, IsLogged, check_chain-chain, end_hash, last_sequence, latest-chain, latest-select,
  order_by-chain, same_run, select_up_to,
}

-- the events that the validation reads
abbrev pub read_events : Key → ℕ → List RuntimeEvent → List RuntimeEvent
read_events run_id sequence events =
    order_by (λ e. e.sequence) (select (λ e. of_run run_id e && leb e.sequence sequence) events)

module _ (env : Env) (run_id : Key) where
  read_all :
      (events : List RuntimeEvent) (m : ℕ)
      → IsLogged env events
      → length (select (of_run run_id) events) ≡ m
      → read_events run_id m events ≡ select (of_run run_id) events
  read_all events m v h =
      let own = select (of_run run_id) events in
      rw (select-and (of_run run_id) (λ e. leb e.sequence m) events) (
        rw (select_up_to env run_id 1 none own m (v.chain run_id) (omega arith))
          (order_by-chain env run_id 1 none own (v.chain run_id)))

  accepts :
      (own : List RuntimeEvent) (f : RuntimeEvent)
      → IsChain env run_id 1 none own
      → last_event env own ≡ some f
      → length own ≡ f.sequence
  accepts [] f c h = cc
  accepts (e ∷ es) f c h =
      let (g, is_last, number, hash) = last_sequence env run_id 1 none e es c in
      let same_event : g ≡ f = cc (is_last, h) in
      let same_number : g.sequence ≡ f.sequence =
        ap (λ (x : RuntimeEvent). x.sequence) same_event in
      omega arith

  -- Whatever a service has appended, the log validates against its newest event, which is the one
  -- that a snapshot records.
  pub validate_event_chain-latest :
      (events : List RuntimeEvent) (f : RuntimeEvent)
      → IsLogged env events
      → latest run_id events ≡ some f
      → validate_event_chain env run_id f.sequence f.event_hash events ≡ ok tt
  unfolding validate_event_chain
  validate_event_chain-latest events f v h =
      let own = select (of_run run_id) events in
      let is_last : last_event env own ≡ some f =
        sym (latest-chain env run_id 1 none own (v.chain run_id))
        ∙ (sym (latest-select env run_id events) ∙ h) in
      let count : length own ≡ f.sequence = accepts own f (v.chain run_id) is_last in
      rw (read_all events f.sequence v count)
        (ground (arith, check_chain-chain env run_id 1 none own (v.chain run_id)))

  IsChain-check_chain :
      (n : ℕ) (previous : Option Key) (es : List RuntimeEvent)
      → every (of_run run_id) es ≡ true
      → check_chain env run_id n previous es ≡ true
      → IsChain env run_id n previous es
  unfolding check_chain
  IsChain-check_chain n previous [] o h = tt
  IsChain-check_chain n previous (e ∷ es) o h =
      let own : e.run_id ≡ run_id = ground arith in
      (
        own,
        ground arith,
        ground arith,
        ground (arith, same_run e.body own),
        IsChain-check_chain (n + 1) (some e.event_hash) es (ground arith) (ground arith),
      )

  anchor_end :
      (sequence hash : Key) (es : List RuntimeEvent)
      → IsChain env run_id 1 none es
      → anchored env sequence hash (last_event env es) ≡ true
      → end_hash env run_id none es ≡ some hash
  anchor_end sequence hash [] c h = cc
  anchor_end sequence hash (e ∷ es) c h =
      let (f, is_last, number, end) = last_sequence env run_id 1 none e es c in
      sym end ∙ ap some ((==_iff f.event_hash hash).0 (ground arith))

  -- If the validation accepts a log, then the events that it has read are all the events of the
  -- run up to the anchor: as many as the anchor's number says, numbered from 1 without a gap, each
  -- with the digest of its own content and the hash of the one before, the last with the anchor's
  -- hash.
  pub validate_event_chain_sound :
      (sequence hash : Key) (events : List RuntimeEvent)
      → validate_event_chain env run_id sequence hash events ≡ ok tt
      → IsChain env run_id 1 none (read_events run_id sequence events)
        × (length (read_events run_id sequence events) ≡ sequence)
        × (end_hash env run_id none (read_events run_id sequence events) ≡ some hash)
  unfolding validate_event_chain
  validate_event_chain_sound sequence hash events h =
      let es = read_events run_id sequence events in
      let own : every (of_run run_id) es ≡ true =
        every-order_by (of_run run_id) (λ e. e.sequence) _
          (every-select (of_run run_id) (λ e. of_run run_id e && leb e.sequence sequence) events
            (λ x e. ground arith)) in
      let checked : check_chain env run_id 1 none es ≡ true = ground arith in
      let chain : IsChain env run_id 1 none es = IsChain-check_chain 1 none es own checked in
      (chain, ground arith, anchor_end sequence hash es chain (ground arith))
