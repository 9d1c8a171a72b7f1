-- ===== src/ExecutionPlane/Recovered.antt =====
-- What the recoveries of the execution plane leave.
use sacm_agent_runtime.Base.{
  Bool, Key, List, Option, String, [], any, ap, arith, false, length, map, not, refl, select, suc,
  true, update, ◌&&◌, ◌+◌, ◌∙◌, ◌∷◌, ◌≡◌, ◌≤◌,
}
use sacm_agent_runtime.Model.{Env, ExecutionJob, Store}
use sacm_agent_runtime.RunService.Transitions.{revoke_for_job}
use sacm_agent_runtime.ExecutionPlane.{lapsed_job, recover_expired_jobs, released, revoke_all}
use sacm_agent_runtime.ExecutionPlane.Orphans.{
  OrphanReport, counted, is_orphan, nothing_recovered, orphans, recover_orphaned, release_orphans,
  released_orphan, runs_step, settle_orphan, settle_orphans,
}

both_ways : (b : Bool) → (b && not b) ≡ false
both_ways true = refl
both_ways false = refl

module _ (env : Env) where
  revoke_all-jobs :
      (reason : ExecutionJob → String) (jobs : List ExecutionJob) (s : Store)
      → (revoke_all env reason jobs s).execution_jobs ≡ s.execution_jobs
  unfolding revoke_all revoke_for_job
  revoke_all-jobs reason [] s = refl
  revoke_all-jobs reason (job ∷ jobs) s = revoke_all-jobs reason jobs _

  -- `recover_expired` changes the rows whose lease has lapsed, and no others.
  pub recover_expired-jobs :
      (s : Store)
      → (recover_expired_jobs env s).1.execution_jobs
        ≡ update (lapsed_job env) (released env "LeaseExpired") s.execution_jobs
  unfolding recover_expired_jobs
  recover_expired-jobs s =
      revoke_all-jobs (λ _. "LeaseExpired") (select (lapsed_job env) s.execution_jobs) _

  -- the orphans that are left, and the executors by which they are told
  settle_orphan-frame :
      (j : ExecutionJob × String) (s : Store)
      → ((settle_orphan env j s).execution_jobs ≡ s.execution_jobs)
        × ((settle_orphan env j s).executors ≡ s.executors)
  unfolding settle_orphan revoke_for_job
  settle_orphan-frame (job, reason) s = ground arith

  settle_orphans-frame :
      (js : List (ExecutionJob × String)) (tally : OrphanReport) (s : Store)
      → ((settle_orphans env js tally s).1.execution_jobs ≡ s.execution_jobs)
        × ((settle_orphans env js tally s).1.executors ≡ s.executors)
  unfolding settle_orphans
  settle_orphans-frame [] tally s = (refl, refl)
  settle_orphans-frame (j ∷ js) tally s =
      let (jobs, executors) = settle_orphan-frame j s in
      let (more_jobs, more_executors) = settle_orphans-frame js _ (settle_orphan env j s) in
      (more_jobs ∙ jobs, more_executors ∙ executors)

  no_orphan :
      (o : Option Key) (s s' : Store) (js : List ExecutionJob)
      → any (is_orphan env o s') (update (is_orphan env o s) (released_orphan env s) js)
        ≡ any (λ j. is_orphan env o s' j && not (is_orphan env o s j)) js
  no_orphan o s s' [] = refl
  no_orphan o s s' (j ∷ js) = ground (arith, no_orphan o s s' js)

  late_released :
      (o : Option Key) (s s' : Store) (j : ExecutionJob)
      → s'.executors ≡ s.executors
      → (is_orphan env o s' j && not (is_orphan env o s j)) ≡ false
  late_released o s s' j e = rw e (both_ways (is_orphan env o s j))

  none_late :
      (o : Option Key) (s s' : Store) (js : List ExecutionJob)
      → s'.executors ≡ s.executors
      → any (λ j. is_orphan env o s' j && not (is_orphan env o s j)) js ≡ false
  none_late o s s' [] e = refl
  none_late o s s' (j ∷ js) e = rw (late_released o s s' j e) (none_late o s s' js e)

  settle_orphans-counts :
      (js : List (ExecutionJob × String)) (tally : OrphanReport) (s : Store)
      → let r = (settle_orphans env js tally s).0 in
        (r.recovered ≡ tally.recovered + length js)
        × (r.requeued + r.dead_lettered ≡ tally.requeued + tally.dead_lettered + length js)
        × (r.reconciled_steps ≤ tally.reconciled_steps + length js)
  unfolding settle_orphans
  settle_orphans-counts [] tally s = (omega arith, omega arith, omega arith)
  settle_orphans-counts (j ∷ js) tally s =
      let rest =
        settle_orphans-counts js (counted env (runs_step env j.0 s) j.0 tally)
          (settle_orphan env j s) in
      ground arith

  length-map_select :
      {A : Type 0} (f : ExecutionJob → A) (js : List ExecutionJob) → length (map f js) ≡ length js
  length-map_select f [] = refl
  length-map_select f (j ∷ js) = ap suc (length-map_select f js)

  none_lapsed :
      (js : List ExecutionJob)
      → any (lapsed_job env) (update (lapsed_job env) (released env "LeaseExpired") js) ≡ false
  none_lapsed [] = refl
  none_lapsed (j ∷ js) = ground (arith, none_lapsed js)

  -- After `recover_expired` the rows whose lease has lapsed are released, the others are as they
  -- were, and no LEASED or RUNNING job has a lease that has lapsed.
  pub recover_expired_jobs-none_lapsed :
      (s : Store)
      → ((recover_expired_jobs env s).1.execution_jobs
          ≡ update (lapsed_job env) (released env "LeaseExpired") s.execution_jobs)
        × (any (lapsed_job env) (recover_expired_jobs env s).1.execution_jobs ≡ false)
  recover_expired_jobs-none_lapsed s =
      (recover_expired-jobs s, rw (recover_expired-jobs s) (none_lapsed s.execution_jobs))

  -- `recover_orphaned`, of one organization or of all, releases each LEASED or RUNNING job whose
  -- lease is missing or over, whose owner is missing or REVOKED or which has no token; it changes
  -- no other job and leaves no such job. It reports as many jobs as it has released; those
  -- requeued and those given up add up to them, and no more steps are reconciled.
  pub recover_orphaned_contract :
      (o : Option Key) (s : Store)
      → let (r, s') = recover_orphaned env o s in
        (s'.execution_jobs ≡ update (is_orphan env o s) (released_orphan env s) s.execution_jobs)
        × (any (is_orphan env o s') s'.execution_jobs ≡ false)
        × (r.recovered ≡ length (select (is_orphan env o s) s.execution_jobs))
        × (r.requeued + r.dead_lettered ≡ r.recovered)
        × (r.reconciled_steps ≤ r.recovered)
  unfolding recover_orphaned
  recover_orphaned_contract o s =
      let js = orphans env o s in
      let s' : Store =
        (settle_orphans env js (nothing_recovered env) (release_orphans env o s)).1 in
      let (jobs, executors) =
        settle_orphans-frame js (nothing_recovered env) (release_orphans env o s) in
      let (all, split, steps) =
        settle_orphans-counts js (nothing_recovered env) (release_orphans env o s) in
      let many : length js ≡ length (select (is_orphan env o s) s.execution_jobs) =
        length-map_select _ (select (is_orphan env o s) s.execution_jobs) in
      (
        jobs,
        rw jobs (no_orphan o s s' s.execution_jobs ∙ none_late o s s' s.execution_jobs executors),
        omega (arith, all, many),
        omega (arith, all, split),
        omega (arith, all, steps),
      )
