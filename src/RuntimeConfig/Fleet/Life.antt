-- ===== src/RuntimeConfig/Fleet/Life.antt =====
-- What the table of pods says of a pod that lives.
use device_management.RuntimeConfig.Keys.{ConfigKeySpec}
use device_management.RuntimeConfig.{Lib}
use device_management.RuntimeConfig.Process.{Fernet, sync_process}
use device_management.RuntimeConfig.Fleet.{
  Pod, at_generation, healthy, Loop, Conditions, announce, collect, synced, iterate,
}
use device_management.Prelude.{
  ◌+◌, ◌≡◌, refl, sym, ap, ◌∙◌, subst, true, false, Option, some, List, nat_eq, string_eq, pair_eq,
  list_eq,
}
use device_management.RuntimeConfig.Fleet.Pods.{
  find_pod, announced, announced-now, announced-generation, announce-find, announce-process,
  announce-enrolled, collect-find,
}

module _ (lib : Lib) (fernet : Option Fernet) (specs : List ConfigKeySpec) where
  iterate-healthy :
      (c : Conditions) (l : Loop)
      → c.fault ≡ healthy
      → iterate lib fernet specs c l ≡ collect c (announce c (synced lib fernet specs c l))
  unfolding iterate
  iterate-healthy c l h = rw h

  iterate-row :
      (c : Conditions) (l : Loop)
      → c.fault ≡ healthy
      → let after = iterate lib fernet specs c l in
        (find_pod c.identity.pod_name after.pods
          ≡ some (announced c after.process l.enrolled (find_pod c.identity.pod_name l.pods)))
        × (after.enrolled ≡ true)
  iterate-row c l h =
      let s = record l { process = sync_process lib fernet specs c.tables l.process } in
      let row = announced c s.process l.enrolled (find_pod c.identity.pod_name l.pods) in
      let (found, process, enrolled) =
        collect-find c (announce c s) {pod = row} h (announce-find c s)
          (announced-now c s.process l.enrolled (find_pod c.identity.pod_name l.pods)) in
      subst
        (λ (after : Loop).
          (find_pod c.identity.pod_name after.pods
            ≡ some (announced c after.process l.enrolled (find_pod c.identity.pod_name l.pods)))
          × (after.enrolled ≡ true))
        (sym (iterate-healthy c l h))
        (
          found
              ∙ ap (λ p. some (announced c p l.enrolled (find_pod c.identity.pod_name l.pods)))
                  (sym (process ∙ announce-process c s)),
          enrolled ∙ announce-enrolled c s,
        )

  -- After an iteration that nothing disturbs the pod is in the table, whether it was removed
  -- before or not: with the time of the iteration, the generation that its process has applied,
  -- and enrolled for the next one; the removal of silent pods never takes it.
  pub iterate-alive :
      (c : Conditions) (l : Loop)
      → c.fault ≡ healthy
      → let after = iterate lib fernet specs c l in
        (pod : Pod) × ((find_pod c.identity.pod_name after.pods ≡ some pod)
          × ((pod.last_heartbeat_at ≡ c.now)
              × ((pod.applied_generation ≡ after.process.applied_generation)
                  × (after.enrolled ≡ true))))
  iterate-alive c l h =
      let after = iterate lib fernet specs c l in
      let old = find_pod c.identity.pod_name l.pods in
      let (row, enrolled) = iterate-row c l h in
      (
        announced c after.process l.enrolled old,
        (
          row,
          (
            announced-now c after.process l.enrolled old,
            (announced-generation c after.process l.enrolled old, enrolled),
          ),
        ),
      )

  iterate-fault :
      (c : Conditions) (l : Loop)
      → c.fault ≡ at_generation
      → iterate lib fernet specs c l ≡ record l { enrolled = false }
  unfolding iterate
  iterate-fault c l h = rw h

  -- A process that loses the database for one iteration and finds it again in the next is counted
  -- as restarted, with its uptime starting over.
  pub iterate-counts_fault :
      (c d : Conditions) (l : Loop) {old : Pod}
      → c.fault ≡ at_generation
      → d.fault ≡ healthy
      → find_pod d.identity.pod_name l.pods ≡ some old
      → (pod : Pod) × ((find_pod d.identity.pod_name
              (iterate lib fernet specs d (iterate lib fernet specs c l)).pods
            ≡ some pod)
          × ((pod.restart_count ≡ old.restart_count + 1) × (pod.started_at ≡ d.now)))
  iterate-counts_fault c d l {old} h k e =
      let again = iterate lib fernet specs d (record l { enrolled = false }) in
      rw (iterate-fault c l h) (
        announced d again.process false (some old),
        (
          (iterate-row d (record l { enrolled = false }) k).0
              ∙ ap (λ o. some (announced d again.process false o)) e,
          (refl, refl),
        ),
      )
