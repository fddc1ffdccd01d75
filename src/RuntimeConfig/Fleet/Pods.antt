-- ===== src/RuntimeConfig/Fleet/Pods.antt =====
-- What the statements of the loop do to the row of its pod.
use device_management.RuntimeConfig.Process.{Process}
use device_management.RuntimeConfig.Fleet.{
  Pod, Report, named, enrolled_pod, enroll, beaten, update_pod, heartbeat, second, is_fresh,
  reap_stale_pods, healthy, Loop, Conditions, report_of, announce, collect,
}
use device_management.Prelude.{
  ℕ, ◌+◌, ◌*◌, String, ◌≡◌, refl, ap, ◌∙◌, ◌⊎◌, inl, inr, Bool, true, false, ◌&&◌, Option, none,
  some, List, [], ◌∷◌, arith, ltb, if◌then◌else◌, Bool-cases, none-ne-some, false-ne-true, any,
  select, nat_eq, string_eq, pair_eq, ==_refl, list_eq,
}

-- the row of a pod
abbrev pub find_pod : String → List Pod → Option Pod
find_pod name [] = none
find_pod name (pod ∷ pods) = if named name pod then some pod else find_pod name pods

-- the pod as an enrolment leaves it, from the row that there was
abbrev pub enrolment : Report → ℕ → Option Pod → Pod
enrolment r now none = enrolled_pod r 0 now
enrolment r now (some old) = enrolled_pod r (old.restart_count + 1) now

-- the pod as a heartbeat leaves it
abbrev pub heartbeat_of : Report → ℕ → Option Pod → Pod
heartbeat_of r now none = enrolled_pod r 0 now
heartbeat_of r now (some old) = beaten r now old

enroll-find :
    (r : Report) (now : ℕ) (pods : List Pod)
    → find_pod r.identity.pod_name (enroll r now pods)
      ≡ some (enrolment r now (find_pod r.identity.pod_name pods))
unfolding enroll
enroll-find r now [] = rw (==_refl r.identity.pod_name)
enroll-find r now (pod ∷ pods) = elim (Bool-cases (named r.identity.pod_name pod)) [
  | inl e ↦ rw e (rw (==_refl r.identity.pod_name))
  | inr e ↦ rw e (rw e (enroll-find r now pods))
]

update_pod-find :
    (r : Report) (now : ℕ) (pods : List Pod)
    → any (named r.identity.pod_name) pods ≡ true
    → find_pod r.identity.pod_name (update_pod r now pods)
      ≡ some (heartbeat_of r now (find_pod r.identity.pod_name pods))
unfolding update_pod
update_pod-find r now [] h = absurd (false-ne-true h)
update_pod-find r now (pod ∷ pods) h = elim (Bool-cases (named r.identity.pod_name pod)) [
  | inl e ↦ rw e (rw e refl)
  | inr e ↦ rw e (rw e (update_pod-find r now pods (rw e at h)))
]

find_pod-none :
    (name : String) (pods : List Pod) → any (named name) pods ≡ false → find_pod name pods ≡ none
find_pod-none name [] h = refl
find_pod-none name (pod ∷ pods) h = ground (arith, find_pod-none name pods)

heartbeat-find :
    (r : Report) (now : ℕ) (pods : List Pod)
    → find_pod r.identity.pod_name (heartbeat r now pods)
      ≡ some (heartbeat_of r now (find_pod r.identity.pod_name pods))
unfolding heartbeat
heartbeat-find r now pods = elim (Bool-cases (any (named r.identity.pod_name) pods)) [
  | inl e ↦ rw e (update_pod-find r now pods e)
  | inr e ↦
      rw (e, find_pod-none r.identity.pod_name pods e)
        (enroll-find r now pods
          ∙ ap (λ o. some (enrolment r now o)) (find_pod-none r.identity.pod_name pods e))
]

reap_stale_pods-find :
    (ttl now : ℕ) (name : String) (pods : List Pod) {pod : Pod}
    → find_pod name pods ≡ some pod
    → is_fresh ttl now pod ≡ true
    → find_pod name (reap_stale_pods ttl now pods) ≡ some pod
unfolding reap_stale_pods
reap_stale_pods-find ttl now name [] e f = absurd (none-ne-some e)
reap_stale_pods-find ttl now name (p ∷ pods) {pod} e f = elim (Bool-cases (named name p)) [
  | inl q ↦ found (ground (arith, e, q)) q
  | inr q ↦
      later q (Bool-cases (is_fresh ttl now p))
        (reap_stale_pods-find ttl now name pods (rw q at e) f)
]
  where
    found :
        p ≡ pod
        → named name p ≡ true
        → find_pod name (select (is_fresh ttl now) (p ∷ pods)) ≡ some pod
    found same q = rw (ap (is_fresh ttl now) same ∙ f) (rw q (ap some same))

    later :
        named name p ≡ false
        → (is_fresh ttl now p ≡ true) ⊎ (is_fresh ttl now p ≡ false)
        → find_pod name (select (is_fresh ttl now) pods) ≡ some pod
        → find_pod name (select (is_fresh ttl now) (p ∷ pods)) ≡ some pod
    later q (inl k) ih = rw k (rw q ih)
    later q (inr k) ih = rw k ih

is_fresh-now : (ttl now : ℕ) (pod : Pod) → pod.last_heartbeat_at ≡ now → is_fresh ttl now pod ≡ true
unfolding is_fresh
is_fresh-now ttl now pod e = ground (arith, e)

-- the row of the pod after an iteration that nothing disturbs
abbrev pub announced : Conditions → Process → Bool → Option Pod → Pod
announced c p true old = heartbeat_of (report_of c p) c.now old
announced c p false old = enrolment (report_of c p) c.now old

pub announced-now :
    (c : Conditions) (p : Process) (e : Bool) (old : Option Pod)
    → (announced c p e old).last_heartbeat_at ≡ c.now
announced-now c p true none = refl
announced-now c p true (some old) = refl
announced-now c p false none = refl
announced-now c p false (some old) = refl

pub announced-generation :
    (c : Conditions) (p : Process) (e : Bool) (old : Option Pod)
    → (announced c p e old).applied_generation ≡ p.applied_generation
announced-generation c p true none = refl
announced-generation c p true (some old) = refl
announced-generation c p false none = refl
announced-generation c p false (some old) = refl

pub announce-find :
    (c : Conditions) (l : Loop)
    → find_pod c.identity.pod_name (announce c l).pods
      ≡ some (announced c l.process l.enrolled (find_pod c.identity.pod_name l.pods))
unfolding announce
announce-find c l = elim (Bool-cases l.enrolled) [
  | inl e ↦ rw e (heartbeat-find (report_of c l.process) c.now l.pods)
  | inr e ↦ rw e (enroll-find (report_of c l.process) c.now l.pods)
]

pub announce-process : (c : Conditions) (l : Loop) → (announce c l).process ≡ l.process
unfolding announce
announce-process c l = refl

pub announce-enrolled : (c : Conditions) (l : Loop) → (announce c l).enrolled ≡ true
unfolding announce
announce-enrolled c l = refl

pub collect-find :
    (c : Conditions) (l : Loop) {pod : Pod}
    → c.fault ≡ healthy
    → find_pod c.identity.pod_name l.pods ≡ some pod
    → pod.last_heartbeat_at ≡ c.now
    → (find_pod c.identity.pod_name (collect c l).pods ≡ some pod)
      × ((collect c l).process ≡ l.process)
      × ((collect c l).enrolled ≡ l.enrolled)
unfolding collect
collect-find c l {pod} h e n =
    elim (Bool-cases (c.reaper_role && ltb (l.last_reap + 60 * second) c.monotonic)) [
      | inl q ↦
          rw (q, h)
            (
              reap_stale_pods-find c.ttl c.now c.identity.pod_name l.pods e
                  (is_fresh-now c.ttl c.now pod n),
              refl,
              refl,
            )
      | inr q ↦ rw q (e, refl, refl)
    ]
