-- ===== src/RuntimeConfig/Fleet.antt =====
-- The table `config_pod_state` and the loop `run_config_sync_loop` of app/runtime_config.py: a pod
-- enrols, sends heartbeats, and the pods of the roles `admin` and `all` remove those that are silent.
-- Times are microseconds.
pub mod Pods
pub mod Life
use device_management.RuntimeConfig.Keys.{ConfigKeySpec}
use device_management.RuntimeConfig.{Lib}
use device_management.RuntimeConfig.Process.{Fernet, Tables, Process, sync_process}
use device_management.Prelude.Text.{int_of}
use device_management.Prelude.{
  ℕ, ◌+◌, ◌*◌, String, refl, Bool, true, false, not, ◌&&◌, Option, none, some, List, [], ◌∷◌, arith,
  ltb, if◌then◌else◌, any, select, ◌==◌, nat_eq, string_eq, pair_eq, ℤ, at_least, list_eq, Str,
}

-- `_pod_identity`
pub record Identity : Type 0 where
  pub pod_name : String
  pub node_name : Option String
  pub runtime_mode : String
  pub pid : ℕ
  pub pod_ip : Option String
  pub port : ℕ
  pub app_version : String

-- `read_health`; the load is in hundredths
pub record Health : Type 0 where
  pub rss_bytes : Option ℕ
  pub mem_limit_bytes : Option ℕ
  pub load1 : Option ℕ
  pub cpu_count : Option ℕ
  pub requests_total : ℕ

pub record Pod : Type 0 where
  pub identity : Identity
  pub applied_generation : Option ℕ
  pub restart_count : ℕ
  pub health : Health
  pub started_at : ℕ
  pub last_heartbeat_at : ℕ

-- what a pod says of itself
pub record Report : Type 0 where
  pub identity : Identity
  pub applied_generation : Option ℕ
  pub health : Health

abbrev pub named : String → Pod → Bool
named name pod = pod.identity.pod_name == name

abbrev pub enrolled_pod : Report → ℕ → ℕ → Pod
enrolled_pod r restarts now = record {
  identity = r.identity;
  applied_generation = r.applied_generation;
  restart_count = restarts;
  health = r.health;
  started_at = now;
  last_heartbeat_at = now;
}

-- `INSERT … ON CONFLICT (pod_name) DO UPDATE`
unfoldable pub enroll : Report → ℕ → List Pod → List Pod
enroll r now [] = enrolled_pod r 0 now ∷ []
enroll r now (pod ∷ pods) =
    if named r.identity.pod_name pod
    then enrolled_pod r (pod.restart_count + 1) now ∷ pods
    else pod ∷ enroll r now pods

abbrev pub beaten : Report → ℕ → Pod → Pod
beaten r now pod = record pod {
  applied_generation = r.applied_generation;
  identity = record pod.identity {
    runtime_mode = r.identity.runtime_mode;
    pod_ip = r.identity.pod_ip;
  };
  health = r.health;
  last_heartbeat_at = now;
}

-- `UPDATE … WHERE pod_name = %s`
unfoldable pub update_pod : Report → ℕ → List Pod → List Pod
update_pod r now [] = []
update_pod r now (pod ∷ pods) =
    if named r.identity.pod_name pod then beaten r now pod ∷ pods else pod ∷ update_pod r now pods

unfoldable pub heartbeat : Report → ℕ → List Pod → List Pod
unfolding enroll update_pod
heartbeat r now pods =
    if any (named r.identity.pod_name) pods then update_pod r now pods else enroll r now pods

abbrev pub second : ℕ
second = 1000000

-- a setting of the environment, and what `int` makes of it
abbrev pub ttl_of : Option ℤ → ℕ
ttl_of none = 600
ttl_of (some z) = at_least 60 z

unfoldable pub pod_ttl_seconds : Option Str → ℕ
unfolding int_of
pod_ttl_seconds none = 600
pod_ttl_seconds (some s) = ttl_of (int_of s)

unfoldable pub is_fresh : ℕ → ℕ → Pod → Bool
is_fresh ttl now pod = not (ltb (pod.last_heartbeat_at + ttl * second) now)

-- the pods that are left
unfoldable pub reap_stale_pods : ℕ → ℕ → List Pod → List Pod
unfolding is_fresh
reap_stale_pods ttl now pods = select (is_fresh ttl now) pods

-- Where the exception of an iteration comes, if there is one.
pub data Fault : Type 0 where
  unavailable at_generation at_enroll at_reap healthy : Fault

pub record Loop : Type 0 where
  pub process : Process
  pub pods : List Pod
  pub enrolled : Bool
  pub last_reap : ℕ

-- what an iteration finds; `monotonic` is the clock of the removals
pub record Conditions : Type 0 where
  pub fault : Fault
  pub tables : Tables
  pub identity : Identity
  pub health : Health
  pub now : ℕ
  pub monotonic : ℕ
  pub ttl : ℕ
  pub reaper_role : Bool

abbrev pub report_of : Conditions → Process → Report
report_of c p = record {
  identity = c.identity;
  applied_generation = p.applied_generation;
  health = c.health;
}

abbrev pub is_at_reap : Fault → Bool
is_at_reap at_reap = true
is_at_reap _ = false

unfoldable pub announce : Conditions → Loop → Loop
unfolding enroll heartbeat
announce c l = record l {
  pods =
      if l.enrolled
      then heartbeat (report_of c l.process) c.now l.pods
      else enroll (report_of c l.process) c.now l.pods;
  enrolled = true;
}

unfoldable pub collect : Conditions → Loop → Loop
unfolding reap_stale_pods
collect c l =
    if c.reaper_role && ltb (l.last_reap + 60 * second) c.monotonic
    then if is_at_reap c.fault
      then record l { enrolled = false }
      else record l { pods = reap_stale_pods c.ttl c.now l.pods; last_reap = c.monotonic }
    else l

module _ (lib : Lib) (fernet : Option Fernet) (specs : List ConfigKeySpec) where
  abbrev pub synced : Conditions → Loop → Loop
  synced c l = record l { process = sync_process lib fernet specs c.tables l.process }

  -- one iteration; after an exception the connection is reset and the pod is to enrol again
  unfoldable pub iterate : Conditions → Loop → Loop
  unfolding sync_process announce collect
  iterate c l = elim c.fault [
    | unavailable ↦ l
    | at_generation ↦ record l { enrolled = false }
    | at_enroll ↦ record (synced c l) { enrolled = false }
    | at_reap ↦ collect c (announce c (synced c l))
    | healthy ↦ collect c (announce c (synced c l))
  ]

  -- The pod runs on, whatever each iteration finds.
  unfoldable pub run : List Conditions → Loop → Loop
  unfolding iterate
  run [] l = l
  run (c ∷ cs) l = run cs (iterate c l)
