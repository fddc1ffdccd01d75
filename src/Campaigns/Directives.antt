-- ===== src/Campaigns/Directives.antt =====
-- What the directive of `/config` promises.
use device_management.Version.{version_lt, parse_version_tuple}
use device_management.Version.Order.{tuple_lt_irrefl}
use device_management.Campaigns.{
  Campaign, Directive, update, rollback, eligible, build_update_directive, directive_for,
  has_rollback, rollback_directive, update_directive, unknown_version,
}
use device_management.Campaigns.Rollout.{GrowingConfig, eligible_mono}
use device_management.Prelude.{
  ℕ, ◌≤◌, String, ◌≡◌, refl, ap, subst, inl, inr, Bool, true, false, ◌||◌, none, some, arith,
  if◌then◌else◌, Bool-cases, ◌==◌, nat_eq, string_eq, pair_eq,
}

-- As time passes, a device that was answered a directive is answered the same one, as long as the
-- campaign and the device's version stay the same and the stages of the rollout do not shrink.
pub build_update_directive-stays :
    (device_hash : String → ℕ) (now now' : ℕ) (v : String) (c : Campaign) (client_uuid : String)
    (device_name : String) {x : Directive}
    → now ≤ now'
    → GrowingConfig c.rollout_config
    → build_update_directive device_hash now v (some c) client_uuid device_name ≡ some x
    → build_update_directive device_hash now' v (some c) client_uuid device_name ≡ some x
unfolding build_update_directive
build_update_directive-stays f now now' v c u n h g e =
    ground (arith, eligible_mono f now now' c u h g)

-- the last test of the ladder, on whether the device is below the campaign
below_of_update :
    (below back : Bool) (up down x : Directive)
    → down.action ≡ rollback
    → (if below then some up else if back then some down else none) ≡ some x
    → x.action ≡ update
    → (below ≡ true) × (up ≡ x)
below_of_update below back up down x d e a = ground arith

directive_for-update :
    (f : String → ℕ) (now : ℕ) (v : String) (c : Campaign) (u n : String) (x : Directive)
    → directive_for f now v c u n ≡ some x
    → x.action ≡ update
    → (version_lt v c.artifact_version ≡ true) × (update_directive c v n ≡ x)
unfolding directive_for
directive_for-update f now v c u n x e a =
    elim (Bool-cases (c.artifact_version == "" || v == c.artifact_version)) [
      | inl t ↦ absurd (none_some (rw t at e))
      | inr t ↦ elim (Bool-cases (eligible f now c u)) [
        | inr r ↦ absurd (none_some (rw (t, r) at e))
        | inl r ↦
            below_of_update (version_lt v c.artifact_version) (has_rollback c)
              (update_directive c v n) (rollback_directive c v n) x refl (rw (t, r) at e) a
      ]
    ]
  where
    none_some : none ≡ some x → ⊥
    none_some p = cc

same_version :
    (f : String → ℕ) (now : ℕ) (c : Campaign) (u n : String)
    → build_update_directive f now c.artifact_version (some c) u n ≡ none
unfolding build_update_directive
same_version f now c u n = ground (arith, string_eq.beq_iff c.artifact_version c.artifact_version)

build_update_directive-known :
    (f : String → ℕ) (now : ℕ) (v : String) (c : Campaign) (u n : String) (x : Directive)
    → build_update_directive f now v (some c) u n ≡ some x
    → directive_for f now v c u n ≡ some x
unfolding build_update_directive
build_update_directive-known f now v c u n x e = elim (Bool-cases (unknown_version v)) [
  | inl t ↦ absurd (none_some (rw t at e))
  | inr t ↦ rw t at e
]
  where
    none_some : none ≡ some x → ⊥
    none_some p = cc

-- An update is offered only to a device whose version is below the version that is offered, and
-- once the device reports that version, it is answered no directive by the same campaign at any
-- time.
pub build_update_directive-upgrades :
    (device_hash : String → ℕ) (now : ℕ) (v : String) (c : Campaign)
    (client_uuid device_name : String) {x : Directive}
    → build_update_directive device_hash now v (some c) client_uuid device_name ≡ some x
    → x.action ≡ update
    → (version_lt v x.target_version ≡ true)
      × ((later : ℕ)
          → build_update_directive device_hash later x.target_version
              (some c)
              client_uuid
              device_name
            ≡ none)
unfolding update_directive
build_update_directive-upgrades f now v c u n {x} e a =
    let (below, is_x) =
      directive_for-update f now v c u n x (build_update_directive-known f now v c u n x e) a in
    let target : c.artifact_version ≡ x.target_version = target_of is_x in
    (
      subst (λ t. version_lt v t ≡ true) target below,
      λ later.
          subst (λ t. build_update_directive f later t (some c) u n ≡ none) target
            (same_version f later c u n),
    )
  where
    target_of : update_directive c v n ≡ x → c.artifact_version ≡ x.target_version
    target_of p = ap (λ (y : Directive). y.target_version) p

not_below : (v w : String) → parse_version_tuple v ≡ parse_version_tuple w → version_lt v w ≡ false
unfolding version_lt
not_below v w same = rw same (tuple_lt_irrefl (parse_version_tuple w))

-- A device whose version is written otherwise than the campaign's, but is read as the same tuple,
-- is told to roll back as soon as the campaign has a rollback artifact and the device its turn.
pub build_update_directive-same_tuple :
    (device_hash : String → ℕ) (now : ℕ) (v : String) (c : Campaign)
    (client_uuid device_name : String)
    → unknown_version v ≡ false
    → (c.artifact_version == "") ≡ false
    → (v == c.artifact_version) ≡ false
    → parse_version_tuple v ≡ parse_version_tuple c.artifact_version
    → eligible device_hash now c client_uuid ≡ true
    → has_rollback c ≡ true
    → build_update_directive device_hash now v (some c) client_uuid device_name
      ≡ some (rollback_directive c v device_name)
unfolding build_update_directive
build_update_directive-same_tuple f now v c u n known target differs same turn back =
    rw (known, target, differs, turn, not_below v c.artifact_version same, back)
