-- ===== src/Campaigns/Progress/Reports.antt =====
-- What a report changes.
use device_management.Campaigns.Progress.{
  DeviceStatus, Write, works, no_database, database_error, Report, is_for, upsert, report_row,
  report_change, state_of, store_report, ReportReply, accepted, report_update_status, store_checked,
  is_own, allowed_status,
}
use device_management.Prelude.{
  none-ne-some, ℕ, String, ◌≡◌, refl, ap, ◌∙◌, ◌≢◌, ◌⊎◌, inl, inr, true, false, ◌&&◌, Option, none,
  some, List, [], ◌∷◌, arith, if◌then◌else◌, Bool-cases, none-ne-some, ◌==◌, nat_eq, string_eq,
  pair_eq, ==_refl,
}

abbrev pub lookup : ℕ → String → List DeviceStatus → Option DeviceStatus
lookup c u [] = none
lookup c u (s ∷ ss) = if is_for c u s then some s else lookup c u ss

module _ (new : DeviceStatus) (change : DeviceStatus → DeviceStatus)
    (same : (s : DeviceStatus)
      → ((change s).campaign_id ≡ s.campaign_id) × ((change s).client_uuid ≡ s.client_uuid)) where
  lookup-upsert_other :
      (c : ℕ) (u : String) (ss : List DeviceStatus)
      → is_for c u new ≡ false
      → lookup c u (upsert new change ss) ≡ lookup c u ss
  unfolding upsert
  lookup-upsert_other c u [] h = rw h
  lookup-upsert_other c u (s ∷ ss) h = ground (
    arith,
    lookup-upsert_other c u ss h,
    same s,
    string_eq.beq_iff s.client_uuid new.client_uuid,
    string_eq.beq_iff s.client_uuid u,
    string_eq.beq_iff new.client_uuid u,
    string_eq.beq_iff (change s).client_uuid u,
  )

  is_for-change : (c : ℕ) (u : String) (s : DeviceStatus) → is_for c u (change s) ≡ is_for c u s
  is_for-change c u s = rw ((same s).0, (same s).1)

  pub lookup-upsert_self :
      (ss : List DeviceStatus)
      → (s : DeviceStatus) × (lookup new.campaign_id new.client_uuid (upsert new change ss)
          ≡ some s)
        × ((s ≡ new) ⊎ ((old : DeviceStatus) × (s ≡ change old)))
  unfolding upsert
  lookup-upsert_self [] = (new, rw (==_refl new.campaign_id, ==_refl new.client_uuid), inl refl)
  lookup-upsert_self (s ∷ ss) = elim (Bool-cases (is_for new.campaign_id new.client_uuid s)) [
    | inl e ↦
        (change s, rw e (rw (is_for-change new.campaign_id new.client_uuid s ∙ e)), inr (s, refl))
    | inr e ↦ let (t, l, c) = lookup-upsert_self ss in (t, rw e (rw e l), c)
  ]

report_change-same :
    (r : Report) (s : DeviceStatus)
    → ((report_change r s).campaign_id ≡ s.campaign_id)
      × ((report_change r s).client_uuid ≡ s.client_uuid)
unfolding report_change
report_change-same r s = (refl, refl)

store_report_self :
    (r : Report) (ss : List DeviceStatus)
    → (s : DeviceStatus) × (lookup r.campaign_id r.client_uuid (store_report works r ss) ≡ some s)
      × (s.status ≡ state_of r.status)
unfolding store_report
store_report_self r ss =
    let (s, l, c) = lookup-upsert_self (report_row r) (report_change r) (report_change-same r) ss in
    (
      s,
      l,
      elim c [
        | inl e ↦ ap (λ (x : DeviceStatus). x.status) e
        | inr (old, e) ↦ ap (λ (x : DeviceStatus). x.status) e
      ],
    )

store_report-other :
    (r : Report) (ss : List DeviceStatus) (c : ℕ) (u : String)
    → (r.campaign_id == c && r.client_uuid == u) ≡ false
    → lookup c u (store_report works r ss) ≡ lookup c u ss
unfolding store_report
store_report-other r ss c u h =
    lookup-upsert_other (report_row r) (report_change r) (report_change-same r) c u ss h

-- the client that the relay credentials name
abbrev pub identity : Option (Option String) → Option String
identity none = none
identity (some i) = i

-- the rows after a report: a write that works leaves the device's row, and no other row changes; one
-- that does not leaves the table
pub record Stored (r : Report) (ss ss' : List DeviceStatus) : Type 0 where
  pub row :
      (s : DeviceStatus) × (lookup r.campaign_id r.client_uuid ss' ≡ some s)
      × (s.status ≡ state_of r.status)
  pub others :
      (c : ℕ) (u : String)
      → (r.campaign_id == c && r.client_uuid == u) ≡ false
      → lookup c u ss' ≡ lookup c u ss

abbrev pub Written : Write → Report → List DeviceStatus → List DeviceStatus → Type 0
Written works r ss ss' = Stored r ss ss'
Written no_database r ss ss' = ss' ≡ ss
Written database_error r ss ss' = ss' ≡ ss

store_report-Written :
    (write : Write) (r : Report) (ss : List DeviceStatus)
    → Written write r ss (store_report write r ss)
unfolding store_report
store_report-Written works r ss = record {
  row = store_report_self r ss;
  others = store_report-other r ss;
}
store_report-Written no_database r ss = refl
store_report-Written database_error r ss = refl

-- A report that was accepted.
pub record Accepted (write : Write) (authed : Option String) (r : Report)
    (ss ss' : List DeviceStatus) (reply : ReportReply) : Type 0 where
  pub answered : reply ≡ accepted r.status
  pub allowed : allowed_status r.status ≡ true
  pub named : (r.client_uuid == "") ≡ false
  pub own : is_own authed r.client_uuid ≡ true
  pub written : Written write r ss ss'

-- A report that was not.
pub record Rejected (r : Report) (ss ss' : List DeviceStatus) (reply : ReportReply) : Type 0 where
  pub unchanged : ss' ≡ ss
  pub refused : reply ≢ accepted r.status

store_checked_outcome :
    (write : Write) (authed : Option String) (r : Report) (ss : List DeviceStatus)
    → let (ss', reply) = store_checked write authed r ss in
      Rejected r ss ss' reply ⊎ Accepted write authed r ss ss' reply
unfolding store_checked
store_checked_outcome write authed r ss = elim (Bool-cases (allowed_status r.status)) [
  | inr e ↦ inl (rw e (record { unchanged = refl; refused = λ p. cc }))
  | inl a ↦ elim (Bool-cases (r.client_uuid == "")) [
    | inl e ↦ inl (rw (a, e) (record { unchanged = refl; refused = λ p. cc }))
    | inr c ↦ elim (Bool-cases (is_own authed r.client_uuid)) [
      | inr e ↦ inl (rw (a, c, e) (record { unchanged = refl; refused = λ p. cc }))
      | inl o ↦ inr (
          rw (a, c, o)
            (record {
              answered = refl;
              allowed = a;
              named = c;
              own = o;
              written = store_report-Written write r ss;
            }))
    ]
  ]
]

-- A report is either rejected, and changes nothing, or it is accepted: then it names an allowed
-- status, a client and, where relay credentials are checked, the client's own identifier. If the
-- write works, an accepted report leaves a row for that client in that campaign, 'updated' if the
-- plugin was installed and 'failed' otherwise, and no row of another client or campaign changes;
-- without a database, or on its exception, the report is accepted all the same and nothing changes.
pub report_update_status_outcome :
    (write : Write) (relay : Option (Option String)) (r : Report) (ss : List DeviceStatus)
    → let (ss', reply) = report_update_status write relay (some r) ss in
      Rejected r ss ss' reply ⊎ (relay ≢ some none) × Accepted write (identity relay) r ss ss' reply
unfolding report_update_status
report_update_status_outcome write none r ss = elim (store_checked_outcome write none r ss) [
  | inl x ↦ inl x
  | inr x ↦ inr ((λ e. none-ne-some e), x)
]
report_update_status_outcome write (some none) r ss =
    inl (record { unchanged = refl; refused = λ p. cc })
report_update_status_outcome write (some (some u)) r ss =
    elim (store_checked_outcome write (some u) r ss) [
      | inl x ↦ inl x
      | inr x ↦ inr ((λ e. ground arith), x)
    ]
