-- ===== src/Campaigns/Lifecycle.antt =====
-- A new active campaign supersedes the others of its type and plugin.
use device_management.Campaigns.Tables.{
  Kind, plugin_update, other, is_active, kind_beq, CampaignRow,
}
use device_management.Campaigns.Actions.{
  NewCampaign, overlaps, complete_row, new_row, create_campaign,
}
use device_management.Prelude.{
  ℕ, ◌≡◌, refl, sym, ap, ◌∙◌, ◌⊎◌, inl, inr, true, false, Option, List, [], ◌∷◌, ◌++◌, map, Memᴰ,
  arith, false-ne-true, Memᴰ-append_cases, Memᴰ-map, nat_eq, string_eq, pair_eq, ==_refl,
}

kind_beq_refl : (k : Kind) → kind_beq k k ≡ true
kind_beq_refl plugin_update = refl
kind_beq_refl (other s) = ==_refl s

complete_row-not_active :
    (b : NewCampaign) (c : CampaignRow)
    → c.kind ≡ b.kind
    → overlaps b.plugin_id c.plugin_id ≡ true
    → is_active (complete_row b.kind b.plugin_id c).status ≡ false
unfolding complete_row
complete_row-not_active b c k o = ground (arith, kind_beq_refl b.kind)

complete_row-keeps :
    (k : Kind) (p : Option ℕ) (c : CampaignRow)
    → ((complete_row k p c).kind ≡ c.kind) × ((complete_row k p c).plugin_id ≡ c.plugin_id)
unfolding complete_row
complete_row-keeps k p c = ground arith

last_or_older :
    {A : Type 0} (xs : List A) (y : A) {x : A} → Memᴰ x (xs ++ y ∷ []) → Memᴰ x xs ⊎ (x ≡ y)
last_or_older xs y {x} m = elim (Memᴰ-append_cases xs (y ∷ []) m) [
  | inl l ↦ inl l
  | inr l ↦ inr (only l)
]
  where
    only : Memᴰ x (y ∷ []) → x ≡ y
    only (Memᴰ.head p) = p
    only (Memᴰ.tail t) = elim t [ ]

-- After a campaign is created as active, no other campaign of its type whose plugin overlaps is
-- active: one of the same plugin, one of no plugin, or any if the new one has no plugin.
pub create_campaign-supersedes :
    (now id : ℕ) (b : NewCampaign) (campaigns : List CampaignRow) (c : CampaignRow)
    → is_active b.status ≡ true
    → Memᴰ c (create_campaign now id b campaigns)
    → is_active c.status ≡ true
    → c.kind ≡ b.kind
    → overlaps b.plugin_id c.plugin_id ≡ true
    → (c.id ≡ id) × (c.created_at ≡ now)
unfolding create_campaign
create_campaign-supersedes now id b campaigns c on m a k o =
    elim (last_or_older (map (complete_row b.kind b.plugin_id) campaigns)
      (new_row now id b.plugin_id b) (rw on at m)) [
        | inr e ↦ (ap (λ (x : CampaignRow). x.id) e, ap (λ (x : CampaignRow). x.created_at) e)
        | inl l ↦
            let (old, mo, e) = Memᴰ-map (complete_row b.kind b.plugin_id) campaigns l in
            let (sk, sp) = complete_row-keeps b.kind b.plugin_id old in
            let done =
              complete_row-not_active b old (sym sk ∙ ap (λ (x : CampaignRow). x.kind) (sym e) ∙ k)
                (ap (overlaps b.plugin_id) (sym sp ∙ ap (λ (x : CampaignRow). x.plugin_id) (sym e))
                  ∙ o) in
            absurd
              (false-ne-true (sym done ∙ ap (λ (x : CampaignRow). is_active x.status) (sym e) ∙ a))
      ]
