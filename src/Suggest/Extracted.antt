-- ===== src/Suggest/Extracted.antt =====
-- What is read of an answer that puts its JSON between fences.
use device_management.Prelude.Text.{nonempty, cons_first}
use device_management.Suggest.{
  passed, Loaded, object, split_fence, value_error, chosen_part, load_or_search, load_text,
  extract_suggestion_json,
}
use device_management.Prelude.{
  ℕ, ◌≡◌, refl, ap, ◌∙◌, true, false, Option, some, [], ◌∷◌, ◌++◌, if◌then◌else◌, ◌==◌, nat_eq,
  string_eq, pair_eq, list_eq, Str, codes, strip,
}

abbrev pub fence : Str
fence = codes "```"

-- a text without the character of fences
abbrev pub NoTick : Str → Type 0
NoTick [] = Unit
NoTick (c ∷ s) = ((c == 96) ≡ false) × NoTick s

split_fence-cons :
    (c : ℕ) (s : Str) → (c == 96) ≡ false → split_fence (c ∷ s) ≡ cons_first c (split_fence s)
unfolding split_fence
split_fence-cons c [] h = refl
split_fence-cons c (d ∷ []) h = refl
split_fence-cons c (d ∷ e ∷ s) h = rw h

split_fence-append : (s t : Str) → NoTick s → split_fence (s ++ (fence ++ t)) ≡ s ∷ split_fence t
unfolding split_fence
split_fence-append [] t h = refl
split_fence-append (c ∷ s) t h =
    split_fence-cons c (s ++ (fence ++ t)) h.0 ∙ ap (cons_first c) (split_fence-append s t h.1)

parts :
    (before body after : Str)
    → NoTick before
    → NoTick body
    → split_fence (before ++ (fence ++ (codes "json" ++ (body ++ (fence ++ after)))))
      ≡ before ∷ (codes "json" ++ body) ∷ split_fence after
parts before body after b n =
    split_fence-append before (codes "json" ++ (body ++ (fence ++ after))) b
    ∙ ap (λ ps. before ∷ ps)
        (split_fence-append (codes "json" ++ body) after (refl, (refl, (refl, (refl, n)))))

nonempty-append : (s t : Str) → nonempty t ≡ true → nonempty (s ++ t) ≡ true
nonempty-append [] t h = h
nonempty-append (c ∷ s) t h = refl

-- The object between the first two fences of an answer is what is extracted, with the tag `json`
-- and whatever stands before and after; where the text before the first fence and the text between
-- the fences have no backquote.
pub extract_suggestion_json-fenced :
    {P : Type 0} (loads : Str → Option (Loaded P)) (content before body after : Str) {d : P}
    → strip content ≡ before ++ (fence ++ (codes "json" ++ (body ++ (fence ++ after))))
    → NoTick before
    → NoTick body
    → loads (strip body) ≡ some (object d)
    → extract_suggestion_json loads content ≡ passed d
unfolding extract_suggestion_json
extract_suggestion_json-fenced loads content before body after {d} e b n l =
    let text = before ++ (fence ++ (codes "json" ++ (body ++ (fence ++ after)))) in
    ap (λ s. if nonempty s then load_text loads (chosen_part s (split_fence s)) else value_error) e
    ∙ ap (λ b. if b then load_text loads (chosen_part text (split_fence text)) else value_error)
        (nonempty-append before (fence ++ (codes "json" ++ (body ++ (fence ++ after)))) refl)
    ∙ ap (λ ps. load_text loads (chosen_part text ps)) (parts before body after b n)
    ∙ ap (load_or_search loads (strip body)) l
