-- ===== src/Replays/Pages.antt =====
-- `collectCatalogPages`: the pages of the catalog one after the other, up to a limit. The request
-- is an argument; an item is any value.
use mathlib.Core.Path.{subst}
use silo_plugin_dispatcharr.Base.{
  ℕ, zero, suc, ◌+◌, ◌-◌, ◌*◌, ◌≤◌, ◌<◌, min, max, ◌≡◌, refl, sym, ap, ◌∙◌, inl, inr, Bool, true,
  false, ◌||◌, not, Option, none, some, List, [], ◌∷◌, ◌++◌, arith, ltb, nat_beq, if◌then◌else◌,
  Bool-cases, length, take, drop, length-take, length-drop, string_eq, nat_eq,
}
use silo_plugin_dispatcharr.Replays.Windows.{or_default}

module _ {ℓ} (Item : Type ℓ) where
  pub record Page : Type ℓ where
    pub items : List Item
    pub has_more : Bool

  pub record Collected : Type ℓ where
    pub items : List Item
    pub truncated : Bool

-- `Array.isArray(payload && payload.items) ? payload.items : []`
abbrev pub page_items {ℓ} : {Item : Type ℓ} → Option (Page Item) → List Item
page_items none = []
page_items (some page) = page.items

-- `payload && payload.has_more`
abbrev pub more_pages {ℓ} : {Item : Type ℓ} → Option (Page Item) → Bool
more_pages none = false
more_pages (some page) = page.has_more

-- The loop, with the number of pages that may still be read.
unfoldable pub collect_from {ℓ} :
    {Item : Type ℓ} → (ℕ → Option (Page Item)) → ℕ → ℕ → List Item → Bool → Collected Item
collect_from fetch_page zero offset collected truncated = record {
  items = collected;
  truncated = truncated;
}
collect_from fetch_page (suc pages) offset collected truncated =
    let payload = fetch_page offset in
    let all = collected ++ page_items payload in
    let rest =
      collect_from fetch_page pages (offset + length (page_items payload)) all (nat_beq pages 0) in
    if not (more_pages payload) || nat_beq (length (page_items payload)) 0
    then record { items = all; truncated = false }
    else rest

abbrev pub page_limit : ℕ → ℕ
page_limit max_pages = max 1 (or_default max_pages 5)

unfoldable pub collect_catalog_pages {ℓ} :
    {Item : Type ℓ} → (ℕ → Option (Page Item)) → ℕ → Collected Item
unfolding collect_from
collect_catalog_pages fetch_page max_pages =
    collect_from fetch_page (page_limit max_pages) 0 [] false

-- A catalog that serves its items from an offset on, `size` at a time, and says whether there are
-- more.
abbrev pub served {ℓ} : {Item : Type ℓ} → ℕ → List Item → ℕ → Option (Page Item)
served size catalog offset = some (record {
  items = take size (drop offset catalog);
  has_more = ltb (offset + size) (length catalog);
})

module _ {ℓ} {Item : Type ℓ} where
  take_all : (n : ℕ) (xs : List Item) → length xs ≤ n → take n xs ≡ xs
  take_all zero [] h = refl
  take_all zero (x ∷ xs) h = absurd (omega arith)
  take_all (suc n) [] h = refl
  take_all (suc n) (x ∷ xs) h = ap (◌∷◌ x) (take_all n xs (omega arith))

  take-nil : (n : ℕ) → take {A = Item} n [] ≡ []
  take-nil zero = refl
  take-nil (suc n) = refl

  take-drop : (m n : ℕ) (xs : List Item) → take m xs ++ take n (drop m xs) ≡ take (m + n) xs
  take-drop zero n xs = ap (λ k. take k xs) (omega arith)
  take-drop (suc m) n [] = rw (take-nil n) (sym (take-nil (suc m + n)))
  take-drop (suc m) n (x ∷ xs) =
      let e : suc (m + n) ≡ suc m + n = omega arith in
      ap (◌∷◌ x) (take-drop m n xs) ∙ ap (λ k. take k (x ∷ xs)) e

  module _ (fetch : ℕ → Option (Page Item)) (pages offset : ℕ) (collected : List Item)
      (truncated : Bool) where
    step_last :
        not (more_pages (fetch offset)) || nat_beq (length (page_items (fetch offset))) 0 ≡ true
        → collect_from fetch (suc pages) offset collected truncated
          ≡ record { items = collected ++ page_items (fetch offset); truncated = false }
    unfolding collect_from
    step_last h = rw h refl

    step_more :
        not (more_pages (fetch offset)) || nat_beq (length (page_items (fetch offset))) 0 ≡ false
        → collect_from fetch (suc pages) offset collected truncated
          ≡ collect_from fetch pages
              (offset + length (page_items (fetch offset)))
              (collected ++ page_items (fetch offset))
              (nat_beq pages 0)
    unfolding collect_from
    step_more h = rw h refl

  -- What the loop gives when it may have read all up to `last`.
  abbrev IsRead : List Item → ℕ → Collected Item → Type ℓ
  IsRead catalog last r = (r.items ≡ take last catalog) × (r.truncated ≡ ltb last (length catalog))

  module _ (fetch : ℕ → Option (Page Item)) (size : ℕ) (catalog : List Item) (pos : 0 < size)
      (serves : (offset : ℕ) → fetch offset ≡ served size catalog offset) where
    length-page :
        (offset : ℕ) → length (page_items (fetch offset)) ≡ min size (length catalog - offset)
    length-page offset =
        rw (serves offset)
          (omega (arith, length-take size (drop offset catalog), length-drop offset catalog))

    next_items :
        (offset : ℕ) (collected : List Item)
        → collected ≡ take offset catalog
        → collected ++ page_items (fetch offset) ≡ take (offset + size) catalog
    next_items offset collected c = rw (serves offset) rw c (take-drop offset size catalog)

    collect_from-IsRead :
        (pages offset : ℕ) (collected : List Item) (truncated : Bool)
        → offset ≤ length catalog
        → collected ≡ take offset catalog
        → (pages ≡ 0 → truncated ≡ ltb offset (length catalog))
        → IsRead catalog
            (offset + pages * size)
            (collect_from fetch pages offset collected truncated)
    unfolding collect_from
    collect_from-IsRead zero offset collected truncated h c t =
        let e : offset ≡ offset + 0 * size = omega arith in
        (c ∙ ap (λ n. take n catalog) e, t refl ∙ ap (λ n. ltb n (length catalog)) e)
    collect_from-IsRead (suc pages) offset collected truncated h c t =
        elim (Bool-cases (ltb (offset + size) (length catalog))) [
          | inl more ↦
              let len : length (page_items (fetch offset)) ≡ size =
                length-page offset ∙ ground arith in
              let go : not (more_pages (fetch offset))
                    || nat_beq (length (page_items (fetch offset))) 0
                  ≡ false =
                rw len rw (serves offset) (ground arith) in
              let e : offset + length (page_items (fetch offset)) + pages * size
                  ≡ offset + suc pages * size =
                rw len (omega arith) in
              let ih =
                collect_from-IsRead pages (offset + length (page_items (fetch offset)))
                  (collected ++ page_items (fetch offset)) (nat_beq pages 0) (rw len (ground arith))
                  (rw len (next_items offset collected c)) (λ z. rw z rw len (sym more)) in
              subst (IsRead catalog (offset + suc pages * size))
                (sym (step_more fetch pages offset collected truncated go))
                (ih.0 ∙ ap (λ n. take n catalog) e, ih.1 ∙ ap (λ n. ltb n (length catalog)) e)
          | inr last ↦
              let go : not (more_pages (fetch offset))
                    || nat_beq (length (page_items (fetch offset))) 0
                  ≡ true =
                rw (serves offset) (ground arith) in
              let far : length catalog ≤ offset + suc pages * size = ground arith in
              subst (IsRead catalog (offset + suc pages * size))
                (sym (step_last fetch pages offset collected truncated go))
                (
                  next_items offset collected c
                      ∙ (take_all (offset + size) catalog (ground arith)
                          ∙ sym (take_all (offset + suc pages * size) catalog far)),
                  ground arith,
                )
        ]

    -- When the catalog serves its items from the asked offset on, a fixed number above zero at a
    -- time, and says whether there are more, then the collected items are those of as many pages
    -- as the limit allows, and the result is marked as cut off exactly when the catalog has more.
    pub collect_catalog_pages-IsRead :
        (max_pages : ℕ)
        → IsRead catalog (page_limit max_pages * size) (collect_catalog_pages fetch max_pages)
    unfolding collect_catalog_pages
    collect_catalog_pages-IsRead max_pages =
        let e : 0 + page_limit max_pages * size ≡ page_limit max_pages * size = omega arith in
        let r =
          collect_from-IsRead (page_limit max_pages) 0 [] false (omega arith) refl
            (λ z. absurd (ground arith)) in
        (r.0 ∙ ap (λ n. take n catalog) e, r.1 ∙ ap (λ n. ltb n (length catalog)) e)
