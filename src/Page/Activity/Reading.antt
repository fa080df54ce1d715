-- ===== src/Page/Activity/Reading.antt =====
-- Reading the activity view to its end.
use mathlib.Core.List.{append-nil}
use pm2manager.Common.{
  ℕ, zero, suc, ◌+◌, ◌*◌, ◌/◌, ◌≤◌, ◌<◌, max, ◌≡◌, refl, sym, ap, ◌∙◌, ◌⊎◌, inl, inr, arith, true,
  Option, List, [], ◌∷◌, ◌++◌, length, take, drop, leb, Bool-cases, Apart, if◌then◌else◌,
}
use pm2manager.Activity.{ActivityRecord, ActivityType, ActivityLog, newer, count}
use pm2manager.Activity.{list as list_rows}
use pm2manager.Activity.Paging.{whole, newest_first, length-whole, take-all}
use pm2manager.Common.Slices.{length-drop, take-drop, drop-drop}
use pm2manager.Page.Activity.{Paging, ActivityView, ceil_div, load_activity, next, read_on}

abbrev pub items_of : List ActivityView → List ActivityRecord
items_of [] = []
items_of (v ∷ vs) = v.items ++ items_of vs

abbrev pub pages_of : ℕ → ℕ
pages_of total = max 1 (ceil_div total 25)

-- Each view is labelled by its place, from `k` on, and by the number of pages.
abbrev pub Labelled : ℕ → ℕ → List ActivityView → Type 0
Labelled k pages [] = Unit
Labelled k pages (v ∷ vs) = (v.page_number ≡ k) × (v.page_count ≡ pages) × Labelled (k + 1) pages vs

module _ (type : Option ActivityType) (l : ActivityLog) where
  abbrev at_page : ℕ → Paging
  at_page k = record { activity_offset = k * 25; activity_type = type }

  -- One page.
  load_activity_lem :
      (k : ℕ)
      → load_activity (at_page k) l ≡ record {
        items = take 25 (drop (k * 25) (whole 25 type l));
        page_number = k + 1;
        page_count = pages_of (count type l);
        prev_disabled = leb (k * 25) 0;
        next_disabled = leb (count type l) (k * 25 + 25);
      }
  unfolding load_activity list_rows
  load_activity_lem k = let place : k * 25 / 25 ≡ k = omega arith in rw place refl

  -- What is read from page `k` on.
  abbrev ReadsFrom : ℕ → List ActivityView → Type 0
  ReadsFrom k vs =
      (items_of vs ≡ drop (k * 25) (whole 25 type l))
      × (k + length vs ≡ pages_of (count type l))
      × Labelled (k + 1) (pages_of (count type l)) vs

  last_page :
      (k : ℕ)
      → (k ≡ 0) ⊎ (k * 25 < count type l)
      → count type l ≤ k * 25 + 25
      → ReadsFrom k (load_activity (at_page k) l ∷ [])
  last_page k began ends =
      let few : length (drop (k * 25) (whole 25 type l)) ≤ 25 =
        omega (arith, length-drop (k * 25) (whole 25 type l), length-whole 25 type l) in
      rw (load_activity_lem k) (
        append-nil (take 25 (drop (k * 25) (whole 25 type l)))
            ∙ take-all 25 (drop (k * 25) (whole 25 type l)) few,
        ground arith,
        (refl, refl, tt),
      )

  turned :
      (n k : ℕ)
      → read_on (suc n) (at_page k) l
        ≡ load_activity (at_page k) l
          ∷ (if leb (count type l) (k * 25 + 25) then [] else read_on n (at_page (suc k)) l)
  unfolding read_on
  turned n k =
      let on : k * 25 + 25 ≡ suc k * 25 = omega arith in
      ap
        (λ v.
          load_activity (at_page k) l
          ∷ (if v.next_disabled then [] else read_on n (next (at_page k)) l))
        (load_activity_lem k)
      ∙ ap
          (λ o.
            load_activity (at_page k) l
            ∷ (if leb (count type l) (k * 25 + 25)
                then []
                else read_on n (record { activity_offset = o; activity_type = type }) l))
          on

  more_pages :
      (k : ℕ) (vs : List ActivityView)
      → ReadsFrom (suc k) vs
      → ReadsFrom k (load_activity (at_page k) l ∷ vs)
  more_pages k vs (items, counted, labelled) =
      let place : k + 1 + 1 ≡ suc k + 1 = omega arith in
      let on : suc k * 25 ≡ k * 25 + 25 = omega arith in
      rw (load_activity_lem k) (
        ap (λ xs. take 25 (drop (k * 25) (whole 25 type l)) ++ xs)
              (items
                ∙ ap (λ m. drop m (whole 25 type l)) on
                ∙ sym (drop-drop (k * 25) 25 (whole 25 type l)))
            ∙ take-drop 25 (drop (k * 25) (whole 25 type l)),
        omega (arith, counted),
        (refl, refl, rw place labelled),
      )

  reads :
      (n k : ℕ)
      → (k ≡ 0) ⊎ (k * 25 < count type l)
      → count type l ≤ (k + n) * 25
      → 1 ≤ n
      → ReadsFrom k (read_on n (at_page k) l)
  reads zero k began enough some_fuel = absurd (omega arith)
  reads (suc n) k began enough some_fuel = elim (Bool-cases (leb (count type l) (k * 25 + 25))) [
    | inl ends ↦ rw (turned n k, ends) (last_page k began (ground arith))
    | inr more ↦
        let left : k * 25 + 25 < count type l = ground arith in
        rw (turned n k, more)
          (more_pages k (read_on n (at_page (suc k)) l) (
            reads n (suc k) (inr (omega (arith, left))) (omega (arith, enough))
              (omega (arith, enough, left))))
  ]

-- Who turns the pages of the activity view from the first until the button is disabled sees every row of
-- the log of the kind chosen once, the newest first, on as many pages as the label says, each under its
-- number; no more turns are needed than there are pages to fill, and at least one.
pub read_on_complete :
    (n : ℕ) (type : Option ActivityType) (l : ActivityLog)
    → 1 ≤ n
    → count type l ≤ n * 25
    → let vs = read_on n (record { activity_offset = 0; activity_type = type }) l in
      (items_of vs ≡ whole 25 type l)
      × Apart (λ a b. newer a b ≡ true) (items_of vs)
      × (length (items_of vs) ≡ count type l)
      × (length vs ≡ pages_of (count type l))
      × Labelled 1 (pages_of (count type l)) vs
read_on_complete n type l some_fuel enough =
    let (items, counted, labelled) =
      reads type l n 0 (inl refl) (omega (arith, enough)) some_fuel in
    (
      items,
      rw items (newest_first 25 type l),
      ap length items ∙ length-whole 25 type l,
      omega (arith, counted),
      labelled,
    )
