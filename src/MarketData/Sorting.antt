-- ===== src/MarketData/Sorting.antt =====
-- The rows of every date, and the last of them, through `keep_last` and `sort_index`.
use quant_pilot.Base.{
  ℕ, ◌≡◌, refl, ap, ◌∙◌, true, false, Option, none, some, List, [], ◌∷◌, ◌++◌, length, arith, ◌==◌,
  maybe, if◌then◌else◌,
}
use quant_pilot.MarketData.{Frame, Files, IsFiles, rows_of, only_row, has_date, keep_last}

module _ {R : Type 0} where
  -- The last row of a date.
  unfoldable pub latest : ℕ → Frame R → Option R
  latest day [] = none
  latest day (r ∷ rs) =
      let later = latest day rs in maybe later (if r.0 == day then some r.1 else none) some

  latest_present : (day : ℕ) (f : Frame R) → has_date day f ≡ true → ¬ (latest day f ≡ none)
  unfolding latest
  latest_present day [] h = ground arith
  latest_present day (r ∷ rs) h = ground (arith, latest_present day rs)

  latest_absent : (day : ℕ) (f : Frame R) → has_date day f ≡ false → latest day f ≡ none
  unfolding latest
  latest_absent day [] h = refl
  latest_absent day (r ∷ rs) h = ground (arith, latest_absent day rs)

  pub latest-append :
      (day : ℕ) (f g : Frame R) → latest day (f ++ g) ≡ maybe (latest day g) (latest day f) some
  unfolding latest
  latest-append day [] g = ground arith
  latest-append day (r ∷ rs) g = ground (arith, latest-append day rs g)

  -- The row, if there is one.
  abbrev pub as_list : Option R → List R
  as_list none = []
  as_list (some row) = row ∷ []

  rows_of-keep_last : (day : ℕ) (f : Frame R) → rows_of day (keep_last f) ≡ as_list (latest day f)
  unfolding rows_of latest keep_last
  rows_of-keep_last day [] = refl
  rows_of-keep_last day (r ∷ rs) =
      ground (arith, rows_of-keep_last day rs, latest_present r.0 rs, latest_absent r.0 rs)

  as_list-of_only :
      (rows : List R) (o : Option R)
      → length rows ≡ length (as_list o)
      → only_row rows ≡ only_row (as_list o)
      → rows ≡ as_list o
  as_list-of_only [] none h e = refl
  as_list-of_only [] (some y) h e = ground arith
  as_list-of_only (x ∷ []) none h e = ground arith
  as_list-of_only (x ∷ []) (some y) h e = ground arith
  as_list-of_only (x ∷ x' ∷ rows) none h e = ground arith
  as_list-of_only (x ∷ x' ∷ rows) (some y) h e = ground arith

module _ {R S : Type 0} (files : Files R S) (laws : IsFiles files) where
  -- After the removal of duplicates and the sort, a date has its last row alone.
  pub rows_of-sort_index :
      (day : ℕ) (f : Frame R)
      → rows_of day (files.sort_index (keep_last f)) ≡ as_list (latest day f)
  rows_of-sort_index day f =
      let kept = rows_of-keep_last day f in
      as_list-of_only _ (latest day f) (laws.length-sort_index day (keep_last f) ∙ ap length kept)
        (laws.only_row-sort_index day (keep_last f) ∙ ap only_row kept)
