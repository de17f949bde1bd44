-- ===== src/MarketData/Samples.antt =====
-- Files in memory with two cached days of a symbol, and a download of two more.
use quant_pilot.Base.{
  ℕ, ◌≤◌, String, ◌≡◌, refl, ap, ◌∙◌, Option, none, some, [], ◌∷◌, arith, leb, length,
  if◌then◌else◌,
}
use quant_pilot.Base.Dict.{Dict, lookup, insert, lookup-insert}
use quant_pilot.MarketData.{Frame, Files, IsFiles, IsFrom, IsSorted, rows_of, only_row, Cells}

module _ {R : Type 0} where
  unfoldable pub insert_row : ℕ × R → Frame R → Frame R
  insert_row r [] = r ∷ []
  insert_row r (q ∷ qs) = if leb r.0 q.0 then r ∷ q ∷ qs else q ∷ insert_row r qs

  -- A sort of frames by insertion, which is stable.
  unfoldable pub insertion_sort : Frame R → Frame R
  insertion_sort [] = []
  insertion_sort (r ∷ rs) = insert_row r (insertion_sort rs)

  IsFrom-mono : (m n : ℕ) (f : Frame R) → m ≤ n → IsFrom n f → IsFrom m f
  IsFrom-mono m n [] h from = tt
  IsFrom-mono m n (r ∷ rs) h from = (omega arith, IsFrom-mono m n rs h from.1)

  insert_row-IsFrom :
      (day : ℕ) (r : ℕ × R) (f : Frame R) → day ≤ r.0 → IsFrom day f → IsFrom day (insert_row r f)
  unfolding insert_row
  insert_row-IsFrom day r [] h from = (h, tt)
  insert_row-IsFrom day r (q ∷ qs) h from = ground (arith, insert_row-IsFrom day r qs h from.1)

  insert_row-IsSorted : (r : ℕ × R) (f : Frame R) → IsSorted f → IsSorted (insert_row r f)
  unfolding insert_row
  insert_row-IsSorted r [] sorted = (tt, tt)
  insert_row-IsSorted r (q ∷ qs) sorted =
      ground (
        arith,
        insert_row-IsSorted r qs sorted.1,
        insert_row-IsFrom q.0 r qs,
        IsFrom-mono r.0 q.0 qs,
      )

  insertion_sort-IsSorted : (f : Frame R) → IsSorted (insertion_sort f)
  unfolding insertion_sort
  insertion_sort-IsSorted [] = tt
  insertion_sort-IsSorted (r ∷ rs) =
      insert_row-IsSorted r (insertion_sort rs) (insertion_sort-IsSorted rs)

  insert_row_first : (r : ℕ × R) (f : Frame R) → IsFrom r.0 f → insert_row r f ≡ r ∷ f
  unfolding insert_row
  insert_row_first r [] from = refl
  insert_row_first r (q ∷ qs) from = ground arith

  insertion_sort_sorted : (f : Frame R) → IsSorted f → insertion_sort f ≡ f
  unfolding insertion_sort
  insertion_sort_sorted [] sorted = refl
  insertion_sort_sorted (r ∷ rs) (from, sorted) =
      ap (insert_row r) (insertion_sort_sorted rs sorted) ∙ insert_row_first r rs from

  rows_of-insert_row :
      (day : ℕ) (r : ℕ × R) (f : Frame R) → rows_of day (insert_row r f) ≡ rows_of day (r ∷ f)
  unfolding rows_of insert_row
  rows_of-insert_row day r [] = refl
  rows_of-insert_row day r (q ∷ qs) = ground (arith, rows_of-insert_row day r qs)

  rows_of-insertion_sort : (day : ℕ) (f : Frame R) → rows_of day (insertion_sort f) ≡ rows_of day f
  unfolding rows_of insertion_sort
  rows_of-insertion_sort day [] = refl
  rows_of-insertion_sort day (r ∷ rs) =
      rows_of-insert_row day r (insertion_sort rs) ∙ ground (arith, rows_of-insertion_sort day rs)

abbrev pub files : Files (Cells ℕ) (Dict (Frame (Cells ℕ)))
files = record {
  read_parquet = λ s p. lookup p s;
  to_parquet = insert;
  sort_index = insertion_sort;
}

pub files-IsFiles : IsFiles files
files-IsFiles = record {
  read-write = λ s p q f. lookup-insert p q f s;
  sort_index-IsSorted = insertion_sort-IsSorted;
  length-sort_index = λ day f. ap length (rows_of-insertion_sort day f);
  only_row-sort_index = λ day f. ap only_row (rows_of-insertion_sort day f);
  sort_index_sorted = insertion_sort_sorted;
}

abbrev pub bar : String → ℕ → ℕ → ℕ × Cells ℕ
bar column day close = (day, (column, some close) ∷ [])

abbrev pub cached : Dict (Frame (Cells ℕ))
cached = ("INFY.parquet", bar "close" 1 10 ∷ bar "close" 2 11 ∷ []) ∷ []

abbrev pub raw : Frame (Cells ℕ)
raw = bar "Close" 3 13 ∷ bar "Close" 2 12 ∷ (4, ("Close", none) ∷ []) ∷ []

abbrev pub download : String → ℕ → ℕ → String → Option (Frame (Cells ℕ))
download symbol from to frequency = some raw
