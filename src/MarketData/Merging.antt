-- ===== src/MarketData/Merging.antt =====
-- What `merge_write` keeps.
use quant_pilot.Base.{
  ℕ, String, ◌≡◌, ◌⊎◌, inl, inr, refl, ap, ◌∙◌, Bool, true, false, Option, none, some, [], ◌∷◌,
  arith, is_empty, maybe, length, str_eq, if◌then◌else◌, if-cases, eq_iff,
}
use quant_pilot.MarketData.{
  Frame, Files, IsFiles, IsSorted, rows_of, only_row, path_of, read, write, combine, merge_write,
}
use quant_pilot.MarketData.Sorting.{latest, as_list, latest-append, rows_of-sort_index}

module _ {R S : Type 0} (files : Files R S) where
  -- The last row of a date among the new rows, or else among the old ones.
  abbrev pub last_write : ℕ → Option (Frame R) → Frame R → Option R
  last_write day old df = maybe (latest day df) (maybe old none (latest day)) some

  -- There is no old row.
  abbrev pub is_fresh : Option (Frame R) → Bool
  is_fresh none = true
  is_fresh (some old) = is_empty old

  -- Without old rows the new ones are kept, as many of every date; else every date has one row, its
  -- last write.
  abbrev pub KeepsWrites : Option (Frame R) → Frame R → Frame R → Type 0
  KeepsWrites old df merged =
      ((is_fresh old ≡ true)
        × ((day : ℕ)
            → (length (rows_of day merged) ≡ length (rows_of day df))
              × (only_row (rows_of day merged) ≡ only_row (rows_of day df))))
      ⊎ ((is_fresh old ≡ false)
          × ((day : ℕ) → rows_of day merged ≡ as_list (last_write day old df)))

  module _ (laws : IsFiles files) where
    combine-IsSorted : (old : Option (Frame R)) (df : Frame R) → IsSorted (combine files old df)
    unfolding combine
    combine-IsSorted none df = laws.sort_index-IsSorted df
    combine-IsSorted (some existing) df =
        if-cases IsSorted (is_empty existing) (λ _. laws.sort_index-IsSorted df)
          (λ _. laws.sort_index-IsSorted _)

    combine-KeepsWrites :
        (old : Option (Frame R)) (df : Frame R) → KeepsWrites old df (combine files old df)
    unfolding combine
    combine-KeepsWrites none df =
        inl (refl, λ day. (laws.length-sort_index day df, laws.only_row-sort_index day df))
    combine-KeepsWrites (some []) df =
        inl (refl, λ day. (laws.length-sort_index day df, laws.only_row-sort_index day df))
    combine-KeepsWrites (some (e ∷ es)) df = inr (
      refl,
      λ day. rows_of-sort_index files laws day _ ∙ ap as_list (latest-append day (e ∷ es) df),
    )

    read-write :
        (symbol : String) (f : Frame R) (s : S)
        → IsSorted f
        → read files symbol (write files symbol f s) ≡ some f
    unfolding read write
    read-write symbol f s sorted = ground (
      arith,
      laws.read-write s (path_of symbol) (path_of symbol) (files.sort_index f),
      eq_iff (path_of symbol) (path_of symbol),
      laws.sort_index_sorted f sorted,
    )

    -- `merge_write` returns a frame in order of date. Where the cache had rows of the symbol, every
    -- date of the frame has one row: the last new row of the date, or the last old one where no new
    -- row has it. Where it had none, every date has as many rows as in the new frame, and the new
    -- row where that is one. The frame is what is then read under the symbol's path, and other paths
    -- are read as before.
    pub merge_write_lem :
        (symbol : String) (df : Frame R) (s : S)
        → let (s', merged) = merge_write files symbol df s in
          IsSorted merged
          × KeepsWrites (read files symbol s) df merged
          × ((other : String)
              → read files other s' ≡ (
                  if str_eq (path_of symbol) (path_of other)
                  then some merged
                  else read files other s))
    unfolding merge_write
    merge_write_lem symbol df s =
        let old = read files symbol s in
        let merged = combine files old df in
        (
          combine-IsSorted old df,
          combine-KeepsWrites old df,
          λ other.
              unfold read write in
              ground (
                arith,
                laws.read-write s (path_of symbol) (path_of other) (files.sort_index merged),
                laws.sort_index_sorted merged (combine-IsSorted old df),
              ),
        )

    pub read-merge_write :
        (symbol : String) (df : Frame R) (s : S)
        → let (s', merged) = merge_write files symbol df s in read files symbol s' ≡ some merged
    unfolding merge_write
    read-merge_write symbol df s =
        read-write symbol (combine files (read files symbol s) df) s
          (combine-IsSorted (read files symbol s) df)
