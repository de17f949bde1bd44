-- ===== src/Universe/Sorting.antt =====
-- The sort by date.
use quant_pilot.Base.{ℕ, ◌≤◌, List, [], ◌∷◌, arith, All}
use quant_pilot.Universe.{MembershipEvent, insert_by_date, sort_by_date}

abbrev pub IsFrom : ℕ → List MembershipEvent → Type 0
IsFrom n es = All (λ (e : MembershipEvent). n ≤ e.date) es

abbrev pub IsSorted : List MembershipEvent → Type 0
IsSorted [] = Unit
IsSorted (e ∷ es) = IsFrom e.date es × IsSorted es

IsFrom-mono : (m n : ℕ) (es : List MembershipEvent) → m ≤ n → IsFrom n es → IsFrom m es
IsFrom-mono m n [] h from = tt
IsFrom-mono m n (e ∷ es) h from = (omega arith, IsFrom-mono m n es h from.1)

insert_by_date-IsFrom :
    (n : ℕ) (e : MembershipEvent) (es : List MembershipEvent)
    → n ≤ e.date
    → IsFrom n es
    → IsFrom n (insert_by_date e es)
unfolding insert_by_date
insert_by_date-IsFrom n e [] h from = (h, tt)
insert_by_date-IsFrom n e (f ∷ fs) h from = ground (arith, insert_by_date-IsFrom n e fs h from.1)

insert_by_date-IsSorted :
    (e : MembershipEvent) (es : List MembershipEvent) → IsSorted es → IsSorted (insert_by_date e es)
unfolding insert_by_date
insert_by_date-IsSorted e [] sorted = (tt, tt)
insert_by_date-IsSorted e (f ∷ fs) sorted = ground (
  arith,
  insert_by_date-IsSorted e fs sorted.1,
  insert_by_date-IsFrom f.date e fs,
  IsFrom-mono e.date f.date fs,
)

pub sort_by_date-IsSorted : (es : List MembershipEvent) → IsSorted (sort_by_date es)
unfolding sort_by_date
sort_by_date-IsSorted [] = tt
sort_by_date-IsSorted (e ∷ es) =
    insert_by_date-IsSorted e (sort_by_date es) (sort_by_date-IsSorted es)
