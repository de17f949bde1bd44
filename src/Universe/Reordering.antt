-- ===== src/Universe/Reordering.antt =====
-- The order of a membership file: only the order of the rows of one symbol in one index, on one date,
-- says anything.
use mathlib.Core.Quot
use mathlib.Core.Quot.{Quot}
use mathlib.Core.Bool.{Bool-set}
use quant_pilot.Base.{
  ℕ, String, ◌≡◌, ◌≢◌, refl, sym, ap, ◌∙◌, ◌⊎◌, inl, inr, Bool, true, false, List, [], ◌∷◌, ◌++◌,
  arith, Bool-cases,
}
use quant_pilot.Universe.{
  MembershipEvent, Key, key_eq, key_of, insert_by_date, sort_by_date, build_membership_intervals,
}
use quant_pilot.Universe.Loop.{replay}
use quant_pilot.Universe.Grouping.{of_key, key_eq-eq}
use quant_pilot.Universe.Members.{members, names, members-eq-replay}

-- Two rows that may change places.
abbrev pub IsIndependent : MembershipEvent → MembershipEvent → Type 0
IsIndependent e f = (key_eq (key_of e) (key_of f) ≡ false) ⊎ (e.date ≢ f.date)

-- Two neighbours of a file change places.
pub data Swap : List MembershipEvent → List MembershipEvent → Type 0 where
  swap :
      (before : List MembershipEvent) (e f : MembershipEvent) (after : List MembershipEvent)
      → IsIndependent e f
      → Swap (before ++ e ∷ f ∷ after) (before ++ f ∷ e ∷ after)

-- A file up to the order of independent rows.
abbrev pub EventFile : Type 0
EventFile = Quot Swap

insert_by_date_comm :
    (e f : MembershipEvent) (es : List MembershipEvent)
    → e.date ≢ f.date
    → insert_by_date e (insert_by_date f es) ≡ insert_by_date f (insert_by_date e es)
unfolding insert_by_date
insert_by_date_comm e f [] other = ground (arith, other)
insert_by_date_comm e f (g ∷ es) other = ground (arith, other, insert_by_date_comm e f es other)

sort-of_key-swap :
    (k : Key) (before : List MembershipEvent) (e f : MembershipEvent) (after : List MembershipEvent)
    → IsIndependent e f
    → sort_by_date (of_key k (before ++ e ∷ f ∷ after))
      ≡ sort_by_date (of_key k (before ++ f ∷ e ∷ after))
unfolding sort_by_date
sort-of_key-swap k (g ∷ before) e f after free =
    let rest = sort-of_key-swap k before e f after free in
    elim (Bool-cases (key_eq (key_of g) k)) [
      | inl same ↦ rw same (ap (insert_by_date g) rest)
      | inr other ↦ rw other rest
    ]
sort-of_key-swap k [] e f after (inr dates) = ground (
  arith,
  insert_by_date_comm e f (sort_by_date (of_key k after)) dates,
  Bool-cases (key_eq (key_of e) k),
  Bool-cases (key_eq (key_of f) k),
)
sort-of_key-swap k [] e f after (inl keys) = elim (Bool-cases (key_eq (key_of e) k)) [
  | inr other ↦ rw other refl
  | inl same ↦ elim (Bool-cases (key_eq (key_of f) k)) [
    | inr apart ↦ rw same (rw apart refl)
    | inl both ↦
        let clash : key_eq (key_of e) (key_of f) ≡ true =
          ap (key_eq (key_of e)) (key_eq-eq (key_of f) k both) ∙ same in
        absurd (ground (arith, clash, keys))
  ]
]

module _ (ids : ℕ → String) (index symbol : String) (day : ℕ) where
  -- Whether the intervals of a list of events make the symbol a member on the day.
  abbrev pub is_member : List MembershipEvent → Bool
  is_member events = names symbol (members index day (build_membership_intervals ids events))

  pub is_member-Swap : (xs ys : List MembershipEvent) → Swap xs ys → is_member xs ≡ is_member ys
  is_member-Swap _ _ (swap before e f after free) =
      members-eq-replay ids (before ++ e ∷ f ∷ after) index symbol day
      ∙ ap (replay day false) (sort-of_key-swap (index, symbol) before e f after free)
      ∙ sym (members-eq-replay ids (before ++ f ∷ e ∷ after) index symbol day)

  -- Membership, as a function of the file up to the order of independent rows.
  abbrev pub is_member_of_file : EventFile → Bool
  is_member_of_file = Quot.lift Bool-set is_member is_member-Swap

  -- Two files that agree up to the order of rows, except that rows of one symbol in one index on one
  -- date keep their order, give the same members of every index on every day.
  pub is_member-eq_of_reordered :
      (xs ys : List MembershipEvent)
      → Path EventFile (Quot.mk xs) (Quot.mk ys)
      → is_member xs ≡ is_member ys
  is_member-eq_of_reordered xs ys same = ap is_member_of_file same
