-- ===== src/Universe/Grouping.antt =====
-- The grouping of events by key, and the outer loop over the groups.
use quant_pilot.Base.{
  ℕ, String, ◌≡◌, refl, Bool, true, false, ◌||◌, List, [], ◌∷◌, ◌++◌, arith, any, keep, ap, ◌∙◌,
  sym, if◌then◌else◌, inl, inr, Bool-cases, eq_iff, none,
}
use mathlib.Core.Path.{subst}
use mathlib.Core.List.{append_assoc, append-nil}
use quant_pilot.Domain.{UniverseMembership}
use quant_pilot.Universe.{
  MembershipEvent, Key, Groups, key_eq, key_of, append_to, group_events, sort_by_date, event_loop,
  key_loop,
}
use quant_pilot.Universe.Sorting.{sort_by_date-IsSorted}
use quant_pilot.Universe.Loop.{holds, replay, any-event_loop, any-event_loop_other}

pub key_eq-eq : (j k : Key) → key_eq j k ≡ true → j ≡ k
key_eq-eq (i, s) (j, t) h = ground (arith, eq_iff i j, eq_iff s t)

key_eq_trans : (i j k : Key) → key_eq i j ≡ true → key_eq i k ≡ key_eq j k
key_eq_trans i j k h = ap (λ x. key_eq x k) (key_eq-eq i j h)

-- The events grouped under a key.
unfoldable pub events_of : Key → Groups → List MembershipEvent
events_of k [] = []
events_of k ((j, es) ∷ gs) = if key_eq j k then es else events_of k gs

-- No group has the key.
abbrev IsNewKey : Key → Groups → Type 0
IsNewKey k [] = Unit
IsNewKey k ((j, es) ∷ gs) = (key_eq j k ≡ false) × IsNewKey k gs

abbrev pub HasUniqueGroups : Groups → Type 0
HasUniqueGroups [] = Unit
HasUniqueGroups ((k, es) ∷ gs) = IsNewKey k gs × HasUniqueGroups gs

events_of_new : (k : Key) (gs : Groups) → IsNewKey k gs → events_of k gs ≡ []
unfolding events_of
events_of_new k [] new = refl
events_of_new k ((j, es) ∷ gs) new = ground (arith, events_of_new k gs new.1)

append_to-IsNewKey :
    (j k : Key) (e : MembershipEvent) (gs : Groups)
    → key_eq k j ≡ false
    → IsNewKey j gs
    → IsNewKey j (append_to k e gs)
unfolding append_to
append_to-IsNewKey j k e [] ne new = (ne, tt)
append_to-IsNewKey j k e ((i, es) ∷ gs) ne new =
    ground (arith, append_to-IsNewKey j k e gs ne new.1)

key_eq-sym : (j k : Key) → key_eq j k ≡ key_eq k j
key_eq-sym (i, s) (j, t) = ground (arith, eq_iff i j, eq_iff j i, eq_iff s t, eq_iff t s)

append_to-HasUniqueGroups :
    (k : Key) (e : MembershipEvent) (gs : Groups)
    → HasUniqueGroups gs
    → HasUniqueGroups (append_to k e gs)
unfolding append_to
append_to-HasUniqueGroups k e [] unique = (tt, tt)
append_to-HasUniqueGroups k e ((j, es) ∷ gs) unique =
    ground (
      arith,
      append_to-HasUniqueGroups k e gs unique.1,
      append_to-IsNewKey j k e gs,
      key_eq-sym j k,
    )

events_of-append_to :
    (j k : Key) (e : MembershipEvent) (gs : Groups)
    → events_of k (append_to j e gs)
      ≡ (if key_eq j k then events_of k gs ++ e ∷ [] else events_of k gs)
unfolding events_of append_to
events_of-append_to j k e [] = ground arith
events_of-append_to j k e ((i, es) ∷ gs) = elim (Bool-cases (key_eq i j)) [
  | inl same ↦ ground (arith, key_eq_trans i j k same)
  | inr other ↦ elim (Bool-cases (key_eq i k)) [
    | inl here ↦
        let ne : key_eq j k ≡ false = key_eq-sym j k ∙ sym (key_eq_trans i k j here) ∙ other in
        ground arith
    | inr elsewhere ↦ ground (arith, events_of-append_to j k e gs)
  ]
]

group_events-HasUniqueGroups :
    (gs : Groups) (es : List MembershipEvent)
    → HasUniqueGroups gs
    → HasUniqueGroups (group_events gs es)
unfolding group_events
group_events-HasUniqueGroups gs [] unique = unique
group_events-HasUniqueGroups gs (e ∷ es) unique =
    group_events-HasUniqueGroups (append_to (key_of e) e gs) es
      (append_to-HasUniqueGroups (key_of e) e gs unique)

-- The events of a key, in the order of the input.
abbrev pub of_key : Key → List MembershipEvent → List MembershipEvent
of_key k = keep (λ e. key_eq (key_of e) k)

events_of-group_events :
    (k : Key) (gs : Groups) (es : List MembershipEvent)
    → events_of k (group_events gs es) ≡ events_of k gs ++ of_key k es
unfolding group_events
events_of-group_events k gs [] = sym (append-nil _)
events_of-group_events k gs (e ∷ es) =
    events_of-group_events k (append_to (key_of e) e gs) es
    ∙ ap (λ xs. xs ++ of_key k es) (events_of-append_to (key_of e) k e gs)
    ∙ regroup (key_eq (key_of e) k)
  where
    regroup :
        (b : Bool)
        → (if b then events_of k gs ++ e ∷ [] else events_of k gs) ++ of_key k es
          ≡ events_of k gs ++ (if b then e ∷ of_key k es else of_key k es)
    regroup true = append_assoc (events_of k gs) (e ∷ []) (of_key k es)
    regroup false = refl

module _ (ids : ℕ → String) (day : ℕ) where
  key_loop_new :
      (k : Key) (gs : Groups) (acc : List UniverseMembership)
      → IsNewKey k gs
      → any (holds k day) (key_loop ids gs acc) ≡ any (holds k day) acc
  unfolding key_loop
  key_loop_new k [] acc new = refl
  key_loop_new k ((j, es) ∷ gs) acc new =
      key_loop_new k gs (event_loop ids j (sort_by_date es) none acc) new.1
      ∙ any-event_loop_other ids day j k (sort_by_date es) none acc new.0

  any-key_loop :
      (k : Key) (gs : Groups) (acc : List UniverseMembership)
      → HasUniqueGroups gs
      → any (holds k day) (key_loop ids gs acc)
        ≡ (any (holds k day) acc || replay day false (sort_by_date (events_of k gs)))
  unfolding key_loop events_of
  any-key_loop k [] acc unique = unfold replay sort_by_date in ground arith
  any-key_loop k ((j, es) ∷ gs) acc unique =
      let acc' = event_loop ids j (sort_by_date es) none acc in
      elim (Bool-cases (key_eq j k)) [
        | inl same ↦ rw same (
            key_loop_new k gs acc' (subst (λ x. IsNewKey x gs) (key_eq-eq j k same) unique.0)
            ∙ ap (λ x. any (holds k day) (event_loop ids x (sort_by_date es) none acc))
                (key_eq-eq j k same)
            ∙ any-event_loop ids day k (sort_by_date es) none acc (sort_by_date-IsSorted es) tt)
        | inr other ↦ rw other (
            any-key_loop k gs acc' unique.1
            ∙ ap (λ b. b || replay day false (sort_by_date (events_of k gs)))
                (any-event_loop_other ids day j k (sort_by_date es) none acc other))
      ]

  pub any-group_events :
      (k : Key) (es : List MembershipEvent)
      → any (holds k day) (key_loop ids (group_events [] es) [])
        ≡ replay day false (sort_by_date (of_key k es))
  any-group_events k es =
      any-key_loop k (group_events [] es) [] (group_events-HasUniqueGroups [] es tt)
      ∙ ap (λ xs. replay day false (sort_by_date xs))
          (unfold events_of in events_of-group_events k [] es)
