-- ===== src/Diff/Grouped.antt =====
-- What the sections of a diff hold.
use pathway_backend.Prelude.{
  String, Option, true, false, ◌&&◌, none, some, List, [], ◌∷◌, ◌++◌, ◌≡◌, refl, inl, inr, arith,
  Bool-cases, select, any, find, nat_Eq, ◌==◌, if◌then◌else◌, ◌∙◌, count_where, ◌≤◌, All, ap, map,
}
use pathway_backend.Plan.Types.{
  Payload, OperationKind, PlanSection, PlanOperation, create, update, move, delete, link, unlink,
}
use pathway_backend.Diff.{
  SectionChanges, change_of, added_of, removed_of, moved_of, empty_section, add_operation, has_any,
  is_in, is_of, put_operation, put_operations, is_not_empty, group_operations, FieldChange,
  StepChange, MovedStep,
}
use pathway_backend.Diff.Sections.{
  of_kind, is_update, is_addition, is_removal, is_move, add_operation-section, find-put_operations,
  folded-none, section_changes,
}

-- No bucket is empty, so that the filter of empty sections removes none.
has_any-append : {A : Type 0} (xs : List A) (y : A) → has_any (xs ++ y ∷ []) ≡ true
has_any-append [] y = refl
has_any-append (x ∷ xs) y = refl

add_operation-is_not_empty :
    (k : OperationKind) (op : PlanOperation) (b : SectionChanges)
    → is_not_empty (add_operation k op b) ≡ true
add_operation-is_not_empty create op b = ground (arith, has_any-append b.added (added_of op))
add_operation-is_not_empty link op b = ground (arith, has_any-append b.added (added_of op))
add_operation-is_not_empty delete op b = ground (arith, has_any-append b.removed (removed_of op))
add_operation-is_not_empty unlink op b = ground (arith, has_any-append b.removed (removed_of op))
add_operation-is_not_empty update op b = ground (arith, has_any-append b.changed (change_of op))
add_operation-is_not_empty move op b = ground (arith, has_any-append b.moved (moved_of op))

abbrev NoneEmpty : List SectionChanges → Type 0
NoneEmpty = All (λ b. is_not_empty b ≡ true)

all_kept : (bs : List SectionChanges) → NoneEmpty bs → select is_not_empty bs ≡ bs
all_kept [] h = refl
all_kept (b ∷ bs) (q, h) = rw (q, all_kept bs h) refl

put_operation-NoneEmpty :
    (op : PlanOperation) (bs : List SectionChanges) → NoneEmpty bs → NoneEmpty (put_operation op bs)
unfolding put_operation
put_operation-NoneEmpty op [] h =
    (add_operation-is_not_empty op.kind op (empty_section op.section), tt)
put_operation-NoneEmpty op (b ∷ bs) (q, h) = elim (Bool-cases (is_of op.section b)) [
  | inl own ↦ rw own (add_operation-is_not_empty op.kind op b, h)
  | inr other ↦ rw other (q, put_operation-NoneEmpty op bs h)
]

put_operations-NoneEmpty :
    (operations : List PlanOperation) (bs : List SectionChanges)
    → NoneEmpty bs
    → NoneEmpty (put_operations operations bs)
unfolding put_operations
put_operations-NoneEmpty [] bs h = h
put_operations-NoneEmpty (op ∷ operations) bs h =
    put_operations-NoneEmpty operations (put_operation op bs) (put_operation-NoneEmpty op bs h)

count-put_operation :
    (s : PlanSection) (op : PlanOperation) (bs : List SectionChanges)
    → count_where (is_of s) (put_operation op bs)
      ≡ (if is_in s op && count_where (is_of s) bs == 0 then 1 else count_where (is_of s) bs)
unfolding put_operation
count-put_operation s op [] = elim (Bool-cases (is_in s op)) [
  | inl h ↦ rw (add_operation-section op.kind op (empty_section op.section), h) refl
  | inr h ↦ rw (add_operation-section op.kind op (empty_section op.section), h) refl
]
count-put_operation s op (b ∷ bs) = elim (Bool-cases (is_of op.section b)) [
  | inl own ↦ elim (Bool-cases (is_in s op)) [
    | inl h ↦
        let k : is_of s b ≡ true = ground arith in
        rw (own, add_operation-section op.kind op b, k, h) (ground arith)
    | inr h ↦ rw (own, add_operation-section op.kind op b, h) refl
  ]
  | inr other ↦ elim (Bool-cases (is_of s b)) [
    | inl k ↦
        let h : is_in s op ≡ false = ground arith in
        let rest = count-put_operation s op bs in ground (arith, rest)
    | inr k ↦ rw (other, k, count-put_operation s op bs) refl
  ]
]

put_operations-once :
    (s : PlanSection) (operations : List PlanOperation) (bs : List SectionChanges)
    → count_where (is_of s) bs ≤ 1
    → count_where (is_of s) (put_operations operations bs) ≤ 1
unfolding put_operations
put_operations-once s [] bs h = h
put_operations-once s (op ∷ operations) bs h =
    put_operations-once s operations (put_operation op bs)
      (rw (count-put_operation s op bs) (ground arith))

map-map :
    {A B C : Type 0} (f : B → C) (g : A → B) (xs : List A)
    → map f (map g xs) ≡ map (λ x. f (g x)) xs
map-map f g [] = refl
map-map f g (x ∷ xs) = ap (λ rest. f (g x) ∷ rest) (map-map f g xs)

abbrev pub change_shown : FieldChange → Option String × Payload × Payload
change_shown c = (c.field, c.before, c.after)

abbrev pub update_shown : PlanOperation → Option String × Payload × Payload
update_shown op = (op.field, op.before, op.after)

abbrev pub place_shown : MovedStep → Option String × Payload × Payload
place_shown m = (m.id, m.from_order, m.to_order)

abbrev pub move_shown : PlanOperation → Option String × Payload × Payload
move_shown op = (op.entity_id, op.before, op.after)

-- The operations of a section, by their kinds: the updates with field and both values, the added and the
-- removed with the id, and the moved with the id and both places. The titles are left out.
abbrev pub Shows : PlanSection → List PlanOperation → SectionChanges → Type 0
Shows s operations b =
    (b.section ≡ s)
    × (map change_shown b.changed ≡ map update_shown (of_kind is_update s operations))
    × (map (λ (a : StepChange). a.id) b.added
        ≡ map (λ (op : PlanOperation). op.entity_id) (of_kind is_addition s operations))
    × (map (λ (a : StepChange). a.id) b.removed
        ≡ map (λ (op : PlanOperation). op.entity_id) (of_kind is_removal s operations))
    × (map place_shown b.moved ≡ map move_shown (of_kind is_move s operations))

section_changes-Shows :
    (s : PlanSection) (operations : List PlanOperation)
    → Shows s operations (section_changes s operations)
section_changes-Shows s operations = (
  refl,
  map-map change_shown change_of (of_kind is_update s operations),
  map-map (λ (a : StepChange). a.id) added_of (of_kind is_addition s operations),
  map-map (λ (a : StepChange). a.id) removed_of (of_kind is_removal s operations),
  map-map place_shown moved_of (of_kind is_move s operations),
)

-- A section of a plan is shown once when an operation is of it, and not at all otherwise; and it shows
-- the field and both values of each update, the id of each entity that is added or removed, and the id
-- and both places of each that moves, in the order of the plan. Of titles and labels it states nothing.
pub group_operations-section :
    (s : PlanSection) (operations : List PlanOperation)
    → (any (is_in s) operations ≡ false → find (is_of s) (group_operations operations) ≡ none)
      × (any (is_in s) operations ≡ true
          → (b : SectionChanges) × (find (is_of s) (group_operations operations) ≡ some b)
            × Shows s operations b)
      × (count_where (is_of s) (group_operations operations) ≤ 1)
unfolding group_operations
group_operations-section s operations =
    let kept : select is_not_empty (put_operations operations []) ≡ put_operations operations [] =
      all_kept (put_operations operations []) (put_operations-NoneEmpty operations [] tt) in
    let shown : find (is_of s) (select is_not_empty (put_operations operations []))
        ≡ (if any (is_in s) operations then some (section_changes s operations) else none) =
      rw kept (find-put_operations s operations [] ∙ folded-none s operations) in
    (
      λ e. shown ∙ rw e refl,
      λ e. (section_changes s operations, shown ∙ rw e refl, section_changes-Shows s operations),
      rw kept (put_operations-once s operations [] (omega arith)),
    )
