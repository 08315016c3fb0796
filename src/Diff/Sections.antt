-- ===== src/Diff/Sections.antt =====
-- The section that the operations of a plan add up to.
use mathlib.Core.List.{append_assoc, append-nil}
use pathway_backend.Prelude.{
  ℕ, Bool, true, false, ◌&&◌, Option, none, some, List, [], ◌∷◌, ◌++◌, ◌≡◌, refl, sym, ap, inl, inr,
  arith, Bool-cases, map, select, any, find, nat_Eq, ◌==◌, if◌then◌else◌, ◌∙◌,
}
use pathway_backend.Plan.Types.{
  OperationKind, PlanSection, PlanOperation, section_code, create, update, move, delete, link,
  unlink, career, pathway, steps, step_skills, step_resources, skills, outlook, resources,
}
use pathway_backend.Diff.{
  SectionChanges, change_of, added_of, removed_of, moved_of, empty_section, add_operation, is_in,
  is_of, put_operation, put_operations,
}

abbrev pub is_update : OperationKind → Bool
is_update update = true
is_update _ = false

abbrev pub is_addition : OperationKind → Bool
is_addition create = true
is_addition link = true
is_addition _ = false

abbrev pub is_removal : OperationKind → Bool
is_removal delete = true
is_removal unlink = true
is_removal _ = false

abbrev pub is_move : OperationKind → Bool
is_move move = true
is_move _ = false

abbrev pub of_kind : (OperationKind → Bool) → PlanSection → List PlanOperation → List PlanOperation
of_kind test section = select (λ op. is_in section op && test op.kind)

-- A section with what the operations of that section add, by their kinds and in their order.
abbrev extended : PlanSection → SectionChanges → List PlanOperation → SectionChanges
extended section b operations = record b {
  changed = b.changed ++ map change_of (of_kind is_update section operations);
  added = b.added ++ map added_of (of_kind is_addition section operations);
  removed = b.removed ++ map removed_of (of_kind is_removal section operations);
  moved = b.moved ++ map moved_of (of_kind is_move section operations);
}

abbrev pub section_changes : PlanSection → List PlanOperation → SectionChanges
section_changes section operations = extended section (empty_section section) operations

abbrev section_at : ℕ → PlanSection
section_at n =
    if n == 0
    then career
    else (if n == 1
        then pathway
        else (if n == 2
            then steps
            else (if n == 3
                then step_skills
                else (if n == 4
                    then step_resources
                    else (if n == 5 then skills else (if n == 6 then outlook else resources))))))

section_at-section_code : (s : PlanSection) → section_at (section_code s) ≡ s
section_at-section_code career = refl
section_at-section_code pathway = refl
section_at-section_code steps = refl
section_at-section_code step_skills = refl
section_at-section_code step_resources = refl
section_at-section_code skills = refl
section_at-section_code outlook = refl
section_at-section_code resources = refl

is_in-same : (s : PlanSection) (op : PlanOperation) → is_in s op ≡ true → op.section ≡ s
is_in-same s op h =
    sym (section_at-section_code op.section)
    ∙ ap section_at {x = section_code op.section} {y = section_code s} (ground arith)
    ∙ section_at-section_code s

pub add_operation-section :
    (k : OperationKind) (op : PlanOperation) (b : SectionChanges)
    → (add_operation k op b).section ≡ b.section
add_operation-section create op b = refl
add_operation-section update op b = refl
add_operation-section move op b = refl
add_operation-section delete op b = refl
add_operation-section link op b = refl
add_operation-section unlink op b = refl

abbrev or_empty : PlanSection → Option SectionChanges → SectionChanges
or_empty s none = empty_section s
or_empty s (some b) = b

abbrev with_operation : PlanSection → PlanOperation → Option SectionChanges → Option SectionChanges
with_operation s op o = if is_in s op then some (add_operation op.kind op (or_empty s o)) else o

-- A new section stands for any of the operation's.
fresh_section :
    (s : PlanSection) (op : PlanOperation)
    → find (is_of s) (add_operation op.kind op (empty_section op.section) ∷ [])
      ≡ with_operation s op none
fresh_section s op = elim (Bool-cases (is_in s op)) [
  | inl own ↦
      rw (own, add_operation-section op.kind op (empty_section op.section), own)
        (ap (λ x. some (add_operation op.kind op (empty_section x))) (is_in-same s op own))
  | inr other ↦ rw (other, add_operation-section op.kind op (empty_section op.section), other) refl
]

find-put_operation :
    (s : PlanSection) (op : PlanOperation) (bs : List SectionChanges)
    → find (is_of s) (put_operation op bs) ≡ with_operation s op (find (is_of s) bs)
unfolding put_operation
find-put_operation s op [] = fresh_section s op
find-put_operation s op (b ∷ bs) = elim (Bool-cases (is_of op.section b)) [
  | inl own ↦ elim (Bool-cases (is_in s op)) [
    | inl h ↦
        let k : is_of s b ≡ true = ground arith in
        rw (own, add_operation-section op.kind op b, k, h) refl
    | inr h ↦
        let k : is_of s b ≡ false = ground arith in
        rw (own, add_operation-section op.kind op b, k, h) refl
  ]
  | inr other ↦ elim (Bool-cases (is_of s b)) [
    | inl k ↦ let h : is_in s op ≡ false = ground arith in rw (other, k, h) refl
    | inr k ↦ rw (other, k, find-put_operation s op bs) refl
  ]
]

abbrev folded : PlanSection → List PlanOperation → Option SectionChanges → Option SectionChanges
folded s [] o = o
folded s (op ∷ operations) o = folded s operations (with_operation s op o)

pub find-put_operations :
    (s : PlanSection) (operations : List PlanOperation) (bs : List SectionChanges)
    → find (is_of s) (put_operations operations bs) ≡ folded s operations (find (is_of s) bs)
unfolding put_operations
find-put_operations s [] bs = refl
find-put_operations s (op ∷ operations) bs =
    find-put_operations s operations (put_operation op bs)
    ∙ ap (folded s operations) (find-put_operation s op bs)

-- The first operation of the section is added to the bucket before the others.
extended-add :
    (s : PlanSection) (op : PlanOperation) (b : SectionChanges) (operations : List PlanOperation)
    → is_in s op ≡ true
    → (k : OperationKind)
    → extended s (add_operation k (record op { kind = k }) b) operations
      ≡ extended s b (record op { kind = k } ∷ operations)
extended-add s op b operations own update =
    rw (own, append_assoc b.changed (change_of op ∷ [])) refl
extended-add s op b operations own create = rw (own, append_assoc b.added (added_of op ∷ [])) refl
extended-add s op b operations own link = rw (own, append_assoc b.added (added_of op ∷ [])) refl
extended-add s op b operations own delete =
    rw (own, append_assoc b.removed (removed_of op ∷ [])) refl
extended-add s op b operations own unlink =
    rw (own, append_assoc b.removed (removed_of op ∷ [])) refl
extended-add s op b operations own move = rw (own, append_assoc b.moved (moved_of op ∷ [])) refl

folded-some :
    (s : PlanSection) (operations : List PlanOperation) (b : SectionChanges)
    → folded s operations (some b) ≡ some (extended s b operations)
folded-some s [] b = simp (append-nil)
folded-some s (op ∷ operations) b = elim (Bool-cases (is_in s op)) [
  | inl own ↦
      ap (folded s operations) {x = with_operation s op (some b)}
        {y = some (add_operation op.kind op b)} (rw own refl)
      ∙ folded-some s operations (add_operation op.kind op b)
      ∙ ap some (extended-add s op b operations own op.kind)
  | inr other ↦
      ap (folded s operations) {x = with_operation s op (some b)} {y = some b} (rw other refl)
      ∙ folded-some s operations b
      ∙ rw other refl
]

pub folded-none :
    (s : PlanSection) (operations : List PlanOperation)
    → folded s operations none
      ≡ (if any (is_in s) operations then some (section_changes s operations) else none)
folded-none s [] = refl
folded-none s (op ∷ operations) = elim (Bool-cases (is_in s op)) [
  | inl own ↦
      ap (folded s operations) {x = with_operation s op none}
        {y = some (add_operation op.kind op (empty_section s))} (rw own refl)
      ∙ folded-some s operations (add_operation op.kind op (empty_section s))
      ∙ ap some (extended-add s op (empty_section s) operations own op.kind)
      ∙ rw own refl
  | inr other ↦
      ap (folded s operations) {x = with_operation s op none} {y = none} (rw other refl)
      ∙ folded-none s operations
      ∙ rw other refl
]
