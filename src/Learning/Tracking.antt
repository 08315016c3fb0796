-- ===== src/Learning/Tracking.antt =====
-- What `setStepStatus` does when it succeeds.
use pathway_backend.Prelude.{
  ℕ, String, false, ◌&&◌, List, [], ◌∷◌, ◌≡◌, refl, ap, inl, inr, arith, Bool-cases, string_Eq,
  ◌==◌, eq_iff, if◌then◌else◌, Memᴰ, ◌∙◌,
}
use pathway_backend.Effects.{Effect, capture}
use pathway_backend.Handlers.{
  Reply, returns, Returned, or_throw-Returned, Returned-returns, or_throw-related,
}
use pathway_backend.Database.{PrismaClient, PrismaLaws}
use pathway_backend.Database.Reference.{find_unique-Memᴰ}
use pathway_backend.Progress.{StepStatus, Floats, status_Eq, status_eq_iff}
use pathway_backend.Learning.{
  PathwayStep, Pathway, UserPathway, Tables, has_key, get_pathway_progress,
}
use pathway_backend.Learning.Steps.{
  StepStatusResponse, write_step_status, status_written, set_step_status, pathway_with_id,
}
use pathway_backend.Learning.StepRows.{status_of, OneRow}
use pathway_backend.Learning.Status.{write_step_status-status_of, write_step_status_unchanged}

-- The learner has saved the career of the step's pathway.
abbrev pub HasSaved : (user_id step_id : String) → Tables → Type 0
HasSaved user_id step_id t =
    (s : PathwayStep) × (p : Pathway) × (u : UserPathway) × Memᴰ s t.steps
    × (s.id ≡ step_id)
    × Memᴰ p t.pathways
    × (p.id ≡ s.pathway_id)
    × Memᴰ u t.user_pathways
    × (u.user_id ≡ user_id)
    × (u.career_id ≡ p.career_id)

module _ {db : PrismaClient} (laws : PrismaLaws db) (fl : Floats) (user_id step_id : String)
    (status : StepStatus) where
  -- The tables after the write.
  abbrev tracked : ℕ → Tables → Tables
  tracked now t = record t {
    user_steps = (write_step_status db user_id step_id status now t.user_steps).1;
  }

  abbrev events : ℕ → Tables → List Effect
  events now t =
      if (write_step_status db user_id step_id status now t.user_steps).0
      then capture "step_completion_changed" user_id ∷ []
      else []

  abbrev Tracked : ℕ → Tables → StepStatusResponse → List Effect → Tables → Type 0
  Tracked now t response effects after =
      (after ≡ tracked now t)
      × (effects ≡ events now t)
      × (response.step_id ≡ step_id)
      × (response.status ≡ status)
      × HasSaved user_id step_id t

  set_step_status-Tracked :
      (now : ℕ) (t : Tables)
      → Returned (Tracked now t) (set_step_status db fl user_id step_id status now t)
  unfolding set_step_status status_written
  set_step_status-Tracked now t = or_throw-Returned (Tracked now t) _ _ t _ (λ step e.
      or_throw-Returned (Tracked now t) (pathway_with_id db t step.pathway_id) _ t _ (λ pathway f.
        or_throw-Returned (Tracked now t)
          (db.find_unique UserPathway (has_key user_id pathway.career_id) t.user_pathways) _ t _
          (λ saved g.
            let (m, k, _) = laws.find_first_some PathwayStep _ _ _ step e in
            let (there, same) = find_unique-Memᴰ laws Pathway _ t.pathways f in
            let (n, key) = find_unique-Memᴰ laws UserPathway _ t.user_pathways g in
            (
              refl,
              refl,
              refl,
              refl,
              (
                step,
                pathway,
                saved,
                m,
                ground (arith, eq_iff step.id step_id),
                there,
                (eq_iff pathway.id step.pathway_id).0 same,
                n,
                ground (arith, eq_iff saved.user_id user_id),
                ground (arith, eq_iff saved.career_id pathway.career_id),
              ),
            ))))

  -- A second write of the same status changes nothing and sends nothing.
  tracked-again :
      (now later : ℕ) (t : Tables)
      → OneRow t.user_steps
      → (events later (tracked now t) ≡ []) × (tracked later (tracked now t) ≡ tracked now t)
  tracked-again now later t one =
      let rows = (write_step_status db user_id step_id status now t.user_steps).1 in
      let (assigned, _, one_row) =
        write_step_status-status_of laws user_id step_id status now t.user_steps one in
      let (_, changed, _) =
        write_step_status-status_of laws user_id step_id status later rows one_row in
      let same : status_of rows user_id step_id ≡ status =
        assigned user_id step_id ∙ ground (arith, eq_iff user_id user_id, eq_iff step_id step_id) in
      let quiet : (write_step_status db user_id step_id status later rows).0 ≡ false =
        changed ∙ rw same (ground (arith, status_eq_iff status status)) in
      (
        rw quiet refl,
        ap (λ r. record t { user_steps = r })
            (write_step_status_unchanged laws user_id step_id status later rows quiet),
      )

  abbrev Repeats :
      Tables → Reply Tables StepStatusResponse → Reply Tables StepStatusResponse → Type 0
  Repeats u first second =
      (a : StepStatusResponse) (effects : List Effect)
      → first ≡ returns a effects u
      → second ≡ returns a [] u

  set_step_status-Repeats :
      (now later : ℕ) (t : Tables)
      → OneRow t.user_steps
      → Repeats
          (tracked now t)
          (set_step_status db fl user_id step_id status now t)
          (set_step_status db fl user_id step_id status later (tracked now t))
  unfolding set_step_status status_written
  set_step_status-Repeats now later t one =
      let u = tracked now t in
      let (quiet, same) = tracked-again now later t one in
      or_throw-related (Repeats u) _ _ t u _ _ (λ a fx h. cc)
        (λ step e.
          or_throw-related (Repeats u) (pathway_with_id db t step.pathway_id) _ t u _ _
            (λ a fx h. cc)
            (λ pathway f.
              or_throw-related (Repeats u)
                (db.find_unique UserPathway (has_key user_id pathway.career_id) t.user_pathways) _ t
                u _ _ (λ a fx h. cc)
                (λ saved g a fx h.
                  let answer : Tables → StepStatusResponse = λ v. record {
                    step_id = step_id;
                    status = status;
                    progress =
                        get_pathway_progress fl db v user_id step.pathway_id saved.start_step_id;
                  } in
                  let reply : Tables → List Effect → Reply Tables StepStatusResponse =
                    λ v fx. returns (answer v) fx v in
                  let first : answer u ≡ a = cc h in
                  ap (reply (tracked later u)) quiet
                  ∙ ap (λ v. reply v []) same
                  ∙ ap (λ b. returns b [] u) first)))

-- When a learner's step is given a status with success, the learner had saved the career of the
-- step's pathway; afterwards that step has the status and every other of anyone is as it was; the
-- event is sent exactly when the status was another; and giving it the status again, at any time,
-- succeeds with the same answer, sends nothing and changes nothing. The tables have at most one row
-- for a learner and a step.
pub set_step_status-done :
    {db : PrismaClient}
    → PrismaLaws db
    → (fl : Floats) (user_id step_id : String) (status : StepStatus) (now later : ℕ) (t : Tables)
      {response : StepStatusResponse} {effects : List Effect} {after : Tables}
    → OneRow t.user_steps
    → set_step_status db fl user_id step_id status now t ≡ returns response effects after
    → HasSaved user_id step_id t
      × ((user step : String)
          → status_of after.user_steps user step ≡ (
              if user == user_id && step == step_id
              then status
              else status_of t.user_steps user step))
      × (effects ≡ (
          if status_of t.user_steps user_id step_id == status
          then []
          else capture "step_completion_changed" user_id ∷ []))
      × (set_step_status db fl user_id step_id status later after ≡ returns response [] after)
set_step_status-done {db} laws fl user_id step_id status now later t {response} {effects} one h =
    let (left, sent, _, _, saved) =
      Returned-returns (Tracked laws fl user_id step_id status now t)
        (set_step_status db fl user_id step_id status now t)
        (set_step_status-Tracked laws fl user_id step_id status now t) h in
    let (assigned, changed, _) =
      write_step_status-status_of laws user_id step_id status now t.user_steps one in
    (
      saved,
      rw left assigned,
      sent
          ∙ rw changed (elim (Bool-cases (status_of t.user_steps user_id step_id == status)) [
            | inl e ↦ rw e refl
            | inr e ↦ rw e refl
          ]),
      rw left (
          set_step_status-Repeats laws fl user_id step_id status now later t one response effects
            (h ∙ ap (λ v. returns response effects v) left)),
    )
