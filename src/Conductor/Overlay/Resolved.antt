-- ===== src/Conductor/Overlay/Resolved.antt =====
-- What a stored overlay resolves to.
use agentic_coding_stack.Prelude.{
  String, ◌≡◌, refl, sym, ap, Bool, true, Bool-cases, inl, inr, some, List, [], ◌∷◌, ◌++◌, any,
  keep, str_eq, eq_refl, if◌then◌else◌,
}
use agentic_coding_stack.Base.Text.{strip, truthy, concat}
use agentic_coding_stack.Base.Json.{Json, arr, strs}
use agentic_coding_stack.Base.Exec.{ok}
use agentic_coding_stack.Shared.Schemas.{AliasOverlayUpsertRequest, PairOverlayUpsertRequest}
use agentic_coding_stack.Conductor.World.{World, query, write}
use agentic_coding_stack.Conductor.Db.{OverlayRow}
use agentic_coding_stack.Conductor.Overlay.Rows.{upsert_rows}
use agentic_coding_stack.Conductor.Overlay.Guidance.{
  in_items, in_set, task_matches, shown_items, flatten_guidance, guidance_for,
}
use agentic_coding_stack.Conductor.Overlay.Service.{
  sanitize_overlay_payload, overlay_payload, resolve_overlay, upsert_alias_overlay,
  upsert_pair_overlay, resolve,
}
use agentic_coding_stack.Conductor.Overlay.Kept.{DistinctIds, payload_at-upsert_rows}

-- An overlay without tasks applies to every task.
abbrev pub applies : String → List String → Bool
applies task [] = true
applies task (t ∷ ts) = any (λ s. str_eq s task) (t ∷ ts)

-- The lines of an overlay: its summary and its guidance, without the blank ones.
abbrev pub lines_of : String → List String → List String
lines_of summary guidance =
    (if truthy (strip summary) then strip summary ∷ [] else [])
    ++ keep (λ s. truthy (strip s)) guidance

in_items-strs :
    (task : String) (ts : List String) → in_items task (strs ts) ≡ ok (any (λ s. str_eq s task) ts)
unfolding in_items
in_items-strs task [] = refl
in_items-strs task (t ∷ ts) = rw (in_items-strs task ts) refl

shown_items-strs :
    (repr : Json → String) (ss : List String)
    → shown_items repr (strs ss) ≡ keep (λ s. truthy (strip s)) ss
unfolding shown_items
shown_items-strs repr [] = refl
shown_items-strs repr (s ∷ ss) = rw (shown_items-strs repr ss) refl

task_matches-strs :
    (task : String) (ts : List String) → task_matches task (arr (strs ts)) ≡ ok (applies task ts)
unfolding task_matches in_set
task_matches-strs task [] = refl
task_matches-strs task (t ∷ ts) = in_items-strs task (t ∷ ts)

-- What an applicable overlay contributes to a resolution.
abbrev pub contribution :
    String → String → String → String → List String → List String → List String × List String
contribution task scope name summary guidance tasks =
    if applies task tasks
    then (lines_of summary guidance, concat (scope ∷ ":" ∷ name ∷ []) ∷ [])
    else ([], [])

flatten_guidance-overlay_payload :
    (repr : Json → String) (summary : String) (guidance tasks tags : List String)
    → flatten_guidance repr (overlay_payload summary guidance tasks tags)
      ≡ lines_of summary guidance
unfolding flatten_guidance overlay_payload sanitize_overlay_payload
flatten_guidance-overlay_payload repr summary guidance tasks tags =
    ap (λ ss. (if truthy (strip summary) then strip summary ∷ [] else []) ++ ss)
      (shown_items-strs repr guidance)

guidance_for-overlay_payload :
    (repr : Json → String) (task scope name summary : String) (guidance tasks tags : List String)
    → guidance_for repr task scope name (overlay_payload summary guidance tasks tags)
      ≡ ok (contribution task scope name summary guidance tasks)
unfolding guidance_for overlay_payload sanitize_overlay_payload
guidance_for-overlay_payload repr task scope name summary guidance tasks tags =
    elim (Bool-cases (applies task tasks)) [
      | inl e ↦
          rw (guidance_for, task_matches-strs task tasks, e)
            (ap (λ ls. ok (ls, concat (scope ∷ ":" ∷ name ∷ []) ∷ []))
              (flatten_guidance-overlay_payload repr summary guidance tasks tags))
      | inr e ↦ rw (guidance_for, task_matches-strs task tasks, e) refl
    ]

resolve_overlay-upsert_rows :
    (repr : Json → String) (repo task scope name summary : String)
    (guidance tasks tags : List String) (rows : List OverlayRow)
    → DistinctIds rows
    → truthy name ≡ true
    → resolve_overlay repr repo task scope
        (some name)
        (upsert_rows repo name (overlay_payload summary guidance tasks tags) rows)
      ≡ ok (contribution task scope name summary guidance tasks)
unfolding resolve_overlay
resolve_overlay-upsert_rows repr repo task scope name summary guidance tasks tags rows d named =
    let payload = overlay_payload summary guidance tasks tags in
    let stored = (payload_at-upsert_rows repo name payload rows d).1 repo name in
    rw
      (
        named,
        stored,
        eq_refl repo,
        eq_refl name,
        guidance_for-overlay_payload repr task scope name summary guidance tasks tags,
      )
      refl

-- Guidance is found again. Let the ids of the overlay tables be distinct, and let an overlay for an
-- alias and then one for a pair be upserted for one repository, both with a name that is not empty.
-- Resolving a task of that repository under both names gives the constraints and the memory as
-- passed, and of each overlay that has no tasks or names this one the stripped summary and the
-- guidance, without blank lines; the alias is the first active overlay and the pair the second one.
-- An overlay for other tasks contributes nothing.
pub resolve-upsert_overlays :
    {E : Type 0} (repr : Json → String) (task : String) (constraints memory : List String)
    (a : AliasOverlayUpsertRequest) (p : PairOverlayUpsertRequest) (w : World E)
    → DistinctIds w.db.alias_memory_state
    → DistinctIds w.db.pair_memory_state
    → a.repo ≡ p.repo
    → truthy a.alias_name ≡ true
    → truthy p.pair_key ≡ true
    → let w' = (upsert_pair_overlay p (upsert_alias_overlay a w).1).1 in
      let ours =
        contribution task "alias-local" a.alias_name a.summary a.guidance a.applies_to_tasks in
      let shared =
        contribution task "pair-local" p.pair_key p.summary p.guidance p.applies_to_tasks in
      (resolve repr p.repo task constraints memory (some a.alias_name) (some p.pair_key) w').0
      ≡ ok (record {
        active_overlays = ours.1 ++ shared.1;
        global_constraints = constraints;
        global_memory = memory;
        alias_guidance = ours.0;
        pair_guidance = shared.0;
      })
unfolding resolve query write upsert_alias_overlay upsert_pair_overlay
resolve-upsert_overlays repr task constraints memory a p w da dp same alias_named pair_named =
    let of_alias =
      resolve_overlay-upsert_rows repr a.repo task "alias-local" a.alias_name a.summary a.guidance
        a.applies_to_tasks a.tags w.db.alias_memory_state da alias_named in
    let of_pair =
      resolve_overlay-upsert_rows repr p.repo task "pair-local" p.pair_key p.summary p.guidance
        p.applies_to_tasks p.tags w.db.pair_memory_state dp pair_named in
    rw (sym same, of_alias) (rw (same, of_pair) refl)
