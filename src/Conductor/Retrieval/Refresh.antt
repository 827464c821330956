-- ===== src/Conductor/Retrieval/Refresh.antt =====
-- What a refresh does to the full-text table.
use agentic_coding_stack.Prelude.{
  ℕ, String, ◌≡◌, refl, ap, ◌∙◌, Bool, true, false, not, ◌&&◌, Bool-cases, inl, inr, List, [], ◌∷◌,
  ◌++◌, All, All-append, keep, str_eq, if◌then◌else◌,
}
use agentic_coding_stack.Base.Text.{strip, truthy}
use agentic_coding_stack.Base.Json.{Json, obj, Fields}
use agentic_coding_stack.Base.Exec.{Result, ok, err}
use agentic_coding_stack.Base.Chain.{Gives, Gives-ok, Gives-at, Gives-chain}
use agentic_coding_stack.Conductor.Db.{MemoryRow, DecisionRow, OverlayRow, FtsRow}
use agentic_coding_stack.Conductor.World.{Db, World, query, write}
use agentic_coding_stack.Conductor.Overlay.Guidance.{is_falsy}
use agentic_coding_stack.Conductor.Retrieval.Index.{
  has_repo, delete_repo, metadata_of, memory_rows, decision_rows, overlay_rows, numbered, text_blob,
  decode_metadata, collected, bind_text, bound_rows, refreshed, refresh_fts_from_memory_tables,
}

-- A row of the repository, by its metadata.
abbrev pub IsOf : String → FtsRow → Type 0
IsOf repo row = has_repo repo row.metadata ≡ ok true

abbrev pub IsOther : String → FtsRow → Type 0
IsOther repo row = has_repo repo row.metadata ≡ ok false

metadata-IsOf :
    (repo table : String) (more : Fields) (r : String)
    → str_eq r repo ≡ true
    → has_repo repo (metadata_of r table more) ≡ ok true
unfolding has_repo
metadata-IsOf repo table more r e = rw e refl

-- A row is collected under a test.
All-if :
    (P : FtsRow → Type 0) (b c : Bool) (row : FtsRow) (rest : List FtsRow)
    → (b ≡ true → P row)
    → All P rest
    → All P (if b && c then row ∷ rest else rest)
All-if P true true row rest h all = (h refl, all)
All-if P true false row rest h all = all
All-if P false c row rest h all = all

memory_rows-IsOf :
    {A : Type 0} (repo table : String) (repo_of text_col : A → String) (rows : List (ℕ × A))
    → All (IsOf repo) (memory_rows repo table repo_of text_col rows)
unfolding memory_rows
memory_rows-IsOf repo table repo_of text_col [] = tt
memory_rows-IsOf repo table repo_of text_col ((id, row) ∷ rows) =
    All-if (IsOf repo) (str_eq (repo_of row) repo) (truthy (strip (text_col row))) _ _
      (metadata-IsOf repo table _ (repo_of row)) (memory_rows-IsOf repo table repo_of text_col rows)

decision_rows-IsOf :
    (repo : String) (rows : List (ℕ × DecisionRow)) → All (IsOf repo) (decision_rows repo rows)
unfolding decision_rows
decision_rows-IsOf repo [] = tt
decision_rows-IsOf repo ((id, row) ∷ rows) =
    All-if (IsOf repo) (str_eq row.repo repo) _ _ _ (metadata-IsOf repo "decision_state" _ row.repo)
      (decision_rows-IsOf repo rows)

module _ (repr : Json → String) (repo : String) where
  overlay_rows-IsOf :
      (source table name_key : String) (rows : List OverlayRow)
      → Gives (All (IsOf repo)) (overlay_rows repr repo source table name_key rows)
  unfolding overlay_rows
  overlay_rows-IsOf source table name_key [] = Gives-ok [] tt
  overlay_rows-IsOf source table name_key (row ∷ rows) =
      let more = overlay_rows-IsOf source table name_key rows in
      elim (Bool-cases (str_eq row.repo repo)) [
        | inr e ↦ rw e more
        | inl e ↦ elim (Bool-cases (is_falsy (obj (decode_metadata row.payload)))) [
          | inl f ↦ rw (e, f) more
          | inr f ↦
              rw (e, f)
                (Gives-at (text_blob repr (decode_metadata row.payload)) (λ blob at_blob.
                  Gives-chain more (λ others all. Gives-ok _ (elim (Bool-cases (truthy blob)) [
                    | inl t ↦ rw t (metadata-IsOf repo table _ row.repo e, all)
                    | inr t ↦ rw t all
                  ]))))
        ]
      ]

  memory-IsOf :
      (table : String) (rows : List MemoryRow)
      → All
          (IsOf repo)
          (memory_rows repo table (λ row. row.repo) (λ row. row.summary_text) (numbered rows))
  memory-IsOf table rows =
      memory_rows-IsOf repo table (λ row. row.repo) (λ row. row.summary_text) (numbered rows)

  record Each (xs : List FtsRow) : Type 0 where
    each : All (IsOf repo) xs

  appended : {xs ys : List FtsRow} → Each xs → Each ys → Each (xs ++ ys)
  appended {xs} {ys} a b = record { each = All-append (IsOf repo) xs ys a.each b.each }

  collected-IsOf : (db : Db) → Gives (All (IsOf repo)) (collected repr repo db)
  unfolding collected
  collected-IsOf db =
      let P = IsOf repo in
      Gives-chain
        (overlay_rows-IsOf "alias_overlay" "alias_memory_state" "alias_name" db.alias_memory_state)
        (λ aliases ours.
          Gives-chain
            (overlay_rows-IsOf "pair_overlay" "pair_memory_state" "pair_key" db.pair_memory_state)
            (λ pairs theirs.
              let t1 = every (memory-IsOf "chosen_memory" db.chosen_memory) in
              let t2 = every (memory-IsOf "frontier_memory" db.frontier_memory) in
              let t3 = every (memory-IsOf "residual_memory" db.residual_memory) in
              let t4 = every (
                memory_rows-IsOf repo "outcome_memory" (λ row. row.repo) (λ row. row.notes)
                  (numbered db.outcome_memory)) in
              let t5 = every (decision_rows-IsOf repo (numbered db.decision_state)) in
              let last = appended (every ours) (every theirs) in
              Gives-ok _
                ((appended t1 (appended t2 (appended t3 (appended t4 (appended t5 last))))).each)))
    where
      every : {xs : List FtsRow} → All (IsOf repo) xs → Each xs
      every all = record { each = all }

bound_rows-IsOf :
    (repo : String) (rows : List FtsRow)
    → All (IsOf repo) rows
    → Gives (All (IsOf repo)) (bound_rows rows)
unfolding bound_rows
bound_rows-IsOf repo [] all = Gives-ok [] tt
bound_rows-IsOf repo (row ∷ rows) all = Gives-at (bind_text row.text) (λ bound e.
    Gives-chain (bound_rows-IsOf repo rows all.1) (λ rest more. Gives-ok _ (all.0, more)))

delete-IsOther :
    (repo : String) (rows : List FtsRow) → Gives (All (IsOther repo)) (delete_repo repo rows)
unfolding delete_repo
delete-IsOther repo [] = Gives-ok [] tt
delete-IsOther repo (row ∷ rows) = Gives-at (has_repo repo row.metadata) (λ gone e.
    Gives-chain (delete-IsOther repo rows) (λ rest more. Gives-ok _ (keeps gone rest e more)))
  where
    keeps :
        (gone : Bool) (rest : List FtsRow)
        → has_repo repo row.metadata ≡ ok gone
        → All (IsOther repo) rest
        → All (IsOther repo) (if gone then rest else row ∷ rest)
    keeps true rest e all = all
    keeps false rest e all = (e, all)

-- A deletion after the insertions finds the same other rows.
delete_again :
    (repo : String) (others added : List FtsRow)
    → All (IsOther repo) others
    → All (IsOf repo) added
    → delete_repo repo (others ++ added) ≡ ok others
unfolding delete_repo
delete_again repo [] [] ho ha = refl
delete_again repo [] (row ∷ rows) ho ha = rw (ha.0, delete_again repo [] rows tt ha.1) refl
delete_again repo (row ∷ rows) added ho ha = rw (ho.0, delete_again repo rows added ho.1 ha) refl

-- The rows that are not of the repository.
abbrev pub is_other : String → FtsRow → Bool
is_other repo row = elim (has_repo repo row.metadata) [ ok b ↦ not b | err e ↦ true ]

other-IsOf : (repo : String) (row : FtsRow) → IsOf repo row → is_other repo row ≡ false
other-IsOf repo row e = rw (is_other, e) refl

-- A deletion keeps them.
others-Gives :
    (repo : String) (rows : List FtsRow)
    → Gives (λ kept. keep (is_other repo) kept ≡ keep (is_other repo) rows) (delete_repo repo rows)
unfolding delete_repo
others-Gives repo [] = Gives-ok [] refl
others-Gives repo (row ∷ rows) = Gives-at (has_repo repo row.metadata) (λ gone e.
    Gives-chain (others-Gives repo rows) (λ rest same. Gives-ok _ (matched gone rest e same)))
  where
    matched :
        (gone : Bool) (rest : List FtsRow)
        → has_repo repo row.metadata ≡ ok gone
        → keep (is_other repo) rest ≡ keep (is_other repo) rows
        → keep (is_other repo) (if gone then rest else row ∷ rest)
          ≡ keep (is_other repo) (row ∷ rows)
    matched true rest e same = rw (other-IsOf repo row e) same
    matched false rest e same = ap (λ kept. if is_other repo row then row ∷ kept else kept) same

keep_none :
    (repo : String) (added rows : List FtsRow)
    → All (IsOf repo) added
    → keep (is_other repo) (rows ++ added) ≡ keep (is_other repo) rows
keep_none repo [] [] all = refl
keep_none repo (row ∷ added) [] all = rw (other-IsOf repo row all.0) (keep_none repo added [] all.1)
keep_none repo added (row ∷ rows) all =
    ap (λ kept. if is_other repo row then row ∷ kept else kept) (keep_none repo added rows all)

record Refreshed (repr : Json → String) (repo : String) (db : Db) (p : List FtsRow × ℕ)
    : Type 0 where
  again : refreshed repr repo (record db { memory_fts = p.0 }) ≡ ok p
  others : keep (is_other repo) p.0 ≡ keep (is_other repo) db.memory_fts

refreshed-Gives :
    (repr : Json → String) (repo : String) (db : Db)
    → Gives (Refreshed repr repo db) (refreshed repr repo db)
unfolding refreshed collected
refreshed-Gives repr repo db = Gives-at (delete_repo repo db.memory_fts) (λ kept e.
    Gives-at (collected repr repo db) (λ rows e'. Gives-at (bound_rows rows) (λ added e''.
      let mine =
        (bound_rows-IsOf repo rows ((collected-IsOf repr repo db).holds rows e')).holds added e'' in
      let theirs = (delete-IsOther repo db.memory_fts).holds kept e in
      Gives-ok _ (record {
        again = rw (delete_again repo kept added theirs mine, e', e'') refl;
        others = keep_none repo added kept mine ∙ (others-Gives repo db.memory_fts).holds kept e;
      }))))

-- A refresh that ends well is idempotent: done again at once for the same repository it inserts as
-- many rows and leaves the whole state as the first one left it. The
-- rows that are not of this repository stay as they are, in the same order, and nothing but the
-- full-text table changes.
pub refresh-refresh :
    {E : Type 0} (repr : Json → String) (repo : String) (w : World E) {n : ℕ}
    → (refresh_fts_from_memory_tables repr repo w).0 ≡ ok n
    → let w' = (refresh_fts_from_memory_tables repr repo w).1 in
      (refresh_fts_from_memory_tables repr repo w' ≡ (ok n, w'))
      × (keep (is_other repo) w'.db.memory_fts ≡ keep (is_other repo) w.db.memory_fts)
      × ((record w' { db = record w'.db { memory_fts = w.db.memory_fts } }) ≡ w)
unfolding refresh_fts_from_memory_tables query write
refresh-refresh repr repo w {n} h = go (refreshed repr repo w.db) refl h
  where
    go :
        (outcome : Result String (List FtsRow × ℕ))
        → refreshed repr repo w.db ≡ outcome
        → (refresh_fts_from_memory_tables repr repo w).0 ≡ ok n
        → let w' = (refresh_fts_from_memory_tables repr repo w).1 in
          (refresh_fts_from_memory_tables repr repo w' ≡ (ok n, w'))
          × (keep (is_other repo) w'.db.memory_fts ≡ keep (is_other repo) w.db.memory_fts)
          × ((record w' { db = record w'.db { memory_fts = w.db.memory_fts } }) ≡ w)
    go (err text) e h = cc (rw e at h)
    go (ok (rows, count)) e h =
        let r = (refreshed-Gives repr repo w.db).holds (rows, count) e in
        let same : count ≡ n = cc (rw e at h) in rw e (rw r.again (rw same refl), r.others, refl)
