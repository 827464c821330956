-- ===== src/Conductor/Overlay/Kept.antt =====
-- What an upsert leaves of the other overlays of its table.
use agentic_coding_stack.Prelude.{
  ℕ, ◌+◌, ◌≤◌, ◌<◌, String, ◌≡◌, ◌≢◌, refl, sym, ap, ◌∙◌, Bool, true, false, ◌&&◌, Bool-cases, inl,
  inr, none, some, Option-cases, List, [], ◌∷◌, ◌++◌, All, All-append, All-In, In, str_eq, eq_iff,
  ◌==◌, arith, if◌then◌else◌,
}
use agentic_coding_stack.Base.Json.{Fields, obj}
use agentic_coding_stack.Conductor.Db.{OverlayRow, text_of}
use agentic_coding_stack.Conductor.Overlay.Rows.{
  is_named, select_overlay, update_overlay, last_id, insert_overlay, upsert_rows,
}
use agentic_coding_stack.Conductor.Overlay.Guidance.{decode_payload, payload_of}

-- No two rows have one id.
abbrev pub DistinctIds : List OverlayRow → Type 0
DistinctIds [] = Unit
DistinctIds (row ∷ rows) = All (λ r. r.id ≢ row.id) rows × DistinctIds rows

last_id-le : (rows : List OverlayRow) → All (λ r. r.id ≤ last_id rows) rows
unfolding last_id
last_id-le [] = tt
last_id-le (row ∷ rows) = (ground arith, weaken rows (ground arith) (last_id-le rows))
  where
    weaken :
        {m n : ℕ} (rs : List OverlayRow) → m ≤ n → All (λ r. r.id ≤ m) rs → All (λ r. r.id ≤ n) rs
    weaken [] h all = tt
    weaken (r ∷ rs) h all = (omega (arith, all.0), weaken rs h all.1)

append-DistinctIds :
    (rows : List OverlayRow) (row : OverlayRow)
    → All (λ r. r.id < row.id) rows
    → DistinctIds rows
    → DistinctIds (rows ++ row ∷ [])
append-DistinctIds [] row h d = (tt, tt)
append-DistinctIds (r ∷ rows) row h d = (
  All-append (λ q. q.id ≢ r.id) rows (row ∷ []) d.0 (omega (arith, h.0), tt),
  append-DistinctIds rows row h.1 d.1,
)

update-All :
    (id n : ℕ) (payload : Fields) (rows : List OverlayRow)
    → All (λ r. r.id ≢ n) rows
    → All (λ r. r.id ≢ n) (update_overlay id payload rows)
unfolding update_overlay
update-All id n payload [] h = tt
update-All id n payload (r ∷ rows) h =
    let rest = update-All id n payload rows h.1 in
    elim (Bool-cases (r.id == id)) [ inl e ↦ rw e (h.0, rest) | inr e ↦ rw e (h.0, rest) ]

update-DistinctIds :
    (id : ℕ) (payload : Fields) (rows : List OverlayRow)
    → DistinctIds rows
    → DistinctIds (update_overlay id payload rows)
unfolding update_overlay
update-DistinctIds id payload [] d = tt
update-DistinctIds id payload (r ∷ rows) d =
    let rest = update-DistinctIds id payload rows d.1 in
    let others = update-All id r.id payload rows d.0 in
    elim (Bool-cases (r.id == id)) [ inl e ↦ rw e (others, rest) | inr e ↦ rw e (others, rest) ]

-- Nothing is updated where the id does not occur.
update_absent :
    (id : ℕ) (payload : Fields) (rows : List OverlayRow)
    → All (λ r. r.id ≢ id) rows
    → update_overlay id payload rows ≡ rows
unfolding update_overlay
update_absent id payload [] h = refl
update_absent id payload (r ∷ rows) h =
    let other : (r.id == id) ≡ false = ground (arith, h.0) in
    rw (other, update_absent id payload rows h.1) refl

select-In :
    (repo name : String) (rows : List OverlayRow) {row : OverlayRow}
    → select_overlay repo name rows ≡ some row
    → In row rows
unfolding select_overlay
select-In repo name [] h = cc
select-In repo name (r ∷ rows) h = elim (Bool-cases (is_named repo name r)) [
  | inl e ↦ inl (cc (rw e at h))
  | inr e ↦ inr (select-In repo name rows (rw e at h))
]

-- What is stored under a repository and a name, {} where there is nothing.
abbrev pub payload_at : String → String → List OverlayRow → Fields
payload_at repo name rows = payload_of (select_overlay repo name rows)

abbrev pub same_key : String → String → String → String → Bool
same_key repo name repo' name' = str_eq repo repo' && str_eq name name'

module _ (repo name : String) (payload : Fields) (repo' name' : String) where
  -- A row with the first key has the second one exactly if the keys are the same.
  first_key :
      (r : OverlayRow)
      → is_named repo name r ≡ true
      → is_named repo' name' r ≡ same_key repo name repo' name'
  first_key r e = ground (
    arith,
    e,
    eq_iff repo repo',
    eq_iff name name',
    eq_iff r.repo repo,
    eq_iff r.name name,
    eq_iff r.repo repo',
    eq_iff r.name name',
  )

  second_key :
      (r : OverlayRow)
      → is_named repo name r ≡ false
      → is_named repo' name' r ≡ true
      → same_key repo name repo' name' ≡ false
  second_key r e e' = ground (
    arith,
    e,
    e',
    eq_iff repo repo',
    eq_iff name name',
    eq_iff r.repo repo,
    eq_iff r.name name,
    eq_iff r.repo repo',
    eq_iff r.name name',
  )

  abbrev Answers : List OverlayRow → List OverlayRow → Type 0
  Answers new old =
      payload_at repo' name' new
      ≡ (if same_key repo name repo' name' then payload else payload_at repo' name' old)

  insert-Answers :
      (id : ℕ) (rows : List OverlayRow)
      → select_overlay repo name rows ≡ none
      → Answers
          (rows
            ++ (record { id = id; repo = repo; name = name; payload = text_of (obj payload) }) ∷ [])
          rows
  unfolding select_overlay decode_payload
  insert-Answers id [] h = elim (Bool-cases (same_key repo name repo' name')) [
    | inl e ↦ rw e refl
    | inr e ↦ rw e refl
  ]
  insert-Answers id (r ∷ rows) h = elim (Bool-cases (is_named repo name r)) [
    | inl e ↦ cc (rw e at h)
    | inr e ↦ elim (Bool-cases (is_named repo' name' r)) [
      | inl e' ↦
          let other : same_key repo name repo' name' ≡ false = second_key r e e' in
          rw (e', other) refl
      | inr e' ↦ rw e' (insert-Answers id rows (rw e at h))
    ]
  ]

  update-Answers :
      (rows : List OverlayRow) (row : OverlayRow)
      → DistinctIds rows
      → select_overlay repo name rows ≡ some row
      → Answers (update_overlay row.id payload rows) rows
  unfolding select_overlay update_overlay decode_payload
  update-Answers [] row d h = cc
  update-Answers (r ∷ rows) row d h = elim (Bool-cases (is_named repo name r)) [
    | inl e ↦
        let same : r ≡ row = cc (rw e at h) in
        let here : (r.id == row.id) ≡ true = ground (arith, ap (λ q. q.id) same) in
        let rest : update_overlay row.id payload rows ≡ rows =
          update_absent row.id payload rows (rw (sym same) d.0) in
        elim (Bool-cases (is_named repo' name' r)) [
          | inl e' ↦
              let keys : same_key repo name repo' name' ≡ true = sym (first_key r e) ∙ e' in
              rw (here, e', keys) refl
          | inr e' ↦
              let keys : same_key repo name repo' name' ≡ false = sym (first_key r e) ∙ e' in
              rw (here, e', keys, rest) refl
        ]
    | inr e ↦
        let later : select_overlay repo name rows ≡ some row = rw e at h in
        let there : (r.id == row.id) ≡ false =
          ground (arith, All-In (λ q. q.id ≢ r.id) rows row d.0 (select-In repo name rows later)) in
        elim (Bool-cases (is_named repo' name' r)) [
          | inl e' ↦
              let keys : same_key repo name repo' name' ≡ false = second_key r e e' in
              rw (there, e', keys) refl
          | inr e' ↦ rw (there, e') (update-Answers rows row d.1 later)
        ]
  ]

upsert-DistinctIds :
    (repo name : String) (payload : Fields) (rows : List OverlayRow)
    → DistinctIds rows
    → DistinctIds (upsert_rows repo name payload rows)
unfolding upsert_rows insert_overlay
upsert-DistinctIds repo name payload rows d = elim (Option-cases (select_overlay repo name rows)) [
  | inl e ↦
      rw (upsert_rows, e)
        (append-DistinctIds rows _ (bounded rows (last_id rows) (last_id-le rows)) d)
  | inr (row, e) ↦ rw (upsert_rows, e) (update-DistinctIds row.id payload rows d)
]
  where
    bounded : (rs : List OverlayRow) (n : ℕ) → All (λ r. r.id ≤ n) rs → All (λ r. r.id < n + 1) rs
    bounded [] n h = tt
    bounded (r ∷ rs) n h = (omega (arith, h.0), bounded rs n h.1)

upsert-Answers :
    (repo name : String) (payload : Fields) (repo' name' : String) (rows : List OverlayRow)
    → DistinctIds rows
    → Answers repo name payload repo' name' (upsert_rows repo name payload rows) rows
unfolding upsert_rows insert_overlay
upsert-Answers repo name payload repo' name' rows d =
    elim (Option-cases (select_overlay repo name rows)) [
      | inl e ↦
          rw (upsert_rows, e)
            (insert-Answers repo name payload repo' name' (last_id rows + 1) rows e)
      | inr (row, e) ↦
          rw (upsert_rows, e) (update-Answers repo name payload repo' name' rows row d e)
    ]

-- A table of overlays behaves as a map from the repository and the name to the payload. In a table
-- whose ids are distinct an upsert keeps the ids distinct, and afterwards a key answers with the new
-- payload if it is the key of the upsert, and as before if it is another one.
pub payload_at-upsert_rows :
    (repo name : String) (payload : Fields) (rows : List OverlayRow)
    → DistinctIds rows
    → DistinctIds (upsert_rows repo name payload rows)
      × ((repo' name' : String)
          → payload_at repo' name' (upsert_rows repo name payload rows)
            ≡ (if same_key repo name repo' name' then payload else payload_at repo' name' rows))
payload_at-upsert_rows repo name payload rows d = (
  upsert-DistinctIds repo name payload rows d,
  λ repo' name'. upsert-Answers repo name payload repo' name' rows d,
)
