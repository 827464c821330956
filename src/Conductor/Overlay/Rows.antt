-- ===== src/Conductor/Overlay/Rows.antt =====
-- The statements of apps/conductor/services/overlay_state.py on its two tables.
use agentic_coding_stack.Prelude.{
  ℕ, ◌+◌, String, Bool, ◌&&◌, Option, none, some, List, [], ◌∷◌, ◌++◌, str_eq, ◌==◌, ltb,
  if◌then◌else◌,
}
use agentic_coding_stack.Base.Json.{obj, Fields}
use agentic_coding_stack.Conductor.Db.{text_of, OverlayRow}

abbrev pub is_named : String → String → OverlayRow → Bool
is_named repo name row = str_eq row.repo repo && str_eq row.name name

-- SELECT ... WHERE repo = :repo AND alias_name = :alias_name, the first row
unfoldable pub select_overlay : String → String → List OverlayRow → Option OverlayRow
select_overlay repo name [] = none
select_overlay repo name (row ∷ rows) =
    if is_named repo name row then some row else select_overlay repo name rows

-- UPDATE ... SET payload = :payload WHERE id = :id
unfoldable pub update_overlay : ℕ → Fields → List OverlayRow → List OverlayRow
update_overlay id payload [] = []
update_overlay id payload (row ∷ rows) =
    (if row.id == id then record row { payload = text_of (obj payload) } else row)
    ∷ update_overlay id payload rows

-- The largest id of a table; a new row has the next one.
unfoldable pub last_id : List OverlayRow → ℕ
last_id [] = 0
last_id (row ∷ rows) = let n = last_id rows in if ltb n row.id then row.id else n

-- INSERT INTO ...(repo, alias_name, payload)
unfoldable pub insert_overlay : String → String → Fields → List OverlayRow → List OverlayRow
unfolding last_id
insert_overlay repo name payload rows =
    rows
    ++ (record { id = last_id rows + 1; repo = repo; name = name; payload = text_of (obj payload) })
      ∷ []

unfoldable pub upsert_rows : String → String → Fields → List OverlayRow → List OverlayRow
unfolding select_overlay update_overlay insert_overlay
upsert_rows repo name payload rows = elim (select_overlay repo name rows) [
  | some row ↦ update_overlay row.id payload rows
  | none ↦ insert_overlay repo name payload rows
]
