-- ===== src/Openings/Post.antt =====
-- `post_opening_inventory`. An entry's unit and movement are not among the modelled columns.
use kapra_os.Prelude.{
  ℕ, ◌==◌, Bool, true, ◌&&◌, not, Option, none, some, List, [], ◌∷◌, ◌++◌, pos, ltb_ℤ, eqb_ℤ,
}
use kapra_os.Decimal.{cents}
use kapra_os.Tables.{
  Db, OpeningInventorySource, OpeningInventoryEntry, OpeningInventoryBatch, Text, Reference,
  InventoryMovementType,
}
use kapra_os.Openings.Text.{opening_text}
use kapra_os.Session.{Error, Exec, pure, gets, lift, modify, guard, ◌>>=◌, ◌>>◌, new_uuid}
use kapra_os.Inventory.{add_stock}
use kapra_os.Accounting.Group.{any_row, rows}
use kapra_os.Accounting.Posts as Posts
use kapra_os.Khata.Sums.{count_where}
use kapra_os.Sales.Create.{get_shop, owns, is_empty}
use kapra_os.Openings.Lines.{
  OpeningLineInput, OpeningLine, normalise_lines, normalise_idempotency_key, normalise_notes,
  is_estimated, line_value, batch_matches, sum_values, find_batch,
}

-- The keyword arguments of `post_opening_inventory`.
pub record OpeningRequest : Type 0 where
  pub shop_id : ℕ
  pub idempotency_key : Text
  pub lines : List OpeningLineInput
  pub source : OpeningInventorySource
  pub notes : Option Text
  pub created_by_user_id : Option ℕ

-- `missing` is empty
abbrev pub all_owned : ℕ → Db → List OpeningLine → Bool
all_owned shop_id s [] = true
all_owned shop_id s (x ∷ lines) = owns shop_id s.variants x.variant_id && all_owned shop_id s lines

-- A batch of the shop has an entry of this variant.
abbrev pub is_opened : ℕ → List OpeningInventoryBatch → ℕ → Bool
is_opened shop_id batches v =
    any_row (λ b. b.shop_id == shop_id && any_row (λ e. e.variant_id == v) b.entries) batches

abbrev pub any_opened : ℕ → List OpeningInventoryBatch → List OpeningLine → Bool
any_opened shop_id batches = any_row (λ x. is_opened shop_id batches x.variant_id)

-- The CHECK constraints of `opening_inventory_entries`.
abbrev pub entry_allowed : OpeningInventoryEntry → Bool
entry_allowed e =
    ltb_ℤ (pos 0) e.quantity
    && ltb_ℤ (pos 0) e.unit_cost
    && ltb_ℤ (pos 0) e.value
    && eqb_ℤ e.value (line_value e.quantity e.unit_cost)

abbrev pub entry_of : OpeningLine → OpeningInventoryEntry
entry_of x = record {
  variant_id = x.variant_id;
  quantity = x.quantity;
  cost_status = x.cost_status;
  unit_cost = x.unit_cost;
  value = x.value;
}

unfoldable pub open_lines : ℕ → ℕ → List OpeningLine → Exec (List OpeningInventoryEntry)
open_lines shop_id batch_id [] = pure []
open_lines shop_id batch_id (x ∷ lines) = do
  add_stock (record {
    shop_id = shop_id;
    variant_id = x.variant_id;
    quantity = x.quantity;
    movement_type = InventoryMovementType.opening;
    unit_cost = some x.unit_cost;
    reference_type = some Reference.opening;
    reference_id = some batch_id;
    notes = none;
  })
  guard (entry_allowed (entry_of x)) Error.integrity
  entries ← open_lines shop_id batch_id lines
  pure (entry_of x ∷ entries)

abbrev pub new_batch :
    OpeningRequest
    → ℕ
    → Text
    → Option Text
    → List OpeningLine
    → List OpeningInventoryEntry
    → OpeningInventoryBatch
new_batch r id key notes lines entries = record {
  id = id;
  shop_id = r.shop_id;
  idempotency_key = key;
  source = r.source;
  notes = notes;
  entry_count = rows lines;
  estimated_entry_count = count_where (λ x. is_estimated x.cost_status) lines;
  total_value = sum_values lines;
  created_by_user_id = r.created_by_user_id;
  entries = entries;
}

-- A batch that is not there yet. Its header is flushed before the entries, which read no batch, so
-- the row is added with its entries.
unfoldable pub write_batch :
    OpeningRequest → Text → Option Text → List OpeningLine → Exec OpeningInventoryBatch
write_batch r key notes lines = do
  owned ← gets (λ s. all_owned r.shop_id s lines)
  guard owned Error.variant_not_found
  opened ← gets (λ s. any_opened r.shop_id s.opening_batches lines)
  guard (not opened) Error.variant_already_opened
  guard (ltb_ℤ (pos 0) (sum_values lines)) Error.invalid_opening_line
  id ← new_uuid
  entries ← open_lines r.shop_id id lines
  let batch = new_batch r id key notes lines entries
  modify (λ s. record s { opening_batches = s.opening_batches ++ batch ∷ [] })
  Posts.post_opening_inventory r.shop_id id (cents (sum_values lines))
      (some (opening_text (rows lines)))
  pure batch

abbrev pub retried : OpeningInventoryBatch → List OpeningLine → Exec OpeningInventoryBatch
retried batch lines = guard (batch_matches batch lines) Error.opening_conflict >> pure batch

-- The check for an earlier batch with the key.
abbrev pub resolve_key :
    OpeningRequest
    → Text
    → Option Text
    → List OpeningLine
    → Option OpeningInventoryBatch
    → Exec OpeningInventoryBatch
resolve_key r key notes lines none = write_batch r key notes lines
resolve_key r key notes lines (some batch) = retried batch lines

unfoldable pub post_opening_inventory : OpeningRequest → Exec OpeningInventoryBatch
post_opening_inventory r = do
  key ← lift (normalise_idempotency_key r.idempotency_key)
  notes ← lift (normalise_notes r.notes)
  guard (not (is_empty r.lines)) Error.empty_opening
  lines ← lift (normalise_lines [] r.lines)
  get_shop r.shop_id
  existing ← gets (λ s. find_batch r.shop_id key s.opening_batches)
  resolve_key r key notes lines existing
