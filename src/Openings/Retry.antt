-- ===== src/Openings/Retry.antt =====
-- Posting an opening batch again under its idempotency key.
use kapra_os.Prelude.{
  ℕ, ◌==◌, Bool, true, false, ◌≡◌, refl, sym, ap, ◌∙◌, ◌&&◌, ◌||◌, not, Option, none, some, List,
  [], ◌∷◌, ◌++◌, arith, Bool-cases, inl, inr, ==_refl, eqb_ℤ_refl,
}
use kapra_os.Tables.{
  Db, OpeningInventoryBatch, OpeningInventoryEntry, OpeningInventoryCostStatus, Text,
}
use kapra_os.Session.{Error, ok, pure, raise, gets, guard, modify, ◌>>=◌}
use kapra_os.Session.Keeps.{
  Triple, Triple-frame, After-ok, Keeps-gets, Keeps-guard, Triple-lift-bind, Triple-guard-bind,
  ◌▹▹◌,
}
use kapra_os.Session.Values.{Also, Triple-given}
use kapra_os.Inventory.Frame.{add_stock-keeps}
use kapra_os.Accounting.Frame.{IgnoresBooks, new_uuid-keeps}
use kapra_os.Accounting.FramePosts.{post_opening_inventory-keeps}
use kapra_os.Accounting.Group.{any_row, rows}
use kapra_os.Sales.InvoiceNumber.{same_text}
use kapra_os.Sales.Create.{get_shop, is_empty}
use kapra_os.Openings.Lines.{
  OpeningLine, normalise_lines, normalise_idempotency_key, normalise_notes, same_status,
  records_line, all_recorded, batch_matches, find_batch,
}
use kapra_os.Openings.Post.{
  OpeningRequest, entry_of, open_lines, new_batch, write_batch, resolve_key, post_opening_inventory,
}

same_text_refl : (t : Text) → same_text t t ≡ true
same_text_refl [] = refl
same_text_refl (c ∷ t) = rw (==_refl c, same_text_refl t) refl

same_status_refl : (c : OpeningInventoryCostStatus) → same_status c c ≡ true
same_status_refl OpeningInventoryCostStatus.known = refl
same_status_refl OpeningInventoryCostStatus.estimated = refl

abbrev entries_of : List OpeningLine → List OpeningInventoryEntry
entries_of [] = []
entries_of (x ∷ lines) = entry_of x ∷ entries_of lines

-- Each line is recorded by its own entry.
own_entry : (x : OpeningLine) → records_line x (entry_of x) ≡ true
own_entry x =
    rw
      (
        ==_refl x.variant_id,
        eqb_ℤ_refl x.quantity,
        eqb_ℤ_refl x.unit_cost,
        same_status_refl x.cost_status,
      )
      refl

or_right : (b c : Bool) → c ≡ true → (b || c) ≡ true
or_right true c h = refl
or_right false c h = h

recorded_more :
    (e : OpeningInventoryEntry) (entries : List OpeningInventoryEntry) (lines : List OpeningLine)
    → all_recorded entries lines ≡ true
    → all_recorded (e ∷ entries) lines ≡ true
recorded_more e entries [] h = refl
recorded_more e entries (x ∷ lines) h = ground (arith, recorded_more e entries lines)

all_recorded-entries : (lines : List OpeningLine) → all_recorded (entries_of lines) lines ≡ true
all_recorded-entries [] = refl
all_recorded-entries (x ∷ lines) =
    rw
      (
        own_entry x,
        recorded_more (entry_of x) (entries_of lines) lines (all_recorded-entries lines),
      )
      refl

rows-entries : (lines : List OpeningLine) → rows (entries_of lines) ≡ rows lines
rows-entries [] = refl
rows-entries (x ∷ lines) = rw (rows-entries lines) refl

find_batch-append :
    (shop_id : ℕ) (key : Text) (l : List OpeningInventoryBatch) (b : OpeningInventoryBatch)
    → find_batch shop_id key l ≡ none
    → b.shop_id ≡ shop_id
    → b.idempotency_key ≡ key
    → find_batch shop_id key (l ++ b ∷ []) ≡ some b
find_batch-append shop_id key [] b h i j =
    let hit : (b.shop_id == shop_id && same_text b.idempotency_key key) ≡ true =
      rw (i, j, ==_refl shop_id, same_text_refl key) refl in
    rw hit refl
find_batch-append shop_id key (x ∷ l) b h i j =
    elim (Bool-cases (x.shop_id == shop_id && same_text x.idempotency_key key)) [
      | inl e ↦ ground (arith, e, h)
      | inr e ↦ rw e (find_batch-append shop_id key l b (rw e at h) i j)
    ]

-- The tables that a retry reads.
record Stands (shops : List ℕ) (batches : List OpeningInventoryBatch) (u : Db) : Type 0 where
  shops_are : u.shops ≡ shops
  batches_are : u.opening_batches ≡ batches

Stands-IgnoresBooks :
    {shops : List ℕ} {batches : List OpeningInventoryBatch} → IgnoresBooks (Stands shops batches)
Stands-IgnoresBooks s a l d h = record { shops_are = h.shops_are; batches_are = h.batches_are }

module _ (shops : List ℕ) (batches : List OpeningInventoryBatch) where
  open_lines-entries :
      (shop_id id : ℕ) (lines : List OpeningLine)
      → Triple
          (Stands shops batches)
          (open_lines shop_id id lines)
          (λ entries. Also (Stands shops batches) (entries ≡ entries_of lines))
  unfolding open_lines pure
  open_lines-entries shop_id id [] = record { at = λ s h. record { base = h; fact = refl } }
  open_lines-entries shop_id id (x ∷ lines) =
      add_stock-keeps (λ s i m h. record { shops_are = h.shops_are; batches_are = h.batches_are }) _
      ▹▹ λ _. Keeps-guard _ _ ▹▹ λ _. open_lines-entries shop_id id lines ▹▹ λ entries.
          Triple-given λ same. record { at = λ s h. record { base = h; fact = rw same refl } }

  batches-same :
      {A : Type 0} (f : List OpeningInventoryBatch → A)
      → Triple
          (Stands shops batches)
          (gets (λ s. f s.opening_batches))
          (λ a. Also (Stands shops batches) (f batches ≡ a))
  unfolding gets
  batches-same f = record { at = λ s h. record { base = h; fact = ap f (sym h.batches_are) } }

  get_shop-found :
      (shop_id : ℕ)
      → Triple
          (Stands shops batches)
          (get_shop shop_id)
          (λ x. Also (Stands shops batches) (any_row (λ id. id == shop_id) shops ≡ true))
  unfolding get_shop pure gets raise
  get_shop-found shop_id = same ▹▹ λ found. Triple-given λ e. checked found e
    where
      same :
          Triple
            (Stands shops batches)
            (gets (λ s. any_row (λ id. id == shop_id) s.shops))
            (λ b. Also (Stands shops batches) (any_row (λ id. id == shop_id) shops ≡ b))
      same = record {
        at = λ s h. record {
          base = h;
          fact = ap (any_row (λ (id : ℕ). id == shop_id)) (sym h.shops_are);
        };
      }

      checked :
          (b : Bool)
          → any_row (λ id. id == shop_id) shops ≡ b
          → Triple
              (Stands shops batches)
              (guard b Error.shop_not_found)
              (λ x. Also (Stands shops batches) (any_row (λ id. id == shop_id) shops ≡ true))
      checked true e = record { at = λ s h. record { base = h; fact = e } }
      checked false e = record { at = λ s h. tt }

  -- What a batch that is there means for the next request.
  abbrev IsPosted : ℕ → Text → List OpeningLine → OpeningInventoryBatch → Db → Type 0
  IsPosted shop_id key lines b u =
      (u.shops ≡ shops)
      × (find_batch shop_id key u.opening_batches ≡ some b)
      × (batch_matches b lines ≡ true)

  write_batch-IsPosted :
      (r : OpeningRequest) (key : Text) (notes : Option Text) (lines : List OpeningLine)
      → find_batch r.shop_id key batches ≡ none
      → Triple (Stands shops batches) (write_batch r key notes lines) (IsPosted r.shop_id key lines)
  unfolding write_batch pure modify
  write_batch-IsPosted r key notes lines free = Keeps-gets _ ▹▹ λ owned. Keeps-guard _ _ ▹▹ λ _.
      Keeps-gets _ ▹▹ λ opened. Keeps-guard _ _ ▹▹ λ _. Keeps-guard _ _ ▹▹ λ _.
      new_uuid-keeps Stands-IgnoresBooks ▹▹ λ id.
      open_lines-entries r.shop_id id lines ▹▹ λ entries. Triple-given λ same.
        added (new_batch r id key notes lines entries) ▹▹ λ _.
        post_opening_inventory-keeps Stands-IgnoresBooks _ r.shop_id id _ ▹▹ λ _. record {
          at = λ s h. (
            h.shops_are,
            ap (find_batch r.shop_id key) h.batches_are
                ∙ find_batch-append r.shop_id key batches (new_batch r id key notes lines entries)
                    free refl refl,
            rw (same, rows-entries lines, ==_refl (rows lines), all_recorded-entries lines) refl,
          );
        }
    where
      added :
          (b : OpeningInventoryBatch)
          → Triple
              (Stands shops batches)
              (modify (λ s. record s { opening_batches = s.opening_batches ++ b ∷ [] }))
              (λ x. Stands shops (batches ++ b ∷ []))
      added b = record {
        at = λ s h. record {
          shops_are = h.shops_are;
          batches_are = ap (λ l. l ++ b ∷ []) h.batches_are;
        };
      }

  resolve_key-IsPosted :
      (r : OpeningRequest) (key : Text) (notes : Option Text) (lines : List OpeningLine)
      (o : Option OpeningInventoryBatch)
      → find_batch r.shop_id key batches ≡ o
      → Triple
          (Stands shops batches)
          (resolve_key r key notes lines o)
          (IsPosted r.shop_id key lines)
  unfolding pure
  resolve_key-IsPosted r key notes lines none found = write_batch-IsPosted r key notes lines found
  resolve_key-IsPosted r key notes lines (some b) found = Triple-guard-bind _ _ _ λ matches.
      record {
        at = λ s h. (h.shops_are, ap (find_batch r.shop_id key) h.batches_are ∙ found, matches);
      }

-- A request whose batch is there returns it and writes nothing.
retry_returns :
    (r : OpeningRequest) (u : Db) (key : Text) (notes : Option Text) (lines : List OpeningLine)
    (b : OpeningInventoryBatch)
    → normalise_idempotency_key r.idempotency_key ≡ ok key
    → normalise_notes r.notes ≡ ok notes
    → not (is_empty r.lines) ≡ true
    → normalise_lines [] r.lines ≡ ok lines
    → any_row (λ id. id == r.shop_id) u.shops ≡ true
    → find_batch r.shop_id key u.opening_batches ≡ some b
    → batch_matches b lines ≡ true
    → post_opening_inventory r u ≡ ok (b, u)
unfolding post_opening_inventory get_shop ◌>>=◌ pure gets
retry_returns r u key notes lines b k n g l shop found same =
    rw (k, n, g, l, shop, found, same) refl

retry-Triple :
    (r : OpeningRequest) (shops : List ℕ) (batches : List OpeningInventoryBatch)
    → Triple
        (Stands shops batches)
        (post_opening_inventory r)
        (λ b u. post_opening_inventory r u ≡ ok (b, u))
unfolding post_opening_inventory
retry-Triple r shops batches =
    Triple-lift-bind (normalise_idempotency_key r.idempotency_key) _ λ key k.
      Triple-lift-bind (normalise_notes r.notes) _ λ notes n.
        Triple-guard-bind (not (is_empty r.lines)) _ _ λ g.
          Triple-lift-bind (normalise_lines [] r.lines) _ λ lines l.
            get_shop-found shops batches r.shop_id ▹▹ λ _. Triple-given λ shop.
              batches-same shops batches (find_batch r.shop_id key) ▹▹ λ o. Triple-given λ found.
                Triple-frame (resolve_key-IsPosted shops batches r key notes lines o found)
                  (λ s h. h)
                  λ s h b u q.
                    retry_returns r u key notes lines b k n g l
                      (ap (any_row (λ (id : ℕ). id == r.shop_id)) q.0 ∙ shop) q.1 q.2

-- Posting the same request again, after it has been posted, returns the same batch and changes
-- nothing: no second receipt of stock and no second ledger group.
pub post_opening_inventory-twice :
    (r : OpeningRequest) (s t : Db) (b : OpeningInventoryBatch)
    → post_opening_inventory r s ≡ ok (b, t)
    → post_opening_inventory r t ≡ ok (b, t)
post_opening_inventory-twice r s t b e =
    After-ok (λ x u. post_opening_inventory r u ≡ ok (x, u)) e
      ((retry-Triple r s.shops s.opening_batches).at s
        (record { shops_are = refl; batches_are = refl }))
