-- ===== src/Tests/Openings.antt =====
-- Opening stock, posted and posted again.
use kapra_os.Prelude.{◌≡◌, refl, true, some, none, [], ◌∷◌, pos}
use kapra_os.Decimal.{cents, mills}
use kapra_os.Tables.{Db, OpeningInventorySource, OpeningInventoryCostStatus, OpeningInventoryBatch}
use kapra_os.Session.{ok}
use kapra_os.Openings.Post.{OpeningRequest, post_opening_inventory}
use kapra_os.Openings.Retry.{post_opening_inventory-twice}
use kapra_os.Tests.Evaluation.{evaluation}
use kapra_os.Tests.Shop.{shop, state_of, value_of, is_ok, ran}

-- 10.500 metres at 3.50 and 4.000 metres at an estimated 2.00.
abbrev opening : OpeningRequest
opening = record {
  shop_id = 1;
  idempotency_key = b'k' ∷ b'1' ∷ b' ' ∷ [];
  lines =
      record {
        variant_id = 20;
        quantity = mills (pos 10500);
        unit_cost = some (cents (pos 350));
        cost_status = some OpeningInventoryCostStatus.known;
      }
      ∷ record {
        variant_id = 21;
        quantity = mills (pos 4000);
        unit_cost = some (cents (pos 200));
        cost_status = some OpeningInventoryCostStatus.estimated;
      }
      ∷ [];
  source = OpeningInventorySource.manual;
  notes = none;
  created_by_user_id = none;
}

abbrev no_batch : OpeningInventoryBatch
no_batch = record {
  id = 0;
  shop_id = 0;
  idempotency_key = [];
  source = OpeningInventorySource.manual;
  notes = none;
  entry_count = 0;
  estimated_entry_count = 0;
  total_value = pos 0;
  created_by_user_id = none;
  entries = [];
}

abbrev posted : OpeningInventoryBatch
posted = value_of (post_opening_inventory opening shop) no_batch

abbrev opened : Db
opened = state_of (post_opening_inventory opening shop) shop

opening_ok : is_ok (post_opening_inventory opening shop) ≡ true
unfolding evaluation
opening_ok = refl

-- 36.75 and 8.00
opening_value : posted.total_value ≡ pos 4475
unfolding evaluation
opening_value = refl

post_opening_inventory-twice_example : post_opening_inventory opening opened ≡ ok (posted, opened)
post_opening_inventory-twice_example =
    post_opening_inventory-twice opening shop opened posted
      (ran (post_opening_inventory opening shop) no_batch shop opening_ok)
