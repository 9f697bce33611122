-- ===== src/Receivables/Writes.antt =====
-- What recording a customer's payment reads and writes of the tables that a balance reads.
use kapra_os.Prelude.{ℕ, true, ◌≡◌, refl, ap, ◌∙◌, Option, none, some, List, [], ◌∷◌, ◌++◌, ℤ, ◌-ℤ◌}
use kapra_os.Tables.{Db, Sale, Payment, SaleReturn}
use kapra_os.Session.{pure, gets, modify}
use kapra_os.Session.Keeps.{
  Triple, Keeps-gets, Keeps-guard, Triple-guard-bind, Triple-or_raise-bind, ◌▹▹◌,
}
use kapra_os.Session.Values.{Also, Triple-given}
use kapra_os.Accounting.Frame.{IgnoresBooks, new_uuid-keeps}
use kapra_os.Accounting.FramePosts.{post_customer_payment-keeps}
use kapra_os.Accounting.Posts.{same_id, is_qualifying}
use kapra_os.Sales.Edit.{find_sale, put_sale, save_sale}
use kapra_os.Khata.Sums.{sum_where}
use kapra_os.Receivables.Balance.{sale_counts, payment_counts, return_counts, compute_balance}
use kapra_os.Receivables.Settle.{
  PaymentRequest, get_settleable_sale, settleable_if, paid_sale, allocate, customer_payment,
  write_customer_payment,
}

-- The tables that a balance reads.
pub record Holds (sales : List Sale) (payments : List Payment) (returns : List SaleReturn) (u : Db)
    : Type 0 where
  pub sales_are : u.sales ≡ sales
  pub payments_are : u.payments ≡ payments
  pub returns_are : u.sale_returns ≡ returns

Holds-IgnoresBooks :
    {sales : List Sale} {payments : List Payment} {returns : List SaleReturn}
    → IgnoresBooks (Holds sales payments returns)
Holds-IgnoresBooks s a l d h = record {
  sales_are = h.sales_are;
  payments_are = h.payments_are;
  returns_are = h.returns_are;
}

unfoldable pub owed : ℕ → ℕ → List Sale → List Payment → List SaleReturn → ℤ
unfolding sum_where
owed shop_id customer_id sales payments returns =
    sum_where (sale_counts shop_id customer_id) (λ x. x.total) sales
    -ℤ sum_where (payment_counts shop_id customer_id sales) (λ p. p.amount) payments
    -ℤ sum_where (return_counts shop_id customer_id sales) (λ x. x.ar_amount) returns

-- The sale that a payment may be allocated to.
pub record IsSettleable (shop_id customer_id id : ℕ) (sales : List Sale) (x : Sale) : Type 0 where
  pub found : find_sale shop_id id sales ≡ some x
  pub customer : same_id x.customer_id customer_id ≡ true
  pub qualifies : is_qualifying x.status ≡ true

-- The named sale, and nothing where none is named.
abbrev pub IsTarget : ℕ → ℕ → List Sale → Option ℕ → Option Sale → Type 0
IsTarget shop_id customer_id sales none o = o ≡ none
IsTarget shop_id customer_id sales (some id) o =
    (x : Sale) × (o ≡ some x) × IsSettleable shop_id customer_id id sales x

abbrev pub allocated : Option Sale → ℤ → List Sale → List Sale
allocated none amount sales = sales
allocated (some x) amount sales = put_sale (paid_sale x amount) sales

module _ (shop_id customer_id : ℕ) (sales : List Sale) (payments : List Payment)
    (returns : List SaleReturn) where
  find-same :
      (id : ℕ)
      → Triple
          (Holds sales payments returns)
          (gets (λ s. find_sale shop_id id s.sales))
          (λ o. Also (Holds sales payments returns) (find_sale shop_id id sales ≡ o))
  unfolding gets
  find-same id = record { at = λ s h. record { base = h; fact = rw h.sales_are refl } }

  get_settleable_sale-found :
      (id : ℕ)
      → Triple
          (Holds sales payments returns)
          (get_settleable_sale shop_id customer_id id)
          (λ x. Also (Holds sales payments returns) (IsSettleable shop_id customer_id id sales x))
  unfolding get_settleable_sale pure
  get_settleable_sale-found id = find-same id ▹▹ λ o. Triple-given λ same.
      Triple-or_raise-bind o _ _ λ x e. Triple-guard-bind _ _ _ λ customer.
        Triple-guard-bind _ _ _ λ qualifies. record {
          at = λ s h. record {
            base = h;
            fact = record { found = same ∙ e; customer = customer; qualifies = qualifies };
          };
        }

  pub settleable_if-found :
      (document : Option ℕ)
      → Triple
          (Holds sales payments returns)
          (settleable_if shop_id customer_id document)
          (λ o. Also (Holds sales payments returns) (IsTarget shop_id customer_id sales document o))
  unfolding settleable_if pure
  settleable_if-found none = record { at = λ s h. record { base = h; fact = refl } }
  settleable_if-found (some id) = get_settleable_sale-found id ▹▹ λ x.
      Triple-given λ f. record { at = λ s h. record { base = h; fact = (x, refl, f) } }

  pub balance-owed :
      Triple (Holds sales payments returns) (gets (compute_balance shop_id customer_id)) (λ b.
        Also
          (Holds sales payments returns)
          (b.outstanding_balance ≡ owed shop_id customer_id sales payments returns))
  unfolding gets compute_balance owed
  balance-owed = record {
    at = λ s h. record { base = h; fact = rw (h.sales_are, h.payments_are, h.returns_are) refl };
  }

  allocate-Holds :
      (o : Option Sale) (amount : ℤ)
      → Triple
          (Holds sales payments returns)
          (allocate o amount)
          (λ _. Holds (allocated o amount sales) payments returns)
  unfolding allocate save_sale pure modify
  allocate-Holds none amount = record { at = λ s h. h }
  allocate-Holds (some x) amount = Keeps-guard _ _ ▹▹ λ _. record {
    at = λ s h. record {
      sales_are = ap (put_sale (paid_sale x amount)) h.sales_are;
      payments_are = h.payments_are;
      returns_are = h.returns_are;
    };
  }

  pub write_customer_payment-Holds :
      (r : PaymentRequest) (o : Option Sale) (amount : ℤ)
      → Triple (Holds sales payments returns) (write_customer_payment r o amount) (λ p.
        Also
          (Holds (allocated o amount sales) (payments ++ p ∷ []) returns)
          ((id : ℕ) × (now : ℕ) × (p ≡ customer_payment r id now amount)))
  unfolding write_customer_payment pure modify
  write_customer_payment-Holds r o amount = new_uuid-keeps Holds-IgnoresBooks ▹▹ λ id.
      Keeps-gets _ ▹▹ λ now. allocate-Holds o amount ▹▹ λ _.
      add-Holds (allocated o amount sales) (customer_payment r id now amount) ▹▹ λ _.
      post_customer_payment-keeps Holds-IgnoresBooks none _ ▹▹ λ _. record {
        at = λ s h. record { base = h; fact = (id, now, refl) };
      }
    where
      add-Holds :
          (l : List Sale) (p : Payment)
          → Triple
              (Holds l payments returns)
              (modify (λ s. record s { payments = s.payments ++ p ∷ [] }))
              (λ _. Holds l (payments ++ p ∷ []) returns)
      add-Holds l p = record {
        at = λ s h. record {
          sales_are = h.sales_are;
          payments_are = ap (λ k. k ++ p ∷ []) h.payments_are;
          returns_are = h.returns_are;
        };
      }
