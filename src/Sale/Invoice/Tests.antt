-- ===== src/Sale/Invoice/Tests.antt =====
-- A sale of src/sale/sale.service.ts that asks for an invoice, on the small shop of the tests of sales.
use accurack_software_backen.Common.{ℕ, true, some, ◌∷◌, ◌≡◌, refl}
use accurack_software_backen.Common.Int.{◌-ℤ◌, ◌+ℤ◌}
use accurack_software_backen.Effect.{not_found, ok, err, pure, for_each}
use accurack_software_backen.Prisma.Memory.{memory}
use accurack_software_backen.Sale.Tables.{CreateSaleDto, Db}
use accurack_software_backen.Sale.Create.{create_sale, sell, take_item, record_sale, open_account}
use accurack_software_backen.Sale.Invoice.{InvoiceService, create_sale_with_invoice}
use accurack_software_backen.Sale.Tests.{
  naturals, clock, order, shop, sold, sale_of_teas, customer_of_shop,
}

-- An invoice is the identifier of its sale.
abbrev invoices : InvoiceService ℕ ℕ
invoices = record {
  set_business_info = λ store_id b. pure tt;
  generate_invoice_number = pure "INV-1";
  create_invoice = λ sale_id number s. (ok sale_id, record s { invoices = sale_id ∷ s.invoices });
  set_business_info-keeps = λ store_id b s. refl;
  generate_invoice_number-keeps = λ s. refl;
  create_invoice-keeps = λ sale_id number s. refl;
}

-- As `createInvoice` throws for a user without a business.
abbrev no_invoices : InvoiceService ℕ ℕ
no_invoices = record {
  set_business_info = λ store_id b. pure tt;
  generate_invoice_number = pure "INV-1";
  create_invoice = λ sale_id number s. (err (not_found "BUSINESS_INFO_REQUIRED"), s);
  set_business_info-keeps = λ store_id b s. refl;
  generate_invoice_number-keeps = λ s. refl;
  create_invoice-keeps = λ sale_id number s. refl;
}

abbrev invoiced_order : CreateSaleDto ℕ
invoiced_order = record order { generate_invoice = true }

abbrev invoiced : Db ℕ
invoiced = record sold { invoices = sale_of_teas.id ∷ sold.invoices }

invoices_it :
    create_sale_with_invoice naturals (memory true) clock invoices invoiced_order "bob" shop
    ≡ (ok (sale_of_teas, customer_of_shop, some sale_of_teas.id), invoiced)
unfolding create_sale_with_invoice create_sale sell take_item record_sale open_account for_each ◌-ℤ◌
    ◌+ℤ◌
invoices_it = refl
