-- ===== src/Sale/Stock.antt =====
-- The stock column: increments and decrements of one product, as the transactions of
-- src/sale/sale.service.ts issue them, and the movement of a list of items as a whole.
use accurack_software_backen.Common.{
  ℕ, ◌+◌, String, Bool, List, [], ◌∷◌, ◌≡◌, ◌==◌, refl, ap, ap₂, map, arith, if◌then◌else◌,
  Bool-cases, inl, inr,
}
use accurack_software_backen.Common.Int.{ℤ, pos, ◌+ℤ◌, ◌-ℤ◌, int_laws}
use accurack_software_backen.Prisma.{update_rows}
use accurack_software_backen.Sale.Tables.{Product}

module _ {N : Type 0} where
  -- `{ itemQuantity: { increment: quantity } }`
  abbrev pub increment : ℕ → Product N → Product N
  increment quantity x = record x { item_quantity = x.item_quantity +ℤ pos quantity }

  -- `{ itemQuantity: { decrement: quantity } }`
  abbrev pub decrement : ℕ → Product N → Product N
  decrement quantity x = record x { item_quantity = x.item_quantity -ℤ pos quantity }

  abbrev pub has_id : String → Product N → Bool
  has_id id x = x.id == id

-- How many units of a product a list of movements, a product and a number each, moves.
abbrev pub moved : List (String × ℕ) → String → ℕ
moved [] id = 0
moved ((product, quantity) ∷ ms) id = (if id == product then quantity else 0) + moved ms id

sub_zero : (a : ℤ) → a -ℤ pos 0 ≡ a
sub_zero a = omega int_laws

add_zero : (a : ℤ) → a +ℤ pos 0 ≡ a
add_zero a = omega int_laws

sub_sub : (a : ℤ) (b c : ℕ) → a -ℤ pos b -ℤ pos c ≡ a -ℤ pos (b + c)
sub_sub a b c = omega int_laws

add_add : (a : ℤ) (b c : ℕ) → a +ℤ pos b +ℤ pos c ≡ a +ℤ pos (b + c)
add_add a b c = omega int_laws

sub_add : (a : ℤ) (b : ℕ) → a -ℤ pos b +ℤ pos b ≡ a
sub_add a b = omega int_laws

zero_moved : (n : ℕ) → n ≡ 0 + n
zero_moved n = omega arith

module _ {N : Type 0} where
  -- Every product with the units of the movements added, or taken.
  abbrev pub add_all : List (String × ℕ) → List (Product N) → List (Product N)
  add_all ms = map (λ x. increment (moved ms x.id) x)

  abbrev pub take_all : List (String × ℕ) → List (Product N) → List (Product N)
  take_all ms = map (λ x. decrement (moved ms x.id) x)

  pub take_all-nil : (t : List (Product N)) → take_all [] t ≡ t
  take_all-nil [] = refl
  take_all-nil (x ∷ t) =
      ap₂ ◌∷◌ (ap (λ q. record x { item_quantity = q }) (sub_zero x.item_quantity)) (take_all-nil t)

  pub add_all-nil : (t : List (Product N)) → add_all [] t ≡ t
  add_all-nil [] = refl
  add_all-nil (x ∷ t) =
      ap₂ ◌∷◌ (ap (λ q. record x { item_quantity = q }) (add_zero x.item_quantity)) (add_all-nil t)

  -- One movement and then the others is all of them.
  pub take_all-cons :
      (product : String) (quantity : ℕ) (ms : List (String × ℕ)) (t : List (Product N))
      → take_all ms (update_rows (has_id product) (decrement quantity) t)
        ≡ take_all ((product, quantity) ∷ ms) t
  take_all-cons product quantity ms [] = refl
  take_all-cons product quantity ms (x ∷ t) = elim (Bool-cases (x.id == product)) [
    | inl e ↦ rw e (
        ap₂ ◌∷◌
          (ap (λ q. record x { item_quantity = q })
            (sub_sub x.item_quantity quantity (moved ms x.id)))
          (take_all-cons product quantity ms t))
    | inr e ↦ rw e (
        ap₂ ◌∷◌ (ap (λ q. decrement q x) (zero_moved (moved ms x.id)))
          (take_all-cons product quantity ms t))
  ]

  pub add_all-cons :
      (product : String) (quantity : ℕ) (ms : List (String × ℕ)) (t : List (Product N))
      → add_all ms (update_rows (has_id product) (increment quantity) t)
        ≡ add_all ((product, quantity) ∷ ms) t
  add_all-cons product quantity ms [] = refl
  add_all-cons product quantity ms (x ∷ t) = elim (Bool-cases (x.id == product)) [
    | inl e ↦ rw e (
        ap₂ ◌∷◌
          (ap (λ q. record x { item_quantity = q })
            (add_add x.item_quantity quantity (moved ms x.id)))
          (add_all-cons product quantity ms t))
    | inr e ↦ rw e (
        ap₂ ◌∷◌ (ap (λ q. increment q x) (zero_moved (moved ms x.id)))
          (add_all-cons product quantity ms t))
  ]

  -- Putting back what was taken.
  pub add_all-take_all :
      (ms : List (String × ℕ)) (t : List (Product N)) → add_all ms (take_all ms t) ≡ t
  add_all-take_all ms [] = refl
  add_all-take_all ms (x ∷ t) =
      ap₂ ◌∷◌ (ap (λ q. record x { item_quantity = q }) (sub_add x.item_quantity (moved ms x.id)))
        (add_all-take_all ms t)
