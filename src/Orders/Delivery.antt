-- ===== src/Orders/Delivery.antt =====
-- Validations of one order by src/validator/validator.service.ts, with other calls in between.
use accurack_software_backen.Common.{
  ℕ, String, true, List, ◌≡◌, ◌≢◌, refl, sym, ap, subst, ◌∙◌, Memᴰ, arith, nat_eq,
}
use accurack_software_backen.Effect.{Error, bad_request, Result, ok, err, ◌>>=◌, query}
use accurack_software_backen.Effect.Laws.{>>=-eq-ok, query-eq-ok, >>=-relates_where}
use accurack_software_backen.Prisma.{Prisma, update_rows}
use accurack_software_backen.Orders.Tables.{Payments, Order, Db}
use accurack_software_backen.Orders.Change.{find_user, is_order, Changes, change_order-Changes}
use accurack_software_backen.Orders.Changed.{change_order-Changed}
use accurack_software_backen.Orders.Posting.{Posted, validate_order-Posted}
use accurack_software_backen.Orders.Driver.{validated_already}
use accurack_software_backen.Orders.Validator.{
  validated_by, mark_validated, post_and_return, validate_order,
}
use accurack_software_backen.Orders.Calls.{Call, run}
use accurack_software_backen.Orders.Advance.{IsSettled, UniqueIds, Advance, moved-Mem}
use accurack_software_backen.Orders.Lifecycle.{
  run-Advance, mark_validated-Advances, post_and_return-Advances,
}

same_id : (a b c : ℕ) → nat_eq a c ≡ true → b ≡ a → nat_eq b c ≡ true
same_id a b c h k = ground arith

equal_ids : (a b c d : ℕ) → nat_eq a c ≡ true → d ≡ b → nat_eq b c ≡ true → a ≡ d
equal_ids a b c d h k m = ground arith

both_eq : {A B : Type 0} {x : A × B} {a : A} {b : B} → x.0 ≡ a → x.1 ≡ b → x ≡ (a, b)
both_eq {A} {B} {x} {a} e f = ap (λ y. (y, x.1)) e ∙ ap (λ y. (a, y)) f

module _ {N : Type 0} (n : Payments N) (p : Prisma) where
  -- Where an order has been validated, it is in the table, with its mark.
  record Marked (id : ℕ) (s : Db N) : Type 0 where
    order : Order N
    listed : Memᴰ order s.orders
    mine : nat_eq order.id id ≡ true
    settled : IsSettled order
    unique : UniqueIds s.orders

  validate_order-Marked :
      (id : ℕ) (user_id : String) (s s' : Db N) (o : Order N)
      → UniqueIds s.orders
      → validate_order n p id user_id s ≡ (ok o, s')
      → Marked id s'
  unfolding validate_order
  validate_order-Marked id user_id s s' o u h =
      let (x, s1, asked, h1) =
        >>=-eq-ok (query (find_user p user_id))
          (λ _. mark_validated n p id user_id >>= post_and_return n p) s s' o h in
      let (_, at1) = query-eq-ok (find_user p user_id) s s1 x asked in
      let (a, t, marked, h2) =
        >>=-eq-ok (mark_validated n p id user_id) (post_and_return n p) s1 s' o h1 in
      let c =
        change_order-Changed p validated_already (bad_request "Order is already validated") id
          (validated_by user_id) s1 t a marked in
      let orders : t.orders ≡ update_rows (is_order id) (validated_by user_id) s1.orders =
        ap (λ (d : Db N). d.orders) c.left in
      let here : Memᴰ (validated_by user_id c.before) t.orders =
        subst (Memᴰ (validated_by user_id c.before)) (sym orders)
          (moved_here c.before s1.orders c.mine c.listed) in
      let unique : UniqueIds t.orders =
        subst (λ (x : Result (Order N) × Db N). UniqueIds x.1.orders) marked
          ((mark_validated-Advances n p id user_id).advance s1
            (subst (λ (d : Db N). UniqueIds d.orders) (sym at1) u)).0 in
      let (unique', later) =
        subst (λ (x : Result (Order N) × Db N). Advance t.orders x.1.orders) h2
          ((post_and_return-Advances n p a).advance t) unique in
      let (o', m', k) =
        later (validated_by user_id c.before) here
          (record { marked = refl; standing = omega arith }) in
      record {
        order = o';
        listed = m';
        mine = same_id c.before.id o'.id id c.mine k.id;
        settled = k.settled;
        unique = unique';
      }
    where
      moved_here :
          (b : Order N) (l : List (Order N))
          → nat_eq b.id id ≡ true
          → Memᴰ b l
          → Memᴰ (validated_by user_id b) (update_rows (is_order id) (validated_by user_id) l)
      moved_here b l e m =
          subst (λ x. Memᴰ x (update_rows (is_order id) (validated_by user_id) l)) (rw e)
            (moved-Mem validated_already (validated_by user_id) id b l m)

  -- The payment of the order is posted by the first validation, and a later one throws and leaves the
  -- database as it is.
  pub record PaidOnce (o : Order N) (s s1 later : Db N) (again : Result (Order N) × Db N)
      : Type 0 where
    pub paid : Posted n p o s.balance_sheets s1.balance_sheets
    pub error : Error
    pub throws : again ≡ (err error, later)

  -- Marking an order that is marked already does not return.
  no_mark :
      (id : ℕ) (later_id : String) (s w : Db N) (a : Order N)
      → Marked id s
      → mark_validated n p id later_id s ≢ (ok a, w)
  no_mark id later_id s w a k marked =
      let c =
        change_order-Changed p validated_already (bad_request "Order is already validated") id
          (validated_by later_id) s w a marked in
      let same : c.before ≡ k.order =
        k.unique c.before k.order c.listed k.listed
          (equal_ids c.before.id k.order.id id k.order.id c.mine refl k.mine) in
      cc (c.free, same, k.settled.marked)

  mark-stays :
      (id : ℕ) (later_id : String) (s : Db N)
      → Marked id s
      → (mark_validated n p id later_id s).1 ≡ s
  mark-stays id later_id s k =
      from (mark_validated n p id later_id s).0 (mark_validated n p id later_id s).1 refl refl (
        change_order-Changes p validated_already (bad_request "Order is already validated") id
          (validated_by later_id) s)
    where
      from :
          (r : Result (Order N)) (w : Db N)
          → (mark_validated n p id later_id s).0 ≡ r
          → (mark_validated n p id later_id s).1 ≡ w
          → Changes p validated_already id (validated_by later_id) s r w
          → w ≡ s
      from r w er ew (Changes.threw x same still) = still
      from r w er ew (Changes.changed o m mine free same now) =
          absurd (no_mark id later_id s w (validated_by later_id o) k (both_eq (er ∙ same) ew))

  then_same : (s t u : Db N) → t ≡ s → u ≡ t → u ≡ s
  then_same s t u h k = k ∙ h

  validate_order-stays :
      (id : ℕ) (later_id : String) (s : Db N)
      → Marked id s
      → (validate_order n p id later_id s).1 ≡ s
  unfolding validate_order
  validate_order-stays id later_id s k =
      >>=-relates_where (λ a b. b ≡ a) then_same (query (find_user p later_id))
        (λ _. mark_validated n p id later_id >>= post_and_return n p) s refl
        λ x t asked.
          let (_, at1) = query-eq-ok (find_user p later_id) s t x asked in
          let here : Marked id t = subst (Marked id) (sym at1) k in
          >>=-relates_where (λ a b. b ≡ a) then_same (mark_validated n p id later_id)
            (post_and_return n p) t (mark-stays id later_id t here)
            (λ a w marked. absurd (no_mark id later_id t w a here marked))

  no_return :
      (id : ℕ) (later_id : String) (s w : Db N) (o : Order N)
      → Marked id s
      → validate_order n p id later_id s ≢ (ok o, w)
  unfolding validate_order
  no_return id later_id s w o k h =
      let (x, t, asked, h1) =
        >>=-eq-ok (query (find_user p later_id))
          (λ _. mark_validated n p id later_id >>= post_and_return n p) s w o h in
      let (_, at1) = query-eq-ok (find_user p later_id) s t x asked in
      let (a, v, marked, _) =
        >>=-eq-ok (mark_validated n p id later_id) (post_and_return n p) t w o h1 in
      no_mark id later_id t v a (subst (Marked id) (sym at1) k) marked

  run-Marked : (id : ℕ) (cs : List (Call N)) (s : Db N) → Marked id s → Marked id (run n p cs s)
  run-Marked id cs s k =
      let (unique, kept) = run-Advance n p cs s k.unique in
      let (now, m, later) = kept k.order k.listed k.settled in
      record {
        order = now;
        listed = m;
        mine = same_id k.order.id now.id id k.mine later.id;
        settled = later.settled;
        unique = unique;
      }

  -- The payment of an order is posted once: the first validation that returns adds it to what the
  -- customer has paid and takes it from what remains, or opens a sheet with it where the customer has
  -- none, and after any calls of any users that follow, every further validation of the order throws and
  -- leaves the database as it is. Identifiers are unique at the start.
  pub validate_order_once :
      (id : ℕ) (user_id later_id : String) (cs : List (Call N)) (s s1 : Db N) (o : Order N)
      → UniqueIds s.orders
      → validate_order n p id user_id s ≡ (ok o, s1)
      → PaidOnce o s s1 (run n p cs s1) (validate_order n p id later_id (run n p cs s1))
  validate_order_once id user_id later_id cs s s1 o u first =
      let k = run-Marked id cs s1 (validate_order-Marked id user_id s s1 o u first) in
      let (e, thrown) =
        from (validate_order n p id later_id (run n p cs s1)) refl k
          (validate_order-stays id later_id (run n p cs s1) k) in
      record {
        paid = validate_order-Posted n p id user_id s s1 o first;
        error = e;
        throws = thrown;
      }
    where
      from :
          (out : Result (Order N) × Db N)
          → validate_order n p id later_id (run n p cs s1) ≡ out
          → Marked id (run n p cs s1)
          → out.1 ≡ run n p cs s1
          → (e : Error) × (out ≡ (err e, run n p cs s1))
      from (ok a, t) h k same = absurd (no_return id later_id (run n p cs s1) t a k h)
      from (err e, t) h k same = (e, ap (λ x. (err e, x)) same)
