-- ===== src/OrderTracker/Convergence.antt =====
-- Late, repeated and reordered reports: binance_th/ordertracker.py.
use binance_th.Prelude.{
  ◌≡◌, ◌≢◌, refl, ◌⊎◌, true, false, Option, none, some, arith, inl, inr, ite, if◌then◌else◌,
}
use binance_th.Prelude.Int.{ℤ, ◌≤ℤ◌, ◌<ℤ◌, ℤ-discrete, eq_of_parts}
use binance_th.Prelude.Dict.{lookup, lookup-insert, lookup-erase}
use binance_th.Models.Orders.{Order}
use binance_th.OrderTracker.View.{View, is_terminal, is_stale, apply_order}

-- What a report leaves of the order that is held under its id.
abbrev pub after : Order → Option Order → Option Order
after o held = if is_stale held o then held else if is_terminal o.status then none else some o

-- A report changes the entry of its own order and no other.
pub lookup-apply_order :
    (o : Order) (v : View) (k : ℤ)
    → lookup ℤ-discrete k (apply_order o v)
      ≡ ite (ℤ-discrete o.order_id k) (after o (lookup ℤ-discrete k v)) (lookup ℤ-discrete k v)
unfolding apply_order
lookup-apply_order o v k = elim (ℤ-discrete o.order_id k) [
  | yes same ↦
      ground
        (arith, lookup-insert ℤ-discrete o.order_id k o v, lookup-erase ℤ-discrete o.order_id k v)
  | no differs ↦
      ground
        (arith, lookup-insert ℤ-discrete o.order_id k o v, lookup-erase ℤ-discrete o.order_id k v)
]

-- A report that comes twice in a row has the effect of one.
pub apply_order_twice :
    (o : Order) (v : View) (k : ℤ)
    → lookup ℤ-discrete k (apply_order o (apply_order o v)) ≡ lookup ℤ-discrete k (apply_order o v)
apply_order_twice o v k =
    ground (arith, lookup-apply_order o (apply_order o v) k, lookup-apply_order o v k)

-- The held state of an order never goes back in time while the order stays open.
pub apply_order_mono :
    (o a b : Order) (v : View) (k : ℤ)
    → lookup ℤ-discrete k v ≡ some a
    → lookup ℤ-discrete k (apply_order o v) ≡ some b
    → a.update_time ≤ℤ b.update_time
apply_order_mono o a b v k ha hb = ground (arith, lookup-apply_order o v k)

after_comm :
    (a b : Order) (held : Option Order)
    → a.update_time ≢ b.update_time
    → is_terminal a.status ≡ false
    → is_terminal b.status ≡ false
    → after a (after b held) ≡ after b (after a held)
after_comm a b none ne ha hb = ground (arith, eq_of_parts a.update_time b.update_time)
after_comm a b (some p) ne ha hb = ground (arith, eq_of_parts a.update_time b.update_time)

-- Two reports commute if they speak of different orders, or are both of an open order with
-- different update times.
pub apply_order_comm :
    (a b : Order) (v : View) (k : ℤ)
    → (a.order_id ≢ b.order_id)
      ⊎ ((a.update_time ≢ b.update_time)
          × (is_terminal a.status ≡ false)
          × (is_terminal b.status ≡ false))
    → lookup ℤ-discrete k (apply_order a (apply_order b v))
      ≡ lookup ℤ-discrete k (apply_order b (apply_order a v))
apply_order_comm a b v k (inl differ) = ground (
  arith,
  lookup-apply_order a (apply_order b v) k,
  lookup-apply_order b (apply_order a v) k,
  lookup-apply_order a v k,
  lookup-apply_order b v k,
)
apply_order_comm a b v k (inr (ne, ha, hb)) =
    let held = lookup ℤ-discrete k v in
    rw
      (
        lookup-apply_order a (apply_order b v) k,
        lookup-apply_order b (apply_order a v) k,
        lookup-apply_order a v k,
        lookup-apply_order b v k,
      )
      (both (ℤ-discrete a.order_id k) (ℤ-discrete b.order_id k) held (after_comm a b held ne ha hb))
  where
    both :
        {P Q : Type 0} (p : Dec P) (q : Dec Q) (x : Option Order)
        → after a (after b x) ≡ after b (after a x)
        → ite p (after a (ite q (after b x) x)) (ite q (after b x) x)
          ≡ ite q (after b (ite p (after a x) x)) (ite p (after a x) x)
    both (yes p) (yes q) x e = e
    both (yes p) (no q) x e = refl
    both (no p) (yes q) x e = refl
    both (no p) (no q) x e = refl

-- A report that closes an order and is not stale leaves nothing to compare with: an older report
-- that shows the same order open, arriving after it, puts the closed order back.
pub late_report_reopens :
    (closing late : Order) (v : View)
    → closing.order_id ≡ late.order_id
    → is_terminal closing.status ≡ true
    → is_terminal late.status ≡ false
    → late.update_time <ℤ closing.update_time
    → is_stale (lookup ℤ-discrete closing.order_id v) closing ≡ false
    → lookup ℤ-discrete late.order_id (apply_order late (apply_order closing v)) ≡ some late
late_report_reopens closing late v same closed still_open older current = ground (
  arith,
  lookup-apply_order late (apply_order closing v) late.order_id,
  lookup-apply_order closing v late.order_id,
)
