-- ===== src/OrderTracker/Invariant.antt =====
-- The view holds open orders under their own ids: binance_th/ordertracker.py.
use binance_th.Prelude.{
  ℕ, suc, ◌≡◌, refl, true, false, Option, List, [], ◌∷◌, arith, All, Bool-cases, Option-cases, inl,
  inr,
}
use binance_th.Prelude.Int.{ℤ, ℤ-discrete}
use binance_th.Prelude.Dict.{insert, lookup, insert-All, erase-All}
use binance_th.Models.Enums.{OrderStatus}
use binance_th.Models.Orders.{Order, is_active, active_status, order_from_execution_report}
use binance_th.OrderTracker.View.{View, is_terminal, is_stale, seed_onto, seed, apply_order, apply}
use binance_th.OrderTracker.Sync.{
  Item, report, reconnected, other, Event, view, provider_raised, track, run,
}

-- The statuses are the active and the terminal ones.
active_iff_not_terminal : (s : OrderStatus) → is_terminal s ≡ false → active_status s ≡ true
active_iff_not_terminal s h = ground arith

-- Each order stands under its id, and is active.
abbrev pub IsEntry : ℤ × Order → Type 0
IsEntry e = (e.1.order_id ≡ e.0) × (is_active e.1 ≡ true)

abbrev pub HoldsOpen : View → Type 0
HoldsOpen = All IsEntry

seed_onto-HoldsOpen :
    (v : View) (orders : List Order) → HoldsOpen v → HoldsOpen (seed_onto v orders)
unfolding seed_onto
seed_onto-HoldsOpen v [] h = h
seed_onto-HoldsOpen v (o ∷ os) h = elim (Bool-cases (is_active o)) [
  | inl active ↦ rw active (
      seed_onto-HoldsOpen (insert ℤ-discrete o.order_id o v) os
        (insert-All ℤ-discrete IsEntry o.order_id o v (refl, active) h))
  | inr closed ↦ rw closed (seed_onto-HoldsOpen v os h)
]

apply_order-HoldsOpen : (o : Order) (v : View) → HoldsOpen v → HoldsOpen (apply_order o v)
unfolding apply_order
apply_order-HoldsOpen o v h = elim (Bool-cases (is_stale (lookup ℤ-discrete o.order_id v) o)) [
  | inl stale ↦ rw stale h
  | inr current ↦ rw current (elim (Bool-cases (is_terminal o.status)) [
    | inl closed ↦ rw closed (erase-All ℤ-discrete IsEntry o.order_id v h)
    | inr still_open ↦ rw still_open (
        insert-All ℤ-discrete IsEntry o.order_id o v
          (refl, unfold is_active in active_iff_not_terminal o.status still_open) h)
  ])
]

abbrev pub EventHoldsOpen : Event → Type 0
EventHoldsOpen (view v) = HoldsOpen v
EventHoldsOpen provider_raised = Unit

module _ (snapshots : ℕ → Option (List Order)) where
  seed-HoldsOpen : (orders : List Order) → HoldsOpen (seed orders)
  unfolding seed
  seed-HoldsOpen orders = seed_onto-HoldsOpen [] orders tt

  track-HoldsOpen :
      (n : ℕ) (v : View) (items : List Item)
      → HoldsOpen v
      → All EventHoldsOpen (track snapshots n v items)
  unfolding track
  track-HoldsOpen n v [] h = tt
  track-HoldsOpen n v (report e ∷ items) h =
      let h' : HoldsOpen (apply e v) =
        unfold apply in apply_order-HoldsOpen (order_from_execution_report e) v h in
      (h', track-HoldsOpen n (apply e v) items h')
  track-HoldsOpen n v (other ∷ items) h = track-HoldsOpen n v items h
  track-HoldsOpen n v (reconnected ∷ items) h = elim (Option-cases (snapshots n)) [
    | inl failed ↦ rw (failed, track) (tt, tt)
    | inr (orders, e) ↦
        rw (e, track)
          (
            seed-HoldsOpen orders,
            track-HoldsOpen (suc n) (seed orders) items (seed-HoldsOpen orders),
          )
  ]

  -- Whatever the REST snapshots and the stream hold, across any reconnects, every view that the
  -- tracker yields has only active orders, each under its own id.
  pub run-HoldsOpen : (items : List Item) → All EventHoldsOpen (run snapshots items)
  unfolding run
  run-HoldsOpen items = elim (Option-cases (snapshots 0)) [
    | inl failed ↦ rw (failed, run) (tt, tt)
    | inr (orders, e) ↦
        rw (e, run)
          (seed-HoldsOpen orders, track-HoldsOpen 1 (seed orders) items (seed-HoldsOpen orders))
  ]
