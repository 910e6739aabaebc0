-- ===== src/OrderBook/Truth.antt =====
-- The synchronised book against the exchange's own: binance_th/orderbook.py.
use binance_th.Prelude.{
  ℕ, suc, String, ◌≡◌, refl, ◌⊎◌, inl, inr, Option, none, some, List, [], ◌∷◌, arith, ap, sym, ◌∙◌,
  All, Option-cases, Bool-cases, if◌then◌else◌,
}
use binance_th.Prelude.Int.{ℤ, pos, ◌+ℤ◌, ◌≤ℤ◌, ◌<ℤ◌, leb_ℤ, ℤ-discrete, +ℤ_parts}
use binance_th.Prelude.Dict.{lookup}
use binance_th.Models.Base.{Decimal}
use binance_th.Models.Market.{OrderBook, DepthUpdateEvent}
use binance_th.OrderBook.Local.{LocalOrderBook}
use binance_th.OrderBook.Sync.{
  SyncState, Verdict, drop, resnapshot, advance, seeded, applied, on_delta, Event, book,
  provider_raised, sync, run,
}
use binance_th.OrderBook.Sides.{listed, override, lookup-seed_side, lookup-apply_side}

-- The exchange's book after each update id.
pub record Exchange : Type 0 where
  pub bids_at : ℤ → Decimal → Option Decimal
  pub asks_at : ℤ → Decimal → Option Decimal

-- A snapshot shows the book at its id.
pub record IsSnapshot (x : Exchange) (s : OrderBook) : Type 0 where
  pub bids_match : (p : Decimal) → listed p none s.bids ≡ x.bids_at s.last_update_id p
  pub asks_match : (p : Decimal) → listed p none s.asks ≡ x.asks_at s.last_update_id p

-- A delta from `U` to `u` leads from the book at any id from `U - 1` to `u` to the book at `u`: its
-- levels are absolute and name every price that changes after `U - 1`.
pub record IsDelta (x : Exchange) (d : DepthUpdateEvent) : Type 0 where
  pub bids_lead :
      (v : ℤ) (p : Decimal)
      → d.first_update_id ≤ℤ v +ℤ pos 1
      → v ≤ℤ d.final_update_id
      → override p (x.bids_at v p) d.bids ≡ x.bids_at d.final_update_id p
  pub asks_lead :
      (v : ℤ) (p : Decimal)
      → d.first_update_id ≤ℤ v +ℤ pos 1
      → v ≤ℤ d.final_update_id
      → override p (x.asks_at v p) d.asks ≡ x.asks_at d.final_update_id p

-- A book equals the exchange's at the id that it has reached.
pub record Agrees (x : Exchange) (b : LocalOrderBook) : Type 0 where
  pub bids_agree : (p : Decimal) → lookup ℤ-discrete p b.bids ≡ x.bids_at b.last_applied_u p
  pub asks_agree : (p : Decimal) → lookup ℤ-discrete p b.asks ≡ x.asks_at b.last_applied_u p

abbrev pub EventAgrees : Exchange → Event → Type 0
EventAgrees x (book b) = Agrees x b
EventAgrees x provider_raised = Unit

-- The state of the loop: its book agrees, and `last_u` is the id of the book.
pub record IsSynced (x : Exchange) (s : SyncState) : Type 0 where
  pub agrees : Agrees x s.book
  pub tracked : s.last_u ≡ s.book.last_applied_u

seeded-IsSynced :
    (x : Exchange) (symbol : String) (s : OrderBook) → IsSnapshot x s → IsSynced x (seeded symbol s)
unfolding seeded lookup
seeded-IsSynced x symbol s h = record {
  agrees = record {
    bids_agree = λ p. lookup-seed_side p [] s.bids ∙ h.bids_match p;
    asks_agree = λ p. lookup-seed_side p [] s.asks ∙ h.asks_match p;
  };
  tracked = refl;
}

applied-IsSynced :
    (x : Exchange) (s : SyncState) (d : DepthUpdateEvent)
    → IsDelta x d
    → IsSynced x s
    → d.first_update_id ≤ℤ s.last_u +ℤ pos 1
    → s.last_u ≤ℤ d.final_update_id
    → IsSynced x (applied s d)
unfolding applied
applied-IsSynced x s d lead h from to = record {
  agrees = record {
    bids_agree = λ p.
        lookup-apply_side p s.book.bids d.bids
        ∙ ap (λ o. override p o d.bids)
            (h.agrees.bids_agree p ∙ ap (λ u. x.bids_at u p) (sym h.tracked))
        ∙ lead.bids_lead s.last_u p from to;
    asks_agree = λ p.
        lookup-apply_side p s.book.asks d.asks
        ∙ ap (λ o. override p o d.asks)
            (h.agrees.asks_agree p ∙ ap (λ u. x.asks_at u p) (sym h.tracked))
        ∙ lead.asks_lead s.last_u p from to;
  };
  tracked = refl;
}

-- A delta that is applied follows the book with no gap, and moves it forward.
pub on_delta_advances :
    (s s' : SyncState) (d : DepthUpdateEvent)
    → on_delta s d ≡ advance s'
    → (s' ≡ applied s d)
      × (d.first_update_id ≤ℤ s.last_u +ℤ pos 1)
      × (s.last_u <ℤ d.final_update_id)
      × (s'.last_u ≡ d.final_update_id)
unfolding on_delta applied
on_delta_advances s s' d h = ground (arith, +ℤ_parts s.last_u (pos 1))

Verdict-cases :
    (v : Verdict) → (v ≡ drop) ⊎ ((v ≡ resnapshot) ⊎ ((s : SyncState) × (v ≡ advance s)))
Verdict-cases drop = inl refl
Verdict-cases resnapshot = inr (inl refl)
Verdict-cases (advance s) = inr (inr (s, refl))

advance-IsSynced :
    (x : Exchange) (s s' : SyncState) (d : DepthUpdateEvent)
    → IsDelta x d
    → IsSynced x s
    → on_delta s d ≡ advance s'
    → IsSynced x s'
advance-IsSynced x s s' d lead h e =
    let (same, from, forward, last) = on_delta_advances s s' d e in
    rw same (applied-IsSynced x s d lead h from (omega arith))

module _ (x : Exchange) (symbol : String) (snapshots : ℕ → Option OrderBook)
    (sound : (n : ℕ) (s : OrderBook) → snapshots n ≡ some s → IsSnapshot x s) where
  sync-agrees :
      (n : ℕ) (s : SyncState) (ds : List DepthUpdateEvent)
      → All (IsDelta x) ds
      → IsSynced x s
      → All (EventAgrees x) (sync symbol snapshots n s ds)
  unfolding sync
  sync-agrees n s [] leads h = tt
  sync-agrees n s (d ∷ ds) leads h = elim (Verdict-cases (on_delta s d)) [
    | inl dropped ↦ rw (dropped, sync) (sync-agrees n s ds leads.1 h)
    | inr (inl gap) ↦ elim (Option-cases (snapshots n)) [
      | inl failed ↦ rw (gap, sync, failed) (tt, tt)
      | inr (snap, e) ↦
          let again = seeded-IsSynced x symbol snap (sound n snap e) in
          rw (gap, sync, e)
            (again.agrees, sync-agrees (suc n) (seeded symbol snap) ds leads.1 again)
    ]
    | inr (inr (s', e)) ↦
        let next = advance-IsSynced x s s' d leads.0 h e in
        rw (e, sync) (next.agrees, sync-agrees n s' ds leads.1 next)
  ]

  -- If the provider's snapshots and the stream's deltas tell the truth about an exchange, then
  -- every book that the synchroniser yields, across any gaps and new snapshots, has exactly the
  -- exchange's levels at the update id that it has reached.
  pub run-agrees :
      (ds : List DepthUpdateEvent)
      → All (IsDelta x) ds
      → All (EventAgrees x) (run symbol snapshots ds)
  unfolding run
  run-agrees ds leads = elim (Option-cases (snapshots 0)) [
    | inl failed ↦ rw (failed, run) (tt, tt)
    | inr (snap, e) ↦
        let start = seeded-IsSynced x symbol snap (sound 0 snap e) in
        rw (e, run) (start.agrees, sync-agrees 1 (seeded symbol snap) ds leads start)
  ]

-- A feed without gaps from an update id on: each delta begins at most one past the id that is
-- reached before it.
abbrev pub IsGapless : ℤ → List DepthUpdateEvent → Type 0
IsGapless u [] = Unit
IsGapless u (d ∷ ds) =
    (d.first_update_id ≤ℤ u +ℤ pos 1)
    × IsGapless (if leb_ℤ d.final_update_id u then u else d.final_update_id) ds

gapless_verdict :
    (s : SyncState) (d : DepthUpdateEvent)
    → d.first_update_id ≤ℤ s.last_u +ℤ pos 1
    → on_delta s d ≡ (if leb_ℤ d.final_update_id s.last_u then drop else advance (applied s d))
unfolding on_delta
gapless_verdict s d h = ground (arith, +ℤ_parts s.last_u (pos 1))

-- On a feed without gaps after the state's update id the depth provider is never called again: what
-- is yielded does not depend on it.
pub gapless_never_resnapshots :
    (symbol : String) (snapshots others : ℕ → Option OrderBook) (n m : ℕ) (s : SyncState)
    (ds : List DepthUpdateEvent)
    → IsGapless s.last_u ds
    → sync symbol snapshots n s ds ≡ sync symbol others m s ds
unfolding sync applied
gapless_never_resnapshots symbol snapshots others n m s [] h = refl
gapless_never_resnapshots symbol snapshots others n m s (d ∷ ds) h =
    elim (Bool-cases (leb_ℤ d.final_update_id s.last_u)) [
      | inl stale ↦
          let e : on_delta s d ≡ drop = rw stale at (gapless_verdict s d h.0) in
          rw (e, sync)
            (gapless_never_resnapshots symbol snapshots others n m s ds (rw stale at h.1))
      | inr fresh ↦
          let e : on_delta s d ≡ advance (applied s d) = rw fresh at (gapless_verdict s d h.0) in
          let rest : IsGapless (applied s d).last_u ds = rw fresh at h.1 in
          rw (e, sync)
            (ap (λ l. book (applied s d).book ∷ l)
              (gapless_never_resnapshots symbol snapshots others n m (applied s d) ds rest))
    ]
