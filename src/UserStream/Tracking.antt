-- ===== src/UserStream/Tracking.antt =====
-- `_decode_reports` of binance_th/userstream.py, and the order tracker on what its queue holds.
use mathlib.Core.List.{append_assoc, append-nil}
use binance_th.Prelude.{
  ℕ, zero, suc, ◌+◌, ◌-◌, ◌<◌, length, length-append, drop, drop-append, arith, All-append,
  ℕ_discrete, false, String, ◌≡◌, refl, sym, ap, ◌∙◌, true, false, Option, none, some, List, [],
  ◌∷◌, ◌++◌, All,
}
use binance_th.Prelude.Json.{Json}
use binance_th.Models.Enums.{SymbolType}
use binance_th.Models.Orders.{Order, ExecutionReportEvent}
use binance_th.OrderTracker.View.{View, seed, apply}
use binance_th.OrderTracker.Sync as Sync
use binance_th.Stream.Subscription.{
  Item, Subscription, new_subscription, payload, stream_error, closed, reconnected,
}
use binance_th.Prelude.Dict.{lookup}
use binance_th.Stream.Listed.{hear, IsListed}
use binance_th.Stream.Queue.{offer_all_last}
use binance_th.UserStream.Hub.{order_event}
use binance_th.UserStream.Supervisor.{UserConnection, Event, connects, connecting, step, run}
use binance_th.UserStream.Reports.{reports, run-reports}
use binance_th.UserStream.Items.{reports_of, IsOrdinary}

module _ (report_of_json : Json → Option ExecutionReportEvent) where
  -- The generator ends at the sentinel of the end, at an error, and where a frame does not parse.
  unfoldable pub decode_reports : List Item → List Sync.Item
  decode_reports [] = []
  decode_reports (reconnected ∷ is) = Sync.reconnected ∷ decode_reports is
  decode_reports (payload j ∷ is) = elim (report_of_json j) [
    | none ↦ []
    | some e ↦ Sync.report e ∷ decode_reports is
  ]
  decode_reports (_ ∷ is) = []

  -- An item that the generator gets past.
  abbrev pub Decodes : Item → Type 0
  Decodes reconnected = Unit
  Decodes (payload j) = (e : ExecutionReportEvent) × (report_of_json j ≡ some e)
  Decodes _ = ⊥

  decode_payload :
      (j : Json) (e : ExecutionReportEvent) (is : List Item)
      → report_of_json j ≡ some e
      → decode_reports (payload j ∷ is) ≡ Sync.report e ∷ decode_reports is
  unfolding decode_reports
  decode_payload j e is h = rw (decode_reports, h) refl

  decode_reports-append :
      (is ks : List Item)
      → All Decodes is
      → decode_reports (is ++ ks) ≡ decode_reports is ++ decode_reports ks
  unfolding decode_reports
  decode_reports-append [] ks h = refl
  decode_reports-append (reconnected ∷ is) ks h =
      ap (λ l. Sync.reconnected ∷ l) (decode_reports-append is ks h.1)
  decode_reports-append (payload j ∷ is) ks h =
      decode_payload j h.0.0 (is ++ ks) h.0.1
      ∙ ap (λ l. Sync.report h.0.0 ∷ l) (decode_reports-append is ks h.1)
      ∙ ap (λ l. l ++ decode_reports ks) (sym (decode_payload j h.0.0 is h.0.1))
  decode_reports-append (stream_error e ∷ is) ks h = elim h.0 [ ]
  decode_reports-append (closed ∷ is) ks h = elim h.0 [ ]

  reports-append :
      (t : SymbolType) (es : List Event) (e : Event) (c : UserConnection)
      → reports t (es ++ e ∷ []) c
        ≡ reports t es c ++ reports_of e (run true t es c).place (run true t es c).first
  unfolding reports run
  reports-append t [] e c = append-nil (reports_of e c.place c.first)
  reports-append t (d ∷ es) e c =
      ap (λ l. reports_of d c.place c.first ++ l) (reports-append t es e (step true t d c))
      ∙ sym (append_assoc (reports_of d c.place c.first) (reports t es (step true t d c)) _)

-- How many reconnect sentinels there are.
abbrev pub reconnects : List Item → ℕ
reconnects [] = 0
reconnects (reconnected ∷ is) = suc (reconnects is)
reconnects (_ ∷ is) = reconnects is

reconnects-last : (is : List Item) → reconnects (is ++ reconnected ∷ []) ≡ suc (reconnects is)
reconnects-last [] = refl
reconnects-last (reconnected ∷ is) = ap suc (reconnects-last is)
reconnects-last (payload j ∷ is) = reconnects-last is
reconnects-last (stream_error e ∷ is) = reconnects-last is
reconnects-last (closed ∷ is) = reconnects-last is

-- The tracker has yielded some views, and last the one that is seeded from this snapshot.
abbrev pub EndsSeeded : List Order → List Sync.Event → Type 0
EndsSeeded snapshot events =
    (earlier : List Sync.Event) × (events ≡ earlier ++ Sync.view (seed snapshot) ∷ [])

cons-EndsSeeded :
    (snapshot : List Order) (v : Sync.Event) (vs : List Sync.Event)
    → EndsSeeded snapshot vs
    → EndsSeeded snapshot (v ∷ vs)
cons-EndsSeeded snapshot v vs (earlier, e) = (v ∷ earlier, ap (λ l. v ∷ l) e)

All-drop : (P : Item → Type 0) (k : ℕ) (is : List Item) → All P is → All P (drop k is)
All-drop P zero is h = h
All-drop P (suc k) [] h = tt
All-drop P (suc k) (i ∷ is) h = All-drop P k is h.1

-- The queue of a subscriber whose last item is a reconnect sentinel.
last_kept :
    (is : List Item)
    → drop (length (is ++ reconnected ∷ []) - 1024) (is ++ reconnected ∷ [])
      ≡ drop (length is + 1 - 1024) is ++ reconnected ∷ []
last_kept is =
    rw (length-append is (reconnected ∷ []))
      (drop-append (length is + 1 - 1024) is (reconnected ∷ []) (omega arith))

module _ (snapshots : ℕ → List Order) (report_of_json : Json → Option ExecutionReportEvent) where
  -- The n-th snapshot that the provider gives.
  abbrev provider : ℕ → Option (List Order)
  provider n = some (snapshots n)

  track-EndsSeeded :
      (n : ℕ) (v : View) (is : List Item)
      → All (Decodes report_of_json) is
      → EndsSeeded
          (snapshots (n + reconnects is))
          (Sync.track provider n v (decode_reports report_of_json is ++ Sync.reconnected ∷ []))
  unfolding Sync.track decode_reports
  track-EndsSeeded n v [] h = let e : n + 0 ≡ n = omega arith in rw e ([], refl)
  track-EndsSeeded n v (payload j ∷ is) h =
      let e = h.0.0 in
      rw (decode_payload report_of_json j e is h.0.1) (
        cons-EndsSeeded (snapshots (n + reconnects is)) (Sync.view (apply e v)) _
          (track-EndsSeeded n (apply e v) is h.1))
  track-EndsSeeded n v (reconnected ∷ is) h =
      let e : n + suc (reconnects is) ≡ suc n + reconnects is = omega arith in
      rw e (
        cons-EndsSeeded (snapshots (suc n + reconnects is)) (Sync.view (seed (snapshots n))) _
          (track-EndsSeeded (suc n) (seed (snapshots n)) is h.1))
  track-EndsSeeded n v (stream_error e ∷ is) h = elim h.0 [ ]
  track-EndsSeeded n v (closed ∷ is) h = elim h.0 [ ]

  run-EndsSeeded :
      (is : List Item)
      → All (Decodes report_of_json) is
      → let all = is ++ reconnected ∷ [] in
        EndsSeeded
          (snapshots (reconnects all))
          (Sync.run provider (decode_reports report_of_json all))
  unfolding Sync.run
  run-EndsSeeded is h =
      let decoded : decode_reports report_of_json (is ++ reconnected ∷ [])
          ≡ decode_reports report_of_json is ++ Sync.reconnected ∷ [] =
        decode_reports-append report_of_json is (reconnected ∷ []) h
        ∙ ap (λ l. decode_reports report_of_json is ++ l) (unfold decode_reports in refl) in
      let e : 1 + reconnects is ≡ suc (reconnects is) = omega arith in
      rw (decoded, reconnects-last is)
        (cons-EndsSeeded (snapshots (suc (reconnects is))) (Sync.view (seed (snapshots 0))) _
          (rw e at (track-EndsSeeded 1 (seed (snapshots 0)) is h)))

  -- With automatic reconnects, the user-data connection connects again after a session. Take an
  -- order subscriber whose queue was empty when the run began and that has not read since, and let
  -- all order reports of the run have parsed: on what its queue then holds, the order tracker, with
  -- a provider that does not raise, yields last the view that is seeded from a snapshot, the one that
  -- it asks for at the last of the reconnects in the queue.
  pub reconnect_reseeds :
      (t : SymbolType) (j : ℕ) (es : List Event) (c : UserConnection) (key : String)
      → All (IsOrdinary j) es
      → IsListed j order_event c.hub.subs
      → c.closing ≡ false
      → j < c.hub.created
      → lookup ℕ_discrete j c.hub.store ≡ some (new_subscription order_event)
      → (run true t es c).place ≡ connecting key
      → (run true t es c).first ≡ false
      → All (Decodes report_of_json) (reports t es c)
      → (sub : Subscription) × (lookup ℕ_discrete j (run true t (es ++ connects ∷ []) c).hub.store
          ≡ some sub)
        × EndsSeeded
            (snapshots (reconnects sub.queue.items))
            (Sync.run provider (decode_reports report_of_json sub.queue.items))
  unfolding hear
  reconnect_reseeds t j es c key o l open_still old fresh p f h =
      let R = reports t es c in
      let sentinel : reports t (es ++ connects ∷ []) c ≡ R ++ reconnected ∷ [] =
        reports-append report_of_json t es connects c ∙ rw (p, f) refl in
      let kept = drop (length R + 1 - 1024) R in
      let queue : (hear (R ++ reconnected ∷ []) (new_subscription order_event)).queue.items
          ≡ kept ++ reconnected ∷ [] =
        ap (λ q. q.items) (offer_all_last 1024 (R ++ reconnected ∷ []) (omega arith))
        ∙ last_kept R in
      (
        hear (R ++ reconnected ∷ []) (new_subscription order_event),
        run-reports t j (es ++ connects ∷ []) c
              (All-append (IsOrdinary j) es (connects ∷ []) o (tt, tt)) l open_still old
            ∙ rw (sentinel, fresh) refl,
        rw queue
            (run-EndsSeeded kept (All-drop (Decodes report_of_json) (length R + 1 - 1024) R h)),
      )
