-- ===== src/UserStream/ListenKey/Flight.antt =====
-- The single flight of `RestListenKeyManager.create` of binance_th/listenkey.py: callers that share
-- one task of `_do_create`, as steps of the event loop. Cancelled callers are left out.
use binance_th.Prelude.{
  ℕ, suc, ◌≤◌, ◌≡◌, refl, ◌⊎◌, inl, inr, Bool, true, false, not, ◌&&◌, ◌==◌, if◌then◌else◌, Option,
  none, some, List, [], ◌∷◌, length, arith, Bool-cases,
}

-- `_inflight`, the tasks that have not ended, those whose creator waits for them still, and how
-- many there were. Tasks are numbered.
pub record Flight : Type 0 where
  pub inflight : Option ℕ
  pub running : List ℕ
  pub awaited : List ℕ
  pub started : ℕ

abbrev pub idle : Flight
idle = record { inflight = none; running = []; awaited = []; started = 0 }

abbrev pub among : ℕ → List ℕ → Bool
among t [] = false
among t (u ∷ us) = let rest = among t us in if t == u then true else rest

abbrev pub without : ℕ → List ℕ → List ℕ
without t [] = []
without t (u ∷ us) = let rest = without t us in if t == u then rest else u ∷ rest

-- `inflight is not None and not inflight.done()`
abbrev pub is_flying : Flight → Bool
is_flying f = elim f.inflight [ none ↦ false | some t ↦ among t f.running ]

-- A call of `create` up to its first await: it joins the task, or makes one.
unfoldable pub begin : Flight → Flight
begin f = if is_flying f then f else record {
  inflight = some f.started;
  running = f.started ∷ f.running;
  awaited = f.started ∷ f.awaited;
  started = suc f.started;
}

-- `_do_create` of a task returns or raises.
unfoldable pub end_task : ℕ → Flight → Flight
end_task t f = record f { running = without t f.running }

-- The caller that made a task goes on once the task is done: `self._inflight = None`.
unfoldable pub go_on : ℕ → Flight → Flight
go_on t f =
    if among t f.awaited && not (among t f.running)
    then record f { inflight = none; awaited = without t f.awaited }
    else f

pub data Move : Type 0 where
  create : Move
  ends : ℕ → Move
  resumes : ℕ → Move

unfoldable pub step : Move → Flight → Flight
unfolding begin end_task go_on
step create f = begin f
step (ends t) f = end_task t f
step (resumes t) f = go_on t f

unfoldable pub run : List Move → Flight → Flight
unfolding step
run [] f = f
run (m ∷ ms) f = run ms (step m f)

-- No call comes between the end of a task and the return of the caller that made it.
abbrev pub IsPrompt : List Move → Flight → Type 0
IsPrompt [] f = Unit
IsPrompt (create ∷ ms) f =
    ((f.inflight ≡ none) ⊎ (is_flying f ≡ true)) × IsPrompt ms (step create f)
IsPrompt (ends t ∷ ms) f = IsPrompt ms (step (ends t) f)
IsPrompt (resumes t ∷ ms) f = IsPrompt ms (step (resumes t) f)

-- At rest, with a task under way, or with one that has ended and whose maker has yet to go on.
data Phase (f : Flight) : Type 0 where
  rest : f.inflight ≡ none → f.running ≡ [] → f.awaited ≡ [] → Phase f
  flying : (t : ℕ) → f.inflight ≡ some t → f.running ≡ t ∷ [] → f.awaited ≡ t ∷ [] → Phase f
  landed : (t : ℕ) → f.inflight ≡ some t → f.running ≡ [] → f.awaited ≡ t ∷ [] → Phase f

begin-Phase : (f : Flight) → Phase f → (f.inflight ≡ none) ⊎ (is_flying f ≡ true) → Phase (begin f)
unfolding begin
begin-Phase f (rest a b c) h = flying f.started (ground arith) (ground arith) (ground arith)
begin-Phase f (flying t a b c) h = flying t (ground arith) (ground arith) (ground arith)
begin-Phase f (landed t a b c) h = absurd (ground arith)

end-Phase : (t : ℕ) (f : Flight) → Phase f → Phase (end_task t f)
unfolding end_task
end-Phase t f (rest a b c) = rest a (ground arith) c
end-Phase t f (flying u a b c) = elim (Bool-cases (t == u)) [
  | inl same ↦ landed u a (ground arith) c
  | inr other ↦ flying u a (ground arith) c
]
end-Phase t f (landed u a b c) = landed u a (ground arith) c

go_on-Phase : (t : ℕ) (f : Flight) → Phase f → Phase (go_on t f)
unfolding go_on
go_on-Phase t f (rest a b c) = rest (ground arith) (ground arith) (ground arith)
go_on-Phase t f (flying u a b c) = flying u (ground arith) (ground arith) (ground arith)
go_on-Phase t f (landed u a b c) = elim (Bool-cases (t == u)) [
  | inl same ↦ rest (ground arith) (ground arith) (ground arith)
  | inr other ↦ landed u (ground arith) (ground arith) (ground arith)
]

Phase-single : (f : Flight) → Phase f → length f.running ≤ 1
Phase-single f (rest a b c) = ground arith
Phase-single f (flying t a b c) = ground arith
Phase-single f (landed t a b c) = ground arith

run-Phase : (ms : List Move) (f : Flight) → Phase f → IsPrompt ms f → Phase (run ms f)
unfolding run
run-Phase [] f p h = p
run-Phase (create ∷ ms) f p h = run-Phase ms (begin f) (begin-Phase f p h.0) h.1
run-Phase (ends t ∷ ms) f p h = run-Phase ms (end_task t f) (end-Phase t f p) h
run-Phase (resumes t ∷ ms) f p h = run-Phase ms (go_on t f) (go_on-Phase t f p) h

-- Where no call of `create` comes between the end of a task and the return of the call that made
-- it, at most one creation of keys is under way at any time, however the calls come.
pub single_flight : (ms : List Move) → IsPrompt ms idle → length (run ms idle).running ≤ 1
single_flight ms h = Phase-single (run ms idle) (run-Phase ms idle (rest refl refl refl) h)
