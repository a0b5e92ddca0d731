-- ===== src/HealthMonitor/Stop.antt =====
-- The end of the task of app/core/health_monitor.py.
use noxis_api_provider.Prelude.{
  ℕ, ◌+◌, ◌-◌, ◌≤◌, ◌≡◌, ◌≢◌, refl, sym, subst, ◌∙◌, Bool, true, List, [], ◌∷◌, arith,
}
use noxis_api_provider.HealthMonitor.Loop.{
  Phase, absent, at_test, in_pass, waiting, ended, Monitor, Event, starts, asks_stop, joins, steps,
  times_out, start, advance, time_out, join, step, run,
}

-- The steps that a task which is asked to stop still takes.
abbrev pub left : Phase → ℕ
left absent = 0
left ended = 0
left at_test = 1
left waiting = 2
left in_pass = 3

-- The steps of the task among the events, which await no end of it.
abbrev pub taken : List Event → ℕ
taken [] = 0
taken (starts ∷ es) = taken es
taken (asks_stop ∷ es) = taken es
taken (joins ∷ es) = taken es
taken (steps ∷ es) = taken es + 1
taken (times_out ∷ es) = taken es

abbrev pub Unjoined : List Event → Type 0
Unjoined [] = Unit
Unjoined (starts ∷ es) = Unjoined es
Unjoined (asks_stop ∷ es) = Unjoined es
Unjoined (joins ∷ es) = ⊥
Unjoined (steps ∷ es) = Unjoined es
Unjoined (times_out ∷ es) = Unjoined es

-- There is a task.
abbrev pub Runs : Phase → Type 0
Runs absent = ⊥
Runs at_test = Unit
Runs in_pass = Unit
Runs waiting = Unit
Runs ended = Unit

-- That a task which is asked to stop has begun no pass, and is nearer to its end by n steps.
record Stopping (m m' : Monitor) (n : ℕ) : Type 0 where
  runs : Runs m'.phase
  asked : m'.stop ≡ true
  passes : m'.passes ≡ m.passes
  nearer : left m'.phase ≤ left m.phase - n

Stopping-step :
    (p : Phase) (k : ℕ) (e : Event)
    → Runs p
    → e ≢ joins
    → let m : Monitor = record { phase = p; stop = true; passes = k } in
      Stopping m (step m e) (taken (e ∷ []))
unfolding step start advance time_out join
Stopping-step p k joins r h = absurd (h refl)
Stopping-step absent k e r h = absurd r
Stopping-step at_test k starts r h = record {
  runs = tt;
  asked = refl;
  passes = refl;
  nearer = omega arith;
}
Stopping-step at_test k asks_stop r h = record {
  runs = tt;
  asked = refl;
  passes = refl;
  nearer = omega arith;
}
Stopping-step at_test k steps r h = record {
  runs = tt;
  asked = refl;
  passes = refl;
  nearer = omega arith;
}
Stopping-step at_test k times_out r h = record {
  runs = tt;
  asked = refl;
  passes = refl;
  nearer = omega arith;
}
Stopping-step in_pass k starts r h = record {
  runs = tt;
  asked = refl;
  passes = refl;
  nearer = omega arith;
}
Stopping-step in_pass k asks_stop r h = record {
  runs = tt;
  asked = refl;
  passes = refl;
  nearer = omega arith;
}
Stopping-step in_pass k steps r h = record {
  runs = tt;
  asked = refl;
  passes = refl;
  nearer = omega arith;
}
Stopping-step in_pass k times_out r h = record {
  runs = tt;
  asked = refl;
  passes = refl;
  nearer = omega arith;
}
Stopping-step waiting k starts r h = record {
  runs = tt;
  asked = refl;
  passes = refl;
  nearer = omega arith;
}
Stopping-step waiting k asks_stop r h = record {
  runs = tt;
  asked = refl;
  passes = refl;
  nearer = omega arith;
}
Stopping-step waiting k steps r h = record {
  runs = tt;
  asked = refl;
  passes = refl;
  nearer = omega arith;
}
Stopping-step waiting k times_out r h = record {
  runs = tt;
  asked = refl;
  passes = refl;
  nearer = omega arith;
}
Stopping-step ended k starts r h = record {
  runs = tt;
  asked = refl;
  passes = refl;
  nearer = omega arith;
}
Stopping-step ended k asks_stop r h = record {
  runs = tt;
  asked = refl;
  passes = refl;
  nearer = omega arith;
}
Stopping-step ended k steps r h = record {
  runs = tt;
  asked = refl;
  passes = refl;
  nearer = omega arith;
}
Stopping-step ended k times_out r h = record {
  runs = tt;
  asked = refl;
  passes = refl;
  nearer = omega arith;
}

Stopping-any :
    (m : Monitor) (e : Event)
    → m.stop ≡ true
    → Runs m.phase
    → e ≢ joins
    → Stopping m (step m e) (taken (e ∷ []))
Stopping-any m e q r h =
    let at : Bool → Monitor = λ b. record { phase = m.phase; stop = b; passes = m.passes } in
    subst (λ b. Stopping (at b) (step (at b) e) (taken (e ∷ []))) (sym q)
      (Stopping-step m.phase m.passes e r h)

taken-cons : (e : Event) (es : List Event) → taken (e ∷ es) ≡ taken (e ∷ []) + taken es
taken-cons starts es = omega arith
taken-cons asks_stop es = omega arith
taken-cons joins es = omega arith
taken-cons steps es = omega arith
taken-cons times_out es = omega arith

Unjoined-cons : (e : Event) (es : List Event) → Unjoined (e ∷ es) → (e ≢ joins) × Unjoined es
Unjoined-cons starts es u = (λ q. cc, u)
Unjoined-cons asks_stop es u = (λ q. cc, u)
Unjoined-cons joins es u = absurd u
Unjoined-cons steps es u = (λ q. cc, u)
Unjoined-cons times_out es u = (λ q. cc, u)

run-Stopping :
    (m : Monitor) (es : List Event)
    → m.stop ≡ true
    → Runs m.phase
    → Unjoined es
    → Stopping m (run m es) (taken es)
unfolding run
run-Stopping m [] q r u = record { runs = r; asked = q; passes = refl; nearer = omega arith }
run-Stopping m (e ∷ es) q r u =
    let (other, later) = Unjoined-cons e es u in
    let first = Stopping-any m e q r other in
    let rest = run-Stopping (step m e) es first.asked first.runs later in
    record {
      runs = rest.runs;
      asked = rest.asked;
      passes = rest.passes ∙ first.passes;
      nearer = omega (arith, rest.nearer, first.nearer, taken-cons e es);
    }

left-le : (p : Phase) → left p ≤ 3
left-le absent = omega arith
left-le at_test = omega arith
left-le in_pass = omega arith
left-le waiting = omega arith
left-le ended = omega arith

nothing_left : (p : Phase) → Runs p → left p ≤ 0 → p ≡ ended
nothing_left absent r h = absurd r
nothing_left at_test r h = absurd (omega arith)
nothing_left in_pass r h = absurd (omega arith)
nothing_left waiting r h = absurd (omega arith)
nothing_left ended r h = refl

-- Wherever the task of the health monitor is when `stop` is called, it ends within three of its own steps,
-- whatever else happens, further calls of `start` included, and begins no pass any more: the `await` of
-- `stop` waits for the pass that is under way at most.
pub stop-ends :
    (m : Monitor) (es : List Event)
    → Runs m.phase
    → Unjoined es
    → 3 ≤ taken es
    → let m' = run (step m asks_stop) es in (m'.phase ≡ ended) × (m'.passes ≡ m.passes)
unfolding step
stop-ends m es r u h =
    let s = run-Stopping (step m asks_stop) es refl r u in
    (
      nothing_left (run (step m asks_stop) es).phase s.runs
          (omega (arith, s.nearer, left-le m.phase, h)),
      s.passes,
    )
