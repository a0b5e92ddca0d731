-- ===== src/Chat/Tasks/Permits.antt =====
-- What holds whenever tasks of the endpoint of app/api/chat.py run side by side: the permits, and the
-- gauge of active requests.
use noxis_api_provider.Prelude.{
  ℕ, ◌+◌, ◌≤◌, ◌<◌, ◌≡◌, ◌≢◌, refl, ap, subst, ◌∙◌, ◌⊎◌, inl, inr, Bool, true, false, Option, none,
  some, List, [], ◌∷◌, ltb, get_elem?, count, count-set, count-append, count-pos, get_elem?-set,
  get_elem?-set_ne, Bool-cases, lt→ltb, if◌then◌else◌, arith,
}
use noxis_api_provider.Chat.State.{Desk, enter, leave, acquire, release}
use noxis_api_provider.Chat.Tasks.{
  Task, waiting, holding, over, Office, Move, arrive, permit, finish, cancel, arrived, permitted,
  given_back, finished, cancelled, step, run,
}

abbrev pub holds : Task → Bool
holds (holding streams) = true
holds (waiting streams) = false
holds over = false

-- A request without a stream that has not been answered.
abbrev pub unanswered : Task → Bool
unanswered (waiting streams) = if streams then false else true
unanswered (holding streams) = if streams then false else true
unanswered over = false

-- How many requests a move refuses for their size.
abbrev pub refusal_of : Move → ℕ
refusal_of (arrive refused streams) = if refused then 1 else 0
refusal_of (permit i) = 0
refusal_of (finish i) = 0
refusal_of (cancel i) = 0

abbrev pub refusals : List Move → ℕ
refusals [] = 0
refusals (m ∷ ms) = refusal_of m + refusals ms

holding_of : (t : Task) → holds t ≡ true → (b : Bool) × (t ≡ holding b)
holding_of (holding b) q = (b, refl)
holding_of (waiting b) q = absurd cc
holding_of over q = absurd cc

module _ {ℓ} {F : Type ℓ} {C : Type 0} where
  -- The taken permits are those of the tasks that hold one, and fit; the gauge has the requests without a
  -- stream that are not answered, and `n` more.
  pub record IsFair (size n : ℕ) (o : Office F C) : Type ℓ where
    pub sized : o.size ≡ size
    pub held : o.desk.held ≡ count holds o.tasks
    pub fits : o.desk.held ≤ size
    pub active : o.desk.active ≡ count unanswered o.tasks + n

  arrived-IsFair :
      (refused streams : Bool) (size n : ℕ) (o : Office F C)
      → IsFair size n o
      → IsFair size (n + (if refused then 1 else 0)) (arrived refused streams o)
  unfolding arrived enter leave
  arrived-IsFair true streams size n o h = record {
    sized = h.sized;
    held = h.held;
    fits = h.fits;
    active = omega (arith, h.active);
  }
  arrived-IsFair false true size n o h = record {
    sized = h.sized;
    held = omega (arith, h.held, count-append holds o.tasks (waiting true ∷ []));
    fits = h.fits;
    active = omega (arith, h.active, count-append unanswered o.tasks (waiting true ∷ []));
  }
  arrived-IsFair false false size n o h = record {
    sized = h.sized;
    held = omega (arith, h.held, count-append holds o.tasks (waiting false ∷ []));
    fits = h.fits;
    active = omega (arith, h.active, count-append unanswered o.tasks (waiting false ∷ []));
  }

  permitted-IsFair :
      (i : ℕ) (t : Option Task) (size n : ℕ) (o : Office F C)
      → get_elem? o.tasks i ≡ t
      → IsFair size n o
      → IsFair size n (permitted i t o)
  unfolding permitted acquire
  permitted-IsFair i (some (waiting streams)) size n o e h = ground (
    arith,
    count-set holds o.tasks i (waiting streams) (holding streams) e,
    count-set unanswered o.tasks i (waiting streams) (holding streams) e,
  )
  permitted-IsFair i (some (holding streams)) size n o e h = h
  permitted-IsFair i (some over) size n o e h = h
  permitted-IsFair i none size n o e h = h

  finished-IsFair :
      (i : ℕ) (t : Option Task) (size n : ℕ) (o : Office F C)
      → get_elem? o.tasks i ≡ t
      → IsFair size n o
      → IsFair size n (finished i t o)
  unfolding finished given_back release leave
  finished-IsFair i (some (holding true)) size n o e h = ground (
    arith,
    count-set holds o.tasks i (holding true) over e,
    count-set unanswered o.tasks i (holding true) over e,
  )
  finished-IsFair i (some (holding false)) size n o e h = ground (
    arith,
    count-set holds o.tasks i (holding false) over e,
    count-set unanswered o.tasks i (holding false) over e,
  )
  finished-IsFair i (some (waiting streams)) size n o e h = h
  finished-IsFair i (some over) size n o e h = h
  finished-IsFair i none size n o e h = h

  cancelled-IsFair :
      (i : ℕ) (t : Option Task) (size n : ℕ) (o : Office F C)
      → get_elem? o.tasks i ≡ t
      → IsFair size n o
      → IsFair size n (cancelled i t o)
  unfolding cancelled leave
  cancelled-IsFair i (some (waiting streams)) size n o e h = ground (
    arith,
    count-set holds o.tasks i (waiting streams) over e,
    count-set unanswered o.tasks i (waiting streams) over e,
  )
  cancelled-IsFair i (some (holding streams)) size n o e h =
      unfold finished in finished-IsFair i (some (holding streams)) size n o e h
  cancelled-IsFair i (some over) size n o e h = h
  cancelled-IsFair i none size n o e h = h

  step-IsFair :
      (m : Move) (size n : ℕ) (o : Office F C)
      → IsFair size n o
      → IsFair size (n + refusal_of m) (step m o)
  unfolding step
  step-IsFair (arrive refused streams) size n o h = arrived-IsFair refused streams size n o h
  step-IsFair (permit i) size n o h =
      permitted-IsFair i (get_elem? o.tasks i) size (n + 0) o refl
        (subst (λ k. IsFair size k o) (omega arith) h)
  step-IsFair (finish i) size n o h =
      finished-IsFair i (get_elem? o.tasks i) size (n + 0) o refl
        (subst (λ k. IsFair size k o) (omega arith) h)
  step-IsFair (cancel i) size n o h =
      cancelled-IsFair i (get_elem? o.tasks i) size (n + 0) o refl
        (subst (λ k. IsFair size k o) (omega arith) h)

  run-from :
      (ms : List Move) (size n : ℕ) (o : Office F C)
      → IsFair size n o
      → IsFair size (n + refusals ms) (run ms o)
  unfolding run
  run-from [] size n o h = subst (λ k. IsFair size k o) (omega arith) h
  run-from (m ∷ ms) size n o h =
      subst (λ k. IsFair size k (run ms (step m o))) (omega arith)
        (run-from ms size (n + refusal_of m) (step m o) (step-IsFair m size n o h))

  -- An endpoint that no request has reached.
  abbrev pub opened : ℕ → Desk F C → Office F C
  opened size d = record { size = size; desk = record d { active = 0; held = 0 }; tasks = [] }

  -- Whatever requests come in, and in whatever order tasks get permits, end and are cancelled: no more
  -- than the configured number of them hold a permit, the taken permits are exactly theirs, and the gauge
  -- of active requests counts those without a stream that are not answered, and besides them each
  -- request that was ever refused for its size or its max_tokens.
  pub run-IsFair :
      (ms : List Move) (size : ℕ) (d : Desk F C)
      → IsFair size (refusals ms) (run ms (opened size d))
  run-IsFair ms size d =
      subst (λ k. IsFair size k (run ms (opened size d))) (omega arith)
        (run-from ms size 0 (opened size d)
          (record { sized = refl; held = refl; fits = omega arith; active = refl }))

  -- A task gets its permit, or there is a task whose end gives it one.
  abbrev pub Admission : ℕ → Bool → Office F C → Type 0
  Admission i streams o =
      (get_elem? (step (permit i) o).tasks i ≡ some (holding streams))
      ⊎ ((j : ℕ) × (b : Bool) × (get_elem? o.tasks j ≡ some (holding b))
          × (get_elem? (step (permit i) (step (finish j) o)).tasks i ≡ some (holding streams)))

  -- Where a permit is left, a task that waits gets one.
  gets_permit :
      (o : Office F C) (i : ℕ) (streams : Bool)
      → get_elem? o.tasks i ≡ some (waiting streams)
      → o.desk.held < o.size
      → get_elem? (step (permit i) o).tasks i ≡ some (holding streams)
  unfolding step permitted
  gets_permit o i streams e room =
      rw (e, lt→ltb _ _ room, permitted)
        (get_elem?-set o.tasks i (waiting streams) (holding streams) e)

  -- A task that is done makes room, and leaves the others where they stand.
  makes_room :
      (o : Office F C) (size n i j : ℕ) (streams b : Bool)
      → IsFair size n o
      → 0 < size
      → get_elem? o.tasks i ≡ some (waiting streams)
      → get_elem? o.tasks j ≡ some (holding b)
      → (get_elem? (step (finish j) o).tasks i ≡ some (waiting streams))
        × ((step (finish j) o).desk.held < (step (finish j) o).size)
  unfolding step finished given_back release leave
  makes_room o size n i j streams b h pos at_i at_j =
      let other : j ≢ i = λ e. absurd cc in
      rw (at_j, finished)
        (get_elem?-set_ne o.tasks j i over other ∙ at_i, ground (arith, h.sized, h.fits, b))

  holder :
      (o : Office F C)
      → 0 < count holds o.tasks
      → (j : ℕ) × (b : Bool) × (get_elem? o.tasks j ≡ some (holding b))
  holder o pos =
      let (j, t, at, q) = count-pos holds o.tasks pos in
      let (b, e) = holding_of t q in (j, b, at ∙ ap some e)

  admission :
      (o : Office F C) (size n i : ℕ) (streams : Bool)
      → IsFair size n o
      → 0 < size
      → get_elem? o.tasks i ≡ some (waiting streams)
      → Admission i streams o
  admission o size n i streams h pos at = elim (Bool-cases (ltb o.desk.held o.size)) [
    | inl room ↦ inl (gets_permit o i streams at (ground (arith, room)))
    | inr full ↦
        let (j, b, at_j) = holder o (ground (arith, full, h.sized, h.held)) in
        let (same, room) = makes_room o size n i j streams b h pos at at_j in
        inr (j, b, at_j, gets_permit (step (finish j) o) i streams same room)
  ]

  -- No permit is ever lost: where the semaphore has one permit at least, whatever requests have come in,
  -- ended or been cancelled, a task that waits gets a permit at once, or as soon as some task that holds
  -- one comes to its end.
  pub run-Admission :
      (ms : List Move) (size : ℕ) (d : Desk F C) (i : ℕ) (streams : Bool)
      → 0 < size
      → get_elem? (run ms (opened size d)).tasks i ≡ some (waiting streams)
      → Admission i streams (run ms (opened size d))
  run-Admission ms size d i streams pos at =
      admission (run ms (opened size d)) size (refusals ms) i streams (run-IsFair ms size d) pos at
