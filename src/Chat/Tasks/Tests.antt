-- ===== src/Chat/Tasks/Tests.antt =====
-- A semaphore of one permit: a stream holds it, a request waits, and one is refused.
use noxis_api_provider.Prelude.{◌≡◌, refl, true, false, some, List, [], ◌∷◌, get_elem?, arith}
use noxis_api_provider.Float.Milli.{Milli}
use noxis_api_provider.Cache.{InMemoryCache}
use noxis_api_provider.Chat.State
use noxis_api_provider.Chat.Tasks
use noxis_api_provider.Chat.Tasks.{
  Office, Move, arrive, permit, finish, cancel, holding, waiting, over, run,
}
use noxis_api_provider.Chat.Tasks.Permits.{
  IsFair, refusals, opened, Admission, run-IsFair, run-Admission,
}
use noxis_api_provider.Samples.{desk}

abbrev moves : List Move
moves = arrive false true ∷ arrive false false ∷ arrive true false ∷ permit 0 ∷ permit 1 ∷ []

abbrev crowded : Office Milli InMemoryCache
crowded = run moves (opened 1 desk)

-- The second permit is not given; the gauge has the request that waits and the one that was refused.
crowded_lem :
    (crowded.tasks ≡ holding true ∷ waiting false ∷ [])
    × (crowded.desk.held ≡ 1)
    × (crowded.desk.active ≡ 2)
unfolding Tasks.run Tasks.step Tasks.arrived Tasks.permitted State.enter State.leave State.acquire
crowded_lem = (refl, refl, refl)

-- Of two tasks, one cancelled while it waits and one with its permit, nothing stays behind.
abbrev left : Office Milli InMemoryCache
left = run (cancel 1 ∷ cancel 0 ∷ finish 0 ∷ []) crowded

left_lem : (left.tasks ≡ over ∷ over ∷ []) × (left.desk.held ≡ 0) × (left.desk.active ≡ 1)
unfolding Tasks.run Tasks.step Tasks.arrived Tasks.permitted Tasks.finished Tasks.cancelled
    Tasks.given_back State.enter State.leave State.acquire State.release
left_lem = (refl, refl, refl)

crowded_waits : get_elem? crowded.tasks 1 ≡ some (waiting false)
unfolding Tasks.run Tasks.step Tasks.arrived Tasks.permitted State.enter State.leave State.acquire
crowded_waits = refl

run-IsFair_example : IsFair 1 (refusals moves) crowded
run-IsFair_example = run-IsFair moves 1 desk

run-Admission_example : Admission 1 false crowded
run-Admission_example = run-Admission moves 1 desk 1 false (omega arith) crowded_waits
