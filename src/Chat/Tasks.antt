-- ===== src/Chat/Tasks.antt =====
-- The tasks that serve requests to the endpoint of app/api/chat.py side by side, and the semaphore that
-- bounds them: each stands at an `await`, and they go on in any order.
pub mod Permits
pub mod Tests
use noxis_api_provider.Prelude.{
  ℕ, Bool, true, false, Option, none, some, List, [], ◌∷◌, ◌++◌, ltb, get_elem?, set, if◌then◌else◌,
}
use noxis_api_provider.Chat.State.{Desk, enter, leave, acquire, release}

-- Where a task stands: before its permit, between its permit and the `finally`, or at its end; with
-- whether it serves a stream.
pub data Task : Type 0 where
  waiting holding : (streams : Bool) → Task
  over : Task

-- `size` is that of asyncio.Semaphore, of which `desk.held` permits are taken.
pub record Office {ℓ} (F : Type ℓ) (C : Type 0) : Type ℓ where
  pub size : ℕ
  pub desk : Desk F C
  pub tasks : List Task

-- A request comes in, and is refused for its size or not; a permit is handed to a task; a task comes to
-- the end of what it does with its permit, by whatever way; or it is cancelled where it stands.
pub data Move : Type 0 where
  arrive : (refused streams : Bool) → Move
  permit finish cancel : (task : ℕ) → Move

module _ {ℓ} {F : Type ℓ} {C : Type 0} where
  -- `chat_completions` up to its first `await`. The response of a stream is returned at once, so that the
  -- `finally` of the endpoint comes before the generator runs.
  unfoldable pub arrived : Bool → Bool → Office F C → Office F C
  unfolding enter leave
  arrived true streams o = record o { desk = enter o.desk }
  arrived false true o = record o {
    desk = leave (enter o.desk);
    tasks = o.tasks ++ waiting true ∷ [];
  }
  arrived false false o = record o { desk = enter o.desk; tasks = o.tasks ++ waiting false ∷ [] }

  -- `acquire` returns to a task that waits, if there is a permit left.
  unfoldable pub permitted : ℕ → Option Task → Office F C → Office F C
  unfolding acquire
  permitted i (some (waiting streams)) o =
      if ltb o.desk.held o.size
      then record o { desk = acquire o.desk; tasks = set o.tasks i (holding streams) }
      else o
  permitted i (some (holding streams)) o = o
  permitted i (some over) o = o
  permitted i none o = o

  -- The permit goes back; the endpoint of an answer without a stream is left with it.
  unfoldable pub given_back : Bool → Desk F C → Desk F C
  unfolding release leave
  given_back true d = release d
  given_back false d = leave (release d)

  unfoldable pub finished : ℕ → Option Task → Office F C → Office F C
  unfolding given_back
  finished i (some (holding streams)) o = record o {
    desk = given_back streams o.desk;
    tasks = set o.tasks i over;
  }
  finished i (some (waiting streams)) o = o
  finished i (some over) o = o
  finished i none o = o

  -- CancelledError: a generator that waits stands before its `try`, so that nothing is given back.
  unfoldable pub cancelled : ℕ → Option Task → Office F C → Office F C
  unfolding given_back leave
  cancelled i (some (waiting streams)) o = record o {
    desk = if streams then o.desk else leave o.desk;
    tasks = set o.tasks i over;
  }
  cancelled i (some (holding streams)) o = record o {
    desk = given_back streams o.desk;
    tasks = set o.tasks i over;
  }
  cancelled i (some over) o = o
  cancelled i none o = o

  unfoldable pub step : Move → Office F C → Office F C
  unfolding arrived permitted finished cancelled
  step (arrive refused streams) o = arrived refused streams o
  step (permit i) o = permitted i (get_elem? o.tasks i) o
  step (finish i) o = finished i (get_elem? o.tasks i) o
  step (cancel i) o = cancelled i (get_elem? o.tasks i) o

  unfoldable pub run : List Move → Office F C → Office F C
  unfolding step
  run [] o = o
  run (m ∷ ms) o = run ms (step m o)
