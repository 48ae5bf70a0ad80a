-- ===== src/ReviewStore/Tests.antt =====
-- Runs of the review store, and its theorems at concrete inputs.
use code_astra.Base.{ℕ, String, ◌≡◌, ◌≢◌, refl, List, [], ◌∷◌, none, some, string_eq, pair_eq}
use code_astra.Base.TextOrder.{text_differs}
use code_astra.Base.Lists.{drop, All}
use code_astra.Base.Dict.{lookup, insert}
use code_astra.Base.Result.{ok}
use code_astra.ReviewStore.{
  ReviewStore, ReviewSession, ReviewStatus, RecheckStatus, ReviewEventType, ReviewEvent, init,
  require_owner, create, save, publish, events_after,
}
use code_astra.ReviewStore.Enhanced.{delete}
use code_astra.ReviewStore.Rechecks.{transition_review_if_recheck_attempt}
use code_astra.ReviewStore.Isolation.{
  StoreCall, creates, saves, publishes, deletes, caller, step, run,
}
use code_astra.ReviewStore.Untouched.{Untouched}
use code_astra.ReviewStore.Strangers.{strangers_change_nothing}
use code_astra.ReviewStore.Outcomes.{
  DeleteSpec, delete_is_complete, SaveSpec, save_get, RecheckSpec, late_attempts_change_nothing,
}
use code_astra.ReviewStore.Events.{resume_misses_nothing}

abbrev Calls : Type 0
Calls = List (StoreCall String ℕ String ℕ)

abbrev session : String → String → ReviewSession String
session review_id owner_id = record {
  review_id = review_id;
  owner_id = owner_id;
  status = ReviewStatus.reviewing;
  created_at = 1;
  expires_at = 9;
  title = none;
  recheck_attempt_id = some "a1";
  recheck_attempt_status = some RecheckStatus.running;
  rest = "files";
}

abbrev two_events : Calls
two_events =
    creates (session "r1" "ann")
    ∷ publishes "r1" "ann" ReviewEventType.stage "planning"
    ∷ publishes "r1" "ann" ReviewEventType.progress "half"
    ∷ []

abbrev one_review : ReviewStore String ℕ String ℕ
one_review = record {
  sessions = ("r1", session "r1" "ann") ∷ [];
  events =
      (
        "r1",
        record { sequence = 1; event = ReviewEventType.stage; data_of = "planning" }
            ∷ record { sequence = 2; event = ReviewEventType.progress; data_of = "half" }
            ∷ [],
      )
      ∷ [];
  followups = (("r1", "review"), []) ∷ [];
  chunks = [];
  chunk_findings = [];
  attempts = [];
}

two_events-run : run two_events init ≡ one_review
unfolding run step init create publish require_owner lookup insert string_eq pair_eq
two_events-run = refl

abbrev intruder : Calls
intruder =
    deletes "r1" "bob"
    ∷ saves (session "r1" "bob")
    ∷ creates (session "r2" "bob")
    ∷ publishes "r1" "bob" ReviewEventType.cancelled ""
    ∷ []

strangers_change_nothing_example : Untouched "r1" one_review (run intruder one_review)
unfolding lookup string_eq
strangers_change_nothing_example =
    strangers_change_nothing "r1" intruder one_review (session "r1" "ann") refl others
  where
    bob : (session "r1" "ann").owner_id ≢ "bob"
    bob = text_differs "ann" "bob" refl

    others : All (λ call. (session "r1" "ann").owner_id ≢ caller call) intruder
    others = (bob, (bob, (bob, (bob, tt))))

delete_is_complete_example : DeleteSpec "r1" "ann" one_review (delete "r1" "ann" one_review)
delete_is_complete_example = delete_is_complete "r1" "ann" one_review

save_get_example : SaveSpec (session "r1" "ann") one_review (save (session "r1" "ann") one_review)
save_get_example = save_get (session "r1" "ann") one_review

late_attempts_change_nothing_example :
    RecheckSpec (session "r1" "ann") "a0" ReviewEventType.complete "" one_review (
      transition_review_if_recheck_attempt
        (session "r1" "ann")
        "a0"
        ReviewEventType.complete
        ""
        one_review)
unfolding lookup string_eq
late_attempts_change_nothing_example =
    late_attempts_change_nothing (session "r1" "ann") "a0" ReviewEventType.complete "" one_review
      (record { sequence = 1; event = ReviewEventType.stage; data_of = "planning" }
        ∷ record { sequence = 2; event = ReviewEventType.progress; data_of = "half" }
        ∷ [])
      refl

resume_misses_nothing_example :
    (events : List (ReviewEvent String)) × (lookup "r1" (run two_events init).events ≡ some events)
    × (events_after "r1" "ann" 1 (run two_events init) ≡ ok (drop 1 events))
unfolding run step init create publish require_owner lookup insert string_eq pair_eq
resume_misses_nothing_example =
    resume_misses_nothing two_events "r1" "ann" 1 (session "r1" "ann") refl
