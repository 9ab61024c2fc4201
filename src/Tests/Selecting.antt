-- ===== src/Tests/Selecting.antt =====
-- Sessions of documents, at a concrete run.
use legal_ai_copilot.Prelude.{ℕ, true, false, none, List, [], ◌∷◌, ◌≡◌, refl, arith}
use legal_ai_copilot.Sessions.Store.{
  Store, has_file, holds, drop_field, create_session, get_session, add_file_to_session,
  update_file_status_in_session, remove_file_from_all_sessions,
}
use legal_ai_copilot.Sessions.Removal.{shows}
use legal_ai_copilot.Sessions.Lifetime.{Op, get, update, remove, step, run, remove_file-shows}

abbrev empty : Store
empty = record { sessions = λ k. none; file_sessions = λ k. none }

-- session 1 with file 4
abbrev one_session : Store
one_session = create_session 0 1 (4 ∷ []) 7 empty

abbrev operations : List (ℕ × Op)
operations = (200, get 1) ∷ (300, update 1 5 "READY") ∷ (400, remove 4) ∷ []

remove_file-shows_example :
    shows 500 1 5
      (remove_file_from_all_sessions 500 5
        (run operations (add_file_to_session 100 1 5 "PROCESSING" one_session).1)).sessions
    ≡ false
unfolding create_session add_file_to_session
remove_file-shows_example =
    remove_file-shows 100 500 1 5 "PROCESSING" operations one_session refl
      (
        (omega arith, omega arith, tt),
        (
          (omega arith, omega arith, tt),
          ((omega arith, omega arith, λ (e : ◌≡◌ {A = ℕ} 4 5). omega arith), tt),
        ),
      )
      (omega arith)

-- A session that is read after 100,000 seconds outlives the index of its file: a removal at 180,000
-- seconds no longer finds it.
removal_misses :
    shows 180000 1 4
      (remove_file_from_all_sessions 180000 4 (get_session 100000 1 one_session).1).sessions
    ≡ true
unfolding create_session get_session remove_file_from_all_sessions has_file
removal_misses = refl

-- A status that arrives after the removal puts the file back.
removal_undone :
    shows 300 1 4
      (step 200 (update 1 4 "READY") (remove_file_from_all_sessions 100 4 one_session)).sessions
    ≡ true
unfolding create_session remove_file_from_all_sessions step update_file_status_in_session has_file
    drop_field holds
removal_undone = refl
