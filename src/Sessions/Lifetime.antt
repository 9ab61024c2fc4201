-- ===== src/Sessions/Lifetime.antt =====
-- A file is removed from its sessions for 48 hours after it was added, whatever is done meanwhile.
use legal_ai_copilot.Prelude.{
  ℕ, String, true, false, Option, none, some, List, [], ◌∷◌, ◌+◌, ◌==◌, ◌≤◌, ◌<◌, ◌≡◌, ◌≢◌, inl,
  inr, arith, Option-cases, Bool-cases, eq_self, subst, All,
}
use legal_ai_copilot.Sessions.Store.{
  session_ttl_seconds, Entry, live_entry, read, Store, holds, sadd, index, index_all,
  create_session, get_session, add_file_to_session, update_file_status_in_session, expired_in,
  remove_file_from_all_sessions,
}
use legal_ai_copilot.Sessions.Removal.{shows, indexed, IsIndexed, remove-shows}

pub data Op : Type 0 where
  create : ℕ → List ℕ → ℕ → Op
  get : ℕ → Op
  add : ℕ → ℕ → String → Op
  update : ℕ → ℕ → String → Op
  remove : ℕ → Op

unfoldable pub step : ℕ → Op → Store → Store
step now (create session_id file_ids org_id) r = create_session now session_id file_ids org_id r
step now (get session_id) r = (get_session now session_id r).1
step now (add session_id file_id status) r = (add_file_to_session now session_id file_id status r).1
step now (update session_id file_id status) r =
    update_file_status_in_session now session_id file_id status r
step now (remove file_id) r = remove_file_from_all_sessions now file_id r

unfoldable pub run : List (ℕ × Op) → Store → Store
run [] r = r
run ((now, op) ∷ rest) r = run rest (step now op r)

-- not a removal of this file
abbrev pub Spares : ℕ → Op → Type 0
Spares file_id (remove f) = f ≢ file_id
Spares file_id _ = Unit

sadd-indexed :
    (now end session_id k : ℕ) (e : Option (Entry (List ℕ)))
    → now < end
    → end ≤ now + session_ttl_seconds
    → indexed end session_id e ≡ true
    → indexed end session_id (expired_in (now + session_ttl_seconds) (sadd k (live_entry now e)))
      ≡ true
unfolding holds
sadd-indexed now end session_id k none early late h = absurd (cc)
sadd-indexed now end session_id k (some e) early late h = ground arith

module _ (now end session_id file_id : ℕ) (early : now < end)
    (late : end ≤ now + session_ttl_seconds) where
  index-IsIndexed :
      (k f : ℕ) (r : Store)
      → IsIndexed end session_id file_id r
      → IsIndexed end session_id file_id (index now k f r)
  index-IsIndexed k f r h = elim (Bool-cases (file_id == f)) [
    | inl own ↦
        let e : file_id ≡ f = ground arith in
        rw own (
          sadd-indexed now end session_id k (r.file_sessions f) early late
            (subst (λ j. indexed end session_id (r.file_sessions j) ≡ true) e h))
    | inr other ↦ rw other h
  ]

  index_all-IsIndexed :
      (k : ℕ) (fs : List ℕ) (r : Store)
      → IsIndexed end session_id file_id r
      → IsIndexed end session_id file_id (index_all now k fs r)
  unfolding index_all
  index_all-IsIndexed k [] r h = h
  index_all-IsIndexed k (f ∷ fs) r h =
      index_all-IsIndexed k fs (index now k f r) (index-IsIndexed k f r h)

  get-IsIndexed :
      (k : ℕ) (r : Store)
      → IsIndexed end session_id file_id r
      → IsIndexed end session_id file_id (get_session now k r).1
  unfolding get_session
  get-IsIndexed k r h = elim (Option-cases (read now k r.sessions)) [
    | inl lost ↦ rw (lost, get_session) h
    | inr (e, found) ↦ rw (found, get_session) h
  ]

  add-IsIndexed :
      (k f : ℕ) (status : String) (r : Store)
      → IsIndexed end session_id file_id r
      → IsIndexed end session_id file_id (add_file_to_session now k f status r).1
  unfolding add_file_to_session
  add-IsIndexed k f status r h = elim (Option-cases (read now k r.sessions)) [
    | inl lost ↦ rw (lost, add_file_to_session) h
    | inr (e, found) ↦ rw (found, add_file_to_session) (index-IsIndexed k f r h)
  ]

  step-IsIndexed :
      (op : Op) (r : Store)
      → Spares file_id op
      → IsIndexed end session_id file_id r
      → IsIndexed end session_id file_id (step now op r)
  unfolding step create_session update_file_status_in_session remove_file_from_all_sessions
  step-IsIndexed (create k fs org) r ok h = index_all-IsIndexed k fs _ h
  step-IsIndexed (get k) r ok h = get-IsIndexed k r h
  step-IsIndexed (add k f status) r ok h = add-IsIndexed k f status r h
  step-IsIndexed (update k f status) r ok h = h
  step-IsIndexed (remove f) r ok h = elim (Bool-cases (file_id == f)) [
    | inl own ↦ absurd (ok (ground arith))
    | inr other ↦ rw other h
  ]

-- the operation stands between two times and does not remove the file
abbrev pub InWindow : ℕ → ℕ → ℕ → ℕ × Op → Type 0
InWindow start end file_id (now, op) = (start ≤ now) × (now < end) × Spares file_id op

run-IsIndexed :
    (start session_id file_id : ℕ) (ops : List (ℕ × Op)) (r : Store)
    → All (InWindow start (start + session_ttl_seconds) file_id) ops
    → IsIndexed (start + session_ttl_seconds) session_id file_id r
    → IsIndexed (start + session_ttl_seconds) session_id file_id (run ops r)
unfolding run
run-IsIndexed start session_id file_id [] r inside h = h
run-IsIndexed start session_id file_id ((now, op) ∷ rest) r ((from, before, spares), inside) h =
    run-IsIndexed start session_id file_id rest (step now op r) inside (
      step-IsIndexed now (start + session_ttl_seconds) session_id file_id before (omega arith) op r
        spares h)

added-IsIndexed :
    (start session_id file_id : ℕ) (status : String) (r : Store)
    → (add_file_to_session start session_id file_id status r).0 ≡ true
    → IsIndexed
        (start + session_ttl_seconds)
        session_id
        file_id
        (add_file_to_session start session_id file_id status r).1
unfolding add_file_to_session holds
added-IsIndexed start session_id file_id status r done =
    elim (Option-cases (read start session_id r.sessions)) [
      | inl lost ↦ absurd (ground arith)
      | inr (e, found) ↦ elim (Option-cases (read start file_id r.file_sessions)) [
        | inl new ↦ ground (arith, eq_self file_id, eq_self session_id)
        | inr (old, known) ↦ ground (arith, eq_self file_id, eq_self session_id)
      ]
    ]

-- After a file was added to a session with success, and any operations on the sessions in the 48
-- hours that follow, none of which removes the file, a removal of the file within these 48 hours
-- takes it out of the session: `get_session` does not show it.
pub remove_file-shows :
    (start now session_id file_id : ℕ) (status : String) (ops : List (ℕ × Op)) (r : Store)
    → (add_file_to_session start session_id file_id status r).0 ≡ true
    → All (InWindow start (start + session_ttl_seconds) file_id) ops
    → now < start + session_ttl_seconds
    → shows now session_id file_id
        (remove_file_from_all_sessions now file_id
          (run ops (add_file_to_session start session_id file_id status r).1)).sessions
      ≡ false
remove_file-shows start now session_id file_id status ops r done inside early =
    remove-shows now (start + session_ttl_seconds) session_id file_id _ early (
      run-IsIndexed start session_id file_id ops _ inside
        (added-IsIndexed start session_id file_id status r done))
