-- ===== src/Sessions/Removal.antt =====
-- Whether `remove_file_from_all_sessions` finds the sessions of a file: the reverse index must still
-- be there.
use legal_ai_copilot.Prelude.{
  ℕ, String, Bool, true, false, Option, none, some, List, [], ◌∷◌, ◌&&◌, ◌==◌, leb, ◌<◌,
  if◌then◌else◌, ◌≡◌, inl, inr, arith, refl, Bool-cases,
}
use legal_ai_copilot.Sessions.Store.{
  Entry, Keyspace, live_entry, read, write, Hash, Store, drop_field, has_file, holds, hdel,
  delete_from, members_of, remove_file_from_all_sessions,
}

-- the file is in the session, as `get_session` shows it at this time
abbrev pub shown : ℕ → Option (Entry Hash) → Bool
shown file_id none = false
shown file_id (some e) = has_file file_id e.value.files

abbrev pub shows : ℕ → ℕ → ℕ → Keyspace Hash → Bool
shows now session_id file_id m = shown file_id (read now session_id m)

drop_field-has_file :
    (file_id : ℕ) (files : List (ℕ × String)) → has_file file_id (drop_field file_id files) ≡ false
unfolding has_file drop_field
drop_field-has_file file_id [] = refl
drop_field-has_file file_id ((f, s) ∷ rest) = ground (arith, drop_field-has_file file_id rest)

hdel-shown :
    (now file_id : ℕ) (e : Option (Entry Hash))
    → shown file_id (live_entry now (hdel file_id e)) ≡ false
unfolding hdel
hdel-shown now file_id none = refl
hdel-shown now file_id (some e) = ground (arith, drop_field-has_file file_id e.value.files)

module _ (now session_id file_id : ℕ) where
  -- one HDEL
  hdel-shows :
      (k : ℕ) (m : Keyspace Hash)
      → shows now session_id file_id (write k (hdel file_id (read now k m)) m)
        ≡ (if session_id == k then false else shows now session_id file_id m)
  hdel-shows k m = elim (Bool-cases (session_id == k)) [
    | inl own ↦ rw own (hdel-shown now file_id (read now k m))
    | inr other ↦ rw other refl
  ]

  delete_from-keeps :
      (ids : List ℕ) (m : Keyspace Hash)
      → shows now session_id file_id m ≡ false
      → shows now session_id file_id (delete_from now file_id ids m) ≡ false
  unfolding delete_from
  delete_from-keeps [] m gone = gone
  delete_from-keeps (k ∷ ids) m gone =
      delete_from-keeps ids (write k (hdel file_id (read now k m)) m)
        (ground (arith, hdel-shows k m))

  delete_from-shows :
      (ids : List ℕ) (m : Keyspace Hash)
      → holds session_id ids ≡ true
      → shows now session_id file_id (delete_from now file_id ids m) ≡ false
  unfolding delete_from holds
  delete_from-shows [] m held = absurd (cc)
  delete_from-shows (k ∷ ids) m held =
      let next = write k (hdel file_id (read now k m)) m in
      elim (Bool-cases (k == session_id)) [
        | inl own ↦ delete_from-keeps ids next (ground (arith, hdel-shows k m))
        | inr other ↦ delete_from-shows ids next (ground arith)
      ]

-- The index of the file has the session, and lasts to a given time.
abbrev lasts : ℕ → Option ℕ → Bool
lasts end none = true
lasts end (some e) = leb end e

abbrev pub indexed : ℕ → ℕ → Option (Entry (List ℕ)) → Bool
indexed end session_id none = false
indexed end session_id (some e) = holds session_id e.value && lasts end e.expires_at

abbrev pub IsIndexed : ℕ → ℕ → ℕ → Store → Type 0
IsIndexed end session_id file_id r = indexed end session_id (r.file_sessions file_id) ≡ true

indexed-live :
    (now end session_id : ℕ) (e : Option (Entry (List ℕ)))
    → now < end
    → indexed end session_id e ≡ true
    → holds session_id (members_of (live_entry now e)) ≡ true
indexed-live now end session_id none early h = absurd (cc)
indexed-live now end session_id (some e) early h = ground arith

-- A removal before the index has expired takes the file out of the session.
pub remove-shows :
    (now end session_id file_id : ℕ) (r : Store)
    → now < end
    → IsIndexed end session_id file_id r
    → shows now session_id file_id (remove_file_from_all_sessions now file_id r).sessions ≡ false
unfolding remove_file_from_all_sessions
remove-shows now end session_id file_id r early known =
    delete_from-shows now session_id file_id (members_of (read now file_id r.file_sessions))
      r.sessions (indexed-live now end session_id (r.file_sessions file_id) early known)
