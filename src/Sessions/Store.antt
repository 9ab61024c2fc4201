-- ===== src/Sessions/Store.antt =====
-- app/redis_client.py: create_session, get_session, add_file_to_session,
-- update_file_status_in_session and remove_file_from_all_sessions, on a Redis whose keys expire.
-- HSET and SADD on a key that is missing or has expired make it anew, without a time to live; HDEL
-- of the last field deletes the key. One function is one step.
use legal_ai_copilot.Prelude.{
  ℕ, String, Bool, true, false, Option, none, some, List, [], ◌∷◌, ◌+◌, ◌||◌, ◌==◌, ltb,
  if◌then◌else◌,
}

abbrev pub session_ttl_seconds : ℕ
session_ttl_seconds = 172800

-- the value of a key, and when it expires
pub record Entry (A : Type 0) : Type 0 where
  pub value : A
  pub expires_at : Option ℕ

abbrev pub Keyspace : Type 0 → Type 0
Keyspace A = ℕ → Option (Entry A)

abbrev pub is_live : Option ℕ → ℕ → Bool
is_live none now = true
is_live (some end) now = ltb now end

module _ {A : Type 0} where
  abbrev pub live_entry : ℕ → Option (Entry A) → Option (Entry A)
  live_entry now none = none
  live_entry now (some e) = if is_live e.expires_at now then some e else none

  -- what a command at a given time sees under a key
  abbrev pub read : ℕ → ℕ → Keyspace A → Option (Entry A)
  read now k m = live_entry now (m k)

  abbrev pub write : ℕ → Option (Entry A) → Keyspace A → Keyspace A
  write k e m j = if j == k then e else m j

  -- EXPIRE, which a missing key ignores
  abbrev pub expired_in : ℕ → Option (Entry A) → Option (Entry A)
  expired_in end none = none
  expired_in end (some e) = some (record e { expires_at = some end })

-- `session:{id}`: the field `__org_id__`, and the status of each file
pub record Hash : Type 0 where
  pub org_id : Option ℕ
  pub files : List (ℕ × String)

pub record Store : Type 0 where
  pub sessions : Keyspace Hash
  -- `file_sessions:{file_id}`
  pub file_sessions : Keyspace (List ℕ)

abbrev pub put_field : ℕ → String → List (ℕ × String) → List (ℕ × String)
put_field file_id status [] = (file_id, status) ∷ []
put_field file_id status ((f, s) ∷ rest) =
    let later = put_field file_id status rest in
    if f == file_id then (f, status) ∷ rest else (f, s) ∷ later

unfoldable pub drop_field : ℕ → List (ℕ × String) → List (ℕ × String)
drop_field file_id [] = []
drop_field file_id ((f, s) ∷ rest) =
    let later = drop_field file_id rest in if f == file_id then later else (f, s) ∷ later

unfoldable pub has_file : ℕ → List (ℕ × String) → Bool
has_file file_id [] = false
has_file file_id ((f, s) ∷ rest) = f == file_id || has_file file_id rest

unfoldable pub holds : ℕ → List ℕ → Bool
holds k [] = false
holds k (x ∷ xs) = x == k || holds k xs

abbrev pub hset : ℕ → String → Option (Entry Hash) → Option (Entry Hash)
hset file_id status none =
    some (record {
      value = record { org_id = none; files = (file_id, status) ∷ [] };
      expires_at = none;
    })
hset file_id status (some e) =
    some (record e { value = record e.value { files = put_field file_id status e.value.files } })

abbrev pub is_empty : Hash → Bool
is_empty h = elim h.org_id [
  | some org ↦ false
  | none ↦ elim h.files [ [] ↦ true | f ∷ rest ↦ false ]
]

unfoldable pub hdel : ℕ → Option (Entry Hash) → Option (Entry Hash)
hdel file_id none = none
hdel file_id (some e) =
    let h = record e.value { files = drop_field file_id e.value.files } in
    if is_empty h then none else some (record e { value = h })

abbrev pub sadd : ℕ → Option (Entry (List ℕ)) → Option (Entry (List ℕ))
sadd session_id none = some (record { value = session_id ∷ []; expires_at = none })
sadd session_id (some e) =
    some (record e { value = if holds session_id e.value then e.value else session_id ∷ e.value })

-- SADD and EXPIRE of `file_sessions:{file_id}`
abbrev pub index : ℕ → ℕ → ℕ → Store → Store
index now session_id file_id r = record r {
  file_sessions =
      write file_id
        (expired_in (now + session_ttl_seconds)
          (sadd session_id (read now file_id r.file_sessions)))
        r.file_sessions;
}

unfoldable pub index_all : ℕ → ℕ → List ℕ → Store → Store
index_all now session_id [] r = r
index_all now session_id (f ∷ rest) r = index_all now session_id rest (index now session_id f r)

unfoldable pub ready_files : List ℕ → List (ℕ × String)
ready_files [] = []
ready_files (f ∷ rest) = put_field f "READY" (ready_files rest)

-- `session_id` is the new UUID
unfoldable pub create_session : ℕ → ℕ → List ℕ → ℕ → Store → Store
unfolding index_all ready_files
create_session now session_id file_ids org_id r = index_all now session_id file_ids (record r {
  sessions =
      write session_id
        (some (record {
          value = record { org_id = some org_id; files = ready_files file_ids };
          expires_at = some (now + session_ttl_seconds);
        }))
        r.sessions;
})

unfoldable pub get_session : ℕ → ℕ → Store → Option Hash × Store
get_session now session_id r = elim (read now session_id r.sessions) [
  | none ↦ (none, r)
  | some e ↦ (
    some e.value,
    record r {
      sessions =
          write session_id (some (record e { expires_at = some (now + session_ttl_seconds) }))
            r.sessions;
    },
  )
]

unfoldable pub add_file_to_session : ℕ → ℕ → ℕ → String → Store → Bool × Store
add_file_to_session now session_id file_id status r = elim (read now session_id r.sessions) [
  | none ↦ (false, r)
  | some e ↦
      let kept = expired_in (now + session_ttl_seconds) (hset file_id status (some e)) in
      (
        true,
        index now session_id file_id (record r { sessions = write session_id kept r.sessions }),
      )
]

unfoldable pub update_file_status_in_session : ℕ → ℕ → ℕ → String → Store → Store
update_file_status_in_session now session_id file_id status r = record r {
  sessions = write session_id (hset file_id status (read now session_id r.sessions)) r.sessions;
}

-- HDEL in each session of the index
unfoldable pub delete_from : ℕ → ℕ → List ℕ → Keyspace Hash → Keyspace Hash
unfolding hdel
delete_from now file_id [] m = m
delete_from now file_id (session_id ∷ rest) m =
    delete_from now file_id rest (write session_id (hdel file_id (read now session_id m)) m)

abbrev pub members_of : Option (Entry (List ℕ)) → List ℕ
members_of none = []
members_of (some e) = e.value

unfoldable pub remove_file_from_all_sessions : ℕ → ℕ → Store → Store
unfolding delete_from
remove_file_from_all_sessions now file_id r = record {
  sessions = delete_from now file_id (members_of (read now file_id r.file_sessions)) r.sessions;
  file_sessions = write file_id none r.file_sessions;
}
