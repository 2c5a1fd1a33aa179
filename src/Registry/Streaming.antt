-- ===== src/Registry/Streaming.antt =====
-- controller/src/core/runtime.rs: the identifiers and the owners of query streams, and which of them are
-- reaped.
use vldb_controller.Base.{
  ℕ, ◌<◌, ◌≤◌, String, Option, none, some, Bool, true, false, ◌≡◌, refl, arith, is_some, ◌||◌, ltb,
  ◌==◌, Option-cases, Bool-cases, if◌then◌else◌, inl, inr, max, ap, ◌+◌, ◌⊎◌, ◌↔◌, subst,
}
use vldb_controller.Base.Order.{eqb→eq, eqb_refl, nat_ord, str_ord}
use vldb_controller.Base.Word.{saturating_add, saturating_sub, u64_max}
use vldb_controller.BTreeMap
use vldb_controller.BTreeMap.Entries.{keep_if}
use vldb_controller.Runtime.Fault.{ok}
use vldb_controller.Runtime.State.{SqliteQueryStreamEntry, ControllerState}
use vldb_controller.Runtime.Keys.{normalize_client_id}
use vldb_controller.Runtime.Streams.{
  insert_query_stream, stream_for, ensure_stream_owner, sqlite_query_stream_handle,
  close_sqlite_query_stream, remove_query_stream, reap_stale_query_streams, is_fresh,
}

abbrev pub stream_at : ℕ → ControllerState → Option SqliteQueryStreamEntry
stream_at id state = BTreeMap.get id state.sqlite_query_streams

-- Every identifier in use is below the next one, until the counter stops at its last value.
pub record IsNumbered (state : ControllerState) : Type 0 where
  pub bounded : state.next_query_stream_id ≤ u64_max
  pub below :
      (id : ℕ)
      → is_some (stream_at id state) ≡ true
      → (ltb id state.next_query_stream_id || state.next_query_stream_id == u64_max) ≡ true

module _ (now handle : ℕ) (space_id : String) (client_id : Option String) (state : ControllerState)
    (h : IsNumbered state) where
  below :
      (id : ℕ)
      → is_some (stream_at id (insert_query_stream now handle space_id client_id state)) ≡ true
      → (ltb id (max (saturating_add state.next_query_stream_id 1) 1)
          || max (saturating_add state.next_query_stream_id 1) 1 == u64_max)
        ≡ true
  unfolding insert_query_stream saturating_add
  below id e = ground (
    arith,
    h.bounded,
    h.below id,
    BTreeMap.get-insert id state.next_query_stream_id
        (record {
          handle = handle;
          owner_client_id = normalize_client_id client_id;
          owner_space_id = space_id;
          last_accessed_at_unix_ms = now;
        })
        state.sqlite_query_streams,
  )

  -- A new query stream keeps every identifier below the counter. While the counter has not reached the
  -- last 64-bit value, no stream had the identifier before, and the streams with other identifiers are
  -- as they were.
  pub insert-IsNumbered :
      IsNumbered (insert_query_stream now handle space_id client_id state)
      × (state.next_query_stream_id < u64_max
          → (stream_at state.next_query_stream_id state ≡ none)
            × ((id : ℕ)
                → (id == state.next_query_stream_id) ≡ false
                → stream_at id (insert_query_stream now handle space_id client_id state)
                  ≡ stream_at id state))
  unfolding insert_query_stream saturating_add
  insert-IsNumbered = (
    record { bounded = omega (arith, h.bounded); below = λ id e. below id e },
    λ small. (
      ground (arith, h.below state.next_query_stream_id),
      λ id e. rw (BTreeMap.get-insert id, e) refl,
    ),
  )

-- A caller that is given a handle for a stream that has an owner has the owner's name, when trimmed, and
-- the handle is that stream's.
pub handle-owner :
    (now id : ℕ) (client_id : Option String) (state : ControllerState) (handle : ℕ) (c : String)
    (entry : SqliteQueryStreamEntry)
    → stream_at id state ≡ some entry
    → entry.owner_client_id ≡ some c
    → (sqlite_query_stream_handle now id client_id state).0 ≡ ok handle
    → (normalize_client_id client_id ≡ some c) × (entry.handle ≡ handle)
unfolding sqlite_query_stream_handle stream_for ensure_stream_owner
handle-owner now id client_id state handle c entry s o e =
    elim (Option-cases (normalize_client_id client_id)) [
      | inl n ↦ absurd (ground arith)
      | inr (x, n) ↦ ground (arith, eqb→eq x c)
    ]

-- The stream is not complete, or it was used or completed less than five minutes before `now`, in milliseconds.
abbrev pub IsRecent : (ℕ → Bool) → (ℕ → Option ℕ) → ℕ → SqliteQueryStreamEntry → Type 0
IsRecent is_complete completed_at now entry =
    (is_complete entry.handle ≡ false)
    ⊎ ((now < entry.last_accessed_at_unix_ms + 300_000)
        ⊎ ((t : ℕ) × (completed_at entry.handle ≡ some t) × (now < t + 300_000)))

module _ (is_complete : ℕ → Bool) (completed_at : ℕ → Option ℕ) (now : ℕ)
    (entry : SqliteQueryStreamEntry) where
  fresh→recent :
      is_fresh is_complete completed_at now entry ≡ true
      → IsRecent is_complete completed_at now entry
  unfolding is_fresh saturating_sub
  fresh→recent f = go (is_complete entry.handle) refl (completed_at entry.handle) refl
    where
      go :
          (b : Bool)
          → is_complete entry.handle ≡ b
          → (o : Option ℕ) → completed_at entry.handle ≡ o
          → IsRecent is_complete completed_at now entry
      go false e o c = inl e
      go true e none c = inr (inl (ground arith))
      go true e (some t) c =
          elim (Bool-cases (ltb now (entry.last_accessed_at_unix_ms + 300_000))) [
            | inl l ↦ inr (inl (ground arith))
            | inr l ↦ inr (inr (t, c, ground arith))
          ]

  recent→fresh :
      IsRecent is_complete completed_at now entry
      → is_fresh is_complete completed_at now entry ≡ true
  unfolding is_fresh saturating_sub
  recent→fresh (inl e) = rw e refl
  recent→fresh (inr (inl l)) = elim (Option-cases (completed_at entry.handle)) [
    | inl c ↦ ground arith
    | inr (t, c) ↦ ground arith
  ]
  recent→fresh (inr (inr (t, c, l))) = ground arith

abbrev unwrap : SqliteQueryStreamEntry → Option SqliteQueryStreamEntry → SqliteQueryStreamEntry
unwrap d none = d
unwrap d (some entry) = entry

-- Reaping keeps a stream, as it was, exactly when it is not complete or was used or completed less than five
-- minutes before, and brings no other stream in.
pub reap-exact :
    (is_complete : ℕ → Bool) (completed_at : ℕ → Option ℕ) (now id : ℕ) (state : ControllerState)
    (entry : SqliteQueryStreamEntry)
    → (stream_at id (reap_stale_query_streams is_complete completed_at now state).1 ≡ some entry)
      ↔ ((stream_at id state ≡ some entry) × IsRecent is_complete completed_at now entry)
unfolding reap_stale_query_streams
reap-exact is_complete completed_at now id state entry =
    rw
      (BTreeMap.get-retain id (λ i. is_fresh is_complete completed_at now)
        state.sqlite_query_streams)
      (go (stream_at id state))
  where
    go :
        (o : Option SqliteQueryStreamEntry)
        → (keep_if {K = ℕ} (λ i. is_fresh is_complete completed_at now) id o ≡ some entry)
          ↔ ((o ≡ some entry) × IsRecent is_complete completed_at now entry)
    go none = ((λ e. absurd cc), λ h. absurd cc)
    go (some old) = elim (Bool-cases (is_fresh is_complete completed_at now old)) [
      | inl f ↦ rw f (
        λ e. (
          e,
          subst (IsRecent is_complete completed_at now) (ap (unwrap old) e)
              (fresh→recent is_complete completed_at now old f),
        ),
        λ h. h.0,
      )
      | inr f ↦ rw f (
        λ e. absurd cc,
        λ h.
            let r = recent→fresh is_complete completed_at now entry h.1 in
            let o = ap (unwrap old) h.0 in absurd cc,
      )
    ]

stream_held :
    (id : ℕ) (client_id : Option String) (state : ControllerState) (handle : ℕ)
    → stream_for id client_id state ≡ ok handle
    → is_some (stream_at id state) ≡ true
unfolding stream_for
stream_held id client_id state handle e = elim (Option-cases (stream_at id state)) [
  | inl n ↦ absurd (ground arith)
  | inr (entry, n) ↦ rw n refl
]

abbrev accessed : ℕ → ℕ → ControllerState → ControllerState
accessed now id state = record state {
  sqlite_query_streams =
      BTreeMap.modify id (λ entry. record entry { last_accessed_at_unix_ms = now })
        state.sqlite_query_streams;
}

handle-granted :
    (now id : ℕ) (client_id : Option String) (state : ControllerState) (handle : ℕ)
    → stream_for id client_id state ≡ ok handle
    → sqlite_query_stream_handle now id client_id state ≡ (ok handle, accessed now id state)
unfolding sqlite_query_stream_handle
handle-granted now id client_id state handle e = rw (e, sqlite_query_stream_handle) refl

accessed-held :
    (now id : ℕ) (state : ControllerState)
    → is_some (stream_at id state) ≡ true
    → is_some (stream_at id (accessed now id state)) ≡ true
accessed-held now id state h = ground (
  arith,
  BTreeMap.get-modify id id (λ entry. record entry { last_accessed_at_unix_ms = now })
      state.sqlite_query_streams,
  eqb_refl id,
)

closed_at :
    (now id j : ℕ) (state : ControllerState)
    → BTreeMap.get j (BTreeMap.remove id (accessed now id state).sqlite_query_streams)
      ≡ (if j == id then none else stream_at j state)
closed_at now id j state = ground (
  arith,
  BTreeMap.get-remove j id (accessed now id state).sqlite_query_streams,
  BTreeMap.get-modify j id (λ entry. record entry { last_accessed_at_unix_ms = now })
      state.sqlite_query_streams,
)

-- When no other request comes between, a caller that may use a stream closes it: the stream is gone, the
-- streams with other identifiers are as they were, and the answer is `true`.
pub close-exact :
    (now id : ℕ) (client_id : Option String) (state : ControllerState) (handle : ℕ)
    → stream_for id client_id state ≡ ok handle
    → ((close_sqlite_query_stream (λ s. s) now id client_id state).0 ≡ ok true)
      × ((j : ℕ)
          → stream_at j (close_sqlite_query_stream (λ s. s) now id client_id state).1
            ≡ (if j == id then none else stream_at j state))
unfolding close_sqlite_query_stream remove_query_stream
close-exact now id client_id state handle e =
    rw
      (
        handle-granted now id client_id state handle e,
        close_sqlite_query_stream,
        handle-granted now id client_id state handle e,
      )
      (
        ap ok (accessed-held now id state (stream_held id client_id state handle e)),
        λ j. closed_at now id j state,
      )
