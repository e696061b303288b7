-- ===== src/Desktop/Wss/Isolation.antt =====
-- What a slow or too long upload does to the other requests of the desktop's MCP websocket.
use chat_x.Prelude.{
  ℕ, ◌≡◌, ◌≢◌, ◌⊎◌, refl, true, false, Option, none, some, List, [], ◌∷◌, Str, get, remove, str_eq,
  str_beq, str_beq_iff, ltb, length, arith, Bool-cases, inl, inr, saturating_add, get-remove,
  get-insert,
}
use chat_x.Protocol.Stream.{max_request_bytes}
use chat_x.Desktop.Wss.{
  Outgoing, error, Upload, Wss, Feed, taken, full, gone, abort, give_up, offer, feed_upload,
  enqueue_upload,
}

-- What a frame of the upload `id` may do: no task is told to end but the request's own, and no channel takes
-- bytes but the upload's own, which takes this frame's.
abbrev pub Spares : Str → Str → Wss → Wss × List Outgoing → Str → Type 0
Spares id bytes s after other =
    (get other after.0.uploads ≡ get other s.uploads)
    × (get other after.0.jobs ≡ get other s.jobs)
    × (after.0.running ≡ s.running)
    × ((after.0.aborted ≡ s.aborted)
        ⊎ ((task : ℕ) × (get id s.jobs ≡ some task) × (after.0.aborted ≡ task ∷ s.aborted)))
    × ((after.0.fed ≡ s.fed)
        ⊎ ((upload : Upload) × (get id s.uploads ≡ some upload)
            × (after.0.fed ≡ (upload.tx, bytes) ∷ s.fed)))
    × ((after.1 ≡ [])
        ⊎ ((after.1 ≡ error id ∷ [])
            × (get id after.0.uploads ≡ none)
            × (get id after.0.jobs ≡ none)))

abort-same :
    (task : Option ℕ) (s : Wss)
    → ((abort task s).uploads ≡ s.uploads)
      × ((abort task s).jobs ≡ s.jobs)
      × ((abort task s).running ≡ s.running)
      × ((abort task s).fed ≡ s.fed)
unfolding abort
abort-same none s = (refl, refl, refl, refl)
abort-same (some task) s = (refl, refl, refl, refl)

abort-own :
    (task : Option ℕ) (s : Wss)
    → ((abort task s).aborted ≡ s.aborted)
      ⊎ ((own : ℕ) × (task ≡ some own) × ((abort task s).aborted ≡ own ∷ s.aborted))
unfolding abort
abort-own none s = inl refl
abort-own (some task) s = inr (task, refl, refl)

module _ (id other : Str) (differ : other ≢ id) where
  differ_beq : str_beq id other ≡ false
  differ_beq = ground (arith, str_beq_iff id other, differ)

  same_beq : str_beq id id ≡ true
  same_beq = (str_beq_iff id id).1 refl

  give_up-Spares : (bytes : Str) (s : Wss) → Spares id bytes s (give_up id s) other
  unfolding give_up
  give_up-Spares bytes s =
      let t : Wss = record s { uploads = remove id s.uploads; jobs = remove id s.jobs } in
      let same = abort-same (get id s.jobs) t in
      let own = abort-own (get id s.jobs) t in
      rw (same.0, same.1, same.2, same.3)
        (
          rw (get-remove id other s.uploads, differ_beq) refl,
          rw (get-remove id other s.jobs, differ_beq) refl,
          refl,
          own,
          inl refl,
          inr (
            refl,
            rw (get-remove id id s.uploads, same_beq) refl,
            rw (get-remove id id s.jobs, same_beq) refl,
          ),
        )

  offer-Spares :
      (feed : Feed) (bytes : Str) (before : Upload) (total : ℕ) (s : Wss)
      → get id s.uploads ≡ some before
      → Spares id bytes s (offer feed id bytes (record before { bytes = total }) s) other
  unfolding offer
  offer-Spares taken bytes before total s there = (
    rw (get-insert id other (record before { bytes = total }) s.uploads, differ_beq) refl,
    refl,
    refl,
    inl refl,
    inr (before, there, refl),
    inl refl,
  )
  offer-Spares gone bytes before total s there = (
    rw (get-remove id other s.uploads, differ_beq) refl,
    refl,
    refl,
    inl refl,
    inl refl,
    inl refl,
  )
  offer-Spares full bytes before total s there = give_up-Spares bytes s

  feed_upload-Spares :
      (feed : Feed) (bytes : Str) (upload : Option Upload) (s : Wss)
      → get id s.uploads ≡ upload
      → Spares id bytes s (feed_upload feed id bytes upload s) other
  unfolding feed_upload
  feed_upload-Spares feed bytes none s there = (refl, refl, refl, inl refl, inl refl, inl refl)
  feed_upload-Spares feed bytes (some upload) s there =
      let total = saturating_add upload.bytes (length bytes) in
      elim (Bool-cases (ltb max_request_bytes total)) [
        | inl over ↦ rw over (give_up-Spares bytes s)
        | inr fits ↦ rw fits (offer-Spares feed bytes upload total s there)
      ]

  -- A frame of one upload, whatever its channel answers, leaves the upload and the task of every other
  -- request as they were; it tells no task to end but that of its own request, no channel takes bytes but its
  -- own upload's, which takes just the frame's, and no permit changes hands; where it sends an error, it is
  -- that request's, which has no upload and no task from then on.
  pub enqueue_upload-Spares :
      (feed : Feed) (bytes : Str) (s : Wss)
      → Spares id bytes s (enqueue_upload feed id bytes s) other
  unfolding enqueue_upload
  enqueue_upload-Spares feed bytes s = feed_upload-Spares feed bytes (get id s.uploads) s refl
