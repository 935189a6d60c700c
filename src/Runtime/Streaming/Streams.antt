-- ===== src/Runtime/Streaming/Streams.antt =====
-- runtime/streaming.py: streams that come interleaved do not mix.
use text.Mathlib.TextEquality.{eq_iff}
use cpip.Common.{
  ℕ, String, ◌<◌, ◌≡◌, refl, sym, ◌∙◌, ap, ◌⊎◌, inl, inr, true, false, Option, none, some, List, [],
  ◌∷◌, map, arith, length, ◌==◌, eq_refl, if◌then◌else◌, All, select, Option-cases, Bool-cases,
}
use cpip.Common.Dict
use cpip.Common.Dict.{Dict, get-put, get-remove}
use cpip.Runtime.Streaming.{
  StreamReceiver, StreamManager, Message, Payload, on_chunk, on_start, handle_payload,
  handle_message, create_stream, get_stream, new_receiver,
}
use cpip.Runtime.Streaming.Chunks.{deliver, delivered, From, deliver_lem}

module _ {D : Type 0} where
  abbrev pub run : List (Message D) → StreamManager D → StreamManager D
  run [] m = m
  run (msg ∷ msgs) m = run msgs (handle_message msg m)

  -- The messages of one stream among all.
  abbrev pub own : String → List (Message D) → List (Message D)
  own id = select (λ (msg : Message D). msg.id == id)

  -- What a payload makes of the stream it is for.
  effect : Payload D → StreamReceiver D → Option (StreamReceiver D)
  effect (Payload.stream_start metadata) r = some (on_start metadata r)
  effect (Payload.stream_chunk d index) r = some (on_chunk d index r)
  effect Payload.stream_end r = none
  effect Payload.other r = some r

  effect_of : Payload D → Option (StreamReceiver D) → Option (StreamReceiver D)
  effect_of p none = none
  effect_of p (some r) = effect p r

  handle_payload_lem :
      (i j : String) (p : Payload D) (r : StreamReceiver D) (m : StreamManager D)
      → Dict.get m.streams i ≡ some r
      → Dict.get (handle_payload i p r m).streams j
        ≡ (if i == j then effect p r else Dict.get m.streams j)
  unfolding handle_payload effect
  handle_payload_lem i j (Payload.stream_start metadata) r m h =
      get-put m.streams i j (on_start metadata r)
  handle_payload_lem i j (Payload.stream_chunk d index) r m h =
      get-put m.streams i j (on_chunk d index r)
  handle_payload_lem i j Payload.stream_end r m h = get-remove m.streams i j
  handle_payload_lem i j Payload.other r m h = ground (arith, eq_iff i j)

  handle_message_lem :
      (msg : Message D) (m : StreamManager D) (j : String)
      → get_stream (handle_message msg m) j
        ≡ (if msg.id == j then effect_of msg.payload (get_stream m j) else get_stream m j)
  unfolding handle_message get_stream effect_of
  handle_message_lem msg m j = split (Option-cases (Dict.get m.streams msg.id))
    where
      split :
          (Dict.get m.streams msg.id ≡ none)
            ⊎ ((r : StreamReceiver D) × (Dict.get m.streams msg.id ≡ some r))
          → get_stream (handle_message msg m) j
            ≡ (if msg.id == j then effect_of msg.payload (get_stream m j) else get_stream m j)
      split (inl e) = ground (arith, e, eq_iff msg.id j)
      split (inr (r, e)) =
          ground (arith, e, eq_iff msg.id j, handle_payload_lem msg.id j msg.payload r m e)

  own_mine :
      (id : String) (msg : Message D) (msgs : List (Message D))
      → (msg.id == id) ≡ true
      → own id (msg ∷ msgs) ≡ msg ∷ own id msgs
  own_mine id msg msgs e = ground (arith, e)

  own_other :
      (id : String) (msg : Message D) (msgs : List (Message D))
      → (msg.id == id) ≡ false
      → own id (msg ∷ msgs) ≡ own id msgs
  own_other id msg msgs e = ground (arith, e)

  -- The messages of other streams change nothing for a stream: after all messages it is what its own
  -- messages alone make of it, from any manager that has the same stream.
  pub get_stream-run :
      (id : String) (msgs : List (Message D)) (m m' : StreamManager D)
      → get_stream m id ≡ get_stream m' id
      → get_stream (run msgs m) id ≡ get_stream (run (own id msgs) m') id
  get_stream-run id [] m m' h = h
  get_stream-run id (msg ∷ msgs) m m' h = elim (Bool-cases (msg.id == id)) [
    | inl e ↦
        get_stream-run id msgs (handle_message msg m) (handle_message msg m')
          (ground (arith, e, h, handle_message_lem msg m id, handle_message_lem msg m' id))
        ∙ ap (λ (ms : List (Message D)). get_stream (run ms m') id) (sym (own_mine id msg msgs e))
    | inr e ↦
        get_stream-run id msgs (handle_message msg m) m'
          (ground (arith, e, h, handle_message_lem msg m id))
        ∙ ap (λ (ms : List (Message D)). get_stream (run ms m') id) (sym (own_other id msg msgs e))
  ]

  -- The messages that carry the chunks of one stream.
  abbrev pub chunk_messages : String → List (D × ℕ) → List (Message D)
  chunk_messages id [] = []
  chunk_messages id ((d, i) ∷ ds) =
      record { id = id; payload = Payload.stream_chunk d i } ∷ chunk_messages id ds

  received :
      (id : String) (p : Payload D) (r' : StreamReceiver D) (m : StreamManager D)
      (r : StreamReceiver D)
      → get_stream m id ≡ some r
      → effect p r ≡ some r'
      → get_stream (handle_message (record { id = id; payload = p }) m) id ≡ some r'
  unfolding effect_of
  received id p r' m r h e =
      ground (arith, h, e, eq_refl id, handle_message_lem (record { id = id; payload = p }) m id)

  run_chunks :
      (id : String) (ds : List (D × ℕ)) (r : StreamReceiver D) (m : StreamManager D)
      → get_stream m id ≡ some r
      → get_stream (run (chunk_messages id ds) m) id
        ≡ some (record r { chunks = deliver ds r.chunks })
  unfolding deliver on_chunk effect
  run_chunks id [] r m h = h
  run_chunks id ((d, i) ∷ ds) r m h =
      run_chunks id ds (on_chunk d i r)
        (handle_message (record { id = id; payload = Payload.stream_chunk d i }) m)
        (received id (Payload.stream_chunk d i) (on_chunk d i r) m r h refl)

  created :
      (id : String) (m : StreamManager D)
      → get_stream (create_stream id m) id ≡ some (new_receiver id)
  unfolding create_stream get_stream
  created id m = ground (arith, eq_refl id, get-put m.streams id id (new_receiver id))

  -- A stream that is created and then sent a list of values, each as a chunk with its index, holds
  -- exactly these values: in whatever order its chunks come, whichever come twice, and whatever
  -- messages of other streams come in between.
  pub get_stream_reassembles :
      (id : String) (values : List D) (ds : List (D × ℕ)) (msgs : List (Message D))
      (m : StreamManager D)
      → own id msgs ≡ chunk_messages id ds
      → All (From values) ds
      → ((i : ℕ) → i < length values → delivered i ds ≡ true)
      → get_stream (run msgs (create_stream id m)) id
        ≡ some (record (new_receiver {D = D} id) { chunks = map some values })
  get_stream_reassembles id values ds msgs m e a full =
      get_stream-run id msgs (create_stream id m) (create_stream id m) refl
      ∙ ap (λ (ms : List (Message D)). get_stream (run ms (create_stream id m)) id) e
      ∙ run_chunks id ds (new_receiver id) (create_stream id m) (created id m)
      ∙ ap (λ (cs : List (Option D)). some (record (new_receiver {D = D} id) { chunks = cs }))
          (deliver_lem values ds a full)
