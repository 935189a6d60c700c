-- ===== src/Runtime/Streaming.antt =====
-- runtime/streaming.py: reassembly of streamed results. Chunks are values of any type; their indices
-- are natural numbers. A receiver belongs to the caller that waits for it and to the manager, until
-- its stream ends: then only the caller has it, which is the list `finished`.
pub mod Chunks
pub mod Streams
mod Tests
use mathlib.Core.Option.{get_or}
use cpip.Common.{
  ℕ, zero, suc, String, Bool, true, false, Option, none, some, List, [], ◌∷◌, ◌++◌, leb, length,
  set, ◌==◌, if◌then◌else◌,
}
use cpip.Common.Dict
use cpip.Common.Dict.{Dict}

-- `content_type` of the metadata of a stream.
abbrev pub Metadata : Type 0
Metadata = Option String

-- `StreamReceiver`; `event` is set when the stream is over, and `error` holds what went wrong.
pub record StreamReceiver {ℓ} (D : Type ℓ) : Type ℓ where
  pub call_id : String
  pub chunks : List (Option D)
  pub metadata : Metadata
  pub complete : Bool
  pub event : Bool
  pub error : Option String

pub record StreamManager {ℓ} (D : Type ℓ) : Type ℓ where
  pub streams : Dict (StreamReceiver D)
  pub finished : List (StreamReceiver D)

-- The messages that `handle_message` tells apart. `index` is `metadata.get("index", 0)`.
pub data Payload {ℓ} (D : Type ℓ) : Type ℓ where
  stream_start : Metadata → Payload D
  stream_chunk : D → ℕ → Payload D
  stream_end : Payload D
  other : Payload D

pub record Message {ℓ} (D : Type ℓ) : Type ℓ where
  pub id : String
  pub payload : Payload D

-- What `_assemble` makes of the chunks: joined bytes or text, the only chunk, or their list.
pub data Assembled {ℓ} (D : Type ℓ) : Type ℓ where
  joined_bytes joined_text : List (Option D) → Assembled D
  single : Option D → Assembled D
  chunk_list : List (Option D) → Assembled D

pub data Waited {ℓ} (D : Type ℓ) : Type ℓ where
  timed_out : Waited D
  failed : String → Waited D
  value : Assembled D → Waited D

module _ {ℓ} {D : Type ℓ} where
  abbrev pub new_receiver : String → StreamReceiver D
  new_receiver call_id = record {
    call_id = call_id;
    chunks = [];
    metadata = none;
    complete = false;
    event = false;
    error = none;
  }

  unfoldable pub on_start : Metadata → StreamReceiver D → StreamReceiver D
  on_start metadata r = record r { metadata = metadata }

  -- `while len(self.chunks) <= index: self.chunks.append(None)`, on fuel.
  unfoldable pub pad : ℕ → ℕ → List (Option D) → List (Option D)
  pad zero index chunks = chunks
  pad (suc fuel) index chunks =
      let more = pad fuel index (chunks ++ none ∷ []) in
      elim (leb (length chunks) index) [ true ↦ more | false ↦ chunks ]

  -- A round of the padding adds an element, so `index + 1` rounds are enough.
  unfoldable pub put_chunk : D → ℕ → List (Option D) → List (Option D)
  put_chunk d index chunks = set (pad (suc index) index chunks) index (some d)

  unfoldable pub on_chunk : D → ℕ → StreamReceiver D → StreamReceiver D
  on_chunk d index r = record r { chunks = put_chunk d index r.chunks }

  unfoldable pub on_end : StreamReceiver D → StreamReceiver D
  on_end r = record r { complete = true; event = true }

  unfoldable pub on_error : String → StreamReceiver D → StreamReceiver D
  on_error e r = record r { error = some e; event = true }

  unfoldable pub assemble_json : List (Option D) → Assembled D
  assemble_json (c ∷ []) = single c
  assemble_json chunks = chunk_list chunks

  unfoldable pub assemble : StreamReceiver D → Assembled D
  assemble r =
      let content_type = get_or r.metadata "json" in
      if content_type == "bytes"
      then joined_bytes r.chunks
      else if content_type == "text"
      then joined_text r.chunks
      else assemble_json r.chunks

  -- `wait`, of a receiver as it is when the wait is over.
  unfoldable pub wait : StreamReceiver D → Waited D
  wait r =
      if r.event
      then (elim r.error [ some e ↦ failed e | none ↦ value (assemble r) ])
      else timed_out

  unfoldable pub create_stream : String → StreamManager D → StreamManager D
  create_stream call_id m = record m { streams = Dict.put m.streams call_id (new_receiver call_id) }

  unfoldable pub handle_payload :
      String → Payload D → StreamReceiver D → StreamManager D → StreamManager D
  unfolding on_start on_end
  handle_payload id (stream_start metadata) r m = record m {
    streams = Dict.put m.streams id (on_start metadata r);
  }
  handle_payload id (stream_chunk d index) r m = record m {
    streams = Dict.put m.streams id (on_chunk d index r);
  }
  handle_payload id stream_end r m = record {
    streams = Dict.remove m.streams id;
    finished = m.finished ++ on_end r ∷ [];
  }
  handle_payload id other r m = m

  unfoldable pub handle_message : Message D → StreamManager D → StreamManager D
  handle_message msg m = elim (Dict.get m.streams msg.id) [
    | none ↦ m
    | some r ↦ handle_payload msg.id msg.payload r m
  ]

  unfoldable pub get_stream : StreamManager D → String → Option (StreamReceiver D)
  get_stream m call_id = Dict.get m.streams call_id
