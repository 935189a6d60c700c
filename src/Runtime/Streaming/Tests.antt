-- ===== src/Runtime/Streaming/Tests.antt =====
-- Runs of runtime/streaming.py: two streams interleaved, with chunks out of order and one that comes
-- twice.
use cpip.Common.{ℕ, zero, suc, String, ◌<◌, ◌≡◌, refl, true, none, some, List, [], ◌∷◌, map, arith}
use cpip.Runtime.Streaming.{
  StreamManager, Message, Payload, Assembled, Waited, new_receiver, handle_message, handle_payload,
  create_stream, get_stream, on_chunk, on_end, put_chunk, pad, wait, assemble, assemble_json,
}
use cpip.Runtime.Streaming.Chunks.{delivered}
use cpip.Runtime.Streaming.Streams.{run, own, chunk_messages, get_stream_reassembles}
use cpip.Common.Dict.{get, put, remove}

program : Unit {0}
unfolding handle_message handle_payload create_stream get_stream on_chunk on_end put_chunk pad wait
    assemble assemble_json get put remove
program = tt

abbrev empty : StreamManager ℕ
empty = record { streams = []; finished = [] }

abbrev chunk : String → ℕ → ℕ → Message ℕ
chunk id d i = record { id = id; payload = Payload.stream_chunk d i }

abbrev deliveries : List (ℕ × ℕ)
deliveries = (8, 1) ∷ (7, 0) ∷ (8, 1) ∷ []

abbrev traffic : List (Message ℕ)
traffic = chunk "a" 8 1 ∷ chunk "b" 3 0 ∷ chunk "a" 7 0 ∷ chunk "a" 8 1 ∷ []

own-traffic : own "a" traffic ≡ chunk_messages "a" deliveries
own-traffic = refl

all_delivered : (i : ℕ) → i < 2 → delivered {D = ℕ} i deliveries ≡ true
all_delivered zero h = refl
all_delivered (suc zero) h = refl
all_delivered (suc (suc i)) h = absurd (omega arith)

abbrev ended : StreamManager ℕ
ended =
    handle_message (record { id = "a"; payload = Payload.stream_end })
      (run traffic (create_stream "a" empty))

test_wait :
    map wait ended.finished ≡ Waited.value (Assembled.chunk_list (some 7 ∷ some 8 ∷ [])) ∷ []
unfolding program
test_wait = refl

test_end : get_stream ended "a" ≡ none
unfolding program
test_end = refl

get_stream_reassembles_example :
    get_stream (run traffic (create_stream "a" empty)) "a"
    ≡ some (record (new_receiver {D = ℕ} "a") { chunks = some 7 ∷ some 8 ∷ [] })
get_stream_reassembles_example =
    get_stream_reassembles "a" (7 ∷ 8 ∷ []) deliveries traffic empty own-traffic
      (refl, (refl, (refl, tt))) all_delivered
