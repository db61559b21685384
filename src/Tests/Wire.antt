-- ===== src/Tests/Wire.antt =====
-- The protocol's theorems on small inputs.
use cf_sync.Base.JsMap
use cf_sync.Base.JsMap.{JsMap}
use cf_sync.Base.Text.{Text, text}
use mathlib.Core.List.{Perm}
use cf_sync.Base.{
  List, [], all, arith, false, is_ok, leb, length, list_eq, map_ok, nat_eq, none, ok, pair_eq, refl,
  ℕ, ◌∷◌, ◌≡◌, ◌≤◌, ap, some, true,
}
use cf_sync.Protocol.App.Chain.{Leads, define_app-Leads, migration_path-Leads}
use cf_sync.Protocol.App.{
  AppDefinition, AppInput, SchemaMigration, check_consecutive, check_end, check_targets, define_app,
  insert_by_to, migration_path, sort_by_to, spread,
}
use cf_sync.Protocol.Chunk.Greedy.{IsPacking, chunk_by_size-IsPacking, is_ok-chunk_by_size}
use cf_sync.Protocol.Chunk.Patch.{pack_patch-eq-chunk_by_size, patch_options, to_parts}
use cf_sync.Protocol.Chunk.{ChunkOptions, chunk_by_size, chunk_loop, must_flush, pack_patch}
use cf_sync.Protocol.FieldFrames.RoundTrip.{
  decode_field_frame-encode_field_frame, decode_field_state-encode_field_state,
}
use cf_sync.Protocol.FieldFrames.{
  FieldState, decode_field_frame, decode_field_state, encode_field_frame, encode_field_state,
  field_msg_update,
}
use cf_sync.Protocol.Utf8.CloseReason.{truncate_close_reason, truncate_close_reason-le}
use cf_sync.Protocol.Utf8.Length.{utf8_byte_length-eq-length-utf8_encode}
use cf_sync.Protocol.Utf8.{
  IsUnits, utf8_byte_length, utf8_encode, code_points, encode_piece, encode_point, is_pair,
}
use cf_sync.Tests.Fixture.{add, schema}

-- Three items under a budget of five.
abbrev three_items : ChunkOptions ℕ
three_items = record { max_bytes = 5; max_items = none; size_of = λ n. n }

three_chunked : chunk_by_size three_items (2 ∷ 3 ∷ 4 ∷ []) ≡ ok ((2 ∷ 3 ∷ []) ∷ (4 ∷ []) ∷ [])
unfolding chunk_by_size chunk_loop must_flush
three_chunked = refl

chunk_by_size-IsPacking_example :
    IsPacking three_items (2 ∷ 3 ∷ 4 ∷ []) ((2 ∷ 3 ∷ []) ∷ (4 ∷ []) ∷ [])
chunk_by_size-IsPacking_example =
    chunk_by_size-IsPacking three_items (2 ∷ 3 ∷ 4 ∷ []) {cs = (2 ∷ 3 ∷ []) ∷ (4 ∷ []) ∷ []}
      three_chunked

is_ok-chunk_by_size_example :
    is_ok (chunk_by_size three_items (2 ∷ 6 ∷ []))
    ≡ all (λ item. leb (three_items.size_of item) three_items.max_bytes) (2 ∷ 6 ∷ [])
is_ok-chunk_by_size_example = is_ok-chunk_by_size three_items (2 ∷ 6 ∷ [])

pack_patch-eq-chunk_by_size_example :
    pack_patch 4 (text "ab" ∷ text "c" ∷ [])
    ≡ map_ok
        (to_parts (length (text "ab" ∷ text "c" ∷ [])))
        (chunk_by_size (patch_options 4) (text "ab" ∷ text "c" ∷ []))
pack_patch-eq-chunk_by_size_example = pack_patch-eq-chunk_by_size 4 (text "ab" ∷ text "c" ∷ [])

-- A pair of surrogates, a lone one, and a letter.
abbrev mixed : Text
mixed = 0xd83d ∷ 0xde00 ∷ 0xd800 ∷ 97 ∷ []

mixed-IsUnits : IsUnits mixed
mixed-IsUnits = (omega arith, (omega arith, (omega arith, (omega arith, tt))))

utf8_byte_length-eq-length-utf8_encode_example : utf8_byte_length mixed ≡ length (utf8_encode mixed)
utf8_byte_length-eq-length-utf8_encode_example =
    utf8_byte_length-eq-length-utf8_encode mixed mixed-IsUnits

truncate_close_reason-le_example : length (utf8_encode (truncate_close_reason mixed)) ≤ 123
truncate_close_reason-le_example = truncate_close_reason-le mixed

-- Two migrations, declared out of order.
abbrev migrations : List (SchemaMigration Text)
migrations = record { to = 3; migrate = none } ∷ record { to = 2; migrate = none } ∷ []

abbrev sorted : List (SchemaMigration Text)
sorted = record { to = 2; migrate = none } ∷ record { to = 3; migrate = none } ∷ []

abbrev input : AppInput Text
input = record {
  version = 3;
  schema = schema;
  mutators = (text "add", add) ∷ [];
  migrations = migrations;
  auth_context = none;
  presence = none;
  crud = false;
}

abbrev third : AppDefinition Text
third = record {
  version = 3;
  schema = schema;
  mutators = (text "add", add) ∷ [];
  migrations = sorted;
  auth_context = none;
  presence = none;
}

third_defined : define_app [] input ≡ ok third
unfolding define_app check_targets insert_by_to sort_by_to check_consecutive check_end spread
    JsMap.set
third_defined = refl

define_app-Leads_example :
    (third.version ≡ input.version)
    × Perm third.migrations input.migrations
    × ((from : ℕ) × (1 ≤ from) × Leads from third.version third.migrations)
define_app-Leads_example = define_app-Leads [] input {app = third} third_defined

third-Leads : Leads 1 3 sorted
third-Leads = (refl, (refl, refl))

migration_path-Leads_example :
    (steps : List (SchemaMigration Text)) × (migration_path third 2 ≡ ok steps)
    × Leads 2 third.version steps
migration_path-Leads_example =
    migration_path-Leads third 1 2 third-Leads (omega arith) (omega arith)

note_bytes : utf8_encode (text "q3") ≡ 113 ∷ 51 ∷ []
unfolding utf8_encode code_points is_pair encode_piece encode_point
note_bytes = refl

-- A decoder that reads one byte as one unit.
decode_field_frame-encode_field_frame_example :
    (bytes : List ℕ) × (encode_field_frame field_msg_update (text "q3") (7 ∷ []) ≡ ok bytes)
    × (decode_field_frame (λ b. b) bytes
        ≡ some (record {
          msg_type = field_msg_update;
          field_id = utf8_encode (text "q3");
          payload = 7 ∷ [];
        }))
decode_field_frame-encode_field_frame_example =
    decode_field_frame-encode_field_frame (λ b. b) field_msg_update (text "q3") (7 ∷ [])
      (omega arith) (omega arith) (omega (arith, ap length note_bytes))
      (omega (arith, ap length note_bytes))

abbrev field_state : FieldState
field_state = record { writable = true; state_vector = 1 ∷ 2 ∷ []; diff = 9 ∷ [] }

decode_field_state-encode_field_state_example :
    (bytes : List ℕ) × (encode_field_state field_state ≡ ok bytes)
    × (decode_field_state bytes ≡ some field_state)
decode_field_state-encode_field_state_example =
    decode_field_state-encode_field_state field_state (omega arith)
