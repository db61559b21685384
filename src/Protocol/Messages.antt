-- ===== src/Protocol/Messages.antt =====
-- packages/protocol/src/messages.ts: cursors, mutations, patch ops, the messages of the wire and
-- the close codes. `Json` is the type of JSON values; the texts of error messages are left out.
use cf_sync.Base.JsMap.{JsMap}
use cf_sync.Base.Text.{Text}
use cf_sync.Base.{
  Bool, List, Option, arith, false, leb, list_beq, list_beq_iff, nat_beq, none, some, true, ℕ, ◌&&◌,
  ◌↔◌, ◌≡◌, list_eq, nat_eq, pair_eq,
}

-- The bytes that one row, one presence state and one id may take.
abbrev pub max_row_bytes : ℕ
max_row_bytes = 700_000

abbrev pub max_presence_bytes : ℕ
max_presence_bytes = 8_192

abbrev pub protocol_version : ℕ
protocol_version = 2

abbrev pub close_version_not_supported : ℕ
close_version_not_supported = 4400

abbrev pub close_auth_context_invalid : ℕ
close_auth_context_invalid = 4401

abbrev pub close_unauthorized : ℕ
close_unauthorized = 4403

abbrev pub close_superseded : ℕ
close_superseded = 4409

abbrev pub close_refresh : ℕ
close_refresh = 4300

unfoldable pub is_permanent_close_code : ℕ → Bool
is_permanent_close_code code = leb 4400 code && leb code 4499

pub record Cursor : Type 0 where
  pub backend_id : Text
  pub version : ℕ

unfoldable pub cursor_equals : Option Cursor → Option Cursor → Bool
cursor_equals none none = true
cursor_equals none (some b) = false
cursor_equals (some a) none = false
cursor_equals (some a) (some b) = list_beq a.backend_id b.backend_id && nat_beq a.version b.version

pub record Mutation (Json : Type 0) : Type 0 where
  pub id : ℕ
  pub name : Text
  pub args : Json
  pub seed : Text

pub data PatchOp (Json : Type 0) : Type 0 where
  put : Text → Text → Json → PatchOp Json
  del : Text → Text → PatchOp Json
  clear : PatchOp Json

-- `error` holds the code of a permanent rejection.
pub record MutationResult : Type 0 where
  pub id : ℕ
  pub error : Option Text

pub data ErrorCode : Type 0 where
  version_not_supported cursor_invalid bad_message push_invalid : ErrorCode
  presence_invalid unauthorized internal : ErrorCode

pub record HelloMsg : Type 0 where
  pub protocol_version : ℕ
  pub schema_version : ℕ
  pub cursor : Option Cursor

pub data ClientMsg (Json : Type 0) : Type 0 where
  hello : HelloMsg → ClientMsg Json
  push : List (Mutation Json) → ClientMsg Json
  -- no state is `null` or `undefined`
  presence : Option Json → ClientMsg Json

pub record PokePart (Json : Type 0) : Type 0 where
  pub poke_id : Text
  pub patch : List (PatchOp Json)
  pub remaining : Option ℕ
  pub last_mutation_id_changes : JsMap Text ℕ
  pub mutation_results : List MutationResult

pub record PresencePeer (Json : Type 0) : Type 0 where
  pub client_id : Text
  pub principal : Option Text
  pub state : Json

pub data ServerMsg (Json : Type 0) : Type 0 where
  poke_start : Text → Option Cursor → ServerMsg Json
  poke_part : PokePart Json → ServerMsg Json
  poke_end : Text → Cursor → ServerMsg Json
  presence_update : Text → Option Text → Option Json → ServerMsg Json
  presence_peers : List (PresencePeer Json) → ServerMsg Json
  presence_poll : ServerMsg Json
  error : ErrorCode → ServerMsg Json

pub cursor_equals_iff : (a b : Option Cursor) → (cursor_equals a b ≡ true) ↔ (a ≡ b)
unfolding cursor_equals
cursor_equals_iff none none = ground arith
cursor_equals_iff none (some b) = ground arith
cursor_equals_iff (some a) none = ground arith
cursor_equals_iff (some a) (some b) = ground (arith, list_beq_iff a.backend_id b.backend_id)
