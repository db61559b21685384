-- ===== src/Yjs.antt =====
-- packages/yjs/src: Yjs fields on the workspace's socket. Yjs itself is a third-party library.
pub mod Server
pub mod Hooks
pub mod Client
pub mod Sync
use cf_sync.Base.Text.{Text}
use cf_sync.Base.{Bool, List, Option, ℕ}

abbrev pub Bytes : Type 0
Bytes = List ℕ

-- What the code calls of Yjs and of the platform's base64. A document stands for its state, and a
-- call that may throw says so: `apply_update` returns the document it leaves and whether it threw.
pub record Yjs (Doc : Type 0) : Type 0 where
  pub new_doc : Doc
  pub apply_update : Doc → Bytes → Doc × Bool
  pub encode_state_as_update : Doc → Bytes
  pub encode_diff : Doc → Bytes → Option Bytes
  pub encode_state_vector : Doc → Bytes
  pub decodes : Bytes → Bool
  pub btoa : Bytes → Text
  pub atob : Text → Option Bytes
