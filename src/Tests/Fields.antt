-- ===== src/Tests/Fields.antt =====
-- The theorems on Yjs fields, where a document is a number and merging takes the larger one.
use cf_sync.Base.JsMap
use cf_sync.Base.JsMap.{JsMap}
use cf_sync.Base.Text.{Text, text}
use cf_sync.Base.{
  Bool, Bool-cases, Option, [], arith, false, if◌then◌else◌, inl, inr, leb, length, list_eq, ltb,
  nat_eq, none, pair_eq, refl, some, true, ℕ, ◌==◌, ◌∷◌, ◌≡◌, ◌≤◌, ap, ok,
}
use cf_sync.Protocol.FieldFrames.{too_large}
use cf_sync.Protocol.Utf8.{code_points, encode_piece, encode_point, is_pair, utf8_encode}
use cf_sync.Yjs.Client.{Entry, YjsFields, local_too_large}
use cf_sync.Yjs.Hooks.History.{empty-FieldIsCoherent, alarm, fresh, new_extension, then_hook}
use cf_sync.Yjs.Hooks.Reached.{HookHistory-IsCoherent}
use cf_sync.Yjs.Hooks.Refusal.{receive_all, receive_all-refuses}
use cf_sync.Yjs.Hooks.{on_alarm}
use cf_sync.Yjs.Server.Coherent.{IsCoherent, FieldIsCoherent-eq}
use cf_sync.Yjs.Server.Compact.{Restores, Compacted, compact_field-Compacted}
use cf_sync.Yjs.Server.{
  Extension, MessageContext, YjsFieldsOptions, field_doc, replay, cache_doc, compact_field,
  handle_update, materialize, reject,
}
use cf_sync.Yjs.Sync.Answer.{Holds, Serves}
use cf_sync.Yjs.Sync.Converges.{sync_round-converges}
use cf_sync.Yjs.Sync.{IsCrdt, IsCarried, sync_round}
use cf_sync.Yjs.{Bytes, Yjs}

abbrev larger : ℕ → ℕ → ℕ
larger a b = if ltb a b then b else a

abbrev apply_number : ℕ → Bytes → ℕ × Bool
apply_number d [] = (d, false)
apply_number d (n ∷ rest) = (larger d n, false)

abbrev diff_number : ℕ → Bytes → Option Bytes
diff_number b [] = none
diff_number b (a ∷ rest) = some (if leb b a then [] else b ∷ 0 ∷ 0 ∷ [])

abbrev numbers : Yjs ℕ
numbers = record {
  new_doc = 0;
  apply_update = apply_number;
  encode_state_as_update = λ n. n ∷ 0 ∷ 0 ∷ [];
  encode_diff = diff_number;
  encode_state_vector = λ n. n ∷ [];
  decodes = λ b. true;
  btoa = λ b. b;
  atob = λ t. some t;
}

numbers-Restores : Restores numbers
numbers-Restores doc = ground arith

numbers_diff :
    (a b : ℕ)
    → (update : Bytes) × (diff_number b (a ∷ []) ≡ some update)
      × (true ≡ true)
      × (apply_number a update ≡ (larger a b, false))
      × (length update ≤ 2 → larger a b ≡ a)
numbers_diff a b =
    (if leb b a then [] else b ∷ 0 ∷ 0 ∷ [], refl, refl, ground arith, λ h. ground arith)

numbers-IsCrdt : IsCrdt numbers
numbers-IsCrdt = record {
  merge = larger;
  merge_absorbs = λ a b. ground arith;
  restores = numbers-Restores;
  diff = numbers_diff;
  has_vector = λ a. omega arith;
}

abbrev field_options : YjsFieldsOptions Text
field_options = record {
  authorize_write = λ field_id ctx. true;
  max_cached_docs = 8;
  compaction_threshold = 0;
  decoder = λ b. b;
}

abbrev member : MessageContext Text
member = record { ready = true; client_id = text "alice"; principal = none; auth = none }

abbrev note : Text
note = text "q3"

note_utf8 : utf8_encode note ≡ note
unfolding utf8_encode code_points is_pair encode_piece encode_point
note_utf8 = refl

-- The note holds the number 5.
abbrev note_log : Extension ℕ
note_log = record {
  fields =
      (note, record { snapshot = none; snapshot_seq = 0; byte_total = 1; frozen = false }) ∷ [];
  updates = (note, record { seq = 1; bytes = 5 ∷ [] } ∷ []) ∷ [];
  cache = (note, 5) ∷ [];
  refused = [];
  outgoing = [];
}

note_log-IsCoherent : IsCoherent numbers field_options note_log
unfolding JsMap.get field_doc replay
note_log-IsCoherent = (
  (refl, tt),
  λ f. elim (Bool-cases (note == f)) [
    | inl same ↦
        FieldIsCoherent-eq numbers field_options
          {row = some
            (record { snapshot = none; snapshot_seq = 0; byte_total = 1; frozen = false })}
          {rows = record { seq = 1; bytes = 5 ∷ [] } ∷ []} {cached = some 5} (ground arith)
          (ground arith) (ground arith)
          (record {
            ascending = (omega arith, tt);
            present = λ h. absurd (cc);
            accounted = refl;
            current = λ doc h. ground arith;
          })
    | inr differs ↦
        FieldIsCoherent-eq numbers field_options {row = none} {rows = []} {cached = none}
          (ground arith) (ground arith) (ground arith) (empty-FieldIsCoherent numbers field_options)
  ],
)

abbrev compacted_log : Extension ℕ
compacted_log = record note_log {
  fields =
      (
        note,
        record {
          snapshot = some (5 ∷ 0 ∷ 0 ∷ []);
          snapshot_seq = 1;
          byte_total = 3;
          frozen = false;
        },
      )
      ∷ [];
  updates = (note, []) ∷ [];
}

note_compacts : compact_field numbers field_options note note_log ≡ ok compacted_log
unfolding compact_field cache_doc field_doc replay JsMap.get JsMap.set JsMap.delete
note_compacts = refl

compact_field-Compacted_example :
    Compacted numbers field_options numbers-Restores note note_log compacted_log
compact_field-Compacted_example =
    compact_field-Compacted numbers field_options numbers-Restores note note_log compacted_log
      note_log-IsCoherent note_compacts

abbrev once_alarmed : Extension ℕ
once_alarmed = on_alarm numbers field_options (new_extension numbers field_options)

HookHistory-IsCoherent_example : IsCoherent numbers field_options once_alarmed
HookHistory-IsCoherent_example =
    HookHistory-IsCoherent numbers field_options numbers-Restores {x = once_alarmed}
      (then_hook fresh alarm)

abbrev after_refusal : Extension ℕ
after_refusal =
    receive_all numbers field_options ((8, 1 ∷ [], member) ∷ [])
      (reject numbers field_options 7 note too_large note_log).0

receive_all-refuses_example :
    handle_update numbers field_options 7 note (9 ∷ []) (3 ∷ []) member after_refusal
    ≡ (after_refusal, none)
receive_all-refuses_example =
    receive_all-refuses numbers field_options ((8, 1 ∷ [], member) ∷ []) 7 note too_large (9 ∷ [])
      (3 ∷ []) member note_log

abbrev note_entry : Entry ℕ
note_entry = record {
  field_id = note;
  doc = 9;
  refs = 1;
  can_write = false;
  rejected = false;
  write_blocked = none;
  synced = false;
  notified = 0;
}

abbrev refused_entry : Entry ℕ
refused_entry = record note_entry { rejected = true; write_blocked = some local_too_large }

abbrev holding : Entry ℕ → YjsFields ℕ
holding entry = record {
  entries = (note, entry) ∷ [];
  destroyed = false;
  client_synced = true;
  sent = [];
}

abbrev reject_bytes : Bytes
reject_bytes = 4 ∷ 0 ∷ 2 ∷ 113 ∷ 51 ∷ 2 ∷ []

note-IsCarried : IsCarried numbers field_options numbers-IsCrdt note
note-IsCarried = record {
  some_id = omega (arith, ap length note_utf8);
  short = omega (arith, ap length note_utf8);
  read_back = note_utf8;
}

note-Serves : Serves numbers field_options numbers-IsCrdt 7 member note note-IsCarried note_log 5
unfolding JsMap.get field_doc replay
note-Serves = record {
  coherent = note_log-IsCoherent;
  holds = refl;
  ready = refl;
  granted = refl;
  not_refused = refl;
  not_frozen = refl;
  vector_fits = omega arith;
}

note-Holds :
    Holds numbers field_options numbers-IsCrdt 7 member note note-IsCarried
      (holding note_entry)
      note_entry
unfolding JsMap.get
note-Holds = record { there = refl; at_id = refl; not_rejected = refl; none_sent = refl }

sync_round-converges_example :
    let (x', s') =
      sync_round numbers field_options 7 member note_entry (holding note_entry) note_log in
    (materialize numbers field_options note x' ≡ ok 9)
    × ((after : Entry ℕ) × (JsMap.get note s'.entries ≡ some after) × (after.doc ≡ 9))
unfolding numbers-IsCrdt numbers_diff
sync_round-converges_example =
    sync_round-converges numbers field_options numbers-IsCrdt 7 member note note-IsCarried note_log
      5 (holding note_entry) note_entry note-Serves note-Holds refl (omega arith)
