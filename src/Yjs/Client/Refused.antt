-- ===== src/Yjs/Client/Refused.antt =====
-- A field that was refused is read-only for good.
use cf_sync.Base.JsMap
use cf_sync.Base.JsMap.{JsMap}
use cf_sync.Base.Text.{Text}
use cf_sync.Base.{false, list_eq, nat_eq, pair_eq, some, true, ◌≡◌}
use cf_sync.Yjs.Client.{Entry, YjsFields}
use cf_sync.Yjs.{Bytes, Yjs}

module _ {Doc : Type 0} (y : Yjs Doc) (decoder : Bytes → Text) where
  -- The entry was refused, whether by the server or by its own guard.
  abbrev pub IsRefused : Entry Doc → Type 0
  IsRefused entry = (entry.rejected ≡ true) × (entry.can_write ≡ false)

  -- The fields hold a refused entry under the id, and have sent nothing more.
  abbrev pub StaysRefused : Text → YjsFields Doc → YjsFields Doc → Type 0
  StaysRefused g s s' =
      ((entry : Entry Doc) × (JsMap.get g s'.entries ≡ some entry)
        × (entry.field_id ≡ g)
        × IsRefused entry)
      × (s'.sent ≡ s.sent)
