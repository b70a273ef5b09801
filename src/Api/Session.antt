-- ===== src/Api/Session.antt =====
-- An application's session with a parsed file: the public operations on the tag list in any order,
-- with one preserved copy at a time.
use libmp4tag.Api.Consistent.{HandleOk}
use libmp4tag.Api.Edit.{set_tag, set_binary_tag, delete_tag, clean_tags}
use libmp4tag.Api.Get.{get_tag_by_name, iterate_init, iterate}
use libmp4tag.Api.Preserve.{Preserved, preserve_tags, restore_tags, preserve_free}
use libmp4tag.Api.{Handle}
use libmp4tag.CString.{Bytes}
use libmp4tag.Files.{FileSystem}
use libmp4tag.Prelude.{ℕ, Bool, Option}
use libmp4tag.Api.Handles.{
  KeptOk, preserve_handle-HandleOk, preserve_kept-KeptOk, set_tag-HandleOk, set_binary_tag-HandleOk,
  delete_tag-HandleOk, clean_tags-HandleOk, get_tag_by_name-HandleOk, iterate_init-HandleOk,
  iterate-HandleOk, restore_tags-HandleOk, preserve_free-KeptOk,
}

-- What the application holds.
pub record Session : Type 0 where
  pub handle : Handle
  pub kept : Option Preserved

pub record SessionOk (s : Session) : Type 0 where
  pub handle_ok : HandleOk s.handle
  pub kept_ok : KeptOk s.kept

-- One call of the application.
pub data Step (fs : FileSystem) : Session → Session → Type 0 where
  set :
      (s : Session) (tag value : Option Bytes) (force : Bool)
      → Step fs s (record s { handle = (set_tag fs s.handle tag value force).0 })
  set_binary :
      (s : Session) (tag value : Option Bytes) (n : ℕ)
      → Step fs s (record s { handle = (set_binary_tag s.handle tag value n).0 })
  delete :
      (s : Session) (tag : Option Bytes)
      → Step fs s (record s { handle = (delete_tag s.handle tag).0 })
  clean : (s : Session) → Step fs s (record s { handle = (clean_tags s.handle).0 })
  get :
      (s : Session) (tag : Bytes) (has_pub : Bool)
      → Step fs s (record s { handle = (get_tag_by_name s.handle tag has_pub).0 })
  start : (s : Session) → Step fs s (record s { handle = (iterate_init s.handle).0 })
  next :
      (s : Session) (has_pub : Bool)
      → Step fs s (record s { handle = (iterate s.handle has_pub).0 })
  preserve :
      (s : Session)
      → Step fs s
          (record { handle = (preserve_tags s.handle).0; kept = (preserve_tags s.handle).1 })
  restore : (s : Session) → Step fs s (record s { handle = (restore_tags s.handle s.kept).0 })
  forget : (s : Session) → Step fs s (record s { kept = (preserve_free s.kept).0 })

pub data Reach (fs : FileSystem) (s : Session) : Session → Type 0 where
  here : Reach fs s s
  more : {t u : Session} → Reach fs s t → Step fs t u → Reach fs s u

-- What each call leaves.
Step-SessionOk : {fs : FileSystem} {s t : Session} → Step fs s t → SessionOk s → SessionOk t
Step-SessionOk {fs} (set s tag value force) k = record {
  handle_ok = set_tag-HandleOk s.handle k.handle_ok fs tag value force;
  kept_ok = k.kept_ok;
}
Step-SessionOk (set_binary s tag value n) k = record {
  handle_ok = set_binary_tag-HandleOk s.handle k.handle_ok tag value n;
  kept_ok = k.kept_ok;
}
Step-SessionOk (delete s tag) k = record {
  handle_ok = delete_tag-HandleOk s.handle k.handle_ok tag;
  kept_ok = k.kept_ok;
}
Step-SessionOk (clean s) k = record {
  handle_ok = clean_tags-HandleOk s.handle k.handle_ok;
  kept_ok = k.kept_ok;
}
Step-SessionOk (get s tag b) k = record {
  handle_ok = get_tag_by_name-HandleOk s.handle k.handle_ok tag b;
  kept_ok = k.kept_ok;
}
Step-SessionOk (start s) k = record {
  handle_ok = iterate_init-HandleOk s.handle k.handle_ok;
  kept_ok = k.kept_ok;
}
Step-SessionOk (next s b) k = record {
  handle_ok = iterate-HandleOk s.handle k.handle_ok b;
  kept_ok = k.kept_ok;
}
Step-SessionOk (preserve s) k = record {
  handle_ok = preserve_handle-HandleOk s.handle k.handle_ok;
  kept_ok = preserve_kept-KeptOk s.handle k.handle_ok;
}
Step-SessionOk (restore s) k = record {
  handle_ok = restore_tags-HandleOk s.handle k.handle_ok s.kept k.kept_ok;
  kept_ok = k.kept_ok;
}
Step-SessionOk (forget s) k = record {
  handle_ok = k.handle_ok;
  kept_ok = preserve_free-KeptOk s.kept;
}

-- From a session whose structure and kept copy are consistent, every sequence of calls of the ten
-- modelled operations (set, set binary, delete, clean, get, start and step of the iteration,
-- preserve, restore, free of the kept copy) leads to a session that is consistent: the list is
-- sorted by name and index, each tag holds its position, and the array has room for the list.
pub Reach-SessionOk : {fs : FileSystem} {s t : Session} → SessionOk s → Reach fs s t → SessionOk t
Reach-SessionOk k here = k
Reach-SessionOk k (more r st) = Step-SessionOk st (Reach-SessionOk k r)
