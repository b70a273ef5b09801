-- ===== src/Api/Handles.antt =====
-- The public operations of libmp4tag.c on a handle, and the consistency of what is behind it.
use libmp4tag.Api.Consistent.{
  HandleOk, with_struct-HandleOk, when_parsed-HandleOk, clear_error-IsConsistent,
  set_value-IsConsistent, set_binary_value-IsConsistent, delete_known-IsConsistent,
  get_known-IsConsistent, iterate_known-IsConsistent, restore_list-IsConsistent,
  free_tags-IsConsistent,
}
use libmp4tag.Api.Edit.{
  set_tag, set_binary_tag, delete_tag, clean_tags, free_tags, set_value, set_binary_value,
  delete_known,
}
use libmp4tag.Api.Get.{get_tag_by_name, iterate_init, iterate}
use libmp4tag.Api.Preserve.{Preserved, preserve_tags, restore_tags, preserve_free, restore_list}
use libmp4tag.Api.{Handle, clear_error, Got}
use libmp4tag.CString.{Bytes}
use libmp4tag.Files.{FileSystem}
use libmp4tag.Prelude.{ℕ, subst, Bool, Option, none, some, if_ind, option_ind}
use libmp4tag.Tags.Consistent.{IsConsistent, fail-IsConsistent}
use libmp4tag.Tags.Invariant.{IsWellFormed, clone_all-IsWellFormed}
use libmp4tag.Tags.{Libmp4tag, Mp4error, list_of}

abbrev pub KeptOk : Option Preserved → Type 0
KeptOk none = Unit
KeptOk (some p) = IsWellFormed p.tags

pub preserve_handle-HandleOk : (h : Handle) → HandleOk h → HandleOk (preserve_tags h).0
unfolding preserve_tags
preserve_handle-HandleOk none c = tt
preserve_handle-HandleOk (some l) c =
    if_ind (λ (r : Handle × Option Preserved). HandleOk r.0) l.parsed
      (λ e.
        option_ind (λ (r : Handle × Option Preserved). HandleOk r.0) l.tags
          (λ e'. fail-IsConsistent l c Mp4error.err_no_tags)
          (λ ts e'. clear_error-IsConsistent l c))
      (λ e. fail-IsConsistent l c Mp4error.err_not_parsed)

pub preserve_kept-KeptOk : (h : Handle) → HandleOk h → KeptOk (preserve_tags h).1
unfolding preserve_tags
preserve_kept-KeptOk none c = tt
preserve_kept-KeptOk (some l) c =
    if_ind (λ (r : Handle × Option Preserved). KeptOk r.1) l.parsed
      (λ e.
        option_ind (λ (r : Handle × Option Preserved). KeptOk r.1) l.tags (λ e'. tt)
          (λ ts e'. clone_all-IsWellFormed ts (subst (λ o. IsWellFormed (list_of o)) e' c.tags)))
      (λ e. tt)

module _ (h : Handle) (c : HandleOk h) where
  pub set_tag-HandleOk :
      (fs : FileSystem) (tag value : Option Bytes) (force : Bool)
      → HandleOk (set_tag fs h tag value force).0
  unfolding set_tag
  set_tag-HandleOk fs none value force =
      when_parsed-HandleOk h _ (λ l k. fail-IsConsistent l k Mp4error.err_null_value) c
  set_tag-HandleOk fs (some tag) none force =
      when_parsed-HandleOk h _ (λ l k. fail-IsConsistent l k Mp4error.err_null_value) c
  set_tag-HandleOk fs (some tag) (some value) force =
      when_parsed-HandleOk h (λ l. set_value fs (clear_error l) tag value force)
        (λ l k.
          set_value-IsConsistent (clear_error l) (clear_error-IsConsistent l k) fs tag value force)
        c

  pub set_binary_tag-HandleOk :
      (tag value : Option Bytes) (n : ℕ) → HandleOk (set_binary_tag h tag value n).0
  unfolding set_binary_tag
  set_binary_tag-HandleOk none value n =
      when_parsed-HandleOk h _ (λ l k. fail-IsConsistent l k Mp4error.err_null_value) c
  set_binary_tag-HandleOk (some tag) none n =
      when_parsed-HandleOk h _ (λ l k. fail-IsConsistent l k Mp4error.err_null_value) c
  set_binary_tag-HandleOk (some tag) (some value) n =
      when_parsed-HandleOk h (λ l. set_binary_value (clear_error l) tag value n)
        (λ l k.
          set_binary_value-IsConsistent (clear_error l) (clear_error-IsConsistent l k) tag value n)
        c

  pub delete_tag-HandleOk : (tag : Option Bytes) → HandleOk (delete_tag h tag).0
  unfolding delete_tag
  delete_tag-HandleOk none =
      when_parsed-HandleOk h _ (λ l k. fail-IsConsistent l k Mp4error.err_null_value) c
  delete_tag-HandleOk (some tag) =
      when_parsed-HandleOk h (λ l. delete_known (clear_error l) tag)
        (λ l k. delete_known-IsConsistent (clear_error l) (clear_error-IsConsistent l k) tag) c

  pub clean_tags-HandleOk : HandleOk (clean_tags h).0
  unfolding clean_tags
  clean_tags-HandleOk =
      when_parsed-HandleOk h (λ l. (free_tags (clear_error l), Mp4error.ok))
        (λ l k. free_tags-IsConsistent (clear_error l) (clear_error-IsConsistent l k)) c

  pub get_tag_by_name-HandleOk : (tag : Bytes) (b : Bool) → HandleOk (get_tag_by_name h tag b).0
  unfolding get_tag_by_name
  get_tag_by_name-HandleOk tag b =
      with_struct-HandleOk h (none, Mp4error.err_bad_struct) _
        (λ l k.
          if_ind (λ (r : Libmp4tag × Got). IsConsistent r.0) l.parsed
            (λ e. get_known-IsConsistent (clear_error l) (clear_error-IsConsistent l k) tag b)
            (λ e. fail-IsConsistent l k Mp4error.err_not_parsed))
        c

  pub iterate_init-HandleOk : HandleOk (iterate_init h).0
  unfolding iterate_init
  iterate_init-HandleOk =
      with_struct-HandleOk h Mp4error.err_bad_struct _
        (λ l k.
          if_ind (λ (r : Libmp4tag × Mp4error). IsConsistent r.0) l.parsed
            (λ e. record { ident = k.ident; tags = k.tags; room = k.room; no_array = k.no_array })
            (λ e. fail-IsConsistent l k Mp4error.err_not_parsed))
        c

  pub iterate-HandleOk : (b : Bool) → HandleOk (iterate h b).0
  unfolding iterate
  iterate-HandleOk b =
      with_struct-HandleOk h (none, Mp4error.err_bad_struct) _
        (λ l k.
          if_ind (λ (r : Libmp4tag × Got). IsConsistent r.0) l.parsed
            (λ e. iterate_known-IsConsistent (clear_error l) (clear_error-IsConsistent l k) b)
            (λ e. fail-IsConsistent l k Mp4error.err_not_parsed))
        c

  pub restore_tags-HandleOk : (p : Option Preserved) → KeptOk p → HandleOk (restore_tags h p).0
  unfolding restore_tags
  restore_tags-HandleOk none w =
      when_parsed-HandleOk h _ (λ l k. fail-IsConsistent l k Mp4error.err_null_value) c
  restore_tags-HandleOk (some p) w =
      when_parsed-HandleOk h (λ l. (restore_list (free_tags (clear_error l)) p.tags, Mp4error.ok))
        (λ l k.
          restore_list-IsConsistent _
            (free_tags-IsConsistent (clear_error l) (clear_error-IsConsistent l k)) p.tags w)
        c

pub preserve_free-KeptOk : (p : Option Preserved) → KeptOk (preserve_free p).0
unfolding preserve_free
preserve_free-KeptOk none = tt
preserve_free-KeptOk (some p) = tt
