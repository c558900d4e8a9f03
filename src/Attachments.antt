-- ===== src/Attachments.antt =====
-- services/attachment.rs and routes/attachments.rs: the upload, the listing and the download of the
-- files of an action. A file stands in the upload directory under its storage name; a write that
-- fails leaves the files. A multipart field is given by what it holds, without bytes where the
-- reading of it fails. `Host` is what the file system, the tables of Unicode and the crates `mime`
-- and `http` answer.
pub mod Steps
pub mod Owned
pub mod Downloaded
use Prim.Native.Char.{Char, code}
use Prim.Native.String.{[] as nil_text, ◌∷◌ as cons_text}
use deko.Prelude.{
  ℕ, zero, suc, ◌*◌, ltb, String, ◌<>◌, Bool, ◌&&◌, ◌||◌, Option, none, some, List, [], ◌∷◌, ◌++◌,
  map, find, keep, length, order_by, ◌==◌, string_eq, nat_eq, if◌then◌else◌, unwrap_or,
}
use deko.Prelude.Int.{pos}
use deko.Prelude.Text.{leb_text, show_nat}
use deko.Json.{Value, object, text, number, arr, from_list}
use deko.Models.{Action, Attachment}
use deko.Errors.{internal, not_found, bad_request}
use deko.Platform.{Platform}
use deko.World.{World, Agent, M, pure, raise, gets, update, select, execute, draw, require, ◌>>=◌}
use deko.VerdictService.Process.{find_action}

pub record Host : Type 0 where
  pub is_alphanumeric : Char → Bool
  -- Can the file of this name be written and read.
  pub writes : String → Bool
  pub reads : String → Bool
  -- The media type that a text is parsed as, printed, and whether a text is a header value.
  pub media_type : String → Option String
  pub is_header_value : String → Bool

-- A field of the form, and the answer to a download.
pub record Field : Type 0 where
  pub file_name : Option String
  pub content_type : Option String
  pub bytes : Option (List ℕ)

pub record Download : Type 0 where
  pub content_type : String
  pub disposition : String
  pub body : List ℕ

-- `trim_matches('_')`
abbrev is_underscore : Char → Bool
is_underscore c = code c == b'_'

unfoldable pub trim_front : String → String
trim_front nil_text = nil_text
trim_front (cons_text c s) = if is_underscore c then trim_front s else cons_text c s

abbrev pub unless_last : Char → String → String
unless_last c nil_text = if is_underscore c then nil_text else cons_text c nil_text
unless_last c (cons_text d s) = cons_text c (cons_text d s)

unfoldable pub trim_back : String → String
trim_back nil_text = nil_text
trim_back (cons_text c s) = unless_last c (trim_back s)

module _ (host : Host) where
  abbrev pub is_kept : Char → Bool
  is_kept c = host.is_alphanumeric c || code c == b'.' || code c == b'-' || code c == b'_'

  unfoldable pub replaced : String → String
  replaced nil_text = nil_text
  replaced (cons_text c s) = cons_text (if is_kept c then c else "_") (replaced s)

  unfoldable pub sanitize_filename : String → String
  unfolding trim_front trim_back replaced
  sanitize_filename name = trim_back (trim_front (replaced name))

-- `&id[..n]` of a text of single bytes
unfoldable pub first_bytes : ℕ → String → String
first_bytes zero s = ""
first_bytes (suc n) nil_text = ""
first_bytes (suc n) (cons_text c s) = cons_text c (first_bytes n s)

abbrev pub file_of : String → List (String × List ℕ) → Option (List ℕ)
file_of name [] = none
file_of name ((other, content) ∷ files) = if other == name then some content else file_of name files

abbrev max_size : ℕ
max_size = 10 * 1024 * 1024

module _ (P : Platform) (host : Host) where
  open P use {Number, uuid, sqlite_time, rfc3339, from_nat}

  abbrev pub write_file : String → List ℕ → M Number (Unit {0})
  write_file name content =
      if host.writes name
      then update (λ w. record w { files = (name, content) ∷ w.files })
      else raise internal

  -- `store`: the row has the time of the database, the answer that of the process.
  unfoldable pub store : String → String → String → List ℕ → M Number Attachment
  unfolding sanitize_filename first_bytes
  store action_id filename content_type content = do
    n ← draw
    now ← gets (λ w. w.clock)
    let safe_name = sanitize_filename host filename
    let storage_name = first_bytes 8 (uuid n) <> ("_" <> safe_name)
    let row : Attachment = record {
      id = uuid n;
      action_id = action_id;
      filename = safe_name;
      content_type = content_type;
      file_size = length content;
      storage_path = storage_name;
      created_at = sqlite_time (pos now);
    }
    _ ← write_file storage_name content
    _ ← execute (λ t. record t { attachments = t.attachments ++ (row ∷ []) })
    pure (record row { created_at = rfc3339 (pos now) })

  abbrev pub owned : Agent → Option Action → M Number (Unit {0})
  owned agent none = raise (not_found "Action not found")
  owned agent (some action) =
      if action.agent_id == agent.id then pure tt else raise (not_found "Action not found")

  -- The action is there and belongs to the agent.
  unfoldable pub check_owner : Agent → String → M Number (Unit {0})
  unfolding find_action
  check_owner agent action_id = select (find_action action_id) >>= owned agent

  unfoldable pub store_field : Agent → String → Field → M Number Attachment
  unfolding store check_owner show_nat
  store_field agent action_id field = do
    content ← require (bad_request "Failed to read file data") field.bytes
    if ltb max_size (length content)
        then raise
            (bad_request ("File too large: " <> (show_nat (length content) <> " bytes (max 10MB)")))
        else check_owner agent action_id >>= (λ _.
          store action_id (unwrap_or field.file_name "unknown")
            (unwrap_or field.content_type "application/octet-stream") content)

  -- The loop; a field that fails ends it, and what was stored before stays.
  unfoldable pub store_fields :
      Agent → String → List Attachment → List Field → M Number (List Attachment)
  unfolding store_field
  store_fields agent action_id attachments [] = pure attachments
  store_fields agent action_id attachments (field ∷ fields) = do
    attachment ← store_field agent action_id field
    store_fields agent action_id (attachments ++ (attachment ∷ [])) fields

  abbrev upload_members : Attachment → List (String × Value Number)
  upload_members a =
      ("id", text a.id)
      ∷ ("filename", text a.filename)
      ∷ ("content_type", text a.content_type)
      ∷ ("file_size", number (from_nat a.file_size))
      ∷ []

  unfoldable pub upload_attachment : Agent → String → List Field → M Number (Value Number)
  unfolding store_fields
  upload_attachment agent action_id fields = do
    attachments ← store_fields agent action_id [] fields
    pure (
        object (
          ("attachments", arr (from_list (map (λ a. object (upload_members a)) attachments))) ∷ []))

  -- `list_for_action`, `ORDER BY created_at ASC`
  unfoldable pub list_for_action : String → M Number (List Attachment)
  unfolding order_by
  list_for_action action_id = select (λ t.
      order_by (λ a b. leb_text a.created_at b.created_at)
        (keep (λ a. a.action_id == action_id) t.attachments))

  unfoldable pub list_attachments : Agent → String → M Number (List (Value Number))
  unfolding check_owner list_for_action
  list_attachments agent action_id = do
    _ ← check_owner agent action_id
    attachments ← list_for_action action_id
    pure (
        map (λ a. object (upload_members a ++ (("created_at", text a.created_at) ∷ [])))
          attachments)

  abbrev pub find_attachment : String → List Attachment → Option Attachment
  find_attachment id attachments = find (λ a. a.id == id) attachments

  unfoldable pub get_by_id : String → M Number Attachment
  get_by_id id = do
    row ← select (λ t. find_attachment id t.attachments)
    require (not_found "Attachment not found") row

  -- The answer with the bytes of a file.
  unfoldable pub answer : Attachment → List ℕ → M Number Download
  answer attachment content =
      let content_type =
        unwrap_or (host.media_type attachment.content_type) "application/octet-stream" in
      let disposition = "attachment; filename=\"" <> (attachment.filename <> "\"") in
      if host.is_header_value content_type && host.is_header_value disposition
      then pure (record { content_type = content_type; disposition = disposition; body = content })
      else raise internal

  unfoldable pub read_file : Attachment → M Number Download
  unfolding answer
  read_file attachment = do
    file ← gets (λ w.
        if host.reads attachment.storage_path
        then file_of attachment.storage_path w.files
        else none)
    content ← require (not_found "File not found on disk") file
    answer attachment content

  unfoldable pub download_attachment : Agent → String → String → M Number Download
  unfolding check_owner get_by_id read_file
  download_attachment agent action_id attachment_id = do
    _ ← check_owner agent action_id
    attachment ← get_by_id attachment_id
    if attachment.action_id == action_id
        then read_file attachment
        else raise (not_found "Attachment not found")
