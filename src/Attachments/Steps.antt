-- ===== src/Attachments/Steps.antt =====
-- What an upload leaves of a world, for every relation that allows files and clean rows.
use deko.Prelude.{refl, ◌≡◌, ℕ, String, ◌<>◌, Option, none, some, List, [], ◌∷◌, ◌++◌}
use deko.Models.{Action, Attachment}
use deko.Platform.{Platform}
use deko.World.{World, Agent}
use deko.World.Steps.{
  Keeps, IsStep, keeps_rules, Keeps-bind, Keeps-gets, Keeps-draw, Keeps-raise, Keeps-update,
  Keeps-execute, Keeps-if,
}
use deko.Attachments.{
  Host, Field, first_bytes, sanitize_filename, write_file, store, owned, check_owner, store_field,
  store_fields, upload_attachment,
}

-- The name of a stored file: the beginning of an id, and the name of an upload, sanitized.
abbrev pub storage_name_of : Host → String → String → String
storage_name_of host id name = first_bytes 8 id <> ("_" <> sanitize_filename host name)

module _ (P : Platform) (R : World P.Number → World P.Number → Type 0) (S : IsStep R) (host : Host)
    (agent : Agent) (action_id : String) where
  abbrev pub AllowsFile : Type 0
  AllowsFile =
      (w : World P.Number) (n : ℕ) (name : String) (bytes : List ℕ)
      → R w (record w { files = (storage_name_of host (P.uuid n) name, bytes) ∷ w.files })

  -- A row of the action, with the name of an upload, sanitized.
  abbrev pub AllowsRow : Type 0
  AllowsRow =
      (w : World P.Number) (row : Attachment) (name : String)
      → row.action_id ≡ action_id
      → row.filename ≡ sanitize_filename host name
      → row.storage_path ≡ storage_name_of host row.id name
      → R w (record w {
        tables = record w.tables { attachments = w.tables.attachments ++ (row ∷ []) };
      })

  module _ (file : AllowsFile) (allowed : AllowsRow) where
    Keeps-write_file :
        (n : ℕ) (name : String) (bytes : List ℕ)
        → Keeps R (write_file P host (storage_name_of host (P.uuid n) name) bytes)
    Keeps-write_file n name bytes =
        Keeps-if R S (host.writes (storage_name_of host (P.uuid n) name)) _ _
          (λ can. Keeps-update R S _ (λ w. file w n name bytes)) (λ cannot. Keeps-raise R S _)

    Keeps-store :
        (name content_type : String) (bytes : List ℕ)
        → Keeps R (store P host action_id name content_type bytes)
    unfolding store
    Keeps-store name content_type bytes = Keeps-bind R S _ _ (Keeps-draw R S) (λ n.
        Keeps-bind R S _ _ (Keeps-gets R S _) (λ now.
          Keeps-bind R S _ _ (Keeps-write_file n name bytes) (λ _.
            Keeps-bind R S _ _ (Keeps-execute R S _ (λ w. allowed w _ name refl refl refl))
              (λ _. search keeps_rules))))

    Keeps-owned : (found : Option Action) → Keeps R (owned P host agent found)
    Keeps-owned none = search keeps_rules
    Keeps-owned (some a) = search keeps_rules

    Keeps-store_field : (field : Field) → Keeps R (store_field P host agent action_id field)
    unfolding store_field check_owner
    Keeps-store_field field = search (keeps_rules, Keeps-store, Keeps-owned) depth 8

    Keeps-store_fields :
        (stored : List Attachment) (fields : List Field)
        → Keeps R (store_fields P host agent action_id stored fields)
    unfolding store_fields
    Keeps-store_fields stored [] = search keeps_rules
    Keeps-store_fields stored (field ∷ fields) =
        Keeps-bind R S _ _ (Keeps-store_field field) (λ a. Keeps-store_fields _ fields)

    pub Keeps-upload_attachment :
        (fields : List Field) → Keeps R (upload_attachment P host agent action_id fields)
    unfolding upload_attachment
    Keeps-upload_attachment fields = search (keeps_rules, Keeps-store_fields)
