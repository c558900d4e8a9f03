-- ===== src/Attachments/Owned.antt =====
-- Who uploads to an action, and under which names.
use Prim.Native.Char.{Char}
use Prim.Native.String.{[] as nil_text, ◌∷◌ as cons_text}
use deko.Prelude.{
  ◌≡◌, ◌<>◌, ℕ, String, Bool, true, false, ◌&&◌, Option, none, some, List, [], ◌∷◌, ◌++◌, All, ◌==◌,
  string_eq,
}
use deko.Models.{Action, Attachment}
use deko.Errors.{Result, err, AppError}
use deko.Platform.{Platform}
use deko.World.{World, Agent}
use deko.Attachments.{Host, first_bytes, is_kept}

module _ (host : Host) where
  -- Every character is alphanumeric, a dot, a dash or an underscore.
  abbrev pub all_kept : String → Bool
  all_kept nil_text = true
  all_kept (cons_text c s) = is_kept host c && all_kept s

module _ (P : Platform) (host : Host) (action_id : String) where
  -- The first eight characters of an id, an underscore and a clean name.
  abbrev pub IsStorageName : String → String → String → Type 0
  IsStorageName id clean name =
      (name ≡ first_bytes 8 id <> ("_" <> clean)) × (all_kept host clean ≡ true)

  -- A row is of the action, and it and its file are named so.
  abbrev pub IsUpload : Attachment → Type 0
  IsUpload a = (a.action_id ≡ action_id) × IsStorageName a.id a.filename a.storage_path

  abbrev pub IsStoredFile : String × List ℕ → Type 0
  IsStoredFile (name, bytes) = (n : ℕ) × (clean : String) × IsStorageName (P.uuid n) clean name

  -- The new rows behind the others, and the new files in front of them.
  pub record Uploads (u v : World P.Number) : Type 0 where
    pub rows : List Attachment
    pub added : v.tables.attachments ≡ u.tables.attachments ++ rows
    pub are_uploads : All IsUpload rows
    pub files : List (String × List ℕ)
    pub written : v.files ≡ files ++ u.files
    pub are_stored : All IsStoredFile files

module _ (P : Platform) (host : Host) (agent : Agent) (action_id : String) where
  -- The action is stored, and it is the agent's.
  abbrev pub owns : Option Action → Bool
  owns none = false
  owns (some action) = action.agent_id == agent.id

  -- Nothing is stored, and the call fails.
  abbrev Refused : {A : Type 0} → World P.Number → Result A × World P.Number → Type 0
  Refused u (r, v) = ((e : AppError) × (r ≡ err e)) × (v.tables ≡ u.tables) × (v.files ≡ u.files)
