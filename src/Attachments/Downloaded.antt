-- ===== src/Attachments/Downloaded.antt =====
-- What is uploaded can be downloaded.
use deko.Prelude.{
  ◌≡◌, refl, sym, ap, ◌∙◌, inl, inr, ℕ, String, ◌<>◌, true, none, some, List, [], ◌∷◌, ◌++◌,
  find-snoc, length, ltb, unwrap_or, Bool-cases, Option-cases, ◌==◌, string_eq, ==_refl,
}
use deko.Prelude.Int.{pos}
use deko.Models.{Attachment}
use deko.Errors.{Result, ok, err, err-ne-ok, ok-injective}
use deko.Platform.{Platform}
use deko.World.{
  World, Agent, later, fails, pure, raise, gets, update, draw, select, execute, statement, require,
  ◌>>=◌, continue,
}
use deko.VerdictService.Process.{find_action}
use deko.Attachments.{
  Host, Field, Download, max_size, first_bytes, sanitize_filename, store, check_owner, store_field,
  file_of, find_attachment, get_by_id, read_file, answer, download_attachment,
}

module _ (P : Platform) (host : Host) (agent : Agent) (action_id : String) where
  -- The row and the file of `a` are the only new ones; `a` itself has another time.
  record IsStored (bytes : List ℕ) (a : Attachment) (u v : World P.Number) : Type 0 where
    created_at : String
    added :
        v.tables.attachments ≡ u.tables.attachments ++ (record a { created_at = created_at } ∷ [])
    on : a.action_id ≡ action_id
    new : a.id ≡ P.uuid u.uuids
    written : v.files ≡ (a.storage_path, bytes) ∷ u.files
    actions : v.tables.actions ≡ u.tables.actions

  abbrev storage_name : String → String → String
  storage_name id name = first_bytes 8 id <> ("_" <> sanitize_filename host name)

  store-IsStored :
      (name content_type : String) (bytes : List ℕ) (w : World P.Number) (a : Attachment)
      → (store P host action_id name content_type bytes w).0 ≡ ok a
      → IsStored bytes a w (store P host action_id name content_type bytes w).1
  unfolding store draw gets update execute statement pure raise ◌>>=◌
  store-IsStored name content_type bytes w a h =
      elim (Bool-cases (host.writes (storage_name (P.uuid w.uuids) name))) [
        | inr fails_to ↦ absurd (err-ne-ok (rw fails_to at h))
        | inl writes ↦ elim (Bool-cases (fails w.faults)) [
          | inl failed ↦ absurd (err-ne-ok (rw (writes, failed) at h))
          | inr passed ↦
              let same = ok-injective (rw (writes, passed) at h) in
              let now = P.sqlite_time (pos w.clock) in
              rw (writes, passed)
                (record {
                  created_at = now;
                  added =
                      ap
                        (λ (x : Attachment).
                          w.tables.attachments ++ (record x { created_at = now } ∷ []))
                        same;
                  on = sym (ap (λ (x : Attachment). x.action_id) same);
                  new = sym (ap (λ (x : Attachment). x.id) same);
                  written = ap (λ (x : Attachment). (x.storage_path, bytes) ∷ w.files) same;
                  actions = refl;
                })
        ]
      ]

  -- The owner is checked by one statement.
  check_owner-ok :
      (w : World P.Number) (x : Unit {0})
      → (check_owner P host agent action_id w).0 ≡ ok x
      → ((check_owner P host agent action_id w).1 ≡ record w { faults = later w.faults })
        × ((v : World P.Number)
            → v.tables.actions ≡ w.tables.actions
            → check_owner P host agent action_id (record v { faults = [] })
              ≡ (ok tt, record v { faults = [] }))
  unfolding check_owner find_action select statement pure raise ◌>>=◌
  check_owner-ok w x h = elim (Bool-cases (fails w.faults)) [
    | inl failed ↦ absurd (err-ne-ok (rw failed at h))
    | inr passed ↦ elim (Option-cases (find_action action_id w.tables)) [
      | inl missing ↦ absurd (err-ne-ok (rw (passed, missing) at h))
      | inr (action, found) ↦ elim (Bool-cases (action.agent_id == agent.id)) [
        | inr other ↦ absurd (err-ne-ok (rw (passed, found, other) at h))
        | inl own ↦ (rw (passed, found, own) refl, λ v same. rw (same, found, own) refl)
      ]
    ]
  ]

  -- The check of the owner passes in every world with these actions, as long as no statement fails.
  abbrev Passes : World P.Number → Type 0
  Passes w =
      (v : World P.Number)
      → v.tables.actions ≡ w.tables.actions
      → check_owner P host agent action_id (record v { faults = [] })
        ≡ (ok tt, record v { faults = [] })

  store_as : Field → List ℕ → World P.Number → Result Attachment × World P.Number
  store_as field bytes =
      store P host action_id (unwrap_or field.file_name "unknown")
        (unwrap_or field.content_type "application/octet-stream") bytes

  owner_then :
      (field : Field) (bytes : List ℕ) (w u : World P.Number) (a : Attachment)
      (r : Result (Unit {0}))
      → (check_owner P host agent action_id w).0 ≡ r
      → (check_owner P host agent action_id w).1 ≡ u
      → (continue r (λ _. store_as field bytes) u).0 ≡ ok a
      → IsStored bytes a w (continue r (λ _. store_as field bytes) u).1 × Passes w
  unfolding store_as
  owner_then field bytes w u a (err x) p q h = absurd (err-ne-ok h)
  owner_then field bytes w u a (ok x) p q h =
      let (same, passes) = check_owner-ok w x p in
      let before = sym q ∙ same in
      let s = store-IsStored _ _ bytes u a h in
      (
        record {
          created_at = s.created_at;
          added =
              s.added
              ∙ ap
                  (λ (z : World P.Number).
                    z.tables.attachments ++ (record a { created_at = s.created_at } ∷ []))
                  before;
          on = s.on;
          new = s.new ∙ ap (λ (z : World P.Number). P.uuid z.uuids) before;
          written =
              s.written ∙ ap (λ (z : World P.Number). (a.storage_path, bytes) ∷ z.files) before;
          actions = s.actions ∙ ap (λ (z : World P.Number). z.tables.actions) before;
        },
        passes,
      )

  store_field-IsStored :
      (field : Field) (bytes : List ℕ) (w : World P.Number) (a : Attachment)
      → field.bytes ≡ some bytes
      → (store_field P host agent action_id field w).0 ≡ ok a
      → IsStored bytes a w (store_field P host agent action_id field w).1 × Passes w
  unfolding store_field store_as require raise pure ◌>>=◌
  store_field-IsStored field bytes w a e h = elim (Bool-cases (ltb max_size (length bytes))) [
    | inl large ↦ absurd (err-ne-ok (rw (e, large) at h))
    | inr small ↦ rw (e, small) (owner_then field bytes w _ a _ refl refl (rw (e, small) at h))
  ]

  downloaded :
      (bytes : List ℕ) (w v : World P.Number) (a : Attachment)
      → IsStored bytes a w v
      → Passes w
      → find_attachment P host (P.uuid w.uuids) w.tables.attachments ≡ none
      → host.reads a.storage_path ≡ true
      → (read : Result Download) → (answer P host a bytes (record v { faults = [] })).0 ≡ read
      → (download_attachment P host agent action_id a.id (record v { faults = [] })).0 ≡ read
  unfolding download_attachment get_by_id read_file answer select statement gets require pure ◌>>=◌
  downloaded bytes w v a s passes fresh reads read e =
      let found : find_attachment P host a.id v.tables.attachments
          ≡ some (record a { created_at = s.created_at }) =
        ap (find_attachment P host a.id) s.added
        ∙ find-snoc _ w.tables.attachments _ (rw s.new fresh) (==_refl a.id) in
      let file : file_of a.storage_path v.files ≡ some bytes =
        ap (file_of a.storage_path) s.written ∙ rw (==_refl a.storage_path) refl in
      rw (passes v s.actions, found, s.on, ==_refl action_id, reads, file) e

-- A file that an agent has uploaded to its action can be downloaded at once, byte for byte, under
-- the id that the upload answered with, as long as no statement of the download fails. The id is
-- new, the file can be read, and the media type and the name of the answer are header values.
pub download_attachment-store_field :
    (P : Platform) (host : Host) (agent : Agent) (action_id : String) (field : Field)
    (bytes : List ℕ) (a : Attachment) (w : World P.Number)
    → field.bytes ≡ some bytes
    → (store_field P host agent action_id field w).0 ≡ ok a
    → find_attachment P host (P.uuid w.uuids) w.tables.attachments ≡ none
    → host.reads a.storage_path ≡ true
    → host.is_header_value (unwrap_or (host.media_type a.content_type) "application/octet-stream")
      ≡ true
    → host.is_header_value ("attachment; filename=\"" <> (a.filename <> "\"")) ≡ true
    → let v = (store_field P host agent action_id field w).1 in
      (download_attachment P host agent action_id a.id (record v { faults = [] })).0
      ≡ ok (record {
        content_type = unwrap_or (host.media_type a.content_type) "application/octet-stream";
        disposition = "attachment; filename=\"" <> (a.filename <> "\"");
        body = bytes;
      })
unfolding answer pure
download_attachment-store_field P host agent action_id field bytes a w e h fresh reads media name =
    let (s, passes) = store_field-IsStored P host agent action_id field bytes w a e h in
    downloaded P host agent action_id bytes w _ a s passes fresh reads _ (rw (media, name) refl)
