-- ===== src/Actions/Transform.antt =====
-- apply_transform and action_metadata_transform: texts of the response are replaced.
use deko.Prelude.{String, Option, none, some, List, [], ◌∷◌, find, unwrap_or, string_eq, nat_eq}
use deko.Prelude.Text.{replace}
use deko.Json.{Value, arr, obj, to_list, get, text_at}
use deko.Platform.{Platform}

module _ (P : Platform) where
  open P use {Number, from_str}

  -- `replace` for each item, with empty texts for what is missing
  unfoldable pub replace_items : String → List (Value Number) → String
  unfolding replace
  replace_items result [] = result
  replace_items result (item ∷ items) =
      replace_items
        (replace (unwrap_or (text_at "find" item) "") (unwrap_or (text_at "replace" item) "")
          result)
        items

  unfoldable pub apply_transform : String → Value Number → String
  unfolding replace_items
  apply_transform body (arr xs) = replace_items body (to_list xs)
  apply_transform body (obj fs) = elim (text_at "find" (obj fs)) [
    | none ↦ body
    | some find ↦ replace find (unwrap_or (text_at "replace" (obj fs)) "") body
  ]
  apply_transform body _ = body

  abbrev pub transformed : Option String → String → String
  transformed none body = body
  transformed (some metadata) body = elim (from_str metadata) [
    | none ↦ body
    | some v ↦ elim (get "response_transform" v) [
      | none ↦ body
      | some transform ↦ apply_transform body transform
    ]
  ]
