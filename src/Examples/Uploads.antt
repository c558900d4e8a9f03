-- ===== src/Examples/Uploads.antt =====
-- An upload to an action and its download.
use Prim.Native.Char.{code}
use deko.Prelude.{◌≡◌, refl, true, some, [], ◌∷◌, ◌&&◌, leb, string_eq, nat_eq}
use deko.Prelude.Text.{show_nat, show_int}
use deko.Errors.{ok}
use deko.Models.{Attachment, pending}
use deko.World.{World, pure, select, execute, statement, gets, draw, require, update, ◌>>=◌}
use deko.VerdictService.Process.{find_action}
use deko.Attachments.{
  Host, Field, first_bytes, sanitize_filename, replaced, trim_front, trim_back, store, check_owner,
  store_field, download_attachment,
}
use deko.Attachments.Downloaded.{download_attachment-store_field}
use deko.Examples.{test_platform}
use deko.Examples.Access.{an_agent}
use deko.Examples.Verdicts.{a_world}

abbrev a_host : Host
a_host = record {
  is_alphanumeric = λ c. leb b'a' (code c) && leb (code c) b'z';
  writes = λ name. true;
  reads = λ name. true;
  media_type = λ s. some s;
  is_header_value = λ s. true;
}

abbrev a_field : Field
a_field = record {
  file_name = some "../etc/my file.txt";
  content_type = some "text/plain";
  bytes = some (104 ∷ 105 ∷ []);
}

abbrev quiet_world : World test_platform.Number
quiet_world = record (a_world pending) { faults = [] }

clean_name : sanitize_filename a_host "../etc/my file.txt" ≡ ".._etc_my_file.txt"
unfolding sanitize_filename replaced trim_front trim_back nat_eq
clean_name = refl

abbrev an_attachment : Attachment
an_attachment = record {
  id = "0";
  action_id = "a1";
  filename = ".._etc_my_file.txt";
  content_type = "text/plain";
  file_size = 2;
  storage_path = "0_.._etc_my_file.txt";
  created_at = "1700000000";
}

download_attachment-store_field_example :
    let v = (store_field test_platform a_host an_agent "a1" a_field quiet_world).1 in
    (download_attachment test_platform a_host an_agent "a1" "0" (record v { faults = [] })).0
    ≡ ok (record {
      content_type = "text/plain";
      disposition = "attachment; filename=\".._etc_my_file.txt\"";
      body = 104 ∷ 105 ∷ [];
    })
unfolding store_field store check_owner find_action first_bytes sanitize_filename replaced
    trim_front trim_back show_nat show_int pure select execute statement gets draw require update
    string_eq nat_eq ◌>>=◌
download_attachment-store_field_example =
    download_attachment-store_field test_platform a_host an_agent "a1" a_field (104 ∷ 105 ∷ [])
      an_attachment quiet_world refl refl refl refl refl refl
