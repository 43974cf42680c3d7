-- ===== src/Tests/Catalogues.antt =====
-- Examples: the templates, the mailer, the folder and the list of the keys.
use host_container.Cors.{trim_space}
use host_container.Folder.{keep_paths, paths_of, has_below, lookup, parser_tree_folder}
use host_container.Text.Lines.{split_on}
use host_container.Paths.{dir, workspace}
use mathlib.Core.List.{Perm}
use host_container.Http.{get, payload}
use host_container.World.{Word, FilePath, logged, statement}
use host_container.Schema.{ApiKeyRow}
use host_container.Folder.Listing.{heap_of, position}
use host_container.Folder.Shape.{parser_tree_folder_lem}
use host_container.Templates.{Json, listed, to_response, list_templates}
use host_container.Templates.Catalogue.{Collation, IsSorted, rows_of, list_templates-catalogue}
use host_container.Mail.{Mailer, build_message, send}
use host_container.Mail.Exchange.{first_refused, sent_unless, exchange, send-unacknowledged}
use host_container.ApiKeys.Listing.{unscanned, scan_keys, scan_keys-one}
use host_container.Tests.{calm, start, TemplateRow, codes}
use host_container.Prelude.{ℕ, ◌≡◌, none, ◌∷◌, List, String, [], Option, refl, Bool, true, map}

abbrev printed : Word
printed = codes "/workspace/a\n/workspace/a/b\n"

parser_tree_folder_lem_example :
    ((parser_tree_folder printed).heap ≡ heap_of (has_below (paths_of printed)) (paths_of printed))
    × ((q : FilePath)
        → lookup q (parser_tree_folder printed).nodes ≡ position q (workspace ∷ paths_of printed))
unfolding paths_of keep_paths split_on dir trim_space
parser_tree_folder_lem_example = parser_tree_folder_lem printed (refl, refl, (refl, refl, tt))

abbrev no_json : Json
no_json = record { tags_of = λ s. none; ports_of = λ s. none }

abbrev any_order : String → String → Bool
any_order s t = true

any_order-Collation : Collation any_order
any_order-Collation = record { total = λ s t h. refl }

list_templates-catalogue_example :
    (ts : List TemplateRow) × (list_templates calm no_json any_order get "web" start ≡ (
      record { status = 200; body = payload (listed (map (to_response no_json calm.to_text) ts)) },
      logged statement start,
    ))
    × IsSorted any_order ts
    × Perm ts (rows_of "web" start.db.templates)
list_templates-catalogue_example =
    list_templates-catalogue calm no_json any_order start "web" any_order-Collation refl

abbrev smtp : Mailer
smtp = record { host = "mx"; port = "465"; user = "u"; password = "p"; sender = "a@b" }

abbrev without_port : String → String
without_port a = "mx"

send-unacknowledged_example :
    (send calm without_port smtp "c@d" "hi" [] start).0
    ≡ sent_unless (
        first_refused calm []
          (exchange without_port smtp "mx:465" "c@d" (build_message "a@b" "c@d" "hi" [])))
send-unacknowledged_example =
    send-unacknowledged calm without_port smtp "c@d" "hi" [] start refl refl

abbrev ci : ApiKeyRow
ci = record {
  id = 1;
  user_id = 1;
  name = "ci";
  key_hash = "h";
  key_prefix = [];
  last_used_at = none;
  created_at = 5;
}

abbrev no_scan : ℕ → Option String
no_scan t = none

scan_keys-one_example : scan_keys calm no_scan (ci ∷ ci ∷ []) ≡ unscanned calm no_scan ci ∷ []
scan_keys-one_example = scan_keys-one calm no_scan ci (ci ∷ []) (λ t. refl)
